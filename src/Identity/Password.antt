-- ===== src/Identity/Password.antt =====
-- `_validate_password` of app/user_identity.py, over ASCII.
use sara_omega.Prelude.{
  ℕ, ◌+◌, String, Bool, true, false, not, ◌&&◌, ◌||◌, ltb, leb, str_eq, if◌then◌else◌,
}
use sara_omega.Prelude.Text.{any_char, len}
use sara_omega.Prelude.Attempt.{Attempt, returned, raised}

abbrev pub is_lower_case : ℕ → Bool
is_lower_case c = leb b'a' c && leb c b'z'

abbrev pub is_upper_case : ℕ → Bool
is_upper_case c = leb b'A' c && leb c b'Z'

abbrev pub is_digit : ℕ → Bool
is_digit c = leb b'0' c && leb c b'9'

abbrev pub is_symbol : ℕ → Bool
is_symbol c = not (is_lower_case c || is_upper_case c || is_digit c)

abbrev pub as_number : Bool → ℕ
as_number true = 1
as_number false = 0

-- `sum(classes)`
unfoldable pub class_count : String → ℕ
unfolding any_char
class_count password =
    as_number (any_char is_lower_case password)
    + as_number (any_char is_upper_case password)
    + as_number (any_char is_digit password)
    + as_number (any_char is_symbol password)

unfoldable pub validate_password : String → String → Attempt (Unit {0})
unfolding class_count len
validate_password password password_confirm =
    if not (str_eq password password_confirm)
    then raised "PasswordPolicyRejected"
    else if ltb (len password) 12 || ltb 128 (len password)
    then raised "PasswordPolicyRejected"
    else if ltb (class_count password) 3
    then raised "PasswordPolicyRejected"
    else returned tt

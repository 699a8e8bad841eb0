-- ===== src/Prelude/Text.antt =====
-- Python's `str` methods on ASCII texts, over the code points: `lower`, `replace` of one
-- character, `split()` and `" ".join`, `in`, `strip`; and `sorted(set(...))` of texts.
use Prim.Native.Nat.{ℕ, suc, ◌+◌, ◌-◌}
use Prim.Native.Char.{Char, code}
use Prim.Native.String.{String, compare}
use mathlib.Core.Path.{◌≡◌, refl}
use mathlib.Core.Bool.{Bool, true, false, ◌&&◌, ◌||◌}
use mathlib.Core.List.{List, [], ◌∷◌, ◌++◌}
use native.Mathlib.Omega.{arith}
use text.Mathlib.Text.{◌==◌ as str_eq, is_lt}
use sara_omega.Prelude.Tests.{leb, ◌==◌, if◌then◌else◌}
use sara_omega.Prelude.Lists.{is_empty}

abbrev pub codes : String → List ℕ
codes String.[] = []
codes (String.◌∷◌ c s) = code c ∷ codes s

-- One character of `str.lower()`.
unfoldable pub to_lower : ℕ → ℕ
to_lower c = if leb b'A' c && leb c b'Z' then c + 32 else c

-- The ASCII characters at which `str.split()` and `str.strip()` cut.
unfoldable pub is_space : ℕ → Bool
is_space c = c == 32 || (leb 9 c && leb c 13) || (leb 28 c && leb c 31)

unfoldable pub codes_eq : List ℕ → List ℕ → Bool
codes_eq [] [] = true
codes_eq [] (y ∷ ys) = false
codes_eq (x ∷ xs) [] = false
codes_eq (x ∷ xs) (y ∷ ys) = x == y && codes_eq xs ys

unfoldable pub starts_with : List ℕ → List ℕ → Bool
starts_with [] ys = true
starts_with (x ∷ xs) [] = false
starts_with (x ∷ xs) (y ∷ ys) = x == y && starts_with xs ys

-- `needle in text`
unfoldable pub occurs : List ℕ → List ℕ → Bool
unfolding starts_with
occurs needle [] = starts_with needle []
occurs needle (c ∷ text) = starts_with needle (c ∷ text) || occurs needle text

-- `text.split()`, with the word that has been begun.
unfoldable pub split_words : List ℕ → List ℕ → List (List ℕ)
unfolding is_space
split_words word [] = if is_empty word then [] else word ∷ []
split_words word (c ∷ cs) =
    let cut = split_words [] cs in
    let longer = split_words (word ++ c ∷ []) cs in
    if is_space c then (if is_empty word then cut else word ∷ cut) else longer

-- `" ".join(words)`
unfoldable pub join_words : List (List ℕ) → List ℕ
join_words [] = []
join_words (w ∷ []) = w
join_words (w ∷ v ∷ ws) = w ++ 32 ∷ join_words (v ∷ ws)

-- `text.strip()`
unfoldable pub rstrip : String → String
unfolding is_space
rstrip String.[] = ""
rstrip (String.◌∷◌ c s) =
    let r = rstrip s in if str_eq r "" && is_space (code c) then "" else String.◌∷◌ c r

unfoldable pub strip : String → String
unfolding rstrip is_space
strip String.[] = ""
strip (String.◌∷◌ c s) =
    let cut = strip s in if is_space (code c) then cut else rstrip (String.◌∷◌ c s)

-- A word before those after it, unless it is empty.
abbrev pub push_word : String → List String → List String
push_word String.[] ws = ws
push_word (String.◌∷◌ c s) ws = String.◌∷◌ c s ∷ ws

-- The word that a text begins with, and those after it.
unfoldable pub split_from : String → String × List String
unfolding is_space
split_from String.[] = ("", [])
split_from (String.◌∷◌ c s) =
    let r = split_from s in
    if is_space (code c) then ("", push_word r.0 r.1) else (String.◌∷◌ c r.0, r.1)

-- `text.split()`
unfoldable pub split_text : String → List String
unfolding split_from
split_text s = push_word (split_from s).0 (split_from s).1

-- `text.split(",")`
unfoldable pub commas_from : String → String × List String
commas_from String.[] = ("", [])
commas_from (String.◌∷◌ c s) =
    let r = commas_from s in if code c == b',' then ("", r.0 ∷ r.1) else (String.◌∷◌ c r.0, r.1)

unfoldable pub split_commas : String → List String
unfolding commas_from
split_commas s = (commas_from s).0 ∷ (commas_from s).1

unfoldable pub append : String → String → String
append String.[] t = t
append (String.◌∷◌ c s) t = String.◌∷◌ c (append s t)

-- `separator.join(texts)`
unfoldable pub join : String → List String → String
unfolding append
join separator [] = ""
join separator (s ∷ []) = s
join separator (s ∷ t ∷ ts) = append s (append separator (join separator (t ∷ ts)))

-- `any(p(c) for c in text)` and `len(text)`
unfoldable pub any_char : (ℕ → Bool) → String → Bool
any_char p String.[] = false
any_char p (String.◌∷◌ c s) = p (code c) || any_char p s

unfoldable pub len : String → ℕ
len String.[] = 0
len (String.◌∷◌ c s) = suc (len s)

-- `text.rstrip("/")`
unfoldable pub rstrip_slashes : String → String
rstrip_slashes String.[] = ""
rstrip_slashes (String.◌∷◌ c s) =
    let r = rstrip_slashes s in if str_eq r "" && code c == b'/' then "" else String.◌∷◌ c r

-- `text or default`
abbrev pub or_else : String → String → String
or_else s d = if str_eq s "" then d else s

-- `sorted(set(xs))`
unfoldable pub insert_sorted : String → List String → List String
insert_sorted x [] = x ∷ []
insert_sorted x (y ∷ ys) =
    let later = insert_sorted x ys in
    if str_eq x y then y ∷ ys else if is_lt (compare x y) then x ∷ y ∷ ys else y ∷ later

unfoldable pub sorted_set : List String → List String
unfolding insert_sorted
sorted_set [] = []
sorted_set (x ∷ xs) = insert_sorted x (sorted_set xs)

is_empty-insert_sorted : (x : String) (xs : List String) → is_empty (insert_sorted x xs) ≡ false
unfolding insert_sorted
is_empty-insert_sorted x [] = refl
is_empty-insert_sorted x (y ∷ ys) = ground arith

pub is_empty-sorted_set : (xs : List String) → is_empty (sorted_set xs) ≡ is_empty xs
unfolding sorted_set
is_empty-sorted_set [] = refl
is_empty-sorted_set (x ∷ xs) = is_empty-insert_sorted x (sorted_set xs)

-- The character of the second text that stands where the first one has `c`.
unfoldable pub translate : String → String → Char → Char
translate String.[] t c = c
translate (String.◌∷◌ x s) String.[] c = c
translate (String.◌∷◌ x s) (String.◌∷◌ y t) c =
    let rest = translate s t c in if code x == code c then y else rest

-- `text.lower()` and `text.upper()`
unfoldable pub lower : String → String
unfolding translate
lower String.[] = ""
lower (String.◌∷◌ c s) =
    String.◌∷◌ (translate "ABCDEFGHIJKLMNOPQRSTUVWXYZ" "abcdefghijklmnopqrstuvwxyz" c) (lower s)

unfoldable pub upper : String → String
unfolding translate
upper String.[] = ""
upper (String.◌∷◌ c s) =
    String.◌∷◌ (translate "abcdefghijklmnopqrstuvwxyz" "ABCDEFGHIJKLMNOPQRSTUVWXYZ" c) (upper s)

-- `text.replace("_", "-")`
unfoldable pub dashed : String → String
unfolding translate
dashed String.[] = ""
dashed (String.◌∷◌ c s) = String.◌∷◌ (translate "_" "-" c) (dashed s)

-- A text of `n` lower-case hexadecimal digits: `[0-9a-f]{n}`
unfoldable pub is_hex : ℕ → String → Bool
is_hex n String.[] = n == 0
is_hex n (String.◌∷◌ c s) =
    let rest = is_hex (n - 1) s in
    leb 1 n
    && ((leb b'0' (code c) && leb (code c) b'9') || (leb b'a' (code c) && leb (code c) b'f'))
    && rest

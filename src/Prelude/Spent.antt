-- ===== src/Prelude/Spent.antt =====
-- A table whose rows are spent once: a row has a key and a time at which it was used, and an update
-- sets that time.
use Prim.Native.Nat.{ℕ}
use Prim.Native.String.{String}
use mathlib.Core.Path.{◌≡◌}
use mathlib.Core.Logic.{inl, inr}
use mathlib.Core.Bool.{Bool, true, false, not}
use mathlib.Core.Option.{Option, none, some}
use mathlib.Core.List.{List, [], ◌∷◌, ◌++◌}
use native.Mathlib.Omega.{arith}
use text.Mathlib.Text.{◌==◌ as str_eq}
use text.Mathlib.TextEquality.{eq_iff}
use sara_omega.Prelude.Tests.{if◌then◌else◌, Bool-cases}
use sara_omega.Prelude.Lists.{find, update_where}

-- `row["used_at"] is None`
abbrev pub is_open : Option ℕ → Bool
is_open none = true
is_open (some t) = false

module _ {A : Type 0} (key : A → String) (used : A → Option ℕ) where
  abbrev pub has_key : String → A → Bool
  has_key k x = str_eq (key x) k

  abbrev pub is_open_row : String → A → Bool
  is_open_row k x = if str_eq (key x) k then is_open (used x) else false

  -- The row of that key is there and used.
  abbrev pub is_spent : String → List A → Bool
  is_spent k xs = elim (find (has_key k) xs) [ none ↦ false | some x ↦ not (is_open (used x)) ]

  pub find-has_key : (k : String) (xs : List A) (x : A) → find (has_key k) xs ≡ some x → key x ≡ k
  find-has_key k [] x h = cc
  find-has_key k (y ∷ ys) x h = elim (Bool-cases (str_eq (key y) k)) [
    | inl e ↦ let q : y ≡ x = ground arith in ground (arith, eq_iff (key y) k)
    | inr e ↦ find-has_key k ys x (ground arith)
  ]

  -- A row that is found open is not spent.
  pub found-open :
      (k : String) (xs : List A) (x : A)
      → find (has_key k) xs ≡ some x
      → is_open (used x) ≡ true
      → is_spent k xs ≡ false
  found-open k xs x h o = ground arith

  pub is_spent-append :
      (k : String) (xs ys : List A) → is_spent k xs ≡ true → is_spent k (xs ++ ys) ≡ true
  is_spent-append k [] ys h = cc
  is_spent-append k (x ∷ xs) ys h = ground (arith, is_spent-append k xs ys)

  module _ (spend : A → A) (spend-key : (x : A) → key (spend x) ≡ key x)
      (spend-used : (x : A) → is_open (used (spend x)) ≡ false) where
    pub is_spent-update :
        (p : A → Bool) (k : String) (xs : List A)
        → is_spent k xs ≡ true
        → is_spent k (update_where p spend xs) ≡ true
    is_spent-update p k [] h = cc
    is_spent-update p k (x ∷ xs) h =
        ground (arith, spend-key x, spend-used x, is_spent-update p k xs)

    pub update-is_spent :
        (k : String) (xs : List A) (x : A)
        → find (has_key k) xs ≡ some x
        → is_spent k (update_where (is_open_row k) spend xs) ≡ true
    update-is_spent k [] x h = cc
    update-is_spent k (y ∷ ys) x h =
        ground (arith, spend-key y, spend-used y, update-is_spent k ys x)

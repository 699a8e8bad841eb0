-- ===== src/Prelude/Lists.antt =====
-- Python's list built-ins over the native numbers: `len`, `any`, `all`, a comprehension with a
-- test, and membership in a list of texts.
use Prim.Native.Nat.{ℕ, suc, ◌+◌, ◌≤◌}
use Prim.Native.String.{String}
use mathlib.Core.Path.{◌≡◌, refl, sym, ap, subst}
use mathlib.Core.Logic.{◌↔◌, ◌⊎◌, inl, inr}
use mathlib.Core.Bool.{Bool, true, false, not, ◌&&◌, ◌||◌}
use mathlib.Core.Option.{Option, none, some}
use mathlib.Core.List.{List, [], ◌∷◌, ◌++◌}
use native.Mathlib.Omega.{arith}
use text.Mathlib.Text.{◌==◌ as str_eq}
use sara_omega.Prelude.Tests.{if◌then◌else◌, Bool-cases}

module _ {ℓ} {A : Type ℓ} where
  abbrev pub length : List A → ℕ
  length [] = 0
  length (x ∷ xs) = suc (length xs)

  abbrev pub is_empty : List A → Bool
  is_empty [] = true
  is_empty (x ∷ xs) = false

  -- `any(p(x) for x in xs)`
  abbrev pub any : (A → Bool) → List A → Bool
  any p [] = false
  any p (x ∷ xs) = p x || any p xs

  -- `all(p(x) for x in xs)`
  abbrev pub all : (A → Bool) → List A → Bool
  all p [] = true
  all p (x ∷ xs) = p x && all p xs

  -- The first element that passes a test.
  abbrev pub find : (A → Bool) → List A → Option A
  find p [] = none
  find p (x ∷ xs) = if p x then some x else find p xs

  -- Every element that passes a test is changed.
  abbrev pub update_where : (A → Bool) → (A → A) → List A → List A
  update_where p f [] = []
  update_where p f (x ∷ xs) = (if p x then f x else x) ∷ update_where p f xs

  -- `[x for x in xs if p(x)]`
  abbrev pub select : (A → Bool) → List A → List A
  select p [] = []
  select p (x ∷ xs) = let rest = select p xs in if p x then x ∷ rest else rest

  pub length-append : (xs ys : List A) → length (xs ++ ys) ≡ length xs + length ys
  length-append [] ys = omega arith
  length-append (x ∷ xs) ys = omega (arith, length-append xs ys)

  pub length-select : (p : A → Bool) (xs : List A) → length (select p xs) ≤ length xs
  length-select p [] = omega arith
  length-select p (x ∷ xs) = ground (arith, length-select p xs)

-- `x in xs`, for texts
abbrev pub member : String → List String → Bool
member x [] = false
member x (y ∷ ys) = str_eq x y || member x ys

-- A predicate that holds of every element, and one that holds of some element.
abbrev pub Every {ℓ κ} : {A : Type ℓ} → (A → Type κ) → List A → Type κ
Every P [] = Unit
Every P (x ∷ xs) = P x × Every P xs

module _ {ℓ} {A : Type ℓ} (p : A → Bool) where
  pub all_iff : (xs : List A) → (all p xs ≡ true) ↔ Every (λ x. p x ≡ true) xs
  all_iff [] = (λ _. tt, λ _. refl)
  all_iff (x ∷ xs) =
      (λ h. (ground arith, (all_iff xs).0 (ground arith)), λ h. ground (arith, (all_iff xs).1 h.1))

  pub any-eq_false : (xs : List A) → any p xs ≡ false → Every (λ x. p x ≡ false) xs
  any-eq_false [] h = tt
  any-eq_false (x ∷ xs) h = (ground arith, any-eq_false xs (ground arith))

module _ {ℓ} {A : Type ℓ} (p : A → Bool) where
  pub is_empty-select : (xs : List A) → is_empty (select p xs) ≡ not (any p xs)
  is_empty-select [] = refl
  is_empty-select (x ∷ xs) = ground (arith, is_empty-select xs)

-- An element that passes a test, and where it stands.
abbrev pub Some {ℓ} : {A : Type ℓ} → (A → Bool) → List A → Type 0
Some p [] = ⊥
Some p (x ∷ xs) = (p x ≡ true) ⊎ Some p xs

module _ {ℓ} {A : Type ℓ} (p : A → Bool) where
  pub any_iff : (xs : List A) → (any p xs ≡ true) ↔ Some p xs
  any_iff [] = (λ h. cc, λ h. absurd h)
  any_iff (x ∷ xs) = (
    λ h. elim (Bool-cases (p x)) [ inl e ↦ inl e | inr e ↦ inr ((any_iff xs).0 (ground arith)) ],
    λ h. elim h [ inl e ↦ rw e | inr s ↦ ground (arith, (any_iff xs).1 s) ],
  )

-- What `any` and `Every` say of longer lists and of changed ones.
module _ {ℓ} {A : Type ℓ} where
  pub any-append : (p : A → Bool) (xs ys : List A) → any p xs ≡ true → any p (xs ++ ys) ≡ true
  any-append p [] ys h = cc
  any-append p (x ∷ xs) ys h = ground (arith, any-append p xs ys)

  pub any-update_where :
      (p q : A → Bool) (f : A → A) (xs : List A)
      → ((x : A) → p x ≡ true → p (f x) ≡ true)
      → any p xs ≡ true
      → any p (update_where q f xs) ≡ true
  any-update_where p q f [] keep h = cc
  any-update_where p q f (x ∷ xs) keep h = ground (arith, keep x, any-update_where p q f xs keep)

  -- The row that an update finds and changes
  pub any-update_where_found :
      (p q r : A → Bool) (f : A → A) (xs : List A) (x : A)
      → find r xs ≡ some x
      → q x ≡ true
      → p (f x) ≡ true
      → any p (update_where q f xs) ≡ true
  any-update_where_found p q r f [] x found hq hp = cc
  any-update_where_found p q r f (y ∷ ys) x found hq hp = elim (Bool-cases (r y)) [
    | inl e ↦ let same : y ≡ x = ground arith in ground arith
    | inr e ↦ ground (arith, any-update_where_found p q r f ys x)
  ]

module _ {ℓ κ} {A : Type ℓ} where
  pub Every-map_mono :
      (P Q : A → Type κ) (xs : List A) → ((x : A) → P x → Q x) → Every P xs → Every Q xs
  Every-map_mono P Q [] keep h = tt
  Every-map_mono P Q (x ∷ xs) keep h = (keep x h.0, Every-map_mono P Q xs keep h.1)

  pub Every-append :
      (P : A → Type κ) (xs ys : List A) → Every P xs → Every P ys → Every P (xs ++ ys)
  Every-append P [] ys hx hy = hy
  Every-append P (x ∷ xs) ys hx hy = (hx.0, Every-append P xs ys hx.1 hy)

  pub Every-update_where :
      (P : A → Type κ) (q : A → Bool) (f : A → A) (xs : List A)
      → ((x : A) → P x → P (f x))
      → Every P xs
      → Every P (update_where q f xs)
  Every-update_where P q f [] keep h = tt
  Every-update_where P q f (x ∷ xs) keep h = (
    elim (Bool-cases (q x)) [ inl e ↦ rw e (keep x h.0) | inr e ↦ rw e h.0 ],
    Every-update_where P q f xs keep h.1,
  )

-- An element of a list.
abbrev pub Among : {A : Type 0} → A → List A → Type 0
Among x [] = ⊥
Among x (y ∷ ys) = (x ≡ y) ⊎ Among x ys

module _ {A : Type 0} where
  pub Among-append : (x : A) (xs ys : List A) → Among x xs → Among x (xs ++ ys)
  Among-append x [] ys h = absurd h
  Among-append x (y ∷ xs) ys (inl e) = inl e
  Among-append x (y ∷ xs) ys (inr h) = inr (Among-append x xs ys h)

  pub Among-update_where :
      (q : A → Bool) (f : A → A) (x : A) (xs : List A)
      → Among x xs
      → Among (if q x then f x else x) (update_where q f xs)
  Among-update_where q f x [] h = absurd h
  Among-update_where q f x (y ∷ ys) (inl e) = inl (ap (λ z. if q z then f z else z) e)
  Among-update_where q f x (y ∷ ys) (inr h) = inr (Among-update_where q f x ys h)

  pub find-Among : (p : A → Bool) (x : A) (xs : List A) → find p xs ≡ some x → Among x xs
  find-Among p x [] h = cc
  find-Among p x (y ∷ ys) h = elim (Bool-cases (p y)) [
    | inl e ↦ inl (ground arith)
    | inr e ↦ inr (find-Among p x ys (ground arith))
  ]

module _ {κ} {A : Type 0} where
  pub Every-Among : (P : A → Type κ) (x : A) (xs : List A) → Every P xs → Among x xs → P x
  Every-Among P x [] h m = absurd m
  Every-Among P x (y ∷ ys) h (inl e) = subst P (sym e) h.0
  Every-Among P x (y ∷ ys) h (inr m) = Every-Among P x ys h.1 m

  pub Every-update_where_map :
      (P Q : A → Type κ) (q : A → Bool) (f : A → A) (xs : List A)
      → ((x : A) → P x → Q (if q x then f x else x))
      → Every P xs
      → Every Q (update_where q f xs)
  Every-update_where_map P Q q f [] keep h = tt
  Every-update_where_map P Q q f (x ∷ xs) keep h =
      (keep x h.0, Every-update_where_map P Q q f xs keep h.1)

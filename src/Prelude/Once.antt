-- ===== src/Prelude/Once.antt =====
-- What is done at most once per key: a state has a history of keys, and a test that says of a key
-- whether it is used up.
use Prim.Native.String.{String}
use mathlib.Core.Path.{◌≡◌, refl}
use mathlib.Core.Logic.{◌⊎◌, inl, inr}
use mathlib.Core.Bool.{Bool, true, false}
use mathlib.Core.List.{List, [], ◌∷◌}
use native.Mathlib.Omega.{arith}
use text.Mathlib.TextEquality.{eq_iff}
use sara_omega.Prelude.Lists.{member, Every}

-- No key stands twice in the list.
abbrev pub IsDistinct : List String → Type 0
IsDistinct [] = Unit
IsDistinct (k ∷ ks) = (member k ks ≡ false) × IsDistinct ks

module _ {S : Type 0} (is_used : String → S → Bool) (history : S → List String) where
  -- The keys of the history are used up, and distinct.
  pub record IsOnce (s : S) : Type 0 where
    pub used : Every (λ k. is_used k s ≡ true) (history s)
    pub distinct : IsDistinct (history s)

  -- A step that keeps the used keys used, and adds at most its key to the history: one that was
  -- not used, and is from then on.
  pub record Moved (key : String) (s s' : S) : Type 0 where
    pub keeps : (k : String) → is_used k s ≡ true → is_used k s' ≡ true
    pub adds :
        (history s' ≡ history s)
        ⊎ ((is_used key s ≡ false) × (history s' ≡ key ∷ history s) × (is_used key s' ≡ true))

  member-used :
      (s : S) (key : String) (ks : List String)
      → Every (λ k. is_used k s ≡ true) ks
      → is_used key s ≡ false
      → member key ks ≡ false
  member-used s key [] h n = refl
  member-used s key (k ∷ ks) h n = ground (arith, eq_iff key k, member-used s key ks h.1 n)

  Every-used :
      (s s' : S) (ks : List String)
      → ((k : String) → is_used k s ≡ true → is_used k s' ≡ true)
      → Every (λ k. is_used k s ≡ true) ks
      → Every (λ k. is_used k s' ≡ true) ks
  Every-used s s' [] keep h = tt
  Every-used s s' (k ∷ ks) keep h = (keep k h.0, Every-used s s' ks keep h.1)

  pub Moved-IsOnce : (key : String) (s s' : S) → Moved key s s' → IsOnce s → IsOnce s'
  Moved-IsOnce key s s' m h =
      let later = Every-used s s' (history s) m.keeps h.used in
      elim m.adds [
        | inl e ↦ record { used = rw e later; distinct = rw e h.distinct }
        | inr t ↦ record {
          used = rw t.1 (t.2, later);
          distinct = rw t.1 (member-used s key (history s) h.used t.0, h.distinct);
        }
      ]

  pub Moved-if :
      (key : String) (s : S) (b : Bool) (x y : S)
      → Moved key s x
      → Moved key s y
      → Moved key s (elim b [ true ↦ x | false ↦ y ])
  Moved-if key s true x y p q = p
  Moved-if key s false x y p q = q

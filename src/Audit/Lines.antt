-- ===== src/Audit/Lines.antt =====
-- The lines of the file of sara_unified/evidence/audit.py, and those of a text that is added to it.
use sara_omega.Prelude.{
  ℕ, ◌≡◌, refl, ap, ◌∙◌, inl, inr, true, false, List, [], ◌∷◌, ◌++◌, map, is_empty, Every,
  Bool-cases,
}
use mathlib.Core.List.{map-append}
use sara_omega.Prelude.Attempt.{Attempt, returned, raised, ◌>>=◌}
use sara_omega.Audit.{
  Line, blank, malformed, scalar, event, Entry, no_object, object, is_break, before_lines,
  splitlines, load_lines, read_line, records, Json,
}

-- Empty, or with a line boundary at its end.
abbrev pub IsTerminated : List ℕ → Type 0
IsTerminated [] = Unit
IsTerminated (c ∷ []) = is_break c ≡ true
IsTerminated (c ∷ d ∷ cs) = IsTerminated (d ∷ cs)

abbrev pub NoBreak : List ℕ → Type 0
NoBreak = Every (λ c. is_break c ≡ false)

before_lines-append :
    (c : ℕ) (xs ys : List (List ℕ))
    → is_empty xs ≡ false
    → before_lines c (xs ++ ys) ≡ before_lines c xs ++ ys
before_lines-append c [] ys h = cc
before_lines-append c (x ∷ xs) ys h = refl

before_lines-is_empty : (c : ℕ) (xs : List (List ℕ)) → is_empty (before_lines c xs) ≡ false
before_lines-is_empty c [] = refl
before_lines-is_empty c (x ∷ xs) = refl

splitlines-is_empty : (c : ℕ) (cs : List ℕ) → is_empty (splitlines (c ∷ cs)) ≡ false
unfolding splitlines
splitlines-is_empty c cs = elim (Bool-cases (is_break c)) [
  | inl e ↦ rw e refl
  | inr e ↦ rw e (before_lines-is_empty c (splitlines cs))
]

-- A text after a terminated one has its own lines.
pub splitlines-append :
    (t u : List ℕ) → IsTerminated t → splitlines (t ++ u) ≡ splitlines t ++ splitlines u
unfolding splitlines
splitlines-append [] u h = refl
splitlines-append (c ∷ []) u h = rw h refl
splitlines-append (c ∷ d ∷ cs) u h =
    let later = splitlines-append (d ∷ cs) u h in
    let kept =
      before_lines-append c (splitlines (d ∷ cs)) (splitlines u) (splitlines-is_empty d cs) in
    elim (Bool-cases (is_break c)) [
      | inl e ↦ rw e (ap (λ (l : List (List ℕ)). [] ∷ l) later)
      | inr e ↦ rw e (ap (before_lines c) later ∙ kept)
    ]

-- The first line of a text that begins without a boundary.
pub splitlines-line :
    (a : List ℕ) (c : ℕ) (b : List ℕ)
    → NoBreak a
    → is_break c ≡ true
    → splitlines (a ++ c ∷ b) ≡ a ∷ splitlines b
unfolding splitlines
splitlines-line [] c b h e = rw e refl
splitlines-line (x ∷ a) c b h e = rw h.0 (ap (before_lines x) (splitlines-line a c b h.1 e))

pub append-IsTerminated :
    (t u : List ℕ) (c : ℕ) → is_break c ≡ true → IsTerminated (t ++ (u ++ c ∷ []))
append-IsTerminated [] [] c e = e
append-IsTerminated [] (x ∷ []) c e = e
append-IsTerminated [] (x ∷ y ∷ u) c e = append-IsTerminated [] (y ∷ u) c e
append-IsTerminated (x ∷ []) [] c e = e
append-IsTerminated (x ∷ []) (y ∷ u) c e = append-IsTerminated [] (y ∷ u) c e
append-IsTerminated (x ∷ y ∷ t) u c e = append-IsTerminated (y ∷ t) u c e

bind_returned : {A : Type 0} (m : Attempt A) → m ≡ (m >>= λ a. returned a)
bind_returned (returned a) = refl
bind_returned (raised e) = refl

module _ {D : Type 0} where
  push_bind :
      (a b : Attempt (List (Entry D))) (e : Entry D)
      → ((a >>= λ es. b >>= λ fs. returned (es ++ fs)) >>= λ rest. returned (e ∷ rest))
        ≡ ((a >>= λ rest. returned (e ∷ rest)) >>= λ es. b >>= λ fs. returned (es ++ fs))
  push_bind (returned es) (returned fs) e = refl
  push_bind (returned es) (raised x) e = refl
  push_bind (raised x) b e = refl

  pub load_lines-append :
      (xs ys : List (Line D))
      → load_lines (xs ++ ys)
        ≡ (load_lines xs >>= λ es. load_lines ys >>= λ fs. returned (es ++ fs))
  unfolding load_lines
  load_lines-append [] ys = bind_returned (load_lines ys)
  load_lines-append (blank ∷ ls) ys = load_lines-append ls ys
  load_lines-append (malformed ∷ ls) ys = refl
  load_lines-append (scalar ∷ ls) ys =
      ap (λ m. m >>= λ rest. returned (no_object ∷ rest)) (load_lines-append ls ys)
      ∙ push_bind (load_lines ls) (load_lines ys) no_object
  load_lines-append (event f ∷ ls) ys =
      ap (λ m. m >>= λ rest. returned (object f ∷ rest)) (load_lines-append ls ys)
      ∙ push_bind (load_lines ls) (load_lines ys) (object f)

  module _ (json : Json D) where
    -- What is read of a text that is added to a terminated one.
    pub records-append :
        (t u : List ℕ)
        → IsTerminated t
        → records json (t ++ u)
          ≡ (records json t >>= λ es. records json u >>= λ fs. returned (es ++ fs))
    unfolding records
    records-append t u h =
        ap (λ ls. load_lines (map (read_line json) ls)) (splitlines-append t u h)
        ∙ ap load_lines (map-append (read_line json) (splitlines t) (splitlines u))
        ∙ load_lines-append (map (read_line json) (splitlines t))
            (map (read_line json) (splitlines u))

    -- What is read of a text that begins with a line.
    pub records-line :
        (a : List ℕ) (c : ℕ) (b : List ℕ)
        → NoBreak a
        → is_break c ≡ true
        → records json (a ++ c ∷ b)
          ≡ load_lines (read_line json a ∷ map (read_line json) (splitlines b))
    unfolding records
    records-line a c b h e =
        ap (λ ls. load_lines (map (read_line json) ls)) (splitlines-line a c b h e)

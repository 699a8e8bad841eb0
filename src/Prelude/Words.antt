-- ===== src/Prelude/Words.antt =====
-- Texts that are words with a space between them: what `split` and `join` make of them.
use Prim.Native.Char.{Char, code}
use Prim.Native.String.{String}
use mathlib.Core.Path.{◌≡◌, refl, sym, ap, ◌∙◌}
use mathlib.Core.Logic.{inl, inr}
use mathlib.Core.Bool.{false}
use mathlib.Core.List.{List, [], ◌∷◌, ◌++◌, map, append-nil}
use native.Mathlib.Omega.{arith}
use text.Mathlib.Text.{◌==◌ as str_eq}
use text.Mathlib.TextEquality.{eq_iff}
use sara_omega.Prelude.Tests.{Bool-cases}
use sara_omega.Prelude.Lists.{Every}
use sara_omega.Prelude.Text.{
  is_space, push_word, split_from, split_text, append, join, rstrip, strip,
}

abbrev pub NoSpace : String → Type 0
NoSpace String.[] = Unit
NoSpace (String.◌∷◌ c s) = (is_space (code c) ≡ false) × NoSpace s

-- A text that is not empty and has no space.
abbrev pub IsWord : String → Type 0
IsWord String.[] = ⊥
IsWord (String.◌∷◌ c s) = (is_space (code c) ≡ false) × NoSpace s

pub word-NoSpace : (w : String) → IsWord w → NoSpace w
word-NoSpace String.[] h = tt
word-NoSpace (String.◌∷◌ c s) h = h

push_word-IsWord :
    (w : String) (ws : List String) → NoSpace w → Every IsWord ws → Every IsWord (push_word w ws)
push_word-IsWord String.[] ws h hs = hs
push_word-IsWord (String.◌∷◌ c s) ws h hs = (h, hs)

split_from-IsWord : (s : String) → NoSpace (split_from s).0 × Every IsWord (split_from s).1
unfolding split_from
split_from-IsWord String.[] = (tt, tt)
split_from-IsWord (String.◌∷◌ c s) =
    let (first, later) = split_from-IsWord s in
    elim (Bool-cases (is_space (code c))) [
      | inl e ↦ rw e (tt, push_word-IsWord (split_from s).0 (split_from s).1 first later)
      | inr e ↦ rw e ((e, first), later)
    ]

-- The parts of a text are words.
pub split_text-IsWord : (s : String) → Every IsWord (split_text s)
unfolding split_text
split_text-IsWord s =
    let (first, later) = split_from-IsWord s in
    push_word-IsWord (split_from s).0 (split_from s).1 first later

split_from-append :
    (w s : String)
    → NoSpace w
    → split_from (append w s) ≡ (append w (split_from s).0, (split_from s).1)
unfolding split_from append
split_from-append String.[] s h = refl
split_from-append (String.◌∷◌ c w) s h = rw (split_from-append w s h.1, h.0) refl

pub append-empty : (s : String) → append s "" ≡ s
unfolding append
append-empty String.[] = refl
append-empty (String.◌∷◌ c s) = ap (String.◌∷◌ c) (append-empty s)

pub append_assoc : (s t u : String) → append (append s t) u ≡ append s (append t u)
unfolding append
append_assoc String.[] t u = refl
append_assoc (String.◌∷◌ c s) t u = ap (String.◌∷◌ c) (append_assoc s t u)

-- `" ".join(words)`
abbrev pub join_spaced : List String → String
join_spaced ws = join " " ws

push_word-cons : (w : String) (ws : List String) → IsWord w → push_word w ws ≡ w ∷ ws
push_word-cons String.[] ws h = absurd h
push_word-cons (String.◌∷◌ c s) ws h = refl

split_from-join :
    (w : String) (ws : List String)
    → Every IsWord (w ∷ ws)
    → split_from (join_spaced (w ∷ ws)) ≡ (w, ws)
unfolding join split_from append
split_from-join w [] h =
    ap split_from (sym (append-empty w))
    ∙ split_from-append w "" (word-NoSpace w h.0)
    ∙ ap (λ (t : String). (t, [])) (append-empty w)
split_from-join w (v ∷ ws) h =
    split_from-append w (append " " (join_spaced (v ∷ ws))) (word-NoSpace w h.0)
    ∙ ap (λ (r : String × List String). (append w "", push_word r.0 r.1)) (split_from-join v ws h.1)
    ∙ rw (append-empty w, push_word-cons v ws h.1.0)

-- Words that are joined are split again.
pub split_text-join : (ws : List String) → Every IsWord ws → split_text (join_spaced ws) ≡ ws
unfolding split_text split_from join
split_text-join [] h = refl
split_text-join (w ∷ ws) h =
    ap (λ (r : String × List String). push_word r.0 r.1) (split_from-join w ws h)
    ∙ push_word-cons w ws h.0

-- A text that is not empty.
abbrev pub IsGiven : String → Type 0
IsGiven String.[] = ⊥
IsGiven (String.◌∷◌ c s) = Unit

pub given_test : (s : String) → IsGiven s → str_eq s "" ≡ false
given_test String.[] h = absurd h
given_test (String.◌∷◌ c s) h = elim (Bool-cases (str_eq (String.◌∷◌ c s) "")) [
  | inl e ↦ let same = (eq_iff (String.◌∷◌ c s) "").0 e in cc
  | inr e ↦ e
]

append-IsGiven : (s t : String) → IsGiven t → IsGiven (append s t)
unfolding append
append-IsGiven String.[] t h = h
append-IsGiven (String.◌∷◌ c s) t h = tt

pub join-IsGiven :
    (w : String) (ws : List String) → Every IsWord (w ∷ ws) → IsGiven (join_spaced (w ∷ ws))
unfolding join append
join-IsGiven String.[] ws h = absurd h.0
join-IsGiven (String.◌∷◌ c w) [] h = tt
join-IsGiven (String.◌∷◌ c w) (v ∷ ws) h = tt

rstrip-word : (w : String) → NoSpace w → rstrip w ≡ w
unfolding rstrip
rstrip-word String.[] h = refl
rstrip-word (String.◌∷◌ c w) h = rw (rstrip-word w h.1) (ground (arith, h.0))

rstrip-append : (s t : String) → IsGiven t → rstrip t ≡ t → rstrip (append s t) ≡ append s t
unfolding rstrip append
rstrip-append String.[] t g h = h
rstrip-append (String.◌∷◌ c s) t g h =
    rw (rstrip-append s t g h, given_test (append s t) (append-IsGiven s t g)) refl

rstrip-join :
    (w : String) (ws : List String)
    → Every IsWord (w ∷ ws)
    → rstrip (join_spaced (w ∷ ws)) ≡ join_spaced (w ∷ ws)
unfolding join
rstrip-join w [] h = rstrip-word w (word-NoSpace w h.0)
rstrip-join w (v ∷ ws) h =
    let later = join_spaced (v ∷ ws) in
    let given = join-IsGiven v ws h.1 in
    rstrip-append w (append " " later) (append-IsGiven " " later given)
      (rstrip-append " " later given (rstrip-join v ws h.1))

strip-cons :
    (c : Char) (s : String)
    → is_space (code c) ≡ false
    → strip (String.◌∷◌ c s) ≡ rstrip (String.◌∷◌ c s)
unfolding strip
strip-cons c s h = rw h refl

-- Words that are joined have nothing to strip.
pub strip-join : (ws : List String) → Every IsWord ws → strip (join_spaced ws) ≡ join_spaced ws
unfolding strip join append
strip-join [] h = refl
strip-join (String.[] ∷ ws) h = absurd h.0
strip-join (String.◌∷◌ c w ∷ []) h = strip-cons c w h.0.0 ∙ rstrip-join (String.◌∷◌ c w) [] h
strip-join (String.◌∷◌ c w ∷ v ∷ ws) h =
    strip-cons c (append w (append " " (join_spaced (v ∷ ws)))) h.0.0
    ∙ rstrip-join (String.◌∷◌ c w) (v ∷ ws) h

-- The groups that have a word.
abbrev pub Grouped : List (List String) → Type 0
Grouped [] = Unit
Grouped ([] ∷ gs) = ⊥
Grouped ((w ∷ ws) ∷ gs) = Grouped gs

abbrev pub concat : List (List String) → List String
concat [] = []
concat (g ∷ gs) = g ++ concat gs

join-append :
    (w v : String) (ws vs : List String)
    → join_spaced ((w ∷ ws) ++ v ∷ vs)
      ≡ append (join_spaced (w ∷ ws)) (append " " (join_spaced (v ∷ vs)))
unfolding join append
join-append w v [] vs = refl
join-append w v (u ∷ ws) vs =
    ap (λ (t : String). append w (append " " t)) (join-append u v ws vs)
    ∙ sym (append_assoc w (append " " (join_spaced (u ∷ ws))) (append " " (join_spaced (v ∷ vs))))

-- Joining groups that are joined is joining their words.
pub join-groups :
    (gs : List (List String))
    → Grouped gs
    → join_spaced (map join_spaced gs) ≡ join_spaced (concat gs)
unfolding join
join-groups [] h = refl
join-groups ([] ∷ gs) h = absurd h
join-groups ((w ∷ ws) ∷ []) h = ap (λ (l : List String). join_spaced (w ∷ l)) (sym (append-nil ws))
join-groups ((w ∷ ws) ∷ [] ∷ gs) h = absurd h
join-groups ((w ∷ ws) ∷ (v ∷ vs) ∷ gs) h =
    ap (λ (t : String). append (join_spaced (w ∷ ws)) (append " " t))
      (join-groups ((v ∷ vs) ∷ gs) h)
    ∙ sym (join-append w v ws (vs ++ concat gs))

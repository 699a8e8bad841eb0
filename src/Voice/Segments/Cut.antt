-- ===== src/Voice/Segments/Cut.antt =====
-- What the cut at the ends of sentences makes of words: groups of them.
use Prim.Native.Char.{code}
use mathlib.Core.Path.{subst}
use sara_omega.Prelude.{
  String, ◌≡◌, refl, sym, ap, ◌∙◌, Bool, true, false, List, [], ◌∷◌, ◌++◌, map, select, Every,
  if◌then◌else◌,
}
use sara_omega.Prelude.Text.{append, join, strip}
use sara_omega.Prelude.Words.{
  NoSpace, IsWord, word-NoSpace, append-empty, join_spaced, strip-join, Grouped, concat, given_test,
  join-IsGiven,
}
use sara_omega.Voice.Segments.{
  Place, inside, ended, cut, is_end, after_char, boundary_from, boundary_split, is_given,
  raw_segments,
}

-- The place after the characters of a text.
place_after : Place → String → Place
unfolding is_end
place_after p String.[] = p
place_after p (String.◌∷◌ c s) = place_after (after_char (code c)) s

-- The words of the first group after its first word, and the later groups, with a word before them.
pub regroup : Place → String → List String × List (List String) → List String × List (List String)
regroup inside v r = (v ∷ r.0, r.1)
regroup ended v r = ([], (v ∷ r.0) ∷ r.1)
regroup cut v r = (v ∷ r.0, r.1)

pub groups_from : String → List String → List String × List (List String)
unfolding place_after regroup
groups_from w [] = ([], [])
groups_from w (v ∷ ws) = regroup (place_after inside w) v (groups_from v ws)

abbrev before : String → String × List String → String × List String
before w r = (append w r.0, r.1)

abbrev joined : String → List String × List (List String) → String × List String
joined w r = (join_spaced (w ∷ r.0), map join_spaced r.1)

boundary-empty : (p : Place) → boundary_from p "" ≡ ("", [])
unfolding boundary_from
boundary-empty inside = refl
boundary-empty ended = refl
boundary-empty cut = refl

boundary-append :
    (p : Place) (w s : String)
    → NoSpace w
    → boundary_from p (append w s) ≡ before w (boundary_from (place_after p w) s)
unfolding boundary_from append place_after
boundary-append p String.[] s h = refl
boundary-append inside (String.◌∷◌ c w) s h =
    rw (boundary-append (after_char (code c)) w s h.1) refl
boundary-append ended (String.◌∷◌ c w) s h =
    rw (h.0, boundary-append (after_char (code c)) w s h.1) refl
boundary-append cut (String.◌∷◌ c w) s h =
    rw (h.0, boundary-append (after_char (code c)) w s h.1) refl

cut_inside :
    (w s : String) → IsWord w → boundary_from cut (append w s) ≡ boundary_from inside (append w s)
unfolding boundary_from append
cut_inside String.[] s h = absurd h
cut_inside (String.◌∷◌ c w) s h = rw h.0 refl

cut-join :
    (w : String) (ws : List String)
    → Every IsWord (w ∷ ws)
    → boundary_from cut (join_spaced (w ∷ ws)) ≡ boundary_from inside (join_spaced (w ∷ ws))
unfolding join
cut-join w [] h =
    ap (boundary_from cut) (sym (append-empty w))
    ∙ cut_inside w "" h.0
    ∙ ap (boundary_from inside) (append-empty w)
cut-join w (v ∷ ws) h = cut_inside w (append " " (join_spaced (v ∷ ws))) h.0

-- No word ends in a place after spaces.
abbrev IsOpen : Place → Type 0
IsOpen inside = Unit
IsOpen ended = Unit
IsOpen cut = ⊥

after-IsOpen : (b : Bool) → IsOpen (if b then ended else inside)
after-IsOpen true = tt
after-IsOpen false = tt

place-IsOpen : (p : Place) (w : String) → IsOpen p → IsOpen (place_after p w)
unfolding place_after
place-IsOpen p String.[] h = h
place-IsOpen p (String.◌∷◌ c w) h =
    place-IsOpen (after_char (code c)) w (after-IsOpen (is_end (code c)))

boundary-regroup :
    (p : Place) (w v : String) (ws : List String) (r : List String × List (List String))
    → IsOpen p
    → Every IsWord (v ∷ ws)
    → boundary_from inside (join_spaced (v ∷ ws)) ≡ joined v r
    → before w (boundary_from p (append " " (join_spaced (v ∷ ws)))) ≡ joined w (regroup p v r)
unfolding boundary_from append regroup join
boundary-regroup inside w v ws r o h ih =
    ap (λ (t : String × List String). (append w (append " " t.0), t.1)) ih
boundary-regroup ended w v ws r o h ih =
    ap (λ (t : String × List String). (append w "", t.0 ∷ t.1)) (cut-join v ws h ∙ ih)
    ∙ ap (λ (t : String). (t, map join_spaced ((v ∷ r.0) ∷ r.1))) (append-empty w)
boundary-regroup cut w v ws r o h ih = absurd o

boundary-join :
    (w : String) (ws : List String)
    → Every IsWord (w ∷ ws)
    → boundary_from inside (join_spaced (w ∷ ws)) ≡ joined w (groups_from w ws)
unfolding join groups_from
boundary-join w [] h =
    ap (boundary_from inside) (sym (append-empty w))
    ∙ boundary-append inside w "" (word-NoSpace w h.0)
    ∙ ap (before w) (boundary-empty (place_after inside w))
    ∙ ap (λ (t : String). (t, [])) (append-empty w)
boundary-join w (v ∷ ws) h =
    boundary-append inside w (append " " (join_spaced (v ∷ ws))) (word-NoSpace w h.0)
    ∙ boundary-regroup (place_after inside w) w v ws (groups_from v ws) (place-IsOpen inside w tt)
        h.1 (boundary-join v ws h.1)

-- The groups of words.
pub sentences : String → List String → List (List String)
unfolding groups_from
sentences w ws = (w ∷ (groups_from w ws).0) ∷ (groups_from w ws).1

concat-regroup :
    (p : Place) (w v : String) (r : List String × List (List String))
    → concat ((w ∷ (regroup p v r).0) ∷ (regroup p v r).1) ≡ w ∷ concat ((v ∷ r.0) ∷ r.1)
unfolding regroup
concat-regroup inside w v r = refl
concat-regroup ended w v r = refl
concat-regroup cut w v r = refl

pub concat-sentences : (w : String) (ws : List String) → concat (sentences w ws) ≡ w ∷ ws
unfolding sentences groups_from
concat-sentences w [] = refl
concat-sentences w (v ∷ ws) =
    concat-regroup (place_after inside w) w v (groups_from v ws)
    ∙ ap (λ (l : List String). w ∷ l) (concat-sentences v ws)

Grouped-regroup :
    (p : Place) (w v : String) (r : List String × List (List String))
    → Grouped r.1
    → Grouped (regroup p v r).1
unfolding regroup
Grouped-regroup inside w v r h = h
Grouped-regroup ended w v r h = h
Grouped-regroup cut w v r h = h

pub sentences-Grouped : (w : String) (ws : List String) → Grouped (sentences w ws)
unfolding sentences groups_from
sentences-Grouped w [] = tt
sentences-Grouped w (v ∷ ws) =
    Grouped-regroup (place_after inside w) w v (groups_from v ws) (sentences-Grouped v ws)

Every-prefix : (xs ys : List String) → Every IsWord (xs ++ ys) → Every IsWord xs × Every IsWord ys
Every-prefix [] ys h = (tt, h)
Every-prefix (x ∷ xs) ys h = let (first, later) = Every-prefix xs ys h.1 in ((h.0, first), later)

pub Every-concat : (gs : List (List String)) → Every IsWord (concat gs) → Every (Every IsWord) gs
Every-concat [] h = tt
Every-concat (g ∷ gs) h =
    let (first, later) = Every-prefix g (concat gs) h in (first, Every-concat gs later)

given-join :
    (g : List String) (gs : List (List String))
    → Grouped (g ∷ gs)
    → Every IsWord g
    → is_given (join_spaced g) ≡ true
given-join [] gs h e = absurd h
given-join (w ∷ ws) gs h e = rw (given_test (join_spaced (w ∷ ws)) (join-IsGiven w ws e))

Grouped-tail : (g : List String) (gs : List (List String)) → Grouped (g ∷ gs) → Grouped gs
Grouped-tail [] gs h = absurd h
Grouped-tail (w ∷ ws) gs h = h

stripped_groups :
    (gs : List (List String))
    → Grouped gs
    → Every (Every IsWord) gs
    → select is_given (map strip (map join_spaced gs)) ≡ map join_spaced gs
stripped_groups [] h e = refl
stripped_groups (g ∷ gs) h e =
    rw (strip-join g e.0, given-join g gs h e.0)
      (ap (λ (l : List String). join_spaced g ∷ l) (stripped_groups gs (Grouped-tail g gs h) e.1))

-- The parts of words with a space between them are sentences of these words.
pub raw_segments-join :
    (w : String) (ws : List String)
    → Every IsWord (w ∷ ws)
    → raw_segments (join_spaced (w ∷ ws)) ≡ map join_spaced (sentences w ws)
unfolding raw_segments boundary_split sentences
raw_segments-join w ws h =
    let words =
      Every-concat (sentences w ws) (subst (Every IsWord) (sym (concat-sentences w ws)) h) in
    ap (λ (r : String × List String). select is_given (map strip (r.0 ∷ r.1)))
      (boundary-join w ws h)
    ∙ stripped_groups (sentences w ws) (sentences-Grouped w ws) words

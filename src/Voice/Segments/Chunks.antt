-- ===== src/Voice/Segments/Chunks.antt =====
-- What becomes of a part that is too long: groups of its words that are short enough, or one word.
use mathlib.Core.Path.{subst}
use mathlib.Core.List.{append_assoc, append-nil, map-append}
use sara_omega.Prelude.{
  leb→le, Every-append, ℕ, ◌+◌, ◌≤◌, String, ◌≡◌, refl, sym, ap, ◌∙◌, ◌⊎◌, inl, inr, Bool, true,
  false, not, ◌&&◌, List, [], ◌∷◌, ◌++◌, map, is_empty, Every, ltb, leb, if◌then◌else◌, arith,
}
use sara_omega.Prelude.Text.{append, join, len}
use sara_omega.Prelude.Words.{IsWord, join_spaced, Grouped, concat, split_text-join}
use sara_omega.Voice.Segments.{chunk_words, expand, expand_all}

-- The groups that `chunk_words` joins.
chunk_groups : ℕ → List String → List String → ℕ → List (List String)
unfolding len
chunk_groups max [] current n = if is_empty current then [] else current ∷ []
chunk_groups max (w ∷ ws) current n =
    let next = n + len w + (if is_empty current then 0 else 1) in
    let flushed = current ∷ chunk_groups max ws (w ∷ []) (len w) in
    let longer = chunk_groups max ws (current ++ w ∷ []) next in
    if not (is_empty current) && ltb max next then flushed else longer

map-if :
    (b : Bool) (xs ys : List (List String))
    → (if b then map join_spaced xs else map join_spaced ys)
      ≡ map join_spaced (if b then xs else ys)
map-if true xs ys = refl
map-if false xs ys = refl

chunk_words-join :
    (max : ℕ) (ws current : List String) (n : ℕ)
    → chunk_words max ws current n ≡ map join_spaced (chunk_groups max ws current n)
unfolding chunk_words chunk_groups
chunk_words-join max [] [] n = refl
chunk_words-join max [] (c ∷ cs) n = refl
chunk_words-join max (w ∷ ws) current n =
    rw
      (
        chunk_words-join max ws (w ∷ []) (len w),
        chunk_words-join max ws (current ++ w ∷ [])
            (n + len w + (if is_empty current then 0 else 1)),
      )
      (map-if (not (is_empty current) && ltb max (n + len w + (if is_empty current then 0 else 1)))
        (current ∷ chunk_groups max ws (w ∷ []) (len w))
        (chunk_groups max ws (current ++ w ∷ []) (n + len w + (if is_empty current then 0 else 1))))

-- Its words with a space between them are short enough, or it is one word.
abbrev pub Fits : ℕ → List String → Type 0
Fits max g = (len (join_spaced g) ≤ max) ⊎ ((w : String) × (g ≡ w ∷ []))

len-append : (s t : String) → len (append s t) ≡ len s + len t
unfolding len append
len-append String.[] t = omega arith
len-append (String.◌∷◌ c s) t = omega (arith, len-append s t)

len-join_snoc :
    (c w : String) (cs : List String)
    → len (join_spaced ((c ∷ cs) ++ w ∷ [])) ≡ len (join_spaced (c ∷ cs)) + 1 + len w
unfolding join len append
len-join_snoc c w [] = omega (arith, len-append c (append " " w))
len-join_snoc c w (d ∷ cs) = omega (
  arith,
  len-join_snoc d w cs,
  len-append c (append " " (join_spaced ((d ∷ cs) ++ w ∷ []))),
  len-append c (append " " (join_spaced (d ∷ cs))),
)

-- What is known of the groups of some words.
pub record AreChunks (max : ℕ) (words : List String) (gs : List (List String)) : Type 0 where
  pub all_words : concat gs ≡ words
  pub grouped : Grouped gs
  pub fit : Every (Fits max) gs

-- The words that have been begun, with their length.
abbrev Begun : ℕ → List String → ℕ → Type 0
Begun max [] n = n ≡ 0
Begun max (c ∷ cs) n = (n ≡ len (join_spaced (c ∷ cs))) × Fits max (c ∷ cs)

flush-AreChunks :
    (max : ℕ) (c : String) (cs words : List String) (gs : List (List String))
    → Fits max (c ∷ cs)
    → AreChunks max words gs
    → AreChunks max ((c ∷ cs) ++ words) ((c ∷ cs) ∷ gs)
flush-AreChunks max c cs words gs f a = record {
  all_words = ap (λ (l : List String). (c ∷ cs) ++ l) a.all_words;
  grouped = a.grouped;
  fit = (f, a.fit);
}

AreChunks-if :
    (b : Bool) (max : ℕ) (words : List String) (gs hs : List (List String))
    → (b ≡ true → AreChunks max words gs)
    → (b ≡ false → AreChunks max words hs)
    → AreChunks max words (if b then gs else hs)
AreChunks-if true max words gs hs p q = p refl
AreChunks-if false max words gs hs p q = q refl

chunk_groups-AreChunks :
    (max : ℕ) (ws current : List String) (n : ℕ)
    → Begun max current n
    → AreChunks max (current ++ ws) (chunk_groups max ws current n)
unfolding chunk_groups join
chunk_groups-AreChunks max [] [] n h = record { all_words = refl; grouped = tt; fit = tt }
chunk_groups-AreChunks max [] (c ∷ cs) n h = record {
  all_words = refl;
  grouped = tt;
  fit = (h.1, tt);
}
chunk_groups-AreChunks max (w ∷ ws) [] n h =
    chunk_groups-AreChunks max ws (w ∷ []) (n + len w + 0) (omega arith, inr (w, refl))
chunk_groups-AreChunks max (w ∷ ws) (c ∷ cs) n h =
    AreChunks-if (ltb max (n + len w + 1)) max ((c ∷ cs) ++ w ∷ ws) _ _
      (λ over.
        flush-AreChunks max c cs (w ∷ ws) (chunk_groups max ws (w ∷ []) (len w)) h.1
          (chunk_groups-AreChunks max ws (w ∷ []) (len w) (refl, inr (w, refl))))
      (λ under.
        let same : n + len w + 1 ≡ len (join_spaced ((c ∷ cs) ++ w ∷ [])) =
          omega (arith, len-join_snoc c w cs, h.0) in
        let short : len (join_spaced ((c ∷ cs) ++ w ∷ [])) ≤ max = ground arith in
        subst (λ l. AreChunks max l (chunk_groups max ws ((c ∷ cs) ++ w ∷ []) (n + len w + 1)))
          (append_assoc (c ∷ cs) (w ∷ []) ws)
          (chunk_groups-AreChunks max ws ((c ∷ cs) ++ w ∷ []) (n + len w + 1) (same, inl short)))

-- The groups of one sentence.
chunks_of : ℕ → List String → List (List String)
unfolding chunk_groups
chunks_of max g = if leb (len (join_spaced g)) max then g ∷ [] else chunk_groups max g [] 0

chunks_of-AreChunks :
    (max : ℕ) (w : String) (ws : List String) → AreChunks max (w ∷ ws) (chunks_of max (w ∷ ws))
unfolding chunks_of
chunks_of-AreChunks max w ws =
    AreChunks-if (leb (len (join_spaced (w ∷ ws))) max) max (w ∷ ws) _ _
      (λ short. record {
        all_words = append-nil (w ∷ ws);
        grouped = tt;
        fit = (inl (leb→le _ _ short), tt);
      })
      (λ long. chunk_groups-AreChunks max (w ∷ ws) [] 0 refl)

expand-join :
    (max : ℕ) (g : List String)
    → Every IsWord g
    → expand max (join_spaced g) ≡ map join_spaced (chunks_of max g)
unfolding expand chunks_of
expand-join max g h =
    rw (split_text-join g h, chunk_words-join max g [] 0)
      (map-if (leb (len (join_spaced g)) max) (g ∷ []) (chunk_groups max g [] 0))

-- The groups of all sentences.
pub chunks_of_all : ℕ → List (List String) → List (List String)
unfolding chunks_of
chunks_of_all max [] = []
chunks_of_all max (g ∷ gs) = chunks_of max g ++ chunks_of_all max gs

pub expand_all-join :
    (max : ℕ) (gs : List (List String))
    → Every (Every IsWord) gs
    → expand_all max (map join_spaced gs) ≡ map join_spaced (chunks_of_all max gs)
unfolding expand_all chunks_of_all
expand_all-join max [] h = refl
expand_all-join max (g ∷ gs) h =
    rw (expand-join max g h.0, expand_all-join max gs h.1)
      (sym (map-append join_spaced (chunks_of max g) (chunks_of_all max gs)))

concat-append : (gs hs : List (List String)) → concat (gs ++ hs) ≡ concat gs ++ concat hs
concat-append [] hs = refl
concat-append (g ∷ gs) hs =
    ap (λ (l : List String). g ++ l) (concat-append gs hs)
    ∙ sym (append_assoc g (concat gs) (concat hs))

Grouped-append : (gs hs : List (List String)) → Grouped gs → Grouped hs → Grouped (gs ++ hs)
Grouped-append [] hs p q = q
Grouped-append ([] ∷ gs) hs p q = absurd p
Grouped-append ((w ∷ ws) ∷ gs) hs p q = Grouped-append gs hs p q

pub chunks_of_all-AreChunks :
    (max : ℕ) (gs : List (List String))
    → Grouped gs
    → AreChunks max (concat gs) (chunks_of_all max gs)
unfolding chunks_of_all
chunks_of_all-AreChunks max [] h = record { all_words = refl; grouped = tt; fit = tt }
chunks_of_all-AreChunks max ([] ∷ gs) h = absurd h
chunks_of_all-AreChunks max ((w ∷ ws) ∷ gs) h =
    let first = chunks_of-AreChunks max w ws in
    let later = chunks_of_all-AreChunks max gs h in
    record {
      all_words =
          concat-append (chunks_of max (w ∷ ws)) (chunks_of_all max gs)
          ∙ ap (λ (l : List String). l ++ concat (chunks_of_all max gs)) first.all_words
          ∙ ap (λ (l : List String). (w ∷ ws) ++ l) later.all_words;
      grouped =
          Grouped-append (chunks_of max (w ∷ ws)) (chunks_of_all max gs) first.grouped
            later.grouped;
      fit =
          Every-append (Fits max) (chunks_of max (w ∷ ws)) (chunks_of_all max gs) first.fit
            later.fit;
    }

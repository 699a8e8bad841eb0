-- ===== src/Voice/Segments/Joined.antt =====
-- `split_sentences` of sara_unified/voice/segmenting.py loses no word.
use mathlib.Core.Path.{subst}
use sara_omega.Prelude.{
  ℕ, ◌+◌, ◌≤◌, String, ◌≡◌, refl, sym, ap, ◌∙◌, ◌⊎◌, inl, inr, Bool, false, List, [], ◌∷◌, map,
  length, Every, ltb, ◌==◌, str_eq, eq_iff, is_empty, if◌then◌else◌, arith,
}
use sara_omega.Prelude.Text.{join, len, split_text, strip}
use sara_omega.Prelude.Words.{IsWord, join_spaced, concat, join-groups, split_text-IsWord}
use sara_omega.Prelude.Attempt.{returned, raised}
use sara_omega.Voice.Segments.{VoiceSegment, raw_segments, expand_all, numbered, split_sentences}
use sara_omega.Voice.Segments.Cut.{
  sentences, concat-sentences, sentences-Grouped, Every-concat, raw_segments-join,
}
use sara_omega.Voice.Segments.Chunks.{Fits, chunks_of_all, chunks_of_all-AreChunks, expand_all-join}

-- At most `max` characters, or one word.
abbrev pub IsShort : ℕ → String → Type 0
IsShort max t = (len t ≤ max) ⊎ IsWord t

IsShort-group :
    (max : ℕ) (g : List String) → Fits max g → Every IsWord g → IsShort max (join_spaced g)
unfolding join
IsShort-group max g (inl h) e = inl h
IsShort-group max g (inr (w, same)) e =
    inr (subst (λ l. IsWord (join_spaced l)) (sym same) (subst (Every IsWord) same e).0)

IsShort-groups :
    (max : ℕ) (gs : List (List String))
    → Every (Fits max) gs
    → Every (Every IsWord) gs
    → Every (IsShort max) (map join_spaced gs)
IsShort-groups max [] h e = tt
IsShort-groups max (g ∷ gs) h e = (IsShort-group max g h.0 e.0, IsShort-groups max gs h.1 e.1)

-- The segments of some words are short, and are these words when they are joined.
record AreSegments (max : ℕ) (ws ts : List String) : Type 0 where
  joined : join_spaced ts ≡ join_spaced ws
  short : Every (IsShort max) ts

expanded-AreSegments :
    (max : ℕ) (w : String) (ws : List String)
    → Every IsWord (w ∷ ws)
    → AreSegments max (w ∷ ws) (expand_all max (raw_segments (join_spaced (w ∷ ws))))
expanded-AreSegments max w ws h =
    let gs = sentences w ws in
    let same = concat-sentences w ws in
    let words = Every-concat gs (subst (Every IsWord) (sym same) h) in
    let chunks = chunks_of_all-AreChunks max gs (sentences-Grouped w ws) in
    let hs = chunks_of_all max gs in
    let known : concat hs ≡ w ∷ ws = chunks.all_words ∙ same in
    let cut : expand_all max (raw_segments (join_spaced (w ∷ ws))) ≡ map join_spaced hs =
      ap (expand_all max) (raw_segments-join w ws h) ∙ expand_all-join max gs words in
    subst (AreSegments max (w ∷ ws)) (sym cut) (record {
      joined = join-groups hs chunks.grouped ∙ ap join_spaced known;
      short =
          IsShort-groups max hs chunks.fit (Every-concat hs (subst (Every IsWord) (sym known) h));
    })

module _ (sha256 : String → String) where
  abbrev pub texts : List VoiceSegment → List String
  texts = map (λ (s : VoiceSegment). s.text)

  map-numbered : (n : ℕ) (ts : List String) → texts (numbered sha256 n ts) ≡ ts
  unfolding numbered
  map-numbered n [] = refl
  map-numbered n (t ∷ ts) = ap (λ (l : List String). t ∷ l) (map-numbered (n + 1) ts)

  length-numbered : (n : ℕ) (ts : List String) → length (numbered sha256 n ts) ≡ length ts
  unfolding numbered
  length-numbered n [] = refl
  length-numbered n (t ∷ ts) = omega (arith, length-numbered (n + 1) ts)

  guarded :
      (a b c d : Bool) (x : List VoiceSegment) (segments : List VoiceSegment)
      → (if a
          then raised "ValueError"
          else if b
          then raised "ValueError"
          else if c
          then raised "ValueError"
          else if d
          then raised "ValueError"
          else returned x)
        ≡ returned segments
      → (a ≡ false) × (d ≡ false) × (x ≡ segments)
  guarded a b c d x segments h = ground arith

  -- The segments of a text.
  pub record AreSplit (max_segments max : ℕ) (text : String) (segments : List VoiceSegment)
      : Type 0 where
    pub joined : join_spaced (texts segments) ≡ join_spaced (split_text (strip text))
    pub short : Every (IsShort max) (texts segments)
    pub few : length segments ≤ max_segments

  words-AreSegments :
      (max : ℕ) (ws : List String)
      → Every IsWord ws
      → str_eq (join_spaced ws) "" ≡ false
      → AreSegments max ws (expand_all max (raw_segments (join_spaced ws)))
  unfolding join
  words-AreSegments max [] h given = cc
  words-AreSegments max (w ∷ ws) h given = expanded-AreSegments max w ws h

  -- Where `split_sentences` returns the segments of a text: joined by a space, they are the text's
  -- words, joined by a space; each has at most the allowed number of characters or is one word, and
  -- there are no more than allowed.
  pub split_sentences-AreSplit :
      (max_segments max : ℕ) (text : String) (segments : List VoiceSegment)
      → split_sentences sha256 max_segments max text ≡ returned segments
      → AreSplit max_segments max text segments
  unfolding split_sentences
  split_sentences-AreSplit max_segments max text segments h =
      let ws = split_text (strip text) in
      let ts = expand_all max (raw_segments (join_spaced ws)) in
      let (given, few, same) =
        guarded (str_eq (join_spaced ws) "") (max_segments == 0) (max == 0)
          (ltb max_segments (length ts)) (numbered sha256 1 ts) segments h in
      let found = words-AreSegments max ws (split_text-IsWord (strip text)) given in
      let again = map-numbered 1 ts in
      subst (AreSplit max_segments max text) same (record {
        joined = ap join_spaced again ∙ found.joined;
        short = subst (Every (IsShort max)) (sym again) found.short;
        few = ground (arith, length-numbered 1 ts);
      })

  -- A text that is split has a segment.
  pub split_sentences-is_empty :
      (max_segments max : ℕ) (text : String) (segments : List VoiceSegment)
      → split_sentences sha256 max_segments max text ≡ returned segments
      → is_empty segments ≡ false
  unfolding split_sentences join
  split_sentences-is_empty max_segments max text (s ∷ segments) h = refl
  split_sentences-is_empty max_segments max text [] h =
      let ws = split_text (strip text) in
      let ts = expand_all max (raw_segments (join_spaced ws)) in
      let (given, few, same) =
        guarded (str_eq (join_spaced ws) "") (max_segments == 0) (max == 0)
          (ltb max_segments (length ts)) (numbered sha256 1 ts) [] h in
      let found = split_sentences-AreSplit max_segments max text [] h in
      ground (arith, eq_iff (join_spaced ws) "", found.joined)

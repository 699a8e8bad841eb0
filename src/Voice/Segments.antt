-- ===== src/Voice/Segments.antt =====
-- `split_sentences` of sara_unified/voice/segmenting.py, over ASCII. The regular expression cuts at
-- the spaces after a `.`, `!` or `?`. SHA-256 is the argument `sha256`; a segment's id is made of its
-- index alone, and stands for it.
pub mod Cut
pub mod Chunks
pub mod Joined
use sara_omega.Prelude.{
  ℕ, ◌+◌, suc, zero, String, Bool, true, false, not, ◌&&◌, ◌||◌, List, [], ◌∷◌, ◌++◌, map, select,
  is_empty, length, ltb, leb, ◌==◌, str_eq, if◌then◌else◌,
}
use Prim.Native.Char.{Char, code}
use sara_omega.Prelude.Text.{is_space, split_text, join, strip, len}
use sara_omega.Prelude.Attempt.{Attempt, returned, raised}

pub record VoiceSegment : Type 0 where
  pub index : ℕ
  pub text : String
  pub text_sha256 : String
  pub character_count : ℕ

-- What stands before: no end of a sentence, one, or one with spaces after it.
pub data Place : Type 0 where
  inside ended cut : Place

-- `[.!?]`
unfoldable pub is_end : ℕ → Bool
is_end c = c == b'.' || c == b'!' || c == b'?'

abbrev pub after_char : ℕ → Place
after_char c = if is_end c then ended else inside

-- `_SENTENCE_BOUNDARY.split(text)`: the first part, and the later ones.
unfoldable pub boundary_from : Place → String → String × List String
unfolding is_space is_end
boundary_from p String.[] = ("", [])
boundary_from inside (String.◌∷◌ c s) =
    let r = boundary_from (after_char (code c)) s in (String.◌∷◌ c r.0, r.1)
boundary_from ended (String.◌∷◌ c s) =
    let r = boundary_from (after_char (code c)) s in
    let next = boundary_from cut s in
    if is_space (code c) then ("", next.0 ∷ next.1) else (String.◌∷◌ c r.0, r.1)
boundary_from cut (String.◌∷◌ c s) =
    let r = boundary_from (after_char (code c)) s in
    let next = boundary_from cut s in if is_space (code c) then next else (String.◌∷◌ c r.0, r.1)

unfoldable pub boundary_split : String → List String
unfolding boundary_from
boundary_split s = (boundary_from inside s).0 ∷ (boundary_from inside s).1

abbrev pub is_given : String → Bool
is_given s = not (str_eq s "")

-- `[part.strip() for part in ... if part.strip()]`
unfoldable pub raw_segments : String → List String
unfolding boundary_split strip
raw_segments cleaned = select is_given (map strip (boundary_split cleaned))

-- The loop over the words of a part that is too long, with the words of the segment that has been
-- begun and their length.
unfoldable pub chunk_words : ℕ → List String → List String → ℕ → List String
unfolding join len
chunk_words max [] current n = if is_empty current then [] else join " " current ∷ []
chunk_words max (w ∷ ws) current n =
    let next = n + len w + (if is_empty current then 0 else 1) in
    let flushed = join " " current ∷ chunk_words max ws (w ∷ []) (len w) in
    let longer = chunk_words max ws (current ++ w ∷ []) next in
    if not (is_empty current) && ltb max next then flushed else longer

unfoldable pub expand : ℕ → String → List String
unfolding chunk_words split_text len
expand max raw = if leb (len raw) max then raw ∷ [] else chunk_words max (split_text raw) [] 0

unfoldable pub expand_all : ℕ → List String → List String
unfolding expand
expand_all max [] = []
expand_all max (r ∷ rs) = expand max r ++ expand_all max rs

module _ (sha256 : String → String) where
  unfoldable pub numbered : ℕ → List String → List VoiceSegment
  unfolding len
  numbered n [] = []
  numbered n (t ∷ ts) =
      record { index = n; text = t; text_sha256 = sha256 t; character_count = len t }
      ∷ numbered (n + 1) ts

  unfoldable pub split_sentences : ℕ → ℕ → String → Attempt (List VoiceSegment)
  unfolding strip split_text join raw_segments expand_all numbered
  split_sentences max_segments max_segment_characters text =
      let cleaned = join " " (split_text (strip text)) in
      let expanded = expand_all max_segment_characters (raw_segments cleaned) in
      if str_eq cleaned ""
      then raised "ValueError"
      else if max_segments == 0
      then raised "ValueError"
      else if max_segment_characters == 0
      then raised "ValueError"
      else if ltb max_segments (length expanded)
      then raised "ValueError"
      else returned (numbered 1 expanded)

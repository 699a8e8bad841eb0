-- ===== src/Voice/Pronunciation.antt =====
-- sara_unified/voice/pronunciation.py. SHA-256 of the dictionary's JSON is the argument
-- `dictionary_digest`.
use sara_omega.Prelude.{
  ℕ, ◌-◌, suc, zero, String, Bool, List, [], ◌∷◌, ◌++◌, ltb, str_eq, if◌then◌else◌,
}
use sara_omega.Prelude.Text.{append, len, codes, occurs, starts_with}
use sara_omega.Prelude.Attempt.{Attempt, returned, raised}

pub record PronunciationRule : Type 0 where
  pub match_text : String
  pub replacement : String

pub record PronunciationDictionary : Type 0 where
  pub dictionary_id : String
  pub version : String
  pub rules : List PronunciationRule
  pub max_output_characters : ℕ

pub record PronunciationResult : Type 0 where
  pub text : String
  pub dictionary_id : String
  pub dictionary_version : String
  pub dictionary_sha256 : String
  pub applied_rules : List String

-- `PronunciationDictionary.default()`
abbrev pub default_dictionary : PronunciationDictionary
default_dictionary = record {
  dictionary_id = "sara-default";
  version = "2026.09.17";
  rules =
      (record { match_text = "SARA OMEGA"; replacement = "Sarah Omega" })
      ∷ (record { match_text = "SARA"; replacement = "Sarah" })
      ∷ [];
  max_output_characters = 5000;
}

-- `needle in text`
abbrev pub contains : String → String → Bool
contains needle s = occurs (codes needle) (codes s)

-- `text.replace("", new)`
unfoldable pub spread : String → String → String
unfolding append
spread new String.[] = new
spread new (String.◌∷◌ c s) = append new (String.◌∷◌ c (spread new s))

-- `text.replace(old, new)` from left to right, where `old` is not empty, and the first number of
-- characters belong to an occurrence that has been replaced.
unfoldable pub replace_from : String → String → ℕ → String → String
unfolding append len starts_with
replace_from old new skip String.[] = ""
replace_from old new zero (String.◌∷◌ c s) =
    let replaced = replace_from old new (len old - 1) s in
    let rest = replace_from old new 0 s in
    if starts_with (codes old) (codes (String.◌∷◌ c s))
    then append new replaced
    else String.◌∷◌ c rest
replace_from old new (suc skip) (String.◌∷◌ c s) = replace_from old new skip s

unfoldable pub replace : String → String → String → String
unfolding spread replace_from
replace old new s = if str_eq old "" then spread new s else replace_from old new 0 s

-- The loop of `apply` over the rules: the text, and the rules that were applied.
unfoldable pub apply_rules : List PronunciationRule → String → List String → String × List String
unfolding replace occurs
apply_rules [] transformed applied = (transformed, applied)
apply_rules (r ∷ rs) transformed applied =
    let changed =
      apply_rules rs (replace r.match_text r.replacement transformed)
        (applied ++ r.match_text ∷ []) in
    let kept = apply_rules rs transformed applied in
    if contains r.match_text transformed then changed else kept

module _ (dictionary_digest : PronunciationDictionary → String) where
  unfoldable pub apply : PronunciationDictionary → String → Attempt PronunciationResult
  unfolding apply_rules len
  apply d text =
      let r = apply_rules d.rules text [] in
      if ltb d.max_output_characters (len r.0)
      then raised "ValueError"
      else returned (record {
        text = r.0;
        dictionary_id = d.dictionary_id;
        dictionary_version = d.version;
        dictionary_sha256 = dictionary_digest d;
        applied_rules = r.1;
      })

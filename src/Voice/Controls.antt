-- ===== src/Voice/Controls.antt =====
-- sara_unified/voice/controls.py. The scales are in hundredths; the digest of the controls is an
-- argument of the code that uses it.
use sara_omega.Prelude.{ℕ, String, str_eq, if◌then◌else◌}
use sara_omega.Prelude.Attempt.{Attempt, returned, raised}

pub data SpeechRate : Type 0 where
  slower normal faster : SpeechRate

pub record SynthesisControls : Type 0 where
  pub speech_rate : SpeechRate
  pub length_scale : ℕ
  pub noise_scale : ℕ
  pub noise_w_scale : ℕ
  pub volume : ℕ

abbrev pub controls_at : SpeechRate → ℕ → SynthesisControls
controls_at rate scale = record {
  speech_rate = rate;
  length_scale = scale;
  noise_scale = 55;
  noise_w_scale = 70;
  volume = 95;
}

-- `_CONTROLS[rate]`
unfoldable pub controls_of : SpeechRate → SynthesisControls
controls_of slower = controls_at slower 116
controls_of normal = controls_at normal 108
controls_of faster = controls_at faster 100

-- `SpeechRate(rate)`
unfoldable pub rate_of : String → Attempt SpeechRate
rate_of s =
    if str_eq s "slower"
    then returned slower
    else if str_eq s "normal"
    then returned normal
    else if str_eq s "faster"
    then returned faster
    else raised "ValueError"

unfoldable pub speech_controls_for : String → Attempt SynthesisControls
unfolding rate_of controls_of
speech_controls_for s = elim (rate_of s) [
  | returned rate ↦ returned (controls_of rate)
  | raised e ↦ raised e
]

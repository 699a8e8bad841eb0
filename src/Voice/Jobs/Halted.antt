-- ===== src/Voice/Jobs/Halted.antt =====
-- What a call of `stop_job` of sara_unified/voice/jobs.py does to a job that runs.
use sara_omega.Prelude.{
  ℕ, ◌+◌, ◌≤◌, String, ◌≡◌, ◌≢◌, inl, inr, true, List, [], ◌∷◌, length, length-append, arith,
}
use sara_omega.Prelude.Attempt.{Attempt, returned, raised}
use sara_omega.Voice.Segments.{VoiceSegment}
use sara_omega.Voice.Controls.{SynthesisControls}
use sara_omega.Voice.Pronunciation.{PronunciationDictionary}
use sara_omega.Voice.Receipts.{Digests, Origin}
use sara_omega.Voice.Jobs.{
  completed, stopped, VoiceJob, Reply, Place, entering, visiting, speaking, leaving, left, thrown,
  Run, is_set, is_running, stop, settle, visit, add_receipt, hear, hear_audio, advance_at,
}
use sara_omega.Voice.Jobs.Steps.{Step, moves, stops, Reach, here, next}
use sara_omega.Voice.Jobs.Consistent.{Agrees, IsConsistent, Reach-IsConsistent, Step-IsConsistent}

-- The audio that is waited for.
unfoldable pub in_flight : Place → ℕ
in_flight entering = 0
in_flight (visiting rest) = 0
in_flight (speaking segment transformed rest) = 1
in_flight (leaving rest) = 0
in_flight (left rest) = 0
in_flight (thrown e rest) = 0

-- A stop was requested, the job is not completed, and has, or will have, at most `n` receipts.
record IsHalted (n : ℕ) (r : Run) : Type 0 where
  requested : is_set r.job.stop_requested_at ≡ true
  few : length r.job.receipts + in_flight r.place ≤ n
  not_completed : r.job.status ≢ completed

stop-not_completed :
    (now : ℕ) (job : VoiceJob) → job.status ≢ completed → (stop now job).status ≢ completed
unfolding stop
stop-not_completed now job h e = ground (arith, h)

stop-requested : (now : ℕ) (job : VoiceJob) → is_set (stop now job).stop_requested_at ≡ true
unfolding stop
stop-requested now job = ground arith

stop-IsHalted :
    (n now : ℕ) (p : Place) (job : VoiceJob)
    → length job.receipts + in_flight p ≤ n
    → job.status ≢ completed
    → IsHalted n (record { place = p; job = stop now job })
unfolding stop
stop-IsHalted n now p job few h = record {
  requested = stop-requested now job;
  few = few;
  not_completed = stop-not_completed now job h;
}

settle-not_completed :
    (now : ℕ) (rest : List VoiceSegment) (job : VoiceJob)
    → Agrees (leaving rest) job
    → is_set job.stop_requested_at ≡ true
    → (settle now job).status ≢ completed
unfolding settle is_running
settle-not_completed now rest job (inl h) e same = cc
settle-not_completed now rest job (inr held) e same = ground arith

module _ (digests : Digests) (origin : Origin) (dictionary : PronunciationDictionary)
    (speech_rate : String) (controls : SynthesisControls) (return_audio : String) where
  visit-IsHalted :
      (n : ℕ) (segment : VoiceSegment) (rest : List VoiceSegment) (job : VoiceJob)
      → IsHalted n (record { place = visiting (segment ∷ rest); job = job })
      → IsHalted n (visit digests origin dictionary segment rest job)
  unfolding visit in_flight
  visit-IsHalted n segment rest job h =
      let halted : Run = record {
        place = leaving (segment ∷ rest);
        job = record job { status = stopped };
      } in
      let known : IsHalted n halted = record {
        requested = h.requested;
        few = h.few;
        not_completed = λ e. cc;
      } in
      rw h.requested known

  hear_audio-IsHalted :
      (n : ℕ) (segment : VoiceSegment) (t : String) (rest : List VoiceSegment) (reply : Reply)
      (job : VoiceJob) (a : Attempt String)
      → IsHalted n (record { place = speaking segment t rest; job = job })
      → IsHalted n (
          hear_audio digests origin dictionary speech_rate controls return_audio segment t rest
            reply job a)
  unfolding hear_audio add_receipt in_flight
  hear_audio-IsHalted n segment t rest reply job (returned audio) h = record {
    requested = h.requested;
    few = omega (arith, h.few, length-append job.receipts (_ ∷ []));
    not_completed = h.not_completed;
  }
  hear_audio-IsHalted n segment t rest reply job (raised e) h = record {
    requested = h.requested;
    few = omega (arith, h.few);
    not_completed = λ e. cc;
  }

  advance_at-IsHalted :
      (n : ℕ) (reply : Reply) (now : ℕ) (p : Place) (job : VoiceJob)
      → IsConsistent (record { place = p; job = job })
      → IsHalted n (record { place = p; job = job })
      → IsHalted n
          (advance_at digests origin dictionary speech_rate controls return_audio reply now p job)
  unfolding advance_at hear settle in_flight
  advance_at-IsHalted n reply now entering job c h = record {
    requested = h.requested;
    few = h.few;
    not_completed = λ e. cc;
  }
  advance_at-IsHalted n reply now (visiting []) job c h = record {
    requested = h.requested;
    few = h.few;
    not_completed = h.not_completed;
  }
  advance_at-IsHalted n reply now (visiting (segment ∷ rest)) job c h =
      visit-IsHalted n segment rest job h
  advance_at-IsHalted n reply now (speaking segment t rest) job c h =
      hear_audio-IsHalted n segment t rest reply job reply.audio h
  advance_at-IsHalted n reply now (leaving rest) job c h = record {
    requested = h.requested;
    few = h.few;
    not_completed = settle-not_completed now rest job c.agrees h.requested;
  }
  advance_at-IsHalted n reply now (left rest) job c h = h
  advance_at-IsHalted n reply now (thrown e rest) job c h = h

  Step-IsHalted :
      {r u : Run} (n : ℕ)
      → Step digests origin dictionary speech_rate controls return_audio r u
      → IsConsistent r
      → IsHalted n r
      → IsHalted n u
  Step-IsHalted {r} n (moves reply now) c h = advance_at-IsHalted n reply now r.place r.job c h
  Step-IsHalted {r} n (stops now) c h = stop-IsHalted n now r.place r.job h.few h.not_completed

  Reach-IsHalted :
      {r u : Run} (n : ℕ)
      → Reach digests origin dictionary speech_rate controls return_audio r u
      → IsConsistent r
      → IsHalted n r
      → IsHalted n u
  Reach-IsHalted n here c h = h
  Reach-IsHalted n (next reached step) c h =
      Step-IsHalted n step
        (Reach-IsConsistent digests origin dictionary speech_rate controls return_audio reached c)
        (Reach-IsHalted n reached c h)

  -- A job that is consistent and not completed when it is stopped is never completed, and gets no
  -- receipt after that, but the one for the segment whose audio is being waited for.
  pub stop-Reach :
      {r u : Run} (now : ℕ)
      → IsConsistent r
      → r.job.status ≢ completed
      → Reach digests origin dictionary speech_rate controls return_audio
          (record { place = r.place; job = stop now r.job })
          u
      → (u.job.status ≢ completed)
        × (length u.job.receipts ≤ length r.job.receipts + in_flight r.place)
  stop-Reach {r} {u} now c h reached =
      let n = length r.job.receipts + in_flight r.place in
      let later =
        Reach-IsHalted n reached
          (Step-IsConsistent digests origin dictionary speech_rate controls return_audio (stops now)
            c)
          (stop-IsHalted n now r.place r.job (omega arith) h) in
      (later.not_completed, omega (arith, later.few))

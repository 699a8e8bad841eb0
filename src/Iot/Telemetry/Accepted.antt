-- ===== src/Iot/Telemetry/Accepted.antt =====
-- What `authenticate_telemetry` of app/iot/auth.py accepts.
use mathlib.Core.Path.{subst}
use sara_omega.Prelude.{
  ℕ, ◌+◌, ◌<◌, ◌≤◌, String, ◌≡◌, refl, ◌↔◌, Bool, true, false, not, Option, none, some, all,
  all_iff, Every, member, if◌then◌else◌, arith,
}
use sara_omega.Prelude.Dict.{lookup}
use sara_omega.Prelude.Attempt.{Attempt, returned, raised, raised-returned}
use sara_omega.Iot.Telemetry.{
  Sender, Envelope, Limits, IotStore, fail, is_quarantined, is_seen, recent_replay_count,
  is_outside, is_allowed_metric, admit, authenticate_found, authenticate_telemetry,
}

module _ (verify_secret : String → String → Bool) (l : Limits) where
  -- A device's envelope that passes every check.
  pub record IsAdmitted (e : Envelope) (secret : String) (now : ℕ) (d : Sender) (s : IotStore)
      : Type 0 where
    pub registered : lookup e.device_id s.devices ≡ some d
    pub enabled : d.enabled ≡ true
    pub free : is_quarantined d.device_id now s ≡ false
    pub authentic : verify_secret d.device_id secret ≡ true
    pub not_ahead : e.event_timestamp ≤ now + 30
    pub not_stale : now ≤ e.event_timestamp + l.freshness_seconds
    pub topic_allowed : member e.topic d.allowed_topics ≡ true
    pub metrics_allowed : Every (λ m. is_allowed_metric d m ≡ true) e.metrics
    pub small : e.size ≤ l.max_payload_bytes
    pub within_rate : recent_replay_count d.device_id now s < l.rate_limit
    pub new : is_seen d.device_id e.message_id s ≡ false

  admit_flags :
      (e : Envelope) (secret : String) (now : ℕ) (d d' : Sender) (s : IotStore)
      → ((admit verify_secret l e secret now d s).0 ≡ returned d') ↔ (
          (is_quarantined d.device_id now s ≡ false)
          × (verify_secret d.device_id secret ≡ true)
          × (is_outside l now e ≡ false)
          × (member e.topic d.allowed_topics ≡ true)
          × (all (is_allowed_metric d) e.metrics ≡ true)
          × (e.size ≤ l.max_payload_bytes)
          × (recent_replay_count d.device_id now s < l.rate_limit)
          × (is_seen d.device_id e.message_id s ≡ false)
          × (d ≡ d'))
  unfolding admit
  admit_flags e secret now d d' s = (λ h. ground arith, λ h. ground arith)

  window_iff :
      (now : ℕ) (e : Envelope)
      → (is_outside l now e ≡ false)
        ↔ ((e.event_timestamp ≤ now + 30) × (now ≤ e.event_timestamp + l.freshness_seconds))
  unfolding is_outside
  window_iff now e = (λ h. ground arith, λ h. ground arith)

  admit-IsAdmitted :
      (e : Envelope) (secret : String) (now : ℕ) (d d' : Sender) (s : IotStore)
      → lookup e.device_id s.devices ≡ some d
      → d.enabled ≡ true
      → (admit verify_secret l e secret now d s).0 ≡ returned d'
      → IsAdmitted e secret now d' s
  admit-IsAdmitted e secret now d d' s known on h =
      let t = (admit_flags e secret now d d' s).0 h in
      let w = (window_iff now e).0 t.2 in
      subst (λ x. IsAdmitted e secret now x s) t.8
        (record {
          registered = known;
          enabled = on;
          free = t.0;
          authentic = t.1;
          not_ahead = w.0;
          not_stale = w.1;
          topic_allowed = t.3;
          metrics_allowed = (all_iff (is_allowed_metric d) e.metrics).0 t.4;
          small = t.5;
          within_rate = t.6;
          new = t.7;
        })

  enabled_iff :
      (on : Bool) (error : String) (d : Sender) (t : IotStore) (y : Attempt Sender × IotStore)
      → ((if not on then (raised error, t) else y).0 ≡ returned d)
        ↔ ((on ≡ true) × (y.0 ≡ returned d))
  enabled_iff true error d t y = (λ h. (refl, h), λ h. h.1)
  enabled_iff false error d t y = (λ h. absurd (raised-returned error d h), λ h. cc)

  pub found_iff :
      (e : Envelope) (secret : String) (now : ℕ) (d d' : Sender) (s : IotStore)
      → ((authenticate_found verify_secret l e secret now (some d) s).0 ≡ returned d')
        ↔ ((d.enabled ≡ true) × ((admit verify_secret l e secret now d s).0 ≡ returned d'))
  unfolding authenticate_found
  found_iff e secret now d d' s =
      enabled_iff d.enabled "AuthenticationRejected" d'
        (fail l e.device_id "unknown_or_disabled" now s) (admit verify_secret l e secret now d s)

  found-IsAdmitted :
      (e : Envelope) (secret : String) (now : ℕ) (d' : Sender) (s : IotStore) (o : Option Sender)
      → lookup e.device_id s.devices ≡ o
      → (authenticate_found verify_secret l e secret now o s).0 ≡ returned d'
      → IsAdmitted e secret now d' s
  unfolding authenticate_found
  found-IsAdmitted e secret now d' s none known h =
      absurd (raised-returned "AuthenticationRejected" d' h)
  found-IsAdmitted e secret now d' s (some d) known h =
      let t = (found_iff e secret now d d' s).0 h in
      admit-IsAdmitted e secret now d d' s known t.0 t.1

  pub admitted-returned :
      (e : Envelope) (secret : String) (now : ℕ) (d : Sender) (s : IotStore)
      → IsAdmitted e secret now d s
      → (authenticate_found verify_secret l e secret now (some d) s).0 ≡ returned d
  admitted-returned e secret now d s a = (found_iff e secret now d d s).1 (
    a.enabled,
    (admit_flags e secret now d d s).1 (
      a.free,
      a.authentic,
      (window_iff now e).1 (a.not_ahead, a.not_stale),
      a.topic_allowed,
      (all_iff (is_allowed_metric d) e.metrics).1 a.metrics_allowed,
      a.small,
      a.within_rate,
      a.new,
      refl,
    ),
  )

  -- An envelope is accepted exactly when its device is registered, enabled and not quarantined, its
  -- secret is right, its time is at most 30 seconds ahead and not older than the window, its topic
  -- and metrics are allowed, it is small enough, the device is within its rate, and the message is
  -- new.
  pub authenticate_telemetry-IsAdmitted_iff :
      (e : Envelope) (secret : String) (now : ℕ) (d : Sender) (s : IotStore)
      → ((authenticate_telemetry verify_secret l e secret now s).0 ≡ returned d)
        ↔ IsAdmitted e secret now d s
  unfolding authenticate_telemetry
  authenticate_telemetry-IsAdmitted_iff e secret now d s = (
    λ h. found-IsAdmitted e secret now d s (lookup e.device_id s.devices) refl h,
    λ a. rw a.registered (admitted-returned e secret now d s a),
  )

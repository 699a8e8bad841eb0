-- ===== src/Iot/Telemetry.antt =====
-- `authenticate_telemetry` of app/iot/auth.py with `ingest` of app/iot/telemetry.py, over the tables
-- of app/iot/store.py. Times are whole numbers of one clock, which stands still within a call; the
-- texts of times that SQLite compares are compared as times. The test of a device's secret, PBKDF2
-- over its salt, is the argument `verify_secret`.
pub mod Accepted
pub mod Replay
use sara_omega.Prelude.{
  ℕ, ◌+◌, String, Bool, true, false, not, ◌&&◌, ◌||◌, List, [], ◌∷◌, zero, suc, Option, none, some,
  any, all, member, length, select, ltb, leb, str_eq, if◌then◌else◌,
}
use sara_omega.Prelude.Dict.{Dict, lookup}
use sara_omega.Prelude.Attempt.{Attempt, returned, raised}

-- What the guard reads of a device.
pub record Sender : Type 0 where
  pub device_id : String
  pub allowed_topics : List String
  pub metric_allowlist : List String
  pub enabled : Bool

-- `size` is the length of the envelope's JSON, `metrics` the names of its metrics.
pub record Envelope : Type 0 where
  pub device_id : String
  pub message_id : String
  pub event_timestamp : ℕ
  pub topic : String
  pub metrics : List String
  pub size : ℕ

pub record Limits : Type 0 where
  pub freshness_seconds : ℕ
  pub max_payload_bytes : ℕ
  pub rate_limit : ℕ
  pub failure_threshold : ℕ
  pub quarantine_seconds : ℕ
  pub max_events_per_device : ℕ

pub record ReplayId : Type 0 where
  pub device_id : String
  pub message_id : String
  pub observed_at : ℕ

pub record QuarantineEvent : Type 0 where
  pub device_id : String
  pub kind : String
  pub created_at : ℕ
  pub quarantine_until : Option ℕ

-- The tables, the last row first.
pub record IotStore : Type 0 where
  pub devices : Dict Sender
  pub replay_ids : List ReplayId
  pub quarantine_events : List QuarantineEvent
  pub telemetry_events : List Envelope

abbrev pub with_events : List QuarantineEvent → IotStore → IotStore
with_events events s = record {
  devices = s.devices;
  replay_ids = s.replay_ids;
  quarantine_events = events;
  telemetry_events = s.telemetry_events;
}

-- `record_failure`
abbrev pub record_failure : String → String → ℕ → Option ℕ → IotStore → IotStore
record_failure device kind now until s =
    with_events
      (record { device_id = device; kind = kind; created_at = now; quarantine_until = until }
        ∷ s.quarantine_events)
      s

abbrev pub is_recent_event : String → ℕ → QuarantineEvent → Bool
is_recent_event device now e = str_eq e.device_id device && leb now (e.created_at + 600)

-- `failure_count`, of the last ten minutes
unfoldable pub failure_count : String → ℕ → IotStore → ℕ
failure_count device now s = length (select (is_recent_event device now) s.quarantine_events)

-- `_failure`
unfoldable pub fail : Limits → String → String → ℕ → IotStore → IotStore
unfolding failure_count
fail l device kind now s =
    let t = record_failure device kind now none s in
    if leb l.failure_threshold (failure_count device now t)
    then record_failure device "quarantined" now (some (now + l.quarantine_seconds)) t
    else t

-- `quarantine_until`: that of the last row of the device that has one.
unfoldable pub last_quarantine : String → List QuarantineEvent → Option ℕ
last_quarantine device [] = none
last_quarantine device (e ∷ es) =
    let earlier = last_quarantine device es in
    if str_eq e.device_id device
    then elim e.quarantine_until [ none ↦ earlier | some t ↦ some t ]
    else earlier

unfoldable pub is_quarantined : String → ℕ → IotStore → Bool
unfolding last_quarantine
is_quarantined device now s = elim (last_quarantine device s.quarantine_events) [
  | none ↦ false
  | some t ↦ ltb now t
]

abbrev pub is_replay : String → String → ReplayId → Bool
is_replay device message r = str_eq r.device_id device && str_eq r.message_id message

-- A row with the primary key is there.
unfoldable pub is_seen : String → String → IotStore → Bool
is_seen device message s = any (is_replay device message) s.replay_ids

abbrev pub is_recent_replay : String → ℕ → ReplayId → Bool
is_recent_replay device now r = str_eq r.device_id device && leb now (r.observed_at + 60)

-- `recent_replay_count`, of the last minute
unfoldable pub recent_replay_count : String → ℕ → IotStore → ℕ
recent_replay_count device now s = length (select (is_recent_replay device now) s.replay_ids)

-- `delta < -30 or delta > self.freshness_seconds`
unfoldable pub is_outside : Limits → ℕ → Envelope → Bool
is_outside l now e =
    ltb (now + 30) e.event_timestamp || ltb (e.event_timestamp + l.freshness_seconds) now

abbrev pub is_allowed_metric : Sender → String → Bool
is_allowed_metric d name = member name d.metric_allowlist

-- `reserve_replay`, of a key that is not there.
abbrev pub add_replay : String → String → ℕ → IotStore → IotStore
add_replay device message now s = record {
  devices = s.devices;
  replay_ids =
      record { device_id = device; message_id = message; observed_at = now } ∷ s.replay_ids;
  quarantine_events = s.quarantine_events;
  telemetry_events = s.telemetry_events;
}

-- The first `n` rows of the device stay; those of the others all do.
unfoldable pub keep_latest : ℕ → String → List Envelope → List Envelope
keep_latest n device [] = []
keep_latest zero device (e ∷ es) =
    let rest = keep_latest zero device es in if str_eq e.device_id device then rest else e ∷ rest
keep_latest (suc n) device (e ∷ es) = elim (str_eq e.device_id device) [
  | true ↦ e ∷ keep_latest n device es
  | false ↦ e ∷ keep_latest (suc n) device es
]

module _ (verify_secret : String → String → Bool) (l : Limits) where
  abbrev pub refuse : String → String → String → ℕ → IotStore → Attempt Sender × IotStore
  refuse device kind error now s = (raised error, fail l device kind now s)

  -- The checks of a device that is registered, in their order.
  unfoldable pub admit : Envelope → String → ℕ → Sender → IotStore → Attempt Sender × IotStore
  unfolding fail is_quarantined is_outside recent_replay_count is_seen
  admit e secret now d s =
      if is_quarantined d.device_id now s
      then (raised "QuarantineRejected", s)
      else if not (verify_secret d.device_id secret)
      then refuse d.device_id "authentication" "AuthenticationRejected" now s
      else if is_outside l now e
      then refuse d.device_id "freshness" "FreshnessRejected" now s
      else if not (member e.topic d.allowed_topics)
      then refuse d.device_id "topic" "SchemaRejected" now s
      else if not (all (is_allowed_metric d) e.metrics)
      then refuse d.device_id "schema" "SchemaRejected" now s
      else if ltb l.max_payload_bytes e.size
      then refuse d.device_id "oversized" "SchemaRejected" now s
      else if leb l.rate_limit (recent_replay_count d.device_id now s)
      then refuse d.device_id "rate" "RateLimitRejected" now s
      else if is_seen d.device_id e.message_id s
      then refuse d.device_id "replay" "ReplayRejected" now s
      else (returned d, add_replay d.device_id e.message_id now s)

  unfoldable pub authenticate_found :
      Envelope → String → ℕ → Option Sender → IotStore → Attempt Sender × IotStore
  unfolding admit fail
  authenticate_found e secret now none s =
      refuse e.device_id "unknown_or_disabled" "AuthenticationRejected" now s
  authenticate_found e secret now (some d) s =
      if not d.enabled
      then refuse e.device_id "unknown_or_disabled" "AuthenticationRejected" now s
      else admit e secret now d s

  unfoldable pub authenticate_telemetry :
      Envelope → String → ℕ → IotStore → Attempt Sender × IotStore
  unfolding authenticate_found
  authenticate_telemetry e secret now s =
      authenticate_found e secret now (lookup e.device_id s.devices) s

  -- `record_telemetry`
  unfoldable pub record_telemetry : Envelope → IotStore → IotStore
  unfolding keep_latest
  record_telemetry e s = record {
    devices = s.devices;
    replay_ids = s.replay_ids;
    quarantine_events = s.quarantine_events;
    telemetry_events = keep_latest l.max_events_per_device e.device_id (e ∷ s.telemetry_events);
  }

  unfoldable pub stored : Envelope → Attempt Sender × IotStore → Bool × IotStore
  unfolding record_telemetry
  stored e (returned d, s) = (true, record_telemetry e s)
  stored e (raised x, s) = (false, s)

  -- `ingest`, of a transport that is supported: whether the event was recorded.
  unfoldable pub ingest : Envelope → String → ℕ → IotStore → Bool × IotStore
  unfolding authenticate_telemetry stored
  ingest e secret now s = stored e (authenticate_telemetry e secret now s)

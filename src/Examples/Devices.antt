-- ===== src/Examples/Devices.antt =====
-- A device whose valve is opened.
use sara_omega.Prelude.{
  Bool, str_eq, eq_iff, ◌↔◌, String, ◌≡◌, refl, ◌≢◌, true, none, some, [], ◌∷◌, length, arith, ap,
}
use sara_omega.Prelude.Text.{append, strip, rstrip, is_space}
use sara_omega.Prelude.Attempt.{returned}
use sara_omega.Prelude.Once.{IsOnce}
use sara_omega.Iot.{
  Device, Intent, prepared, acknowledged, Adapter, Yard, Environment, check_token,
  authorize_control, confirm, check_status, checked, settle, submit, after_checks, with_record,
  execute,
}
use sara_omega.Iot.Once.{is_used, history, to_prepare, to_execute, perform_all, perform_all-IsOnce}
use sara_omega.Iot.Authorized.{IsCleared, execute-IsCleared}
use sara_omega.Iot.Telemetry.{
  Sender, Envelope, Limits, IotStore, failure_count, fail, last_quarantine, is_quarantined, is_seen,
  recent_replay_count, is_outside, keep_latest, admit, authenticate_found, authenticate_telemetry,
  record_telemetry, stored, ingest,
}
use sara_omega.Iot.Registry.{DeviceRow, register_device, IsRegistered, register_device-IsRegistered}
use sara_omega.Iot.Telemetry.Accepted.{IsAdmitted, authenticate_telemetry-IsAdmitted_iff}
use sara_omega.Iot.Telemetry.Replay.{IsKeyed, ingest_all, ingest-no_replay}

abbrev valve : Device
valve = record {
  device_id = "valve";
  allowed_commands = "open" ∷ [];
  confirmation_required = "open" ∷ [];
  enabled = true;
}

abbrev intent : Intent String
intent = record {
  device_id = "valve";
  action = "open";
  parameters = "";
  session_id = "s1";
  requested_by = "operator";
}

abbrev adapter : Adapter String String
adapter = record { supported = λ d. "open" ∷ []; run = λ d i w. (returned acknowledged, "opened") }

abbrev environment : Environment
environment name = name

abbrev request_hash : Intent String → String
request_hash i = i.action

abbrev empty_yard : Yard String String
empty_yard = record { devices = ("valve", valve) ∷ []; commands = []; world = ""; executed = [] }

abbrev prepared_yard : Yard String String
prepared_yard = record {
  devices = ("valve", valve) ∷ [];
  commands =
      (
        "c1",
        record {
          command_id = "c1";
          intent = intent;
          request_hash = "open";
          status = prepared;
          result = none;
        },
      )
      ∷ [];
  world = "";
  executed = [];
}

empty-IsOnce : IsOnce is_used history empty_yard
empty-IsOnce = record { used = tt; distinct = tt }

perform_all-IsOnce_example : IsOnce is_used history (
    perform_all adapter request_hash environment
      (to_prepare "c1" intent
        ∷ to_execute "c1" "SARA_DEVICE_CONTROL_AUTH_TOKEN" "SARA_DEVICE_CONFIRMATION_TOKEN"
        ∷ to_execute "c1" "SARA_DEVICE_CONTROL_AUTH_TOKEN" "SARA_DEVICE_CONFIRMATION_TOKEN"
        ∷ [])
      empty_yard)
perform_all-IsOnce_example =
    perform_all-IsOnce adapter request_hash environment _ empty_yard empty-IsOnce

opened :
    length
      (execute adapter environment "c1" "SARA_DEVICE_CONTROL_AUTH_TOKEN"
        "SARA_DEVICE_CONFIRMATION_TOKEN" prepared_yard).1.executed
    ≡ 1
unfolding execute with_record after_checks submit settle checked check_status authorize_control
    confirm check_token strip rstrip is_space
opened = refl

executed-changed :
    (execute adapter environment "c1" "SARA_DEVICE_CONTROL_AUTH_TOKEN"
      "SARA_DEVICE_CONFIRMATION_TOKEN" prepared_yard).1.executed
    ≢ []
executed-changed h = ground (arith, opened, ap length h)

execute-IsCleared_example :
    IsCleared environment "c1" "SARA_DEVICE_CONTROL_AUTH_TOKEN" "SARA_DEVICE_CONFIRMATION_TOKEN"
      prepared_yard
execute-IsCleared_example =
    execute-IsCleared adapter environment "c1" "SARA_DEVICE_CONTROL_AUTH_TOKEN"
      "SARA_DEVICE_CONFIRMATION_TOKEN" prepared_yard executed-changed

abbrev sensor : Sender
sensor = record {
  device_id = "sensor";
  allowed_topics = "water" ∷ [];
  metric_allowlist = "level" ∷ [];
  enabled = true;
}

abbrev envelope : Envelope
envelope = record {
  device_id = "sensor";
  message_id = "m1";
  event_timestamp = 1000;
  topic = "water";
  metrics = "level" ∷ [];
  size = 100;
}

abbrev limits : Limits
limits = record {
  freshness_seconds = 120;
  max_payload_bytes = 32768;
  rate_limit = 120;
  failure_threshold = 5;
  quarantine_seconds = 900;
  max_events_per_device = 5000;
}

abbrev empty_store : IotStore
empty_store = record {
  devices = ("sensor", sensor) ∷ [];
  replay_ids = [];
  quarantine_events = [];
  telemetry_events = [];
}

abbrev verify_secret : String → String → Bool
verify_secret device secret = str_eq secret "secret"

authenticated :
    (authenticate_telemetry verify_secret limits envelope "secret" 1010 empty_store).0
    ≡ returned sensor
unfolding authenticate_telemetry authenticate_found admit fail is_quarantined last_quarantine
    is_outside recent_replay_count is_seen failure_count
authenticated = refl

recorded : (ingest verify_secret limits envelope "secret" 1010 empty_store).0 ≡ true
unfolding ingest authenticate_telemetry authenticate_found admit fail is_quarantined last_quarantine
    is_outside recent_replay_count is_seen failure_count stored record_telemetry keep_latest
recorded = refl

authenticate_telemetry-IsAdmitted_iff_example :
    ((authenticate_telemetry verify_secret limits envelope "secret" 1010 empty_store).0
      ≡ returned sensor)
    ↔ IsAdmitted verify_secret limits envelope "secret" 1010 sensor empty_store
authenticate_telemetry-IsAdmitted_iff_example =
    authenticate_telemetry-IsAdmitted_iff verify_secret limits envelope "secret" 1010 sensor
      empty_store

empty-IsKeyed : IsKeyed empty_store
empty-IsKeyed k d h = ground (arith, eq_iff "sensor" k)

ingest-no_replay_example :
    (ingest verify_secret limits envelope "secret" 1050 (
      ingest_all verify_secret limits
        ((envelope, "wrong", 1020) ∷ [])
        (ingest verify_secret limits envelope "secret" 1010 empty_store).1)).0
    ≢ true
ingest-no_replay_example =
    ingest-no_replay verify_secret limits envelope envelope "secret" "secret" 1010 1050
      ((envelope, "wrong", 1020) ∷ []) empty_store empty-IsKeyed recorded refl refl

abbrev key_of : String → String → String
key_of secret salt = append salt secret

abbrev valve_secret : String
valve_secret = "a-secret-of-24-characters"

abbrev valve_row : DeviceRow
valve_row = record {
  device = valve;
  secret_salt = "0a";
  secret_hash = "0aa-secret-of-24-characters";
  created_at = 7;
  updated_at = 7;
}

valve_is_registered :
    register_device key_of "0a" 7 valve (some valve_secret) []
    ≡ (returned valve, ("valve", valve_row) ∷ [])
unfolding register_device append
valve_is_registered = refl

register_device-IsRegistered_example :
    IsRegistered key_of "0a" 7 valve (some valve_secret) [] (("valve", valve_row) ∷ [])
register_device-IsRegistered_example =
    register_device-IsRegistered key_of "0a" 7 valve (some valve_secret) []
      (("valve", valve_row) ∷ []) valve valve_is_registered

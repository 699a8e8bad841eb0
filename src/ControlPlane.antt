-- ===== src/ControlPlane.antt =====
-- `IdempotencyLedger` and `RailwayControlBridge` of app/control_plane.py: a mutation of the
-- deployment is reserved under its idempotency key before it is sent. The table is the list of its
-- rows, and a JSON result is a value of `Report`.
pub mod Bridge
pub mod Deploy
pub mod Once
pub mod Replay
use Prim.Native.String.{len}
use sara_omega.Prelude.{
  ℕ, String, Bool, true, false, not, ◌&&◌, ◌||◌, List, [], ◌∷◌, Option, none, some, ltb, str_eq,
  if◌then◌else◌,
}
use sara_omega.Prelude.Attempt.{Attempt, returned, raised}

pub data Status : Type 0 where
  reserved completed rejected submission_unverified : Status

-- The results that `mark` stores.
pub data Report : Type 0 where
  deployed :
      (deployment_id commit_sha expected_previous_deployment_id project_id service_id
        environment_id : String)
      → Report
  changed_after_reservation : (observed_deployment_id : String) → Report
  transport_unverified : (reason : String) → Report
  http_unverified http_rejected : (http_status : ℕ) → Report
  commit_not_found mutation_response_ambiguous : Report

pub record MutationRecord : Type 0 where
  pub bridge : String
  pub idempotency_key : String
  pub request_hash : String
  pub status : Status
  pub result : Option Report
  pub created_at : String
  pub updated_at : String

abbrev pub Ledger : Type 0
Ledger = List MutationRecord

-- `bridge=? AND idempotency_key=?`
abbrev pub is_row : String → String → MutationRecord → Bool
is_row bridge key r = str_eq r.bridge bridge && str_eq r.idempotency_key key

unfoldable pub get : String → String → Ledger → Option MutationRecord
get bridge key [] = none
get bridge key (r ∷ rs) =
    let later = get bridge key rs in if is_row bridge key r then some r else later

abbrev pub blocking_error : Status → String
blocking_error submission_unverified = "SubmissionUnverified"
blocking_error _ = "IdempotencyConflict"

-- What `reserve` raises of a row that is there.
abbrev pub refused : String → MutationRecord → Attempt (Ledger × MutationRecord)
refused request_hash r =
    if not (str_eq r.request_hash request_hash)
    then raised "IdempotencyConflict"
    else raised (blocking_error r.status)

abbrev pub new_row : String → String → String → String → MutationRecord
new_row bridge key request_hash now = record {
  bridge = bridge;
  idempotency_key = key;
  request_hash = request_hash;
  status = reserved;
  result = none;
  created_at = now;
  updated_at = now;
}

-- `reserve` returns the table and the row.
unfoldable pub reserve :
    String → String → String → String → Ledger → Attempt (Ledger × MutationRecord)
unfolding get
reserve bridge key request_hash now ledger =
    if str_eq key "" || ltb 200 (len key)
    then raised "IdempotencyConflict"
    else elim (get bridge key ledger) [
      | some r ↦ refused request_hash r
      | none ↦
          returned
            (new_row bridge key request_hash now ∷ ledger, new_row bridge key request_hash now)
    ]

abbrev pub marked : Status → Option Report → String → MutationRecord → MutationRecord
marked status result now r = record {
  bridge = r.bridge;
  idempotency_key = r.idempotency_key;
  request_hash = r.request_hash;
  status = status;
  result = result;
  created_at = r.created_at;
  updated_at = now;
}

-- The `UPDATE` of `mark`.
unfoldable pub update : String → String → Status → Option Report → String → Ledger → Ledger
update bridge key status result now [] = []
update bridge key status result now (r ∷ rs) =
    let later = update bridge key status result now rs in
    if is_row bridge key r then marked status result now r ∷ rs else r ∷ later

unfoldable pub mark : String → String → Status → Option Report → String → Ledger → Attempt Ledger
unfolding get update
mark bridge key status result now ledger = elim (get bridge key ledger) [
  | none ↦ raised "IdempotencyConflict"
  | some r ↦ returned (update bridge key status result now ledger)
]

-- ===== src/Examples/Models.antt =====
-- The model allowlist at concrete inputs.
use sara_omega.Prelude.{String, ◌≡◌, refl, ◌↔◌, true, false, none, some, [], ◌∷◌}
use sara_omega.Prelude.Attempt.{returned}
use sara_omega.ModelSovereignty.{
  runtime_load, ModelLifecycleRequest, ModelDigestApproval, DigestRow, Store, Environment,
  is_authorized, allow, evaluate, accepted_result, save_approval, after_reserve, reserve,
  reserve_row, complete,
}
use sara_omega.ModelSovereignty.Verdicts.{evaluate-allow_iff}
use sara_omega.ModelSovereignty.Approvals.{save_approval-replay}

abbrev payload_hash : ModelDigestApproval → String
payload_hash a = a.approval_id

abbrev approval : ModelDigestApproval
approval = record {
  model_digest = "sha256:1";
  approval_id = "approval-1";
  approved_by = "architect";
  scope = "production_runtime_load";
  evidence_id = none;
}

abbrev other_approval : ModelDigestApproval
other_approval = record approval { approval_id = "approval-2" }

abbrev empty_store : Store
empty_store = record { authorized = []; idempotency = [] }

abbrev one_row : DigestRow
one_row = record { approval = approval; payload_hash = "approval-1"; created_at = "t1" }

abbrev one_store : Store
one_store = record { authorized = ("sha256:1", one_row) ∷ []; idempotency = [] }

abbrev environment : Environment
environment name = name

abbrev load_request : ModelLifecycleRequest
load_request = record {
  operation = runtime_load;
  actor = "runtime";
  target_model_uri = "m";
  model_digest = some "sha256:1";
}

evaluate-allow_iff_example :
    (((evaluate environment one_store load_request).verdict ≡ allow) ↔ (
      (load_request.operation ≡ runtime_load)
      × (is_authorized environment one_store load_request.model_digest ≡ true)))
    × (((evaluate environment one_store load_request).production_load_allowed ≡ true)
        ↔ ((evaluate environment one_store load_request).verdict ≡ allow))
    × (((evaluate environment one_store load_request).rollback_required ≡ false)
        ↔ ((evaluate environment one_store load_request).verdict ≡ allow))
evaluate-allow_iff_example = evaluate-allow_iff environment one_store load_request

abbrev saved : Store
saved = record {
  authorized = ("sha256:1", one_row) ∷ [];
  idempotency =
      (
        "key-12345",
        record {
          operation = "model_digest_approval";
          payload_hash = "approval-1";
          result = accepted_result payload_hash approval;
          created_at = "t1";
        },
      )
      ∷ [];
}

approval-saved :
    save_approval payload_hash approval "key-12345" "t1" empty_store
    ≡ (returned (accepted_result payload_hash approval), saved)
unfolding save_approval after_reserve reserve reserve_row complete
approval-saved = refl

save_approval-replay_example :
    save_approval payload_hash approval "key-12345" "t9" saved
    ≡ (returned (accepted_result payload_hash approval), saved)
save_approval-replay_example =
    save_approval-replay payload_hash approval "key-12345" "t1" "t9" empty_store saved
      (accepted_result payload_hash approval) approval-saved

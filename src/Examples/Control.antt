-- ===== src/Examples/Control.antt =====
-- A deployment that goes through, and its repetition.
use sara_omega.Prelude.{String, ◌≡◌, refl, true, false, some, [], ◌∷◌}
use sara_omega.Prelude.Text.{strip, rstrip, is_space, lower, translate, is_hex}
use sara_omega.Prelude.Attempt.{returned}
use sara_omega.ControlPlane.{Report, deployed, completed, get, reserve, update, mark}
use sara_omega.ControlPlane.Bridge.{
  read_response, deploy_response, Target, Client, Bridge, Call, Request, Plane, authenticate,
  validate_commit_sha, bound_id, current_deployment, existing_idempotency_result, checked,
}
use sara_omega.ControlPlane.Deploy.{
  conclude, settle, submit, after_recheck, after_reserve, after_read, after_lookup, with_request,
  deploy_exact_commit, run_calls,
}
use sara_omega.Prelude.Once.{IsOnce}
use sara_omega.ControlPlane.Once.{is_used, history, run_calls-IsOnce, is_known}
use sara_omega.ControlPlane.Replay.{deploy-replay, deploy-known}

abbrev target : Target
target = record { project_id = "p"; service_id = "s"; environment_id = "e" }

abbrev bridge : Bridge
bridge = record { inbound_token = "secret"; target = target }

-- Behind the client stands the id of the current deployment.
abbrev railway : Client String
railway = record {
  query = λ t w. (
    read_response 200 false (
        some (record {
          id = some w;
          project_id = some "p";
          service_id = some "s";
          environment_id = some "e";
        })),
    w,
  );
  mutate = λ t sha w. (deploy_response 200 [] (some "dep-2"), "dep-2");
}

abbrev sha : String
sha = "0123456789abcdef0123456789abcdef01234567"

abbrev request_hash : Request → String
request_hash q = q.commit_sha

abbrev first_call : Call
first_call = record {
  auth_token = "secret";
  commit_sha = sha;
  expected_current_deployment_id = "dep-1";
  idempotency_key = "key-1";
  reserved_at = "t1";
  marked_at = "t2";
}

abbrev start : Plane String
start = record { ledger = []; world = "dep-1"; sent = [] }

abbrev report : Report
report = deployed "dep-2" sha "dep-1" "p" "s" "e"

abbrev finish : Plane String
finish = record {
  ledger =
      record {
        bridge = "railway";
        idempotency_key = "key-1";
        request_hash = sha;
        status = completed;
        result = some report;
        created_at = "t1";
        updated_at = "t2";
      }
      ∷ [];
  world = "dep-2";
  sent = "key-1" ∷ [];
}

start-IsOnce : IsOnce is_used history start
start-IsOnce = record { used = tt; distinct = tt }

run_calls-IsOnce_example :
    IsOnce is_used history
      (run_calls railway request_hash bridge (first_call ∷ first_call ∷ []) start)
run_calls-IsOnce_example =
    run_calls-IsOnce railway request_hash bridge (first_call ∷ first_call ∷ []) start start-IsOnce

first_deploy :
    deploy_exact_commit railway request_hash bridge first_call start ≡ (returned report, finish)
unfolding deploy_exact_commit with_request after_lookup after_read after_reserve after_recheck
    submit settle conclude checked authenticate validate_commit_sha strip rstrip is_space lower
    translate is_hex current_deployment bound_id existing_idempotency_result get reserve update mark
first_deploy = refl

deploy-replay_example :
    deploy_exact_commit railway request_hash bridge first_call finish ≡ (returned report, finish)
deploy-replay_example =
    deploy-replay railway request_hash bridge first_call start finish report first_deploy

finish-known : is_known "key-1" finish.ledger ≡ true
unfolding get
finish-known = refl

deploy-known_example :
    (deploy_exact_commit railway request_hash bridge first_call finish).1 ≡ finish
deploy-known_example = deploy-known railway request_hash bridge first_call finish finish-known

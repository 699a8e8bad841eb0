-- ===== src/ControlPlane/Deploy.antt =====
-- `deploy_exact_commit` of app/control_plane.py, split where the code can raise. The HTTP client
-- and Railway are the argument `client`; SHA-256 over the canonical JSON of a request is the
-- argument `request_hash`.
use sara_omega.Prelude.{
  String, not, ◌&&◌, List, [], ◌∷◌, Option, none, some, leb, str_eq, is_empty, if◌then◌else◌,
}
use sara_omega.Prelude.Attempt.{Attempt, returned, raised}
use sara_omega.ControlPlane.{
  Status, completed, rejected, submission_unverified, Report, deployed, changed_after_reservation,
  transport_unverified, http_unverified, http_rejected, commit_not_found,
  mutation_response_ambiguous, MutationRecord, Ledger, get, reserve, mark,
}
use sara_omega.ControlPlane.Bridge.{
  DeployReply, deploy_failed, deploy_response, Client, Bridge, Call, Request, Plane,
  current_deployment, existing_idempotency_result, checked, says_not_found,
}

-- A deployment's id, which has to be a text that is not empty.
abbrev pub text_or_empty : Option String → String
text_or_empty none = ""
text_or_empty (some t) = t

abbrev pub completed_report : Request → String → Report
completed_report q i =
    deployed i q.commit_sha q.expected_current_deployment_id q.target.project_id q.target.service_id
      q.target.environment_id

module _ {W : Type 0} where
  abbrev pub with_ledger : Ledger → Plane W → Plane W
  with_ledger l s = record { ledger = l; world = s.world; sent = s.sent }

  abbrev pub with_world : W → Plane W → Plane W
  with_world w s = record { ledger = s.ledger; world = w; sent = s.sent }

  -- After `self.ledger.mark(...)`: the `raise` or `return` that follows.
  abbrev pub after_mark : Attempt Report → Plane W → Attempt Ledger → Attempt Report × Plane W
  after_mark outcome s (raised e) = (raised e, s)
  after_mark outcome s (returned l) = (outcome, with_ledger l s)

  unfoldable pub conclude :
      Call → Status → Report → Attempt Report → Plane W → Attempt Report × Plane W
  unfolding mark
  conclude c status report outcome s =
      after_mark outcome s
        (mark "railway" c.idempotency_key status (some report) c.marked_at s.ledger)

  -- From the reply to the mutation on.
  unfoldable pub settle : Call → Request → DeployReply → Plane W → Attempt Report × Plane W
  unfolding conclude says_not_found
  settle c q (deploy_failed reason) s =
      conclude c submission_unverified (transport_unverified reason) (raised "SubmissionUnverified")
        s
  settle c q (deploy_response status messages deployment_id) s =
      let report = completed_report q (text_or_empty deployment_id) in
      if leb 500 status
      then conclude c submission_unverified (http_unverified status) (raised "SubmissionUnverified")
          s
      else if leb 400 status
      then conclude c rejected (http_rejected status) (raised "PrivilegedControlError") s
      else if is_empty messages && not (str_eq (text_or_empty deployment_id) "")
      then conclude c completed report (returned report) s
      else if says_not_found messages
      then conclude c rejected commit_not_found (raised "PrivilegedControlError") s
      else conclude c submission_unverified mutation_response_ambiguous
          (raised "SubmissionUnverified") s

module _ {W : Type 0} (client : Client W) (request_hash : Request → String) where
  unfoldable pub submit : Call → Request → Plane W → Attempt Report × Plane W
  unfolding settle
  submit c q s =
      let answer = client.mutate q.target q.commit_sha s.world in
      settle c q answer.0
        (record { ledger = s.ledger; world = answer.1; sent = c.idempotency_key ∷ s.sent })

  -- From the second reading of the deployment on.
  unfoldable pub after_recheck :
      Call → Request → Attempt String → Plane W → Attempt Report × Plane W
  unfolding submit conclude
  after_recheck c q (raised e) s = (raised e, s)
  after_recheck c q (returned id) s =
      if not (str_eq id q.expected_current_deployment_id)
      then conclude c rejected (changed_after_reservation id) (raised "CompareAndSwapRejected") s
      else submit c q s

  unfoldable pub after_reserve :
      Call → Request → Attempt (Ledger × MutationRecord) → Plane W → Attempt Report × Plane W
  unfolding after_recheck current_deployment
  after_reserve c q (raised e) s = (raised e, s)
  after_reserve c q (returned l) s =
      let answer = client.query q.target s.world in
      after_recheck c q (current_deployment q.target answer.0)
        (with_world answer.1 (with_ledger l.0 s))

  -- From the first reading of the deployment on.
  unfoldable pub after_read : Call → Request → Attempt String → Plane W → Attempt Report × Plane W
  unfolding after_reserve reserve
  after_read c q (raised e) s = (raised e, s)
  after_read c q (returned id) s =
      if not (str_eq id q.expected_current_deployment_id)
      then (raised "CompareAndSwapRejected", s)
      else after_reserve c q
          (reserve "railway" c.idempotency_key (request_hash q) c.reserved_at s.ledger) s

  unfoldable pub after_lookup :
      Call → Request → Attempt (Option Report) → Plane W → Attempt Report × Plane W
  unfolding after_read current_deployment
  after_lookup c q (raised e) s = (raised e, s)
  after_lookup c q (returned (some r)) s = (returned r, s)
  after_lookup c q (returned none) s =
      let answer = client.query q.target s.world in
      after_read c q (current_deployment q.target answer.0) (with_world answer.1 s)

  unfoldable pub with_request : Call → Attempt Request → Plane W → Attempt Report × Plane W
  unfolding after_lookup existing_idempotency_result get
  with_request c (raised e) s = (raised e, s)
  with_request c (returned q) s =
      after_lookup c q
        (existing_idempotency_result (get "railway" c.idempotency_key s.ledger) (request_hash q)) s

  unfoldable pub deploy_exact_commit : Bridge → Call → Plane W → Attempt Report × Plane W
  unfolding with_request checked
  deploy_exact_commit b c s = with_request c (checked b c) s

  -- One call after the other.
  unfoldable pub run_calls : Bridge → List Call → Plane W → Plane W
  unfolding deploy_exact_commit
  run_calls b [] s = s
  run_calls b (c ∷ cs) s = run_calls b cs (deploy_exact_commit b c s).1

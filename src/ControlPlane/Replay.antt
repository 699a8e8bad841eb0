-- ===== src/ControlPlane/Replay.antt =====
-- What a call of app/control_plane.py does under a key that the ledger knows.
use mathlib.Core.Path.{subst}
use sara_omega.Prelude.{
  String, ◌≡◌, refl, ap, ◌≢◌, Bool, true, false, not, [], ◌∷◌, Option, none, some, arith, str_eq,
  eq_iff, if◌then◌else◌,
}
use sara_omega.Prelude.Attempt.{Attempt, returned, raised}
use sara_omega.ControlPlane.{
  Status, completed, Report, MutationRecord, Ledger, get, new_row, reserve, update, marked, mark,
}
use sara_omega.ControlPlane.Bridge.{
  DeployReply, deploy_failed, deploy_response, Client, Bridge, Call, Request, Plane,
  existing_idempotency_result, stored_result, current_deployment, checked,
}
use sara_omega.ControlPlane.Deploy.{
  after_mark, conclude, settle, submit, after_recheck, after_reserve, after_read, after_lookup,
  with_request, deploy_exact_commit, with_ledger, with_world,
}
use sara_omega.ControlPlane.Once.{is_known, reserve-new}

get-update :
    (key : String) (status : Status) (result : Option Report) (now : String) (l : Ledger)
    (row : MutationRecord)
    → get "railway" key l ≡ some row
    → get "railway" key (update "railway" key status result now l)
      ≡ some (marked status result now row)
unfolding get update
get-update key status result now [] row h = cc
get-update key status result now (r ∷ rs) row h =
    ground (arith, get-update key status result now rs row)

mark-found :
    (key : String) (status : Status) (result : Option Report) (now : String) (l : Ledger)
    (row : MutationRecord)
    → get "railway" key l ≡ some row
    → mark "railway" key status result now l ≡ returned (update "railway" key status result now l)
unfolding mark
mark-found key status result now l row h = rw (mark, h) refl

stored_result-some : (status : Status) (x : Option Report) → stored_result status x ≢ returned none
stored_result-some completed none = λ e. cc
stored_result-some completed (some r) = λ e. cc
stored_result-some _ x = λ e. ground arith

-- The key's row holds a completed call with this request and this report.
record Stored (request_hash key : String) (r : Report) (l : Ledger) : Type 0 where
  row : MutationRecord
  found : get "railway" key l ≡ some row
  same_request : row.request_hash ≡ request_hash
  is_completed : row.status ≡ completed
  reported : row.result ≡ some r

-- The key's row is that of this request.
record Reserved (request_hash key : String) (l : Ledger) : Type 0 where
  row : MutationRecord
  found : get "railway" key l ≡ some row
  same_request : row.request_hash ≡ request_hash

-- A report that is returned is stored.
record Lands {W : Type 0} (h key : String) (x : Attempt Report × Plane W) : Type 0 where
  stored : (r : Report) → x.0 ≡ returned r → Stored h key r x.1.ledger

Lands-if :
    {W : Type 0} (h key : String) (b : Bool) (x y : Attempt Report × Plane W)
    → Lands h key x
    → Lands h key y
    → Lands h key (if b then x else y)
Lands-if h key true x y p q = p
Lands-if h key false x y p q = q

Lands-raised : {W : Type 0} (h key e : String) (s : Plane W) → Lands h key (raised e, s)
Lands-raised h key e s = record { stored = λ r p. cc }

module _ {W : Type 0} (c : Call) (h : String) where
  conclude-raised :
      (status : Status) (report : Report) (e : String) (s : Plane W)
      → Lands h c.idempotency_key (conclude c status report (raised e) s)
  unfolding conclude
  conclude-raised status report e s =
      go (mark "railway" c.idempotency_key status (some report) c.marked_at s.ledger)
    where
      go : (m : Attempt Ledger) → Lands h c.idempotency_key (after_mark (raised e) s m)
      go (raised x) = Lands-raised h c.idempotency_key x s
      go (returned x) = Lands-raised h c.idempotency_key e (with_ledger x s)

  conclude-completed :
      (report : Report) (s : Plane W)
      → Reserved h c.idempotency_key s.ledger
      → Lands h c.idempotency_key (conclude c completed report (returned report) s)
  unfolding conclude
  conclude-completed report s w =
      rw (mark-found c.idempotency_key completed (some report) c.marked_at s.ledger w.row w.found)
        (record {
          stored = λ r p. record {
            row = marked completed (some report) c.marked_at w.row;
            found =
                get-update c.idempotency_key completed (some report) c.marked_at s.ledger w.row
                  w.found;
            same_request = w.same_request;
            is_completed = refl;
            reported = ground arith;
          };
        })

  settle-Lands :
      (q : Request) (answer : DeployReply) (s : Plane W)
      → Reserved h c.idempotency_key s.ledger
      → Lands h c.idempotency_key (settle c q answer s)
  unfolding settle
  settle-Lands q (deploy_failed reason) s w = conclude-raised _ _ _ s
  settle-Lands q (deploy_response status messages i) s w =
      search (Lands-if, conclude-raised, conclude-completed, w)

module _ {W : Type 0} (client : Client W) (request_hash : Request → String) where
  reserved_row :
      (key h now : String) (l : Ledger) (x : Ledger × MutationRecord)
      → reserve "railway" key h now l ≡ returned x
      → Reserved h key x.0
  unfolding get
  reserved_row key h now l x e = record {
    row = new_row "railway" key h now;
    found = rw (← reserve-new client request_hash key h now l x e) (ground (arith, eq_iff key key));
    same_request = refl;
  }

  after_recheck-Lands :
      (c : Call) (q : Request) (r : Attempt String) (s : Plane W)
      → Reserved (request_hash q) c.idempotency_key s.ledger
      → Lands (request_hash q) c.idempotency_key (after_recheck client request_hash c q r s)
  unfolding after_recheck submit
  after_recheck-Lands c q (raised e) s w = Lands-raised _ _ e s
  after_recheck-Lands c q (returned i) s w =
      let answer = client.mutate q.target q.commit_sha s.world in
      Lands-if _ _ (not (str_eq i q.expected_current_deployment_id)) _ _
        (conclude-raised c (request_hash q) _ _ _ s)
        (settle-Lands c (request_hash q) q answer.0
          (record { ledger = s.ledger; world = answer.1; sent = c.idempotency_key ∷ s.sent }) w)

  after_reserve-Lands :
      (c : Call) (q : Request) (r : Attempt (Ledger × MutationRecord)) (s : Plane W)
      → reserve "railway" c.idempotency_key (request_hash q) c.reserved_at s.ledger ≡ r
      → Lands (request_hash q) c.idempotency_key (after_reserve client request_hash c q r s)
  unfolding after_reserve
  after_reserve-Lands c q (raised e) s h = Lands-raised _ _ e s
  after_reserve-Lands c q (returned x) s h =
      let answer = client.query q.target s.world in
      after_recheck-Lands c q (current_deployment q.target answer.0)
        (with_world answer.1 (with_ledger x.0 s)) (reserved_row _ _ _ s.ledger x h)

  after_read-Lands :
      (c : Call) (q : Request) (r : Attempt String) (s : Plane W)
      → Lands (request_hash q) c.idempotency_key (after_read client request_hash c q r s)
  unfolding after_read
  after_read-Lands c q (raised e) s = Lands-raised _ _ e s
  after_read-Lands c q (returned i) s =
      Lands-if _ _ (not (str_eq i q.expected_current_deployment_id)) _ _
        (Lands-raised _ _ "CompareAndSwapRejected" s) (after_reserve-Lands c q _ s refl)

  existing-Stored :
      (hash key : String) (r : Report) (l : Ledger)
      → Stored hash key r l
      → existing_idempotency_result (get "railway" key l) hash ≡ returned (some r)
  unfolding existing_idempotency_result
  existing-Stored hash key r l w =
      rw (w.found, w.is_completed, w.reported)
        (ground (arith, eq_iff w.row.request_hash hash, w.same_request))

  repeat_lookup :
      (c : Call) (q : Request) (m : Attempt (Option Report)) (s s' : Plane W) (r : Report)
      → existing_idempotency_result (get "railway" c.idempotency_key s.ledger) (request_hash q) ≡ m
      → after_lookup client request_hash c q m s ≡ (returned r, s')
      → existing_idempotency_result (get "railway" c.idempotency_key s'.ledger) (request_hash q)
        ≡ returned (some r)
  unfolding after_lookup
  repeat_lookup c q (raised e) s s' r k h = cc
  repeat_lookup c q (returned (some x)) s s' r k h = cc
  repeat_lookup c q (returned none) s s' r k h =
      let answer = client.query q.target s.world in
      let t = after_read-Lands c q (current_deployment q.target answer.0) (with_world answer.1 s) in
      let p = ap (λ x. x.1) h in
      existing-Stored (request_hash q) c.idempotency_key r s'.ledger (
        subst (λ x. Stored (request_hash q) c.idempotency_key r x.ledger) p
          (t.stored r (ap (λ x. x.0) h)))

  -- A call that has returned a report, and is made again, returns it again: nothing is sent, and
  -- the ledger stays.
  pub deploy-replay :
      (b : Bridge) (c : Call) (s s' : Plane W) (r : Report)
      → deploy_exact_commit client request_hash b c s ≡ (returned r, s')
      → deploy_exact_commit client request_hash b c s' ≡ (returned r, s')
  unfolding deploy_exact_commit with_request after_lookup
  deploy-replay b c s s' r h = go (checked b c) h
    where
      go :
          (m : Attempt Request)
          → with_request client request_hash c m s ≡ (returned r, s')
          → with_request client request_hash c m s' ≡ (returned r, s')
      go (raised e) p = cc
      go (returned q) p = rw (repeat_lookup c q _ s s' r refl p) refl

  -- A call whose key the ledger knows sends nothing, asks nothing and changes nothing.
  pub deploy-known :
      (b : Bridge) (c : Call) (s : Plane W)
      → is_known c.idempotency_key s.ledger ≡ true
      → (deploy_exact_commit client request_hash b c s).1 ≡ s
  unfolding deploy_exact_commit with_request after_lookup existing_idempotency_result
  deploy-known b c s h = go (checked b c)
    where
      lookup_known :
          (q : Request) (m : Attempt (Option Report))
          → m ≢ returned none
          → (after_lookup client request_hash c q m s).1 ≡ s
      lookup_known q (raised e) p = refl
      lookup_known q (returned (some r)) p = refl
      lookup_known q (returned none) p = absurd (p refl)

      not_none :
          (hash : String) (o : Option MutationRecord)
          → get "railway" c.idempotency_key s.ledger ≡ o
          → existing_idempotency_result o hash ≢ returned none
      not_none hash none g e = ground (arith, g, h)
      not_none hash (some r) g e = ground (arith, stored_result-some r.status r.result)

      go : (m : Attempt Request) → (with_request client request_hash c m s).1 ≡ s
      go (raised e) = refl
      go (returned q) = lookup_known q _ (not_none (request_hash q) _ refl)

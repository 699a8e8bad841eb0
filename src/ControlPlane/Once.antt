-- ===== src/ControlPlane/Once.antt =====
-- No mutation of app/control_plane.py is sent twice under one idempotency key.
use sara_omega.Prelude.{
  String, ◌≡◌, refl, ◌∙◌, ◌≢◌, ◌⊎◌, inl, inr, Bool, true, false, not, List, [], ◌∷◌, Option, none,
  some, arith, str_eq, eq_iff, if◌then◌else◌,
}
use sara_omega.Prelude.Attempt.{Attempt, returned, raised}
use sara_omega.Prelude.Once.{IsOnce, Moved, Moved-IsOnce}
use sara_omega.ControlPlane.{
  Status, Report, MutationRecord, Ledger, get, new_row, reserve, refused, update, mark,
}
use sara_omega.ControlPlane.Bridge.{
  DeployReply, deploy_failed, deploy_response, Client, Bridge, Call, Request, Plane,
  current_deployment, checked,
}
use sara_omega.ControlPlane.Deploy.{
  after_mark, conclude, settle, submit, after_recheck, after_reserve, after_read, with_ledger,
  with_world, after_lookup, with_request, deploy_exact_commit, run_calls,
}

abbrev is_some {ℓ} : {A : Type ℓ} → Option A → Bool
is_some none = false
is_some (some a) = true

-- The ledger has a row for the key.
abbrev pub is_known : String → Ledger → Bool
is_known key l = is_some (get "railway" key l)

-- The same of a state, and the keys of the mutations that were sent.
abbrev pub is_used : {W : Type 0} → String → Plane W → Bool
is_used key s = is_known key s.ledger

abbrev pub history : {W : Type 0} → Plane W → List String
history s = s.sent

is_known-update :
    (k key : String) (status : Status) (result : Option Report) (now : String) (l : Ledger)
    → is_known k (update "railway" key status result now l) ≡ is_known k l
unfolding update get
is_known-update k key status result now [] = refl
is_known-update k key status result now (r ∷ rs) =
    ground (arith, is_known-update k key status result now rs)

module _ {W : Type 0} where
  -- Nothing is sent, and the same keys are known.
  pub record Kept (s : Plane W) (x : Attempt Report × Plane W) : Type 0 where
    pub same_sent : x.1.sent ≡ s.sent
    pub same_known : (k : String) → is_known k x.1.ledger ≡ is_known k s.ledger

  Kept-if :
      (s : Plane W) (b : Bool) (x y : Attempt Report × Plane W)
      → Kept s x
      → Kept s y
      → Kept s (if b then x else y)
  Kept-if s true x y h k = h
  Kept-if s false x y h k = k

  conclude-Kept :
      (c : Call) (status : Status) (report : Report) (outcome : Attempt Report) (s : Plane W)
      → Kept s (conclude c status report outcome s)
  unfolding conclude mark
  conclude-Kept c status report outcome s = go (get "railway" c.idempotency_key s.ledger)
    where
      go :
          (o : Option MutationRecord)
          → Kept s (
              after_mark outcome s (elim o [
                | none ↦ raised "IdempotencyConflict"
                | some r ↦
                    returned
                      (update "railway" c.idempotency_key status (some report) c.marked_at s.ledger)
              ]))
      go none = record { same_sent = refl; same_known = λ k. refl }
      go (some r) = record {
        same_sent = refl;
        same_known =
            λ k. is_known-update k c.idempotency_key status (some report) c.marked_at s.ledger;
      }

  settle-Kept : (c : Call) (q : Request) (r : DeployReply) (s : Plane W) → Kept s (settle c q r s)
  unfolding settle
  settle-Kept c q (deploy_failed reason) s = search (conclude-Kept)
  settle-Kept c q (deploy_response status messages i) s = search (Kept-if, conclude-Kept)

  -- A call that keeps the known keys, and sends at most one mutation: one whose key was not known,
  -- and is known from then on.
  pub record Sends (key : String) (s : Plane W) (x : Attempt Report × Plane W) : Type 0 where
    pub keeps : (k : String) → is_known k s.ledger ≡ true → is_known k x.1.ledger ≡ true
    pub sends :
        (x.1.sent ≡ s.sent)
        ⊎ ((is_known key s.ledger ≡ false)
            × (x.1.sent ≡ key ∷ s.sent)
            × (is_known key x.1.ledger ≡ true))

  stay-Sends :
      (key : String) (s s' : Plane W) (r : Attempt Report)
      → s'.ledger ≡ s.ledger
      → s'.sent ≡ s.sent
      → Sends key s (r, s')
  stay-Sends key s s' r l h = record { keeps = λ k e. rw l e; sends = inl h }

  Sends-if :
      (key : String) (s : Plane W) (b : Bool) (x y : Attempt Report × Plane W)
      → Sends key s x
      → Sends key s y
      → Sends key s (if b then x else y)
  Sends-if key s true x y h k = h
  Sends-if key s false x y h k = k

  -- The same keys are known, and at most the key's mutation is sent.
  record Ended (key : String) (s : Plane W) (x : Attempt Report × Plane W) : Type 0 where
    same_known : (k : String) → is_known k x.1.ledger ≡ is_known k s.ledger
    sends : (x.1.sent ≡ s.sent) ⊎ (x.1.sent ≡ key ∷ s.sent)

  Ended-if :
      (key : String) (s : Plane W) (b : Bool) (x y : Attempt Report × Plane W)
      → Ended key s x
      → Ended key s y
      → Ended key s (if b then x else y)
  Ended-if key s true x y h k = h
  Ended-if key s false x y h k = k

  Kept-Ended :
      (key : String) (s : Plane W) (x : Attempt Report × Plane W) → Kept s x → Ended key s x
  Kept-Ended key s x h = record { same_known = h.same_known; sends = inl h.same_sent }

  Sends-Moved :
      (key : String) (s : Plane W) (x : Attempt Report × Plane W)
      → Sends key s x
      → Moved is_used history key s x.1
  Sends-Moved key s x h = record { keeps = h.keeps; adds = h.sends }

module _ {W : Type 0} (client : Client W) (request_hash : Request → String) where
  submit-Ended :
      (c : Call) (q : Request) (s : Plane W)
      → Ended c.idempotency_key s (submit client request_hash c q s)
  unfolding submit
  submit-Ended c q s =
      let answer = client.mutate q.target q.commit_sha s.world in
      let h =
        settle-Kept c q answer.0
          (record { ledger = s.ledger; world = answer.1; sent = c.idempotency_key ∷ s.sent }) in
      record { same_known = h.same_known; sends = inr h.same_sent }

  after_recheck-Ended :
      (c : Call) (q : Request) (r : Attempt String) (s : Plane W)
      → Ended c.idempotency_key s (after_recheck client request_hash c q r s)
  unfolding after_recheck
  after_recheck-Ended c q (raised e) s = record { same_known = λ k. refl; sends = inl refl }
  after_recheck-Ended c q (returned i) s =
      search (Ended-if, Kept-Ended, conclude-Kept, submit-Ended)

  refused-raised :
      (h : String) (r : MutationRecord) (x : Ledger × MutationRecord) → refused h r ≢ returned x
  refused-raised h r x e = ground arith

  new-known :
      (key h now : String) (l : Ledger) (x : Ledger × MutationRecord) (o : Option MutationRecord)
      → get "railway" key l ≡ o
      → (elim o [
        | some r ↦ refused h r
        | none ↦ returned (new_row "railway" key h now ∷ l, new_row "railway" key h now)
      ])
        ≡ returned x
      → (is_known key l ≡ false)
        × (is_known key x.0 ≡ true)
        × ((k : String) → is_known k l ≡ true → is_known k x.0 ≡ true)
  unfolding get
  new-known key h now l x none g e =
      let p : (new_row "railway" key h now ∷ l) ≡ x.0 = cc in
      (ground (arith, g), rw (← p) (ground (arith, eq_iff key key)), λ k q. rw (← p) (ground arith))
  new-known key h now l x (some r) g e = absurd (refused-raised h r x e)

  pub reserve-new :
      (key h now : String) (l : Ledger) (x : Ledger × MutationRecord)
      → reserve "railway" key h now l ≡ returned x
      → (new_row "railway" key h now ∷ l) ≡ x.0
  unfolding reserve
  reserve-new key h now l x e = go (get "railway" key l) (ground arith)
    where
      go :
          (o : Option MutationRecord)
          → (elim o [
            | some r ↦ refused h r
            | none ↦ returned (new_row "railway" key h now ∷ l, new_row "railway" key h now)
          ])
            ≡ returned x
          → (new_row "railway" key h now ∷ l) ≡ x.0
      go none p = cc
      go (some r) p = absurd (refused-raised h r x p)

  reserve-known :
      (key h now : String) (l : Ledger) (x : Ledger × MutationRecord)
      → reserve "railway" key h now l ≡ returned x
      → (is_known key l ≡ false)
        × (is_known key x.0 ≡ true)
        × ((k : String) → is_known k l ≡ true → is_known k x.0 ≡ true)
  unfolding reserve
  reserve-known key h now l x e = new-known key h now l x (get "railway" key l) refl (ground arith)

  after_reserve-Sends :
      (c : Call) (q : Request) (r : Attempt (Ledger × MutationRecord)) (s : Plane W)
      → reserve "railway" c.idempotency_key (request_hash q) c.reserved_at s.ledger ≡ r
      → Sends c.idempotency_key s (after_reserve client request_hash c q r s)
  unfolding after_reserve
  after_reserve-Sends c q (raised e) s h = stay-Sends _ s s (raised e) refl refl
  after_reserve-Sends c q (returned x) s h =
      let (unknown, new, kept) = reserve-known _ _ _ s.ledger x h in
      let answer = client.query q.target s.world in
      let t =
        after_recheck-Ended c q (current_deployment q.target answer.0)
          (with_world answer.1 (with_ledger x.0 s)) in
      record {
        keeps = λ k e. t.same_known k ∙ kept k e;
        sends = elim t.sends [
          | inl e ↦ inl e
          | inr e ↦ inr (unknown, e, t.same_known c.idempotency_key ∙ new)
        ];
      }

  after_read-Sends :
      (c : Call) (q : Request) (r : Attempt String) (s : Plane W)
      → Sends c.idempotency_key s (after_read client request_hash c q r s)
  unfolding after_read
  after_read-Sends c q (raised e) s = stay-Sends _ s s _ refl refl
  after_read-Sends c q (returned i) s =
      Sends-if c.idempotency_key s (not (str_eq i q.expected_current_deployment_id)) _ _
        (stay-Sends c.idempotency_key s s (raised "CompareAndSwapRejected") refl refl)
        (after_reserve-Sends c q _ s refl)

  after_lookup-Sends :
      (c : Call) (q : Request) (r : Attempt (Option Report)) (s : Plane W)
      → Sends c.idempotency_key s (after_lookup client request_hash c q r s)
  unfolding after_lookup
  after_lookup-Sends c q (raised e) s = stay-Sends _ s s _ refl refl
  after_lookup-Sends c q (returned (some r)) s = stay-Sends _ s s _ refl refl
  after_lookup-Sends c q (returned none) s =
      let answer = client.query q.target s.world in
      let t = after_read-Sends c q (current_deployment q.target answer.0) (with_world answer.1 s) in
      record { keeps = t.keeps; sends = t.sends }

  with_request-Sends :
      (c : Call) (r : Attempt Request) (s : Plane W)
      → Sends c.idempotency_key s (with_request client request_hash c r s)
  unfolding with_request
  with_request-Sends c (raised e) s = stay-Sends _ s s _ refl refl
  with_request-Sends c (returned q) s = after_lookup-Sends c q _ s

  deploy-Sends :
      (b : Bridge) (c : Call) (s : Plane W)
      → Sends c.idempotency_key s (deploy_exact_commit client request_hash b c s)
  unfolding deploy_exact_commit
  deploy-Sends b c s = with_request-Sends c (checked b c) s

  -- Over any sequence of calls, and whatever is answered, no key's mutation is sent twice, and
  -- each that was sent has a row in the ledger.
  pub run_calls-IsOnce :
      (b : Bridge) (cs : List Call) (s : Plane W)
      → IsOnce is_used history s
      → IsOnce is_used history (run_calls client request_hash b cs s)
  unfolding run_calls
  run_calls-IsOnce b [] s h = h
  run_calls-IsOnce b (c ∷ cs) s h = run_calls-IsOnce b cs _ (
      Moved-IsOnce is_used history c.idempotency_key s _
        (Sends-Moved c.idempotency_key s _ (deploy-Sends b c s)) h)

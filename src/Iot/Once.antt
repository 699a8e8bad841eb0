-- ===== src/Iot/Once.antt =====
-- No command of app/iot/commands.py is given to an adapter twice.
use sara_omega.Prelude.{
  String, ◌≡◌, refl, inl, inr, Bool, true, false, not, List, [], ◌∷◌, Option, none, some, str_eq,
  eq_iff, if◌then◌else◌, arith,
}
use sara_omega.Prelude.Dict.{lookup, lookup-insert}
use sara_omega.Prelude.Attempt.{Attempt, returned, raised, ◌>>=◌}
use sara_omega.Prelude.Once.{IsOnce, Moved, Moved-IsOnce}
use sara_omega.Iot.{
  CommandStatus, prepared, reserved, completed, rejected, submission_unverified, AdapterOutcome,
  Device, Intent, CommandRecord, Adapter, Yard, Environment, check_status, status_of, with_status,
  update_command, checked, settle, submit, after_checks, with_record, execute, reserve_row,
  reserve_command, preparable, prepare,
}

abbrev is_started : CommandStatus → Bool
is_started prepared = false
is_started _ = true

abbrev is_started_record : {P : Type 0} → Option (CommandRecord P) → Bool
is_started_record none = false
is_started_record (some r) = is_started r.status

-- The command has been reserved, and perhaps more.
abbrev pub is_used : {P W : Type 0} → String → Yard P W → Bool
is_used id s = is_started_record (lookup id s.commands)

abbrev pub history : {P W : Type 0} → Yard P W → List String
history s = s.executed

status_of-started : (o : AdapterOutcome) → is_started (status_of o) ≡ true
status_of-started o = ground arith

checked_status :
    (st : CommandStatus) (m : Attempt Device) (d : Device)
    → (check_status st >>= λ _. m) ≡ returned d
    → st ≡ prepared
unfolding check_status
checked_status prepared m d h = refl
checked_status reserved m d h = cc
checked_status completed m d h = cc
checked_status rejected m d h = cc
checked_status submission_unverified m d h = cc

module _ {P W : Type 0} where
  pub checked-prepared :
      (env : Environment) (r : CommandRecord P) (control confirmation : String) (s : Yard P W)
      (d : Device)
      → checked env r control confirmation s ≡ returned d
      → r.status ≡ prepared
  unfolding checked
  checked-prepared env r control confirmation s d h = checked_status r.status _ d h

  update-kept :
      (id : String) (st : CommandStatus) (o : Option AdapterOutcome) (r : CommandRecord P)
      (s : Yard P W) (k : String)
      → is_started st ≡ true
      → is_used k s ≡ true
      → is_used k (update_command id st o r s) ≡ true
  update-kept id st o r s k h u =
      ground (arith, h, u, lookup-insert id k (with_status st o r) s.commands)

  update-used :
      (id : String) (st : CommandStatus) (o : Option AdapterOutcome) (r : CommandRecord P)
      (s : Yard P W)
      → is_started st ≡ true
      → is_used id (update_command id st o r s) ≡ true
  update-used id st o r s h =
      ground (arith, h, eq_iff id id, lookup-insert id id (with_status st o r) s.commands)

  settle-kept :
      (id : String) (r : CommandRecord P) (a : Attempt AdapterOutcome) (s : Yard P W) (k : String)
      → is_used k s ≡ true
      → is_used k (settle id r a s).1 ≡ true
  unfolding settle
  settle-kept id r (raised e) s k u = u
  settle-kept id r (returned o) s k u =
      update-kept id (status_of o) (some o) r s k (status_of-started o) u

  settle-executed :
      (id : String) (r : CommandRecord P) (a : Attempt AdapterOutcome) (s : Yard P W)
      → (settle id r a s).1.executed ≡ s.executed
  unfolding settle
  settle-executed id r (raised e) s = refl
  settle-executed id r (returned o) s = refl

  stay-Moved : (id : String) (s : Yard P W) → Moved is_used history id s s
  stay-Moved id s = record { keeps = λ k u. u; adds = inl refl }

module _ {P W : Type 0} (adapter : Adapter P W) where
  submit-Moved :
      (id : String) (r : CommandRecord P) (d : Device) (s : Yard P W)
      → is_used id s ≡ false
      → Moved is_used history id s (submit adapter id r d s).1
  unfolding submit
  submit-Moved id r d s unused =
      let t = update_command id reserved none r s in
      let answer = adapter.run d r.intent t.world in
      let u : Yard P W = record {
        devices = t.devices;
        commands = t.commands;
        world = answer.1;
        executed = id ∷ t.executed;
      } in
      record {
        keeps = λ k h. settle-kept id r answer.0 u k (update-kept id reserved none r s k refl h);
        adds = inr (
          unused,
          settle-executed id r answer.0 u,
          settle-kept id r answer.0 u id (update-used id reserved none r s refl),
        );
      }

  after_checks-Moved :
      (id : String) (r : CommandRecord P) (m : Attempt Device) (s : Yard P W)
      → ((d : Device) → m ≡ returned d → is_used id s ≡ false)
      → Moved is_used history id s (after_checks adapter id r m s).1
  unfolding after_checks
  after_checks-Moved id r (raised e) s h = stay-Moved id s
  after_checks-Moved id r (returned d) s h = submit-Moved id r d s (h d refl)

  with_record-Moved :
      (env : Environment) (id : String) (o : Option (CommandRecord P))
      (control confirmation : String) (s : Yard P W)
      → lookup id s.commands ≡ o
      → Moved is_used history id s (with_record adapter env id o control confirmation s).1
  unfolding with_record
  with_record-Moved env id none control confirmation s e = stay-Moved id s
  with_record-Moved env id (some r) control confirmation s e =
      after_checks-Moved id r (checked env r control confirmation s) s
        (λ d h. rw e (ground (arith, checked-prepared env r control confirmation s d h)))

  execute-Moved :
      (env : Environment) (id control confirmation : String) (s : Yard P W)
      → Moved is_used history id s (execute adapter env id control confirmation s).1
  unfolding execute
  execute-Moved env id control confirmation s =
      with_record-Moved env id (lookup id s.commands) control confirmation s refl

  -- The requests of a client: to prepare a command under a new id, and to execute one.
  pub data Operation : Type 0 where
    to_prepare : (new_id : String) → Intent P → Operation
    to_execute : (id control confirmation : String) → Operation

  abbrev yard_after : Yard P W → Attempt (CommandRecord P × Yard P W) → Yard P W
  yard_after s (raised e) = s
  yard_after s (returned x) = x.1

  unfoldable pub perform : (Intent P → String) → Environment → Operation → Yard P W → Yard P W
  perform request_hash env (to_prepare new_id i) s =
      yard_after s (prepare adapter request_hash new_id i s)
  perform request_hash env (to_execute id control confirmation) s =
      (execute adapter env id control confirmation s).1

  unfoldable pub perform_all :
      (Intent P → String) → Environment → List Operation → Yard P W → Yard P W
  unfolding perform
  perform_all request_hash env [] s = s
  perform_all request_hash env (o ∷ os) s =
      perform_all request_hash env os (perform request_hash env o s)

  same_yard :
      (s : Yard P W) (b : Bool) (old : CommandRecord P)
      → yard_after s (if b then raised "ValueError" else returned (old, s)) ≡ s
  same_yard s true old = refl
  same_yard s false old = refl

  reserve_row-Moved :
      (r : CommandRecord P) (s : Yard P W) (o : Option (CommandRecord P))
      → lookup r.command_id s.commands ≡ o
      → Moved is_used history r.command_id s (yard_after s (reserve_row adapter r s o))
  unfolding reserve_row
  reserve_row-Moved r s none e = record {
    keeps = λ k u.
        ground (arith, e, u, eq_iff r.command_id k, lookup-insert r.command_id k r s.commands);
    adds = inl refl;
  }
  reserve_row-Moved r s (some old) e =
      rw (same_yard s (not (str_eq old.request_hash r.request_hash)) old)
        (stay-Moved r.command_id s)

  after_checks_prepare :
      (m : Attempt {0} Unit) (r : CommandRecord P) (s : Yard P W)
      → Moved is_used history r.command_id s (yard_after s (m >>= λ _. reserve_command adapter r s))
  unfolding reserve_command
  after_checks_prepare (raised e) r s = stay-Moved r.command_id s
  after_checks_prepare (returned x) r s =
      reserve_row-Moved r s (lookup r.command_id s.commands) refl

  prepare-Moved :
      (request_hash : Intent P → String) (new_id : String) (i : Intent P) (s : Yard P W)
      → Moved is_used history new_id s (yard_after s (prepare adapter request_hash new_id i s))
  unfolding prepare
  prepare-Moved request_hash new_id i s =
      after_checks_prepare (preparable adapter i (lookup i.device_id s.devices)) _ s

  -- Over any requests to prepare and to execute commands, and whatever the adapters answer, no
  -- command is given to an adapter twice.
  pub perform_all-IsOnce :
      (request_hash : Intent P → String) (env : Environment) (os : List Operation) (s : Yard P W)
      → IsOnce is_used history s
      → IsOnce is_used history (perform_all request_hash env os s)
  unfolding perform_all perform
  perform_all-IsOnce request_hash env [] s h = h
  perform_all-IsOnce request_hash env (to_prepare new_id i ∷ os) s h =
      perform_all-IsOnce request_hash env os _
        (Moved-IsOnce is_used history new_id s _ (prepare-Moved request_hash new_id i s) h)
  perform_all-IsOnce request_hash env (to_execute id control confirmation ∷ os) s h =
      perform_all-IsOnce request_hash env os _
        (Moved-IsOnce is_used history id s _ (execute-Moved env id control confirmation s) h)

-- ===== src/Iot.antt =====
-- `CommandService` of app/iot/commands.py, with `authorize_control` of app/iot/auth.py and the
-- commands of app/iot/store.py: a command to a device is prepared, and then executed. A device's
-- adapter is a parameter; SHA-256 over a command is the argument `request_hash`, the environment a
-- function of a variable's name.
pub mod Once
pub mod Authorized
pub mod Telemetry
pub mod Registry
use sara_omega.Prelude.{
  String, Bool, true, false, not, ◌||◌, List, [], ◌∷◌, Option, none, some, map, member, str_eq,
  if◌then◌else◌,
}
use sara_omega.Prelude.Dict.{Dict, lookup, insert}
use sara_omega.Prelude.Text.{strip}
use sara_omega.Prelude.Attempt.{Attempt, returned, raised, ◌>>=◌}

pub data CommandStatus : Type 0 where
  prepared reserved completed rejected submission_unverified : CommandStatus

pub data AdapterOutcome : Type 0 where
  acknowledged refused capability_unavailable uncertain : AdapterOutcome

pub record Device : Type 0 where
  pub device_id : String
  pub allowed_commands : List String
  pub confirmation_required : List String
  pub enabled : Bool

-- What is asked of a device; `P` is the type of the parameters.
pub record Intent (P : Type 0) : Type 0 where
  pub device_id : String
  pub action : String
  pub parameters : P
  pub session_id : String
  pub requested_by : String

pub record CommandRecord (P : Type 0) : Type 0 where
  pub command_id : String
  pub intent : Intent P
  pub request_hash : String
  pub status : CommandStatus
  pub result : Option AdapterOutcome

-- `supported_commands` and `execute` of a device's adapter, over the state of what is behind it.
pub record Adapter (P W : Type 0) : Type 0 where
  pub supported : Device → List String
  pub run : Device → Intent P → W → Attempt AdapterOutcome × W

-- The two tables, what is behind the adapters, and the ids of the commands that were given to one,
-- the last one first: a history that the code does not keep.
pub record Yard (P W : Type 0) : Type 0 where
  pub devices : Dict Device
  pub commands : Dict (CommandRecord P)
  pub world : W
  pub executed : List String

abbrev pub Environment : Type 0
Environment = String → String

abbrev pub control_forbidden : List String
control_forbidden =
    "OWNER_TOKEN" ∷ "GPT_ACTION_TOKEN" ∷ "TEST_TOKEN" ∷ "SARA_RAILWAY_CONTROL_AUTH_TOKEN"
    ∷ "SARA_SOURCE_CONTROL_AUTH_TOKEN" ∷ []

abbrev pub confirmation_forbidden : List String
confirmation_forbidden =
    "OWNER_TOKEN" ∷ "GPT_ACTION_TOKEN" ∷ "TEST_TOKEN" ∷ "SARA_DEVICE_CONTROL_AUTH_TOKEN"
    ∷ "SARA_RAILWAY_CONTROL_AUTH_TOKEN" ∷ "SARA_SOURCE_CONTROL_AUTH_TOKEN" ∷ []

-- The checks that both tokens pass: the expected one is set, and none of the others, and the
-- supplied one is the expected one. `error` is the exception.
unfoldable pub check_token : String → Environment → String → List String → String → Attempt {0} Unit
unfolding strip
check_token error env name others supplied =
    let expected = strip (env name) in
    let forbidden = map (λ n. strip (env n)) others in
    if str_eq expected "" || member expected forbidden
    then raised error
    else if str_eq supplied "" || member supplied forbidden || not (str_eq expected supplied)
    then raised error
    else returned tt

unfoldable pub authorize_control : Environment → Device → String → String → Attempt {0} Unit
unfolding check_token
authorize_control env d token action = do
  _ ←
      check_token "AuthenticationRejected" env "SARA_DEVICE_CONTROL_AUTH_TOKEN" control_forbidden
        token
  if member action d.allowed_commands then returned tt else raised "AuthenticationRejected"

-- `if rec.action in d.confirmation_required: self._verify_confirmation(...)`
unfoldable pub confirm : Environment → Device → String → String → Attempt {0} Unit
unfolding check_token
confirm env d token action =
    if member action d.confirmation_required
    then check_token "PermissionError" env "SARA_DEVICE_CONFIRMATION_TOKEN" confirmation_forbidden
        token
    else returned tt

-- What a command's status raises before it is executed.
unfoldable pub check_status : CommandStatus → Attempt {0} Unit
check_status prepared = returned tt
check_status submission_unverified = raised "SubmissionUnverified"
check_status _ = raised "ValueError"

abbrev pub found_device : Option Device → Attempt Device
found_device none = raised "CapabilityUnavailable"
found_device (some d) = returned d

abbrev pub status_of : AdapterOutcome → CommandStatus
status_of acknowledged = completed
status_of refused = rejected
status_of capability_unavailable = rejected
status_of uncertain = submission_unverified

abbrev pub with_status :
    {P : Type 0} → CommandStatus → Option AdapterOutcome → CommandRecord P → CommandRecord P
with_status status result r = record {
  command_id = r.command_id;
  intent = r.intent;
  request_hash = r.request_hash;
  status = status;
  result = result;
}

module _ {P W : Type 0} where
  abbrev pub with_commands : Dict (CommandRecord P) → Yard P W → Yard P W
  with_commands commands s = record {
    devices = s.devices;
    commands = commands;
    world = s.world;
    executed = s.executed;
  }

  -- `update_command`, of a command whose record is `r`.
  abbrev pub update_command :
      String → CommandStatus → Option AdapterOutcome → CommandRecord P → Yard P W → Yard P W
  update_command id status result r s =
      with_commands (insert id (with_status status result r) s.commands) s

  -- The checks of `execute` before the command is reserved.
  unfoldable pub checked :
      Environment → CommandRecord P → String → String → Yard P W → Attempt Device
  unfolding authorize_control confirm check_status
  checked env r control confirmation s = do
    _ ← check_status r.status
    d ← found_device (lookup r.intent.device_id s.devices)
    _ ← authorize_control env d control r.intent.action
    _ ← confirm env d confirmation r.intent.action
    returned d

  -- On what the adapter answers; a command stays reserved when it raises.
  unfoldable pub settle :
      String
      → CommandRecord P
      → Attempt AdapterOutcome
      → Yard P W
      → Attempt AdapterOutcome × Yard P W
  settle id r (raised e) s = (raised e, s)
  settle id r (returned o) s = (returned o, update_command id (status_of o) (some o) r s)

  module _ (adapter : Adapter P W) where
    unfoldable pub submit :
        String → CommandRecord P → Device → Yard P W → Attempt AdapterOutcome × Yard P W
    unfolding settle
    submit id r d s =
        let t = update_command id reserved none r s in
        let answer = adapter.run d r.intent t.world in
        settle id r answer.0 (record {
          devices = t.devices;
          commands = t.commands;
          world = answer.1;
          executed = id ∷ t.executed;
        })

    unfoldable pub after_checks :
        String → CommandRecord P → Attempt Device → Yard P W → Attempt AdapterOutcome × Yard P W
    unfolding submit
    after_checks id r (raised e) s = (raised e, s)
    after_checks id r (returned d) s = submit id r d s

    unfoldable pub with_record :
        Environment
        → String
        → Option (CommandRecord P)
        → String
        → String
        → Yard P W
        → Attempt AdapterOutcome × Yard P W
    unfolding after_checks checked
    with_record env id none control confirmation s = (raised "KeyError", s)
    with_record env id (some r) control confirmation s =
        after_checks id r (checked env r control confirmation s) s

    unfoldable pub execute :
        Environment → String → String → String → Yard P W → Attempt AdapterOutcome × Yard P W
    unfolding with_record
    execute env id control confirmation s =
        with_record env id (lookup id s.commands) control confirmation s

    -- `reserve_command`, of the record that the id has: a command that is there stays.
    unfoldable pub reserve_row :
        CommandRecord P → Yard P W → Option (CommandRecord P) → Attempt (CommandRecord P × Yard P W)
    reserve_row r s none = returned (r, with_commands (insert r.command_id r s.commands) s)
    reserve_row r s (some old) =
        if not (str_eq old.request_hash r.request_hash)
        then raised "ValueError"
        else returned (old, s)

    unfoldable pub reserve_command :
        CommandRecord P → Yard P W → Attempt (CommandRecord P × Yard P W)
    unfolding reserve_row
    reserve_command r s = reserve_row r s (lookup r.command_id s.commands)

    -- The checks of `prepare`.
    unfoldable pub preparable : Intent P → Option Device → Attempt {0} Unit
    preparable i none = raised "CapabilityUnavailable"
    preparable i (some d) =
        if not d.enabled
          || not (member i.action d.allowed_commands)
          || not (member i.action (adapter.supported d))
        then raised "CapabilityUnavailable"
        else returned tt

    -- `prepare`, with the id that `uuid4` gives.
    unfoldable pub prepare :
        (Intent P → String) → String → Intent P → Yard P W → Attempt (CommandRecord P × Yard P W)
    unfolding reserve_command preparable
    prepare request_hash new_id i s = do
      _ ← preparable i (lookup i.device_id s.devices)
      reserve_command
          (record {
            command_id = new_id;
            intent = i;
            request_hash = request_hash i;
            status = prepared;
            result = none;
          })
          s

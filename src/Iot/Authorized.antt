-- ===== src/Iot/Authorized.antt =====
-- What has to hold of a command that app/iot/commands.py gives to an adapter.
use sara_omega.Prelude.{String, ◌≡◌, refl, ◌≢◌, Option, none, some, arith}
use sara_omega.Prelude.Dict.{lookup}
use sara_omega.Prelude.Attempt.{Attempt, returned, raised, bind_inv}
use sara_omega.Iot.{
  prepared, Device, CommandRecord, Adapter, Yard, Environment, authorize_control, confirm,
  check_status, found_device, checked, after_checks, with_record, execute,
}
use sara_omega.Iot.Once.{checked-prepared}

found-some : (o : Option Device) (d : Device) → found_device o ≡ returned d → o ≡ some d
found-some none d h = cc
found-some (some e) d h = ground arith

module _ {P W : Type 0} where
  -- The command is prepared, its device registered, and both tokens are accepted for it.
  pub record IsCleared (env : Environment) (id control confirmation : String) (s : Yard P W)
      : Type 0 where
    pub command : CommandRecord P
    pub device : Device
    pub known : lookup id s.commands ≡ some command
    pub untouched : command.status ≡ prepared
    pub registered : lookup command.intent.device_id s.devices ≡ some device
    pub controlled : authorize_control env device control command.intent.action ≡ returned tt
    pub confirmed : confirm env device confirmation command.intent.action ≡ returned tt

  cleared :
      (env : Environment) (id control confirmation : String) (r : CommandRecord P) (s : Yard P W)
      (d : Device)
      → lookup id s.commands ≡ some r
      → checked env r control confirmation s ≡ returned d
      → IsCleared env id control confirmation s
  unfolding checked
  cleared env id control confirmation r s d known h =
      let (_, _, h1) = bind_inv (check_status r.status) _ d h in
      let (e, found, h2) = bind_inv (found_device (lookup r.intent.device_id s.devices)) _ d h1 in
      let (_, control_ok, h3) = bind_inv (authorize_control env e control r.intent.action) _ d h2 in
      let (_, confirm_ok, _) = bind_inv (confirm env e confirmation r.intent.action) _ d h3 in
      record {
        command = r;
        device = e;
        known = known;
        untouched = checked-prepared env r control confirmation s d h;
        registered = found-some _ e found;
        controlled = control_ok;
        confirmed = confirm_ok;
      }

  module _ (adapter : Adapter P W) where
    after_checks-IsCleared :
        (env : Environment) (id control confirmation : String) (r : CommandRecord P)
        (m : Attempt Device) (s : Yard P W)
        → lookup id s.commands ≡ some r
        → checked env r control confirmation s ≡ m
        → (after_checks adapter id r m s).1.executed ≢ s.executed
        → IsCleared env id control confirmation s
    unfolding after_checks
    after_checks-IsCleared env id control confirmation r (raised e) s known h moved =
        absurd (moved refl)
    after_checks-IsCleared env id control confirmation r (returned d) s known h moved =
        cleared env id control confirmation r s d known h

    -- A command that is given to an adapter was prepared and not yet executed, its device is
    -- registered, and the control token, and the confirmation where the action asks for one, are
    -- accepted.
    pub execute-IsCleared :
        (env : Environment) (id control confirmation : String) (s : Yard P W)
        → (execute adapter env id control confirmation s).1.executed ≢ s.executed
        → IsCleared env id control confirmation s
    unfolding execute with_record
    execute-IsCleared env id control confirmation s moved = go (lookup id s.commands) refl moved
      where
        go :
            (o : Option (CommandRecord P))
            → lookup id s.commands ≡ o
            → (with_record adapter env id o control confirmation s).1.executed ≢ s.executed
            → IsCleared env id control confirmation s
        go none known k = absurd (k refl)
        go (some r) known k =
            after_checks-IsCleared env id control confirmation r
              (checked env r control confirmation s) s known refl k

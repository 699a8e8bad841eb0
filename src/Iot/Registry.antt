-- ===== src/Iot/Registry.antt =====
-- `register_device`, `verify_device_secret` and `get_device` of app/iot/store.py. PBKDF2 over a
-- secret and a salt is the argument `hash_secret`; the salt that is drawn and the time are arguments.
use mathlib.Core.Path.{subst}
use sara_omega.Prelude.{
  ℕ, String, ◌≡◌, refl, sym, ap, ◌∙◌, Bool, true, false, not, ◌&&◌, ◌||◌, Option, none, some, ltb,
  str_eq, eq_iff, if◌then◌else◌, arith,
}
use sara_omega.Prelude.Dict.{Dict, lookup, insert, lookup-insert}
use sara_omega.Prelude.Text.{len}
use sara_omega.Prelude.Attempt.{Attempt, returned, raised, raised-returned, returned-inj}
use sara_omega.Iot.{Device}

pub record DeviceRow : Type 0 where
  pub device : Device
  pub secret_salt : String
  pub secret_hash : String
  pub created_at : ℕ
  pub updated_at : ℕ

unfoldable pub get_device : String → Dict DeviceRow → Option Device
get_device device_id rows = elim (lookup device_id rows) [
  | none ↦ none
  | some row ↦ some row.device
]

module _ (hash_secret : String → String → String) where
  unfoldable pub accepts : Option DeviceRow → String → Bool
  accepts none supplied = false
  accepts (some row) supplied =
      not (str_eq supplied "") && str_eq (hash_secret supplied row.secret_salt) row.secret_hash

  unfoldable pub verify_device_secret : String → String → Dict DeviceRow → Bool
  unfolding accepts
  verify_device_secret device_id supplied rows = accepts (lookup device_id rows) supplied

  module _ (drawn : String) (now : ℕ) (device : Device) where
    -- The row with a new secret; an empty text is no secret.
    abbrev row_with : ℕ → String → DeviceRow
    row_with created secret = record {
      device = device;
      secret_salt = drawn;
      secret_hash = hash_secret secret drawn;
      created_at = created;
      updated_at = now;
    }

    unfoldable pub new_row : Option String → Attempt DeviceRow
    unfolding len
    new_row none = raised "ValueError"
    new_row (some secret) =
        if str_eq secret "" || ltb (len secret) 24
        then raised "ValueError"
        else returned (row_with now secret)

    unfoldable pub known_row : DeviceRow → Option String → DeviceRow
    known_row row none = record row { device = device; updated_at = now }
    known_row row (some secret) =
        if str_eq secret ""
        then record row { device = device; updated_at = now }
        else row_with row.created_at secret

    -- The row that is written.
    unfoldable pub written_row : Option DeviceRow → Option String → Attempt DeviceRow
    unfolding new_row known_row
    written_row none secret = new_row secret
    written_row (some row) secret = returned (known_row row secret)

    unfoldable pub write_row : Attempt DeviceRow → Dict DeviceRow → Attempt Device × Dict DeviceRow
    write_row (returned row) rows = (returned device, insert device.device_id row rows)
    write_row (raised e) rows = (raised e, rows)

    unfoldable pub register_device :
        Option String → Dict DeviceRow → Attempt Device × Dict DeviceRow
    unfolding written_row write_row
    register_device telemetry_secret rows =
        write_row (written_row (lookup device.device_id rows) telemetry_secret) rows

    -- What is accepted for the device from now on: what has the hash of the secret that was given,
    -- or, without one, what was accepted before.
    abbrev pub now_accepts : Dict DeviceRow → Option String → String → Bool
    now_accepts rows none supplied = verify_device_secret device.device_id supplied rows
    now_accepts rows (some secret) supplied =
        if str_eq secret ""
        then verify_device_secret device.device_id supplied rows
        else not (str_eq supplied "")
          && str_eq (hash_secret supplied drawn) (hash_secret secret drawn)

    known_row-accepts :
        (rows : Dict DeviceRow) (old : DeviceRow) (secret : Option String) (supplied : String)
        → lookup device.device_id rows ≡ some old
        → accepts (some (known_row old secret)) supplied ≡ now_accepts rows secret supplied
    unfolding known_row accepts verify_device_secret
    known_row-accepts rows old none supplied l = ground (arith, l)
    known_row-accepts rows old (some secret) supplied l = ground (arith, l)

    new_row-accepts :
        (rows : Dict DeviceRow) (row : DeviceRow) (secret : Option String) (supplied : String)
        → new_row secret ≡ returned row
        → accepts (some row) supplied ≡ now_accepts rows secret supplied
    unfolding new_row accepts
    new_row-accepts rows row none supplied h = cc
    new_row-accepts rows row (some secret) supplied h = ground (arith, h)

    written-accepts :
        (rows : Dict DeviceRow) (o : Option DeviceRow) (row : DeviceRow) (secret : Option String)
        (supplied : String)
        → lookup device.device_id rows ≡ o
        → written_row o secret ≡ returned row
        → accepts (some row) supplied ≡ now_accepts rows secret supplied
    unfolding written_row
    written-accepts rows none row secret supplied l h = new_row-accepts rows row secret supplied h
    written-accepts rows (some old) row secret supplied l h =
        ap (λ (r : DeviceRow). accepts (some r) supplied) (sym (returned-inj h))
        ∙ known_row-accepts rows old secret supplied l

    written_row-device :
        (o : Option DeviceRow) (row : DeviceRow) (secret : Option String)
        → written_row o secret ≡ returned row
        → row.device ≡ device
    unfolding written_row new_row known_row
    written_row-device none row none h = cc
    written_row-device none row (some secret) h = ground (arith, h)
    written_row-device (some old) row none h =
        ap (λ (r : DeviceRow). r.device) (sym (returned-inj h))
    written_row-device (some old) row (some secret) h = ground (arith, h)

    accepts-if :
        (b : Bool) (o p : Option DeviceRow) (supplied : String)
        → accepts (if b then o else p) supplied
          ≡ (if b then accepts o supplied else accepts p supplied)
    accepts-if true o p supplied = refl
    accepts-if false o p supplied = refl

    -- The tests of the secrets, and the device that is found.
    pub record IsRegistered (secret : Option String) (rows after : Dict DeviceRow) : Type 0 where
      pub tests :
          (device_id supplied : String)
          → verify_device_secret device_id supplied after ≡ (
              if str_eq device.device_id device_id
              then now_accepts rows secret supplied
              else verify_device_secret device_id supplied rows)
      pub found : get_device device.device_id after ≡ some device

    insert-IsRegistered :
        (rows : Dict DeviceRow) (row : DeviceRow) (secret : Option String)
        → written_row (lookup device.device_id rows) secret ≡ returned row
        → IsRegistered secret rows (insert device.device_id row rows)
    unfolding verify_device_secret get_device
    insert-IsRegistered rows row secret w =
        let o = lookup device.device_id rows in
        let stored : lookup device.device_id (insert device.device_id row rows) ≡ some row =
          lookup-insert device.device_id device.device_id row rows
          ∙ ground (arith, eq_iff device.device_id device.device_id) in
        record {
          tests = λ device_id supplied.
              ap (λ x. accepts x supplied) (lookup-insert device.device_id device_id row rows)
              ∙ accepts-if (str_eq device.device_id device_id) (some row) (lookup device_id rows)
                  supplied
              ∙ ap
                  (λ x.
                    if str_eq device.device_id device_id
                    then x
                    else accepts (lookup device_id rows) supplied)
                  (written-accepts rows o row secret supplied refl w);
          found = rw (get_device, stored, written_row-device o row secret w) refl;
        }

    write_row-IsRegistered :
        (rows after : Dict DeviceRow) (a : Attempt DeviceRow) (d : Device) (secret : Option String)
        → written_row (lookup device.device_id rows) secret ≡ a
        → write_row a rows ≡ (returned d, after)
        → IsRegistered secret rows after
    unfolding write_row
    write_row-IsRegistered rows after (raised e) d secret w h =
        absurd (raised-returned e d (ap (λ r. r.0) h))
    write_row-IsRegistered rows after (returned row) d secret w h =
        subst (IsRegistered secret rows) (ap (λ r. r.1) h) (insert-IsRegistered rows row secret w)

    -- A device that is registered is found, and the secrets that are accepted for it are those with
    -- the hash of the one that was given, or, where none was given, those that were accepted before;
    -- for every other device they are the same.
    pub register_device-IsRegistered :
        (secret : Option String) (rows after : Dict DeviceRow) (d : Device)
        → register_device secret rows ≡ (returned d, after)
        → IsRegistered secret rows after
    unfolding register_device
    register_device-IsRegistered secret rows after d h =
        write_row-IsRegistered rows after (written_row (lookup device.device_id rows) secret) d
          secret refl h

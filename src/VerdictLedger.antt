-- ===== src/VerdictLedger.antt =====
-- `OmegaVerdictLedger` of app/ledger.py with `DualSigner` of app/signing.py. The table is its rows
-- in the order of their sequence. SHA-512 over the canonical JSON of a core is the argument
-- `digest`; a stored payload is kept as what `json.loads` makes of it.
pub mod Signatures
pub mod Chain
pub mod Durable
use sara_omega.Prelude.{
  String, ◌≡◌, Bool, true, false, not, ◌||◌, List, [], ◌∷◌, ◌++◌, Option, none, some, any, str_eq,
  if◌then◌else◌,
}
use sara_omega.Prelude.Text.{lower, dashed}
use sara_omega.Prelude.Attempt.{Attempt, returned, raised, ◌>>=◌}

pub record SignatureRecord : Type 0 where
  pub algorithm : String
  pub key_id : String
  pub signature_b64 : String
  pub verified : Bool

-- A signer outside the program.
pub record Signer : Type 0 where
  pub sign : String → Attempt SignatureRecord
  pub verify : String → SignatureRecord → Attempt Bool

abbrev pub is_ed25519 : String → Bool
is_ed25519 algorithm = str_eq (lower algorithm) "ed25519"

abbrev pub is_ml_dsa : String → Bool
is_ml_dsa algorithm = str_eq (dashed (lower algorithm)) "ml-dsa"

abbrev pub as_verified : SignatureRecord → SignatureRecord
as_verified s = record {
  algorithm = s.algorithm;
  key_id = s.key_id;
  signature_b64 = s.signature_b64;
  verified = true;
}

abbrev pub check_algorithms : SignatureRecord → SignatureRecord → Attempt {0} Unit
check_algorithms ed ml =
    if not (is_ed25519 ed.algorithm)
    then raised "SigningError"
    else if not (is_ml_dsa ml.algorithm)
    then raised "SigningError"
    else returned tt

abbrev pub require_both :
    Bool → Bool → SignatureRecord → SignatureRecord → Attempt (SignatureRecord × SignatureRecord)
require_both ed_ok ml_ok ed ml =
    if not ed_ok || not ml_ok
    then raised "SigningError"
    else returned (as_verified ed, as_verified ml)

abbrev pub sign_both : Signer → Signer → String → Attempt (SignatureRecord × SignatureRecord)
sign_both ed25519 ml_dsa digest = do
  ed ← ed25519.sign digest
  ml ← ml_dsa.sign digest
  checked ← check_algorithms ed ml
  ed_ok ← ed25519.verify digest ed
  ml_ok ← ml_dsa.verify digest ml
  require_both ed_ok ml_ok ed ml

-- Every exception in it leaves as a `SigningError`.
unfoldable pub sign_and_verify :
    Signer → Signer → String → Attempt (SignatureRecord × SignatureRecord)
sign_and_verify ed25519 ml_dsa digest =
    if str_eq digest "" then raised "SigningError" else sign_both ed25519 ml_dsa digest

abbrev pub schema : String
schema = "omega-verdict-ledger-v1"

-- What a record's hash covers; `schema_version` is the constant.
pub record Core (P : Type 0) : Type 0 where
  pub decision_id : String
  pub timestamp : String
  pub previous_record_hash : String
  pub payload : P

pub record Row (P : Type 0) : Type 0 where
  pub core : Core P
  pub schema_version : String
  pub current_record_hash : String
  pub ed25519 : SignatureRecord
  pub ml_dsa : SignatureRecord
  pub supersedes : Option String

-- SQLite at the commit of one call: whether it commits, and the rows that a connection reads after
-- it, which another writer, the disk or the decoding of the payload may have changed.
pub record Storage (P : Type 0) : Type 0 where
  pub commits : Bool
  pub reread : List (Row P) → List (Row P)

-- A storage that keeps what is committed.
abbrev pub IsReliable : {P : Type 0} → Storage P → Type 0
IsReliable {P} storage =
    (storage.commits ≡ true) × ((rows : List (Row P)) → storage.reread rows ≡ rows)

abbrev pub unverified : String
unverified = "SUBMISSION_UNVERIFIED"

module _ {P : Type 0} where
  -- `_head_from_conn`, of an empty table `start`
  unfoldable pub head_from : String → List (Row P) → String
  head_from start [] = start
  head_from start (r ∷ rs) = head_from r.current_record_hash rs

  unfoldable pub get : String → List (Row P) → Option (Row P)
  get id [] = none
  get id (r ∷ rs) = if str_eq r.core.decision_id id then some r else get id rs

  abbrev pub has_hash : String → Row P → Bool
  has_hash h r = str_eq r.current_record_hash h

  abbrev pub is_known : String → List (Row P) → Bool
  is_known id rows = elim (get id rows) [ none ↦ false | some r ↦ true ]

  -- `if supersedes_decision_id:` no row has that id
  abbrev pub lacks_parent : Option String → List (Row P) → Bool
  lacks_parent none rows = false
  lacks_parent (some id) rows = if str_eq id "" then false else not (is_known id rows)

  module _ (digest : Core P → String) (genesis : String) where
    -- The loop of `verify_chain`, from the hash that the next row has to name.
    unfoldable pub verify_from : String → List (Row P) → Bool
    verify_from previous [] = true
    verify_from previous (r ∷ rs) =
        let rest = verify_from (digest r.core) rs in
        if not (str_eq r.core.previous_record_hash previous)
        then false
        else if not (str_eq r.schema_version schema)
        then false
        else if not (is_ed25519 r.ed25519.algorithm) || not r.ed25519.verified
        then false
        else if not (is_ml_dsa r.ml_dsa.algorithm) || not r.ml_dsa.verified
        then false
        else if not (str_eq (digest r.core) r.current_record_hash)
        then false
        else rest

    unfoldable pub verify_chain : List (Row P) → Bool
    unfolding verify_from
    verify_chain rows = verify_from genesis rows

    unfoldable pub chain_head : List (Row P) → String
    unfolding head_from
    chain_head rows = head_from genesis rows

    -- The checks of the row that is read back, and of the chain; the `OmegaLedgerError` that names
    -- the submission unverified is told from the others by its message.
    unfoldable pub check_written : Row P → List (Row P) → Option (Row P) → Attempt (Row P)
    unfolding chain_head verify_chain
    check_written new rows none = raised unverified
    check_written new rows (some r) =
        if not (str_eq r.current_record_hash new.current_record_hash)
          || not (str_eq r.core.previous_record_hash new.core.previous_record_hash)
        then raised unverified
        else if not (str_eq (chain_head rows) new.current_record_hash) || not (verify_chain rows)
        then raised unverified
        else returned new

    unfoldable pub confirm : Row P → List (Row P) → Attempt (Row P)
    unfolding check_written get
    confirm new rows = check_written new rows (get new.core.decision_id rows)

    -- `INSERT`, where both the id and the hash are UNIQUE, the commit, and the confirmation.
    unfoldable pub insert : Storage P → Row P → List (Row P) → Attempt (Row P) × List (Row P)
    unfolding confirm get
    insert storage new rows =
        let after = storage.reread (rows ++ new ∷ []) in
        if is_known new.core.decision_id rows
        then (raised "IntegrityError", rows)
        else if any (has_hash new.current_record_hash) rows
        then (raised "IntegrityError", rows)
        else if not storage.commits
        then (raised "OperationalError", rows)
        else (confirm new after, after)

    abbrev pub new_row : Core P → Option String → SignatureRecord × SignatureRecord → Row P
    new_row core supersedes signed = record {
      core = core;
      schema_version = schema;
      current_record_hash = digest core;
      ed25519 = signed.0;
      ml_dsa = signed.1;
      supersedes = supersedes;
    }

    unfoldable pub insert_signed :
        Storage P
        → Core P
        → Option String
        → Attempt (SignatureRecord × SignatureRecord)
        → List (Row P)
        → Attempt (Row P) × List (Row P)
    unfolding insert
    insert_signed storage core supersedes (returned signed) rows =
        insert storage (new_row core supersedes signed) rows
    insert_signed storage core supersedes (raised e) rows = (raised "OmegaLedgerError", rows)

    abbrev pub new_core : String → String → P → List (Row P) → Core P
    new_core id now payload rows = record {
      decision_id = id;
      timestamp = now;
      previous_record_hash = chain_head rows;
      payload = payload;
    }

    -- `append` returns the row that its `IntegrityStatus` is read from.
    unfoldable pub append :
        Storage P
        → Signer
        → Signer
        → String
        → String
        → P
        → Option String
        → List (Row P)
        → Attempt (Row P) × List (Row P)
    unfolding insert_signed sign_and_verify verify_chain chain_head get
    append storage ed25519 ml_dsa id now payload supersedes rows =
        let core = new_core id now payload rows in
        if str_eq id ""
        then (raised "OmegaLedgerError", rows)
        else if not (verify_chain rows)
        then (raised "OmegaLedgerError", rows)
        else if lacks_parent supersedes rows
        then (raised "OmegaLedgerError", rows)
        else insert_signed storage core supersedes (sign_and_verify ed25519 ml_dsa (digest core))
            rows

-- ===== src/VerdictLedger/Durable.antt =====
-- What `append` of app/ledger.py leaves.
use sara_omega.Prelude.{
  String, ◌≡◌, refl, ap, ◌∙◌, ◌≢◌, ◌⊎◌, Bool, true, false, not, List, [], ◌∷◌, ◌++◌, Option, none,
  some, any, str_eq, eq_iff, if◌then◌else◌, arith,
}
use sara_omega.Prelude.Attempt.{Attempt, returned, raised}
use sara_omega.VerdictLedger.{
  SignatureRecord, Signer, sign_and_verify, Core, Row, get, has_hash, is_known, lacks_parent,
  verify_chain, chain_head, check_written, confirm, insert, new_row, insert_signed, new_core,
  append, unverified, Storage, IsReliable,
}
use sara_omega.VerdictLedger.Signatures.{AreVerified, sign_and_verify-AreVerified}
use sara_omega.VerdictLedger.Chain.{IsNext, get-append, head-append, verify-append}

module _ {P : Type 0} (digest : Core P → String) (genesis : String) where
  -- The row is returned, and the table that is read after the commit, which is verified, has its
  -- hash at the end and a row of its hashes under its id.
  pub record IsConfirmed (storage : Storage P) (new : Row P) (rows : List (Row P))
      (x : Attempt (Row P) × List (Row P)) : Type 0 where
    pub outcome : x ≡ (returned new, storage.reread (rows ++ new ∷ []))
    pub chained : verify_chain digest genesis x.1 ≡ true
    pub head : chain_head digest genesis x.1 ≡ new.current_record_hash
    pub read_row : Row P
    pub found : get new.core.decision_id x.1 ≡ some read_row
    pub same_hash : read_row.current_record_hash ≡ new.current_record_hash
    pub same_previous : read_row.core.previous_record_hash ≡ new.core.previous_record_hash

  -- The row that is committed: it is linked to the end of the table, its id is new to it, and its
  -- signatures are verified.
  pub record IsCommitted (id : String) (new : Row P) (rows : List (Row P)) : Type 0 where
    pub named : new.core.decision_id ≡ id
    pub linked : new.core.previous_record_hash ≡ chain_head digest genesis rows
    pub was_new : get new.core.decision_id rows ≡ none
    pub signed : AreVerified (new.ed25519, new.ml_dsa)

  -- It raises before a commit, and nothing was changed.
  abbrev pub IsRefused : List (Row P) → Attempt (Row P) × List (Row P) → Type 0
  IsRefused rows x = (e : String) × (x ≡ (raised e, rows)) × (e ≢ unverified)

  abbrev pub IsWritten : Storage P → String → List (Row P) → Attempt (Row P) × List (Row P) → Type 0
  IsWritten storage id rows x =
      (new : Row P) × IsCommitted id new rows
      × (IsConfirmed storage new rows x
          ⊎ (x ≡ (raised unverified, storage.reread (rows ++ new ∷ []))))

  abbrev pub Outcome : Storage P → String → List (Row P) → Attempt (Row P) × List (Row P) → Type 0
  Outcome storage id rows x = IsWritten storage id rows x ⊎ IsRefused rows x

  check_written-new :
      (new : Row P) (rows : List (Row P))
      → chain_head digest genesis rows ≡ new.current_record_hash
      → verify_chain digest genesis rows ≡ true
      → check_written digest genesis new rows (some new) ≡ returned new
  unfolding check_written
  check_written-new new rows h v = ground (
    arith,
    eq_iff new.current_record_hash new.current_record_hash,
    eq_iff new.core.previous_record_hash new.core.previous_record_hash,
    eq_iff (chain_head digest genesis rows) new.current_record_hash,
  )

  confirm-new :
      (new : Row P) (rows : List (Row P))
      → get new.core.decision_id rows ≡ some new
      → chain_head digest genesis rows ≡ new.current_record_hash
      → verify_chain digest genesis rows ≡ true
      → confirm digest genesis new rows ≡ returned new
  unfolding confirm
  confirm-new new rows g h v =
      ap (check_written digest genesis new rows) g ∙ check_written-new new rows h v

  unused_insert :
      (storage : Storage P) (new : Row P) (rows : List (Row P))
      → IsReliable storage
      → is_known new.core.decision_id rows ≡ false
      → any (has_hash new.current_record_hash) rows ≡ false
      → insert digest genesis storage new rows
        ≡ (confirm digest genesis new (rows ++ new ∷ []), rows ++ new ∷ [])
  unfolding insert
  unused_insert storage new rows (commits, kept) k u =
      flags (is_known new.core.decision_id rows) (any (has_hash new.current_record_hash) rows)
        storage.commits k u commits
      ∙ ap (λ after. (confirm digest genesis new after, after)) (kept (rows ++ new ∷ []))
    where
      flags :
          (a b c : Bool) {x : Attempt (Row P) × List (Row P)}
          → a ≡ false
          → b ≡ false
          → c ≡ true
          → (if a
              then (raised "IntegrityError", rows)
              else if b
              then (raised "IntegrityError", rows)
              else if not c
              then (raised "OperationalError", rows)
              else x)
            ≡ x
      flags a b c p q r = ground arith

  confirmed_new :
      (new : Row P) (rows : List (Row P))
      → verify_chain digest genesis rows ≡ true
      → IsNext digest genesis (chain_head digest genesis rows) new
      → is_known new.core.decision_id rows ≡ false
      → confirm digest genesis new (rows ++ new ∷ []) ≡ returned new
  unfolding verify_chain chain_head
  confirmed_new new rows v n fresh =
      confirm-new new (rows ++ new ∷ []) (get-append rows new fresh) (head-append genesis rows new)
        (verify-append digest genesis genesis rows new v n)

  -- A decision under a new id that is not empty, with a hash that no row has, on a verified table
  -- that has the row it supersedes, is stored where the signers sign its hash and the storage
  -- commits and keeps what is committed.
  pub append-new :
      (storage : Storage P) (ed25519 ml_dsa : Signer) (id now : String) (payload : P)
      (supersedes : Option String) (rows : List (Row P))
      (signed : SignatureRecord × SignatureRecord)
      → IsReliable storage
      → id ≢ ""
      → verify_chain digest genesis rows ≡ true
      → lacks_parent supersedes rows ≡ false
      → sign_and_verify ed25519 ml_dsa (digest (new_core digest genesis id now payload rows))
        ≡ returned signed
      → is_known id rows ≡ false
      → any (has_hash (digest (new_core digest genesis id now payload rows))) rows ≡ false
      → append digest genesis storage ed25519 ml_dsa id now payload supersedes rows ≡ (
        returned (
            new_row digest genesis (new_core digest genesis id now payload rows) supersedes signed),
        rows
            ++ new_row digest genesis
                (new_core digest genesis id now payload rows)
                supersedes
                signed
              ∷ [],
      )
  unfolding append insert_signed
  append-new storage ed25519 ml_dsa id now payload supersedes rows signed reliable named v parent s
        fresh unused =
      let core = new_core digest genesis id now payload rows in
      let new = new_row digest genesis core supersedes signed in
      let sound = sign_and_verify-AreVerified ed25519 ml_dsa (digest core) signed s in
      let next : IsNext digest genesis (chain_head digest genesis rows) new = record {
        linked = refl;
        of_schema = refl;
        signed = sound;
        hashed = refl;
      } in
      flags (str_eq id "") (verify_chain digest genesis rows) (lacks_parent supersedes rows)
        (ground (arith, named, eq_iff id "")) v parent
      ∙ ap (λ r. insert_signed digest genesis storage core supersedes r rows) s
      ∙ unused_insert storage new rows reliable fresh unused
      ∙ ap (λ c. (c, rows ++ new ∷ [])) (confirmed_new new rows v next fresh)
    where
      flags :
          (a b c : Bool) {x : Attempt (Row P) × List (Row P)}
          → a ≡ false
          → b ≡ true
          → c ≡ false
          → (if a
              then (raised "OmegaLedgerError", rows)
              else if not b
              then (raised "OmegaLedgerError", rows)
              else if c
              then (raised "OmegaLedgerError", rows)
              else x)
            ≡ x
      flags a b c p q r = ground arith

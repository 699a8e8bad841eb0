-- ===== src/ModelSovereignty/Approvals.antt =====
-- `save_approval` of app/model_sovereignty.py: it can be repeated, and no approval is replaced.
use sara_omega.Prelude.{
  String, ◌≡◌, refl, ◌≢◌, true, not, ◌||◌, Option, none, some, str_eq, eq_iff, arith, Bool-cases,
  inl, inr,
}
use sara_omega.Prelude.Dict.{lookup, insert, has_key, lookup-insert}
use sara_omega.Prelude.Attempt.{returned}
use sara_omega.ModelSovereignty.{
  ModelDigestApproval, DigestRow, Result, model_digest_conflict, IdempotencyRow, Store, with_result,
  reserved_row, with_idempotency, reserve_row, reserve, complete, insert_digest, conflicts,
  accepted_result, after_reserve, save_approval, Environment, is_authorized,
}

complete-authorized :
    (key : String) (r : Result) (s : Store) → (complete key r s).authorized ≡ s.authorized
unfolding complete
complete-authorized key r s = ground arith

complete-idempotency :
    (key : String) (r : Result) (s : Store) (row : IdempotencyRow)
    → lookup key s.idempotency ≡ some row
    → lookup key (complete key r s).idempotency ≡ some (with_result r row)
unfolding complete
complete-idempotency key r s row h =
    ground (arith, h, lookup-insert key key (with_result r row) s.idempotency, eq_iff key key)

insert_digest-idempotency :
    (a : ModelDigestApproval) (hash now : String) (s : Store)
    → (insert_digest a hash now s).idempotency ≡ s.idempotency
insert_digest-idempotency a hash now s = ground arith

insert_digest-kept :
    (a : ModelDigestApproval) (hash now : String) (s : Store) (d : String) (row : DigestRow)
    → lookup d s.authorized ≡ some row
    → lookup d (insert_digest a hash now s).authorized ≡ some row
insert_digest-kept a hash now s d row h = ground (
  arith,
  h,
  lookup-insert a.model_digest d (record { approval = a; payload_hash = hash; created_at = now })
      s.authorized,
  eq_iff a.model_digest d,
)

insert_digest-known :
    (a : ModelDigestApproval) (hash now : String) (s : Store)
    → has_key a.model_digest (insert_digest a hash now s).authorized ≡ true
insert_digest-known a hash now s = ground (
  arith,
  lookup-insert a.model_digest a.model_digest
      (record { approval = a; payload_hash = hash; created_at = now }) s.authorized,
  eq_iff a.model_digest a.model_digest,
)

module _ (payload_hash : ModelDigestApproval → String) (a : ModelDigestApproval)
    (key : String) where
  -- The table after a first reservation.
  abbrev reserved_store : String → Store → Store
  reserved_store now s =
      with_idempotency
        (insert key (reserved_row "model_digest_approval" (payload_hash a) now) s.idempotency) s

  -- An approval that is stored under its digest is never replaced.
  pub save_approval-kept :
      (now : String) (s : Store) (d : String) (row : DigestRow)
      → lookup d s.authorized ≡ some row
      → lookup d (save_approval payload_hash a key now s).1.authorized ≡ some row
  unfolding save_approval after_reserve reserve reserve_row
  save_approval-kept now s d row h = go (lookup key s.idempotency)
    where
      go :
          (o : Option IdempotencyRow)
          → lookup d
              (after_reserve payload_hash a key now
                (reserve_row key "model_digest_approval" (payload_hash a) now s o)
                s).1.authorized
            ≡ some row
      go (some x) = ground (arith, h)
      go none = ground (
        arith,
        h,
        complete-authorized key model_digest_conflict (reserved_store now s),
        complete-authorized key (accepted_result payload_hash a)
            (insert_digest a (payload_hash a) now (reserved_store now s)),
        insert_digest-kept a (payload_hash a) now (reserved_store now s) d row h,
      )

  abbrev saved_store : String → Store → Store
  saved_store now s =
      complete key (accepted_result payload_hash a)
        (insert_digest a (payload_hash a) now (reserved_store now s))

  first_save :
      (now : String) (s s' : Store) (r : Result)
      → after_reserve payload_hash a key now (returned (none, reserved_store now s)) s
        ≡ (returned r, s')
      → (accepted_result payload_hash a ≡ r) × (saved_store now s ≡ s')
  unfolding after_reserve
  first_save now s s' r h =
      elim (Bool-cases (conflicts (payload_hash a) (lookup a.model_digest s.authorized))) [
        | inl c ↦ let q = (rw c at h) in (cc, cc)
        | inr c ↦ let q = (rw c at h) in (cc, cc)
      ]

  saved_row :
      (now : String) (s : Store)
      → lookup key (saved_store now s).idempotency
        ≡ some (
            with_result
              (accepted_result payload_hash a)
              (reserved_row "model_digest_approval" (payload_hash a) now))
  saved_row now s =
      complete-idempotency key (accepted_result payload_hash a)
        (insert_digest a (payload_hash a) now (reserved_store now s))
        (reserved_row "model_digest_approval" (payload_hash a) now)
        (rw (insert_digest-idempotency a (payload_hash a) now (reserved_store now s)) (
          ground (
            arith,
            lookup-insert key key (reserved_row "model_digest_approval" (payload_hash a) now)
                s.idempotency,
            eq_iff key key,
          )))

  reserve_row-same :
      (later : String) (s : Store) (row : IdempotencyRow)
      → row.operation ≡ "model_digest_approval"
      → row.payload_hash ≡ payload_hash a
      → reserve_row key "model_digest_approval" (payload_hash a) later s (some row)
        ≡ returned (some row.result, s)
  unfolding reserve_row
  reserve_row-same later s row o p = ground (
    arith,
    eq_iff row.operation "model_digest_approval",
    eq_iff row.payload_hash (payload_hash a),
    o,
    p,
  )

  replay_row :
      (later : String) (s : Store) (row : IdempotencyRow)
      → lookup key s.idempotency ≡ some row
      → row.operation ≡ "model_digest_approval"
      → row.payload_hash ≡ payload_hash a
      → save_approval payload_hash a key later s ≡ (returned row.result, s)
  unfolding save_approval reserve after_reserve
  replay_row later s row h o p = rw (h, reserve_row-same later s row o p) refl

  -- The first call under a key that returns has made its digest known.
  pub save_approval-authorized :
      (env : Environment) (now : String) (s s' : Store) (r : Result)
      → a.model_digest ≢ ""
      → lookup key s.idempotency ≡ none
      → save_approval payload_hash a key now s ≡ (returned r, s')
      → is_authorized env s' (some a.model_digest) ≡ true
  unfolding save_approval reserve reserve_row is_authorized
  save_approval-authorized env now s s' r named fresh h =
      let (_, same) = first_save now s s' r (rw fresh at h) in
      let known : has_key a.model_digest s'.authorized ≡ true =
        rw
          (
            ← same,
            complete-authorized key (accepted_result payload_hash a)
                (insert_digest a (payload_hash a) now (reserved_store now s)),
          )
          (insert_digest-known a (payload_hash a) now (reserved_store now s)) in
      ground (arith, eq_iff a.model_digest "", known)

  -- A call that has returned a result, and is made again under its key, returns it again and
  -- changes nothing.
  pub save_approval-replay :
      (now later : String) (s s' : Store) (r : Result)
      → save_approval payload_hash a key now s ≡ (returned r, s')
      → save_approval payload_hash a key later s' ≡ (returned r, s')
  unfolding save_approval reserve reserve_row after_reserve
  save_approval-replay now later s s' r h = go (lookup key s.idempotency) refl h
    where
      go :
          (o : Option IdempotencyRow)
          → lookup key s.idempotency ≡ o
          → after_reserve payload_hash a key now
              (reserve_row key "model_digest_approval" (payload_hash a) now s o)
              s
            ≡ (returned r, s')
          → save_approval payload_hash a key later s' ≡ (returned r, s')
      go none e k =
          let (same, store) = first_save now s s' r k in
          rw (← store, ← same) (replay_row later (saved_store now s) _ (saved_row now s) refl refl)
      go (some row) e k =
          elim (Bool-cases (
            not (str_eq row.operation "model_digest_approval")
            || not (str_eq row.payload_hash (payload_hash a)))) [
              | inl b ↦ let q = (rw b at k) in cc
              | inr b ↦
                  let q = (rw b at k) in
                  let same : s ≡ s' = cc in rw (← same) (rw (e, b) (rw (← same) at q))
            ]

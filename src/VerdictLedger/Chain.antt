-- ===== src/VerdictLedger/Chain.antt =====
-- A row after a verified table of app/ledger.py.
use mathlib.Core.Path.{subst}
use sara_omega.Prelude.{
  String, ◌≡◌, refl, sym, ◌↔◌, Bool, true, false, not, ◌||◌, List, [], ◌∷◌, ◌++◌, some, eq_iff,
  if◌then◌else◌, arith,
}
use sara_omega.VerdictLedger.{schema, Core, Row, head_from, get, is_known, verify_from}
use sara_omega.VerdictLedger.Signatures.{AreVerified}

module _ {P : Type 0} where
  pub get-append :
      (rows : List (Row P)) (new : Row P)
      → is_known new.core.decision_id rows ≡ false
      → get new.core.decision_id (rows ++ new ∷ []) ≡ some new
  unfolding get
  get-append [] new h = ground (arith, eq_iff new.core.decision_id new.core.decision_id)
  get-append (r ∷ rs) new h = ground (arith, get-append rs new)

  pub head-append :
      (start : String) (rows : List (Row P)) (new : Row P)
      → head_from start (rows ++ new ∷ []) ≡ new.current_record_hash
  unfolding head_from
  head-append start [] new = refl
  head-append start (r ∷ rs) new = head-append r.current_record_hash rs new

  module _ (digest : Core P → String) (genesis : String) where
    -- A row after a row of that hash.
    pub record IsNext (previous : String) (r : Row P) : Type 0 where
      pub linked : r.core.previous_record_hash ≡ previous
      pub of_schema : r.schema_version ≡ schema
      pub signed : AreVerified (r.ed25519, r.ml_dsa)
      pub hashed : digest r.core ≡ r.current_record_hash

    next_flags :
        (a b c d e f g rest : Bool)
        → ((if not a
              then false
              else if not b
              then false
              else if not c || not d
              then false
              else if not e || not f
              then false
              else if not g
              then false
              else rest)
            ≡ true)
          ↔ ((a ≡ true)
              × (b ≡ true)
              × (c ≡ true)
              × (d ≡ true)
              × (e ≡ true)
              × (f ≡ true)
              × (g ≡ true)
              × (rest ≡ true))
    next_flags a b c d e f g rest = (λ h. ground arith, λ h. ground arith)

    verify-cons_iff :
        (previous : String) (r : Row P) (rs : List (Row P))
        → (verify_from digest genesis previous (r ∷ rs) ≡ true)
          ↔ ((IsNext previous r) × (verify_from digest genesis r.current_record_hash rs ≡ true))
    unfolding verify_from
    verify-cons_iff previous r rs = (
      λ h.
          let t = (next_flags _ _ _ _ _ _ _ _).0 h in
          let same = (eq_iff (digest r.core) r.current_record_hash).0 t.6 in
          (
            record {
              linked = (eq_iff r.core.previous_record_hash previous).0 t.0;
              of_schema = (eq_iff r.schema_version schema).0 t.1;
              signed = record {
                ed25519 = t.2;
                ed25519_verified = t.3;
                ml_dsa = t.4;
                ml_dsa_verified = t.5;
              };
              hashed = same;
            },
            subst (λ d. verify_from digest genesis d rs ≡ true) same t.7,
          ),
      λ (n, v). (next_flags _ _ _ _ _ _ _ _).1 (
        (eq_iff r.core.previous_record_hash previous).1 n.linked,
        (eq_iff r.schema_version schema).1 n.of_schema,
        n.signed.ed25519,
        n.signed.ed25519_verified,
        n.signed.ml_dsa,
        n.signed.ml_dsa_verified,
        (eq_iff (digest r.core) r.current_record_hash).1 n.hashed,
        subst (λ d. verify_from digest genesis d rs ≡ true) (sym n.hashed) v,
      ),
    )

    pub verify-append :
        (previous : String) (rows : List (Row P)) (new : Row P)
        → verify_from digest genesis previous rows ≡ true
        → IsNext (head_from previous rows) new
        → verify_from digest genesis previous (rows ++ new ∷ []) ≡ true
    unfolding verify_from head_from
    verify-append previous [] new h n = (verify-cons_iff previous new []).1 (n, refl)
    verify-append previous (r ∷ rs) new h n =
        let t = (verify-cons_iff previous r rs).0 h in
        (verify-cons_iff previous r (rs ++ new ∷ [])).1
          (t.0, verify-append r.current_record_hash rs new t.1 n)

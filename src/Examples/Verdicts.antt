-- ===== src/Examples/Verdicts.antt =====
-- A decision that is recorded.
use sara_omega.Prelude.{String, ◌≡◌, ◌≢◌, refl, ap, str_eq, List, [], ◌∷◌, ◌++◌, none, true, arith}
use sara_omega.Prelude.Text.{lower, dashed, translate}
use sara_omega.Prelude.Attempt.{returned, raised}
use sara_omega.VerdictLedger.{
  SignatureRecord, Signer, sign_and_verify, Core, Row, verify_chain, verify_from, new_core, new_row,
  append, get, Storage, unverified,
}
use sara_omega.VerdictLedger.Durable.{append-new}

abbrev signature : String → SignatureRecord
signature algorithm = record {
  algorithm = algorithm;
  key_id = "k1";
  signature_b64 = "c2ln";
  verified = true;
}

abbrev signer : String → Signer
signer algorithm = record {
  sign = λ d. returned (signature algorithm);
  verify = λ d s. returned true;
}

abbrev digest : Core String → String
digest c = c.decision_id

abbrev no_rows : List (Row String)
no_rows = []

abbrev storage : Storage String
storage = record { commits = true; reread = λ rows. rows }

-- A storage that loses what is committed.
abbrev lossy : Storage String
lossy = record { commits = true; reread = λ rows. [] }

signed_both :
    sign_and_verify (signer "Ed25519") (signer "ML-DSA") "d1"
    ≡ returned (signature "Ed25519", signature "ML-DSA")
unfolding sign_and_verify lower dashed translate
signed_both = refl

abbrev id : String
id = "d1"

named : id ≢ ""
named h = ground (arith, ap (λ s. str_eq s "") h)

append-new_example :
    append digest "0" storage (signer "Ed25519") (signer "ML-DSA") "d1" "now" "allow" none no_rows
    ≡ (
      returned (
          new_row digest "0"
            (new_core digest "0" "d1" "now" "allow" no_rows)
            none
            (signature "Ed25519", signature "ML-DSA")),
      no_rows
          ++ new_row digest "0"
              (new_core digest "0" "d1" "now" "allow" no_rows)
              none
              (signature "Ed25519", signature "ML-DSA")
            ∷ [],
    )
unfolding verify_chain verify_from get
append-new_example =
    append-new digest "0" storage (signer "Ed25519") (signer "ML-DSA") "d1" "now" "allow" none
      no_rows (signature "Ed25519", signature "ML-DSA") (refl, λ rows. refl) named refl refl
      signed_both refl refl

lost_is_unverified :
    (append digest "0" lossy (signer "Ed25519") (signer "ML-DSA") "d1" "now" "allow" none no_rows).0
    ≡ raised unverified
unfolding append lower dashed translate
lost_is_unverified = refl

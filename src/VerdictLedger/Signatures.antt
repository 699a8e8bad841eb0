-- ===== src/VerdictLedger/Signatures.antt =====
-- The two signatures of `DualSigner` of app/signing.py.
use mathlib.Core.Path.{subst}
use sara_omega.Prelude.{if◌then◌else◌, str_eq, false, String, ◌≡◌, refl, sym, Bool, true, arith}
use sara_omega.Prelude.Attempt.{Attempt, returned, raised, ◌>>=◌, raised-returned}
use sara_omega.VerdictLedger.{
  SignatureRecord, Signer, is_ed25519, is_ml_dsa, as_verified, check_algorithms, require_both,
  sign_and_verify,
}

check_algorithms_inv :
    (ed ml : SignatureRecord) (u : Unit)
    → check_algorithms ed ml ≡ returned u
    → (is_ed25519 ed.algorithm ≡ true) × (is_ml_dsa ml.algorithm ≡ true)
check_algorithms_inv ed ml u h = ground arith

require_both_inv :
    (a b : Bool) (ed ml : SignatureRecord) (signed : SignatureRecord × SignatureRecord)
    → require_both a b ed ml ≡ returned signed
    → (a ≡ true) × (b ≡ true) × (signed ≡ (as_verified ed, as_verified ml))
require_both_inv a b ed ml signed h = ground arith

-- Two signatures that the chain's verification accepts.
pub record AreVerified (signed : SignatureRecord × SignatureRecord) : Type 0 where
  pub ed25519 : is_ed25519 signed.0.algorithm ≡ true
  pub ed25519_verified : signed.0.verified ≡ true
  pub ml_dsa : is_ml_dsa signed.1.algorithm ≡ true
  pub ml_dsa_verified : signed.1.verified ≡ true

both_inv :
    (checked : Attempt {0} Unit) (a b : Attempt Bool) (ed ml : SignatureRecord)
    (signed : SignatureRecord × SignatureRecord)
    → (checked >>= λ u. a >>= λ x. b >>= λ y. require_both x y ed ml) ≡ returned signed
    → (checked ≡ returned tt) × (signed ≡ (as_verified ed, as_verified ml))
both_inv (raised e) a b ed ml signed h = absurd (raised-returned e signed h)
both_inv (returned u) (raised e) b ed ml signed h = absurd (raised-returned e signed h)
both_inv (returned u) (returned x) (raised e) ed ml signed h = absurd (raised-returned e signed h)
both_inv (returned u) (returned x) (returned y) ed ml signed h =
    (refl, (require_both_inv x y ed ml signed h).2)

pub sign_and_verify-AreVerified :
    (ed25519 ml_dsa : Signer) (digest : String) (signed : SignatureRecord × SignatureRecord)
    → sign_and_verify ed25519 ml_dsa digest ≡ returned signed
    → AreVerified signed
unfolding sign_and_verify
sign_and_verify-AreVerified ed25519 ml_dsa digest signed h =
    go (ed25519.sign digest) (ml_dsa.sign digest) (guarded (str_eq digest "") h)
  where
    guarded :
        (b : Bool) {r : Attempt (SignatureRecord × SignatureRecord)}
        → (if b then raised "SigningError" else r) ≡ returned signed
        → r ≡ returned signed
    guarded true q = absurd (raised-returned "SigningError" signed q)
    guarded false q = q

    go :
        (s t : Attempt SignatureRecord)
        → (s >>= λ ed. t >>= λ ml. check_algorithms ed ml >>= λ u. ed25519.verify digest ed >>= λ x.
            ml_dsa.verify digest ml >>= λ y. require_both x y ed ml)
          ≡ returned signed
        → AreVerified signed
    go (raised e) t h = absurd (raised-returned e signed h)
    go (returned ed) (raised e) h = absurd (raised-returned e signed h)
    go (returned ed) (returned ml) h =
        let t =
          both_inv (check_algorithms ed ml) (ed25519.verify digest ed) (ml_dsa.verify digest ml) ed
            ml signed h in
        let named = check_algorithms_inv ed ml tt t.0 in
        subst AreVerified (sym t.1) (record {
          ed25519 = named.0;
          ed25519_verified = refl;
          ml_dsa = named.1;
          ml_dsa_verified = refl;
        })

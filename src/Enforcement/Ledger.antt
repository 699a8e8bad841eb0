-- ===== src/Enforcement/Ledger.antt =====
-- The boundary of sara_unified/governance/enforcement.py over the ledger of
-- sara_unified/evidence/audit.py.
use mathlib.Core.Path.{subst}
use sara_omega.Prelude.{
  ℕ, String, ◌≡◌, refl, sym, ap, ◌∙◌, inl, inr, not, true, false, Bool, List, Option, none, some,
  Bool-cases,
}
use sara_omega.Prelude.Attempt.{Attempt, returned, raised, ◌>>=◌, returned-inj, raised-returned}
use sara_omega.Prelude.Float.{Float}
use sara_omega.Kernel.Model.{ExecutionEvidence, allow}
use sara_omega.Kernel.Evaluate.{Crypto}
use sara_omega.Audit.{Event, Entry, Json, is_encodable, records, verify, append}
use sara_omega.Audit.Lines.{IsTerminated}
use sara_omega.Audit.Chain.{
  event_at, IsPlain, extended, verify-entries, append-verify, append-returned, append-raised,
}
use sara_omega.Enforcement.{
  AuthorizeCall, AuditDetails, fail_closed, authorization, AuditPort, granted, Boundary, Moment,
  record_fail_closed, keep_on_raise, kernel_error, settle, decide_and_record, after_verify,
  with_kernel, authorize, evidence_payload,
}
use sara_omega.Enforcement.Granted.{issued, authorize-granted_iff}

module _ {F : Float} (json : Json (AuditDetails F)) (sha256 : List ℕ → String) (now : String) where
  -- The ledger as the boundary calls it.
  unfoldable pub ledger_port : AuditPort (List ℕ) (AuditDetails F)
  ledger_port = record {
    verify = verify json sha256;
    append = λ text actor action details. do
      written ← append json sha256 now actor action details text
      returned written.0;
  }

  -- A ledger that is verified, and whose text is empty or ends a line.
  pub record IsSound (text : List ℕ) : Type 0 where
    pub verified : verify json sha256 text ≡ returned true
    pub terminated : IsTerminated text

  abbrev written_by :
      String → AuditDetails F → List (Entry (AuditDetails F)) → Event (AuditDetails F)
  written_by action d es = event_at json sha256 now "governance-kernel" action d es

  -- The JSON of the event that would be written after a text, where it can be encoded, is one line
  -- that is read back as the event.
  abbrev pub IsWritable : List ℕ → String → AuditDetails F → Type 0
  IsWritable text action d =
      (es : List (Entry (AuditDetails F)))
      → records json text ≡ returned es
      → is_encodable (json.body_text (written_by action d es).body) ≡ true
      → IsPlain json sha256 (written_by action d es)

  append-IsSound :
      (action : String) (d : AuditDetails F) (text text' : List ℕ)
      → IsSound text
      → IsWritable text action d
      → ledger_port.append text "governance-kernel" action d ≡ returned text'
      → IsSound text'
  unfolding ledger_port
  append-IsSound action d text text' h writable q =
      let (es, known) = verify-entries json sha256 text h.verified in
      let e = written_by action d es in
      elim (Bool-cases (is_encodable (json.body_text e.body))) [
        | inl k ↦
            let (done, verified, terminated) =
              append-verify json sha256 now "governance-kernel" action d text es h.terminated
                h.verified known k (writable es known k) in
            let same : extended json sha256 text e ≡ text' =
              returned-inj (ap (λ m. m >>= λ w. returned w.0) (sym done) ∙ q) in
            subst IsSound same (record { verified = verified; terminated = terminated })
        | inr k ↦
            let failed =
              append-raised json sha256 now "governance-kernel" action d text es h.verified known
                k in
            absurd (
              raised-returned "UnicodeEncodeError" text'
                (ap (λ m. m >>= λ w. returned w.0) (sym failed) ∙ q))
      ]

  keep-IsSound :
      (text : List ℕ) (r : Attempt (List ℕ))
      → IsSound text
      → ((text' : List ℕ) → r ≡ returned text' → IsSound text')
      → IsSound (keep_on_raise text r)
  keep-IsSound text (returned text') h k = k text' refl
  keep-IsSound text (raised e) h k = h

  module _ (crypto : Crypto F) where
    record_fail_closed-IsSound :
        (action reason : String) (u : Bool) (text : List ℕ)
        → IsSound text
        → IsWritable text "GOVERNANCE_FAIL_CLOSED" (fail_closed action reason (not u))
        → IsSound (record_fail_closed ledger_port crypto action reason u text)
    unfolding record_fail_closed
    record_fail_closed-IsSound action reason u text h w =
        keep-IsSound text
          (ledger_port.append text "governance-kernel" "GOVERNANCE_FAIL_CLOSED"
            (fail_closed action reason (not u)))
          h
          (λ text' q.
            append-IsSound "GOVERNANCE_FAIL_CLOSED" (fail_closed action reason (not u)) text text' h
              w q)

    settle-IsSound :
        (e : ExecutionEvidence F) (text : List ℕ) (r : Attempt (List ℕ))
        → IsSound text
        → ((text' : List ℕ) → r ≡ returned text' → IsSound text')
        → IsSound (settle ledger_port crypto e text r).1
    unfolding settle
    settle-IsSound e text (returned x) h k = k x refl
    settle-IsSound e text (raised x) h k = h

    -- The details of the authorization that a call writes with a key.
    abbrev pub authorized_details : Boundary F → Moment → AuthorizeCall F → String → AuditDetails F
    authorized_details b m c key =
        authorization c.profile.action c.resource
          (evidence_payload (issued ledger_port crypto b key m c))

    -- The JSON of what a call on a verified ledger can write is one line that is read back.
    pub record WritesPlain (b : Boundary F) (m : Moment) (c : AuthorizeCall F) (text : List ℕ)
        : Type 0 where
      pub refusal :
          b.kernel ≡ none
          → IsWritable text "GOVERNANCE_FAIL_CLOSED"
              (fail_closed c.profile.action (kernel_error b.configuration_error) true)
      pub decision :
          (key : String)
          → b.kernel ≡ some key
          → IsWritable text "GOVERNANCE_AUTHORIZATION" (authorized_details b m c key)

    decide_and_record-IsSound :
        (b : Boundary F) (key : String) (m : Moment) (c : AuthorizeCall F) (text : List ℕ)
        → IsSound text
        → IsWritable text "GOVERNANCE_AUTHORIZATION" (authorized_details b m c key)
        → IsSound (decide_and_record ledger_port crypto b key m c text).1
    unfolding decide_and_record
    decide_and_record-IsSound b key m c text h w =
        let d = authorized_details b m c key in
        settle-IsSound (issued ledger_port crypto b key m c) text
          (ledger_port.append text "governance-kernel" "GOVERNANCE_AUTHORIZATION" d) h
          (λ text' q. append-IsSound "GOVERNANCE_AUTHORIZATION" d text text' h w q)

    with_kernel-IsSound :
        (b : Boundary F) (m : Moment) (c : AuthorizeCall F) (text : List ℕ) (k : Option String)
        → b.kernel ≡ k
        → IsSound text
        → WritesPlain b m c text
        → IsSound (with_kernel ledger_port crypto b m c text k).1
    unfolding with_kernel after_verify
    with_kernel-IsSound b m c text none e h w =
        record_fail_closed-IsSound c.profile.action (kernel_error b.configuration_error) false text
          h (w.refusal e)
    with_kernel-IsSound b m c text (some key) e h w =
        let checked : ledger_port.verify text ≡ returned true =
          (unfold ledger_port in h.verified) in
        subst (λ r. IsSound (after_verify ledger_port crypto b key m c text r).1) (sym checked)
          (decide_and_record-IsSound b key m c text h (w.decision key e))

    -- A call, whatever its outcome, leaves a ledger that is verified, and whose text is empty or ends
    -- a line, one that is verified and ends so, where the JSON of what it can write is one line that
    -- is read back.
    pub authorize-verify :
        (b : Boundary F) (m : Moment) (c : AuthorizeCall F) (text : List ℕ)
        → IsSound text
        → WritesPlain b m c text
        → IsSound (authorize ledger_port crypto b m c text).1
    unfolding authorize
    authorize-verify b m c text h w = with_kernel-IsSound b m c text b.kernel refl h w

    -- On a verified ledger, with a kernel, a call whose evidence says ALLOW and can be encoded is
    -- granted.
    pub authorize-granted :
        (b : Boundary F) (key : String) (m : Moment) (c : AuthorizeCall F) (text : List ℕ)
        (es : List (Entry (AuditDetails F)))
        → b.kernel ≡ some key
        → verify json sha256 text ≡ returned true
        → records json text ≡ returned es
        → (let e = written_by "GOVERNANCE_AUTHORIZATION" (authorized_details b m c key) es in
            is_encodable (json.body_text e.body) ≡ true)
        → (issued ledger_port crypto b key m c).decision ≡ allow
        → (text' : List ℕ) × (authorize ledger_port crypto b m c text
            ≡ (granted (issued ledger_port crypto b key m c), text'))
    unfolding ledger_port
    authorize-granted b key m c text es k h known enc a =
        let d = authorized_details b m c key in
        let e = written_by "GOVERNANCE_AUTHORIZATION" d es in
        let done =
          append-returned json sha256 now "governance-kernel" "GOVERNANCE_AUTHORIZATION" d text es h
            known enc in
        (
          extended json sha256 text e,
          (authorize-granted_iff ledger_port crypto b m c text (extended json sha256 text e) _).1
              (record {
                key = key;
                kernel_present = k;
                ledger_verified = h;
                evidence_issued = refl;
                allowed = a;
                persisted = ap (λ m. m >>= λ w. returned w.0) done;
              }),
        )

-- ===== src/Enforcement/Granted.antt =====
-- What a call of `authorize` in sara_unified/governance/enforcement.py has done when it returns
-- evidence, and that it is fail-closed everywhere else.
use Prim.Native.String.{len}
use mathlib.Core.Path.{subst}
use sara_omega.Prelude.{
  sym, ℕ, ◌<◌, String, ◌≡◌, ◌⊎◌, refl, ◌≢◌, ◌↔◌, Bool, true, false, Option, none, some, arith,
}
use sara_omega.Prelude.Attempt.{Attempt, returned, raised}
use sara_omega.Prelude.Float.{Float}
use sara_omega.Kernel.Model.{allow, quarantine, ExecutionEvidence, GovernancePolicy}
use sara_omega.Kernel.Evaluate.{Crypto, evaluate}
use sara_omega.Enforcement.{
  AuthorizeCall, AuditDetails, authorization, AuditPort, granted, unavailable, blocked, Boundary,
  Moment, configure, make_boundary, build_request, evidence_payload, decide_and_record, authorize,
  settle, after_verify, with_kernel,
}

configure_short :
    (signing_key : Option String) (ephemeral : String)
    → ((key : String) → signing_key ≡ some key → len key < 16)
    → (configure signing_key true ephemeral).0 ≡ none
unfolding configure
configure_short none ephemeral h = refl
configure_short (some key) ephemeral h = ground (arith, h key refl)

module _ {F : Float} {S : Type 0} (port : AuditPort S (AuditDetails F)) (crypto : Crypto F) where
  -- The evidence that the kernel issues for a call.
  abbrev pub issued : Boundary F → String → Moment → AuthorizeCall F → ExecutionEvidence F
  issued b key m c =
      evaluate crypto key m.issued_at m.today (build_request m.request_id b.tenant_id c) b.policy
        c.insurance_policy c.insurance_requirements none

  abbrev pub recorded : ExecutionEvidence F → AuthorizeCall F → S → Attempt S
  recorded e c s =
      port.append s "governance-kernel" "GOVERNANCE_AUTHORIZATION"
        (authorization c.profile.action c.resource (evidence_payload e))

  -- A call has gone through: the kernel is there, the ledger was verified, the evidence says
  -- ALLOW, and the ledger was extended by it.
  pub record Crossed (b : Boundary F) (m : Moment) (c : AuthorizeCall F) (s : S)
      (e : ExecutionEvidence F) (s' : S) : Type 0 where
    pub key : String
    pub kernel_present : b.kernel ≡ some key
    pub ledger_verified : port.verify s ≡ returned true
    pub evidence_issued : e ≡ issued b key m c
    pub allowed : e.decision ≡ allow
    pub persisted : recorded e c s ≡ returned s'

  settle-granted :
      (e e' : ExecutionEvidence F) (s s' : S) (r : Attempt S)
      → settle port crypto e' s r ≡ (granted e, s')
      → (e ≡ e') × (e'.decision ≡ allow) × (r ≡ returned s')
  unfolding settle
  settle-granted e e' s s' (returned x) h = (ground arith, ground arith, ground arith)
  settle-granted e e' s s' (raised x) h = (cc, cc, cc)

  granted-settle :
      (e : ExecutionEvidence F) (s s' : S)
      → e.decision ≡ allow
      → settle port crypto e s (returned s') ≡ (granted e, s')
  unfolding settle
  granted-settle e s s' h = ground arith

  after_verify-granted :
      (b : Boundary F) (key : String) (m : Moment) (c : AuthorizeCall F) (s s' : S)
      (e : ExecutionEvidence F) (r : Attempt Bool)
      → after_verify port crypto b key m c s r ≡ (granted e, s')
      → (r ≡ returned true)
        × (e ≡ issued b key m c)
        × ((issued b key m c).decision ≡ allow)
        × (recorded (issued b key m c) c s ≡ returned s')
  unfolding after_verify
  after_verify-granted b key m c s s' e (returned true) h =
      let t = settle-granted e (issued b key m c) s s' _ h in (refl, t.0, t.1, t.2)
  after_verify-granted b key m c s s' e (returned false) h = (cc, cc, cc, cc)
  after_verify-granted b key m c s s' e (raised x) h = (cc, cc, cc, cc)

  with_kernel-granted :
      (b : Boundary F) (m : Moment) (c : AuthorizeCall F) (s s' : S) (e : ExecutionEvidence F)
      (k : Option String)
      → b.kernel ≡ k
      → with_kernel port crypto b m c s k ≡ (granted e, s')
      → Crossed b m c s e s'
  unfolding with_kernel
  with_kernel-granted b m c s s' e none p h = cc
  with_kernel-granted b m c s s' e (some key) p h =
      let t = after_verify-granted b key m c s s' e (port.verify s) h in
      record {
        key = key;
        kernel_present = p;
        ledger_verified = t.0;
        evidence_issued = t.1;
        allowed = rw t.1 t.2;
        persisted = rw t.1 t.3;
      }

  granted-decide :
      (b : Boundary F) (key : String) (m : Moment) (c : AuthorizeCall F) (s s' : S)
      (e : ExecutionEvidence F)
      → e ≡ issued b key m c
      → e.decision ≡ allow
      → recorded e c s ≡ returned s'
      → decide_and_record port crypto b key m c s ≡ (granted e, s')
  unfolding decide_and_record
  granted-decide b key m c s s' e p a r = rw (← p) (rw r (granted-settle e s s' a))

  Crossed-with_kernel :
      (b : Boundary F) (m : Moment) (c : AuthorizeCall F) (s s' : S) (e : ExecutionEvidence F)
      (h : Crossed b m c s e s')
      → with_kernel port crypto b m c s (some h.key) ≡ (granted e, s')
  unfolding with_kernel after_verify
  Crossed-with_kernel b m c s s' e h =
      rw h.ledger_verified
        (granted-decide b h.key m c s s' e h.evidence_issued h.allowed h.persisted)

  -- `authorize` returns evidence exactly when the call has gone through.
  pub authorize-granted_iff :
      (b : Boundary F) (m : Moment) (c : AuthorizeCall F) (s s' : S) (e : ExecutionEvidence F)
      → (authorize port crypto b m c s ≡ (granted e, s')) ↔ Crossed b m c s e s'
  unfolding authorize
  authorize-granted_iff b m c s s' e = (
    λ h. with_kernel-granted b m c s s' e b.kernel refl h,
    λ h.
        subst (λ k. with_kernel port crypto b m c s k ≡ (granted e, s')) (sym h.kernel_present)
          (Crossed-with_kernel b m c s s' e h),
  )

  -- What an outcome `blocked e code` says of its evidence and its status.
  abbrev Refuses : ExecutionEvidence F → ℕ → Type 0
  Refuses e code =
      (e.decision ≢ allow)
      × ((code ≡ 423) ↔ (e.decision ≡ quarantine))
      × ((code ≡ 403) ⊎ (code ≡ 423))

  settle-blocked :
      (e e' : ExecutionEvidence F) (s s' : S) (code : ℕ) (r : Attempt S)
      → settle port crypto e' s r ≡ (blocked e code, s')
      → (e ≡ e') × (r ≡ returned s') × Refuses e' code
  unfolding settle
  settle-blocked e e' s s' code (returned x) h = (
    ground arith,
    ground arith,
    (ground arith, (λ q. ground arith, λ q. ground arith), ground arith),
  )
  settle-blocked e e' s s' code (raised x) h = cc

  after_verify-blocked :
      (b : Boundary F) (key : String) (m : Moment) (c : AuthorizeCall F) (s s' : S)
      (e : ExecutionEvidence F) (code : ℕ) (r : Attempt Bool)
      → after_verify port crypto b key m c s r ≡ (blocked e code, s')
      → (r ≡ returned true)
        × (e ≡ issued b key m c)
        × (recorded (issued b key m c) c s ≡ returned s')
        × Refuses (issued b key m c) code
  unfolding after_verify
  after_verify-blocked b key m c s s' e code (returned true) h =
      let t = settle-blocked e (issued b key m c) s s' code _ h in (refl, t.0, t.1, t.2)
  after_verify-blocked b key m c s s' e code (returned false) h = cc
  after_verify-blocked b key m c s s' e code (raised x) h = cc

  with_kernel-blocked :
      (b : Boundary F) (m : Moment) (c : AuthorizeCall F) (s s' : S) (e : ExecutionEvidence F)
      (code : ℕ) (k : Option String)
      → with_kernel port crypto b m c s k ≡ (blocked e code, s')
      → (port.verify s ≡ returned true) × (recorded e c s ≡ returned s') × Refuses e code
  unfolding with_kernel
  with_kernel-blocked b m c s s' e code none h = cc
  with_kernel-blocked b m c s s' e code (some key) h =
      let t = after_verify-blocked b key m c s s' e code (port.verify s) h in
      (t.0, rw t.1 t.2, rw t.1 t.3)

  -- A refused call is written to a verified ledger too, and its evidence does not say ALLOW; its
  -- status is 423 exactly for a quarantine, and else 403.
  pub authorize-blocked :
      (b : Boundary F) (m : Moment) (c : AuthorizeCall F) (s s' : S) (e : ExecutionEvidence F)
      (code : ℕ)
      → authorize port crypto b m c s ≡ (blocked e code, s')
      → (port.verify s ≡ returned true)
        × (recorded e c s ≡ returned s')
        × (e.decision ≢ allow)
        × ((code ≡ 423) ↔ (e.decision ≡ quarantine))
        × ((code ≡ 403) ⊎ (code ≡ 423))
  unfolding authorize
  authorize-blocked b m c s s' e code h =
      let t = with_kernel-blocked b m c s s' e code b.kernel h in (t.0, t.1, t.2.0, t.2.1, t.2.2)

  -- With a signing key that is required, and missing or shorter than 16 bytes, every call is
  -- unavailable.
  pub authorize-unconfigured :
      (signing_key : Option String) (tenant ephemeral : String) (policy : GovernancePolicy F)
      (m : Moment) (c : AuthorizeCall F) (s : S)
      → ((key : String) → signing_key ≡ some key → len key < 16)
      → (authorize port crypto (make_boundary signing_key true tenant policy ephemeral) m c s).0
        ≡ unavailable "production governance kernel is unavailable"
  unfolding authorize make_boundary with_kernel
  authorize-unconfigured signing_key tenant ephemeral policy m c s short =
      subst
        (λ k.
          (with_kernel port crypto (make_boundary signing_key true tenant policy ephemeral) m c s
            k).0
          ≡ unavailable "production governance kernel is unavailable")
        (sym (configure_short signing_key ephemeral short)) refl

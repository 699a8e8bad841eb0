-- ===== src/Authority.antt =====
-- `Authorizer`, `PolicyEngine`, `ApprovalStore`, `AuthorityChain`, `SIOSGate` and `RoadGate` of
-- sara_unified/security/authorization.py and sara_unified/governance/*.py.
pub mod Chain
use sara_omega.Prelude.{
  ℕ, String, Bool, true, false, not, ◌&&◌, List, [], ◌∷◌, Option, none, some, any, member, is_empty,
  str_eq, if◌then◌else◌,
}
use sara_omega.Prelude.Dict.{Dict, lookup}
use sara_omega.Prelude.Attempt.{Attempt, returned, raised}

pub data OperationClass : Type 0 where
  read_only state_changing sensitive destructive : OperationClass

pub record PolicyDecision : Type 0 where
  pub allowed : Bool
  pub approval_required : Bool
  pub reason : String

pub record AuthorityDecision : Type 0 where
  pub allowed : Bool
  pub reason : String
  pub authority : String

-- `permission in grants.get(role, set())`
unfoldable pub role_grants : Dict (List String) → String → String → Bool
role_grants grants permission role = elim (lookup role grants) [
  | none ↦ false
  | some ps ↦ member permission ps
]

-- `Authorizer.allowed`
unfoldable pub is_allowed : Dict (List String) → List String → String → Bool
unfolding role_grants
is_allowed grants roles permission =
    not (is_empty roles) && any (role_grants grants permission) roles

-- `PolicyEngine.evaluate`
unfoldable pub evaluate : OperationClass → Bool → PolicyDecision
evaluate op false = record {
  allowed = false;
  approval_required = false;
  reason = "permission denied";
}
evaluate destructive true = record {
  allowed = false;
  approval_required = true;
  reason = "destructive operations require explicit approval policy";
}
evaluate read_only true = record {
  allowed = true;
  approval_required = false;
  reason = "read-only allowed";
}
evaluate op true = record { allowed = true; approval_required = true; reason = "approval required" }

pub record Approval : Type 0 where
  pub subject : String
  pub approver : String
  pub scope : String
  pub approved_at : String

-- `ApprovalStore`: the dict's keys are the subject and the scope of its values.
abbrev pub ApprovalStore : Type 0
ApprovalStore = List Approval

abbrev pub is_for : String → String → Approval → Bool
is_for subject scope a = str_eq a.subject subject && str_eq a.scope scope

unfoldable pub grant : Approval → ApprovalStore → ApprovalStore
grant a [] = a ∷ []
grant a (b ∷ store) = if is_for a.subject a.scope b then a ∷ store else b ∷ grant a store

unfoldable pub has_approval : String → String → ApprovalStore → Bool
has_approval subject scope store = any (is_for subject scope) store

-- `approval_scope and self.approvals.has(ctx.actor_id, approval_scope)`
unfoldable pub scope_approved : String → Option String → ApprovalStore → Bool
unfolding has_approval
scope_approved actor none store = false
scope_approved actor (some scope) store = not (str_eq scope "") && has_approval actor scope store

-- `AuthorityChain.decide`
unfoldable pub decide :
    Dict (List String)
    → ApprovalStore
    → String
    → List String
    → String
    → OperationClass
    → Option String
    → AuthorityDecision
unfolding is_allowed evaluate scope_approved
decide grants store actor roles permission op scope =
    let decision = evaluate op (is_allowed grants roles permission) in
    if not decision.allowed
    then record { allowed = false; reason = decision.reason; authority = "policy" }
    else if decision.approval_required && not (scope_approved actor scope store)
    then record { allowed = false; reason = "required approval absent"; authority = "approval" }
    else record { allowed = true; reason = "authorized"; authority = "authority-chain" }

pub record SiosDecision : Type 0 where
  pub allowed : Bool
  pub decision_id : String
  pub reason : String

-- `SIOSGate.authorize`
unfoldable pub sios_authorize {ℓ} :
    {R : Type ℓ} → Bool → Option (R → Attempt SiosDecision) → R → Attempt SiosDecision
sios_authorize mandatory none request =
    if mandatory
    then raised "GovernanceUnavailableError"
    else returned (record { allowed = false; decision_id = "none"; reason = "SIOS not configured" })
sios_authorize mandatory (some provider) request = provider request

pub record RoadStatus : Type 0 where
  pub reachable : Bool
  pub trusted : Bool
  pub production_accepted : Bool
  pub evidence_state : String

-- `RoadGate.status`
unfoldable pub road_status : Bool → Option (Attempt RoadStatus) → Attempt RoadStatus
road_status mandatory none =
    if mandatory
    then raised "GovernanceUnavailableError"
    else returned (record {
      reachable = false;
      trusted = false;
      production_accepted = false;
      evidence_state = "UNVERIFIED";
    })
road_status mandatory (some provider) = provider

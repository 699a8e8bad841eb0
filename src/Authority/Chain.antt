-- ===== src/Authority/Chain.antt =====
-- What the chain of sara_unified/governance/authority.py lets through.
use sara_omega.Prelude.{
  String, ◌≡◌, ◌≢◌, ◌↔◌, ◌⊎◌, inl, inr, true, List, [], ◌∷◌, Option, none, some, any_iff, Some,
  arith, eq_iff,
}
use sara_omega.Prelude.Dict.{Dict}
use sara_omega.Authority.{
  OperationClass, read_only, state_changing, sensitive, destructive, role_grants, is_allowed,
  evaluate, ApprovalStore, is_for, scope_approved, decide,
}

-- An approval in the store is for this actor and this scope.
abbrev pub Approved : String → Option String → ApprovalStore → Type 0
Approved actor none store = ⊥
Approved actor (some scope) store = (scope ≢ "") × Some (is_for actor scope) store

scope_approved_iff :
    (actor : String) (scope : Option String) (store : ApprovalStore)
    → (scope_approved actor scope store ≡ true) ↔ Approved actor scope store
unfolding scope_approved
scope_approved_iff actor none store = (λ h. cc, λ h. absurd h)
scope_approved_iff actor (some scope) store = (
  λ h. (ground (arith, eq_iff scope ""), (any_iff (is_for actor scope) store).0 (ground arith)),
  λ h. ground (arith, eq_iff scope "", (any_iff (is_for actor scope) store).1 h.1),
)

is_allowed_iff :
    (grants : Dict (List String)) (roles : List String) (permission : String)
    → (is_allowed grants roles permission ≡ true) ↔ Some (role_grants grants permission) roles
unfolding is_allowed
is_allowed_iff grants [] permission = (λ h. cc, λ h. absurd h)
is_allowed_iff grants (r ∷ rs) permission = any_iff (role_grants grants permission) (r ∷ rs)

module _ (grants : Dict (List String)) (store : ApprovalStore) (actor : String)
    (roles : List String) (permission : String) where
  decide_flags :
      (op : OperationClass) (scope : Option String)
      → ((decide grants store actor roles permission op scope).allowed ≡ true) ↔ (
          (is_allowed grants roles permission ≡ true)
          × (op ≢ destructive)
          × ((op ≡ read_only) ⊎ (scope_approved actor scope store ≡ true)))
  unfolding decide evaluate
  decide_flags read_only scope = (λ h. ground arith, λ h. ground arith)
  decide_flags state_changing scope = (λ h. ground arith, λ h. ground arith)
  decide_flags sensitive scope = (λ h. ground arith, λ h. ground arith)
  decide_flags destructive scope = (λ h. ground arith, λ h. ground arith)

  -- An operation is authorised exactly when some role grants its permission, it is not
  -- destructive, and it only reads or has an approval for the actor and the scope.
  pub decide-allowed_iff :
      (op : OperationClass) (scope : Option String)
      → ((decide grants store actor roles permission op scope).allowed ≡ true) ↔ (
          Some (role_grants grants permission) roles
          × (op ≢ destructive)
          × ((op ≡ read_only) ⊎ Approved actor scope store))
  decide-allowed_iff op scope = (
    λ h.
        let t = (decide_flags op scope).0 h in
        (
          (is_allowed_iff grants roles permission).0 t.0,
          t.1,
          elim t.2 [ inl r ↦ inl r | inr a ↦ inr ((scope_approved_iff actor scope store).0 a) ],
        ),
    λ h. (decide_flags op scope).1 (
      (is_allowed_iff grants roles permission).1 h.0,
      h.1,
      elim h.2 [ inl r ↦ inl r | inr a ↦ inr ((scope_approved_iff actor scope store).1 a) ],
    ),
  )

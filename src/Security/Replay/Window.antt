-- ===== src/Security/Replay/Window.antt =====
-- How long `check` of sara_unified/security/replay.py refuses a nonce that it has accepted.
use sara_omega.Prelude.{
  ℕ, suc, ◌+◌, ◌≤◌, ◌<◌, String, ◌≡◌, refl, ◌≢◌, ◌↔◌, ◌⊎◌, List, [], ◌∷◌, ◌++◌, none, arith,
  Bool-cases, inl, inr, length, length-append, ltb, eq_iff,
}
use native.Mathlib.Nat.{zero-add}
use mathlib.Core.List.{append_assoc}
use sara_omega.Prelude.Dict.{Dict, lookup, insert, insert-append_new}
use sara_omega.Prelude.Int.{ℤ, abs_diff}
use sara_omega.Security.Replay.{ReplayGuard, accepted, trim, check}

-- A nonce is accepted exactly when it is fresh and not remembered.
pub check-accepted_iff :
    (nonce : String) (timestamp now : ℤ) (g : ReplayGuard)
    → ((check nonce timestamp now g).0 ≡ accepted)
      ↔ ((abs_diff now timestamp ≤ g.max_age_seconds) × (lookup nonce g.seen ≡ none))
unfolding check
check-accepted_iff nonce timestamp now g = (λ h. ground arith, λ h. ground arith)

length-trim : (capacity : ℕ) (d : Dict ℤ) → length (trim capacity d) ≤ capacity
unfolding trim
length-trim capacity [] = omega arith
length-trim capacity (e ∷ d) = ground (arith, length-trim capacity d)

-- The guard never remembers more nonces than its capacity.
pub length-check :
    (nonce : String) (timestamp now : ℤ) (g : ReplayGuard)
    → length g.seen ≤ g.capacity
    → length (check nonce timestamp now g).1.seen ≤ g.capacity
unfolding check
length-check nonce timestamp now g h =
    ground (arith, length-trim g.capacity (insert nonce timestamp g.seen))

trim-short : (capacity : ℕ) (d : Dict ℤ) → length d ≤ capacity → trim capacity d ≡ d
unfolding trim
trim-short capacity [] h = refl
trim-short capacity (x ∷ d) h = ground arith

-- What stands in the last `capacity` places is kept.
trim-append :
    (capacity : ℕ) (d e : Dict ℤ)
    → length e ≤ capacity
    → (d' : Dict ℤ) × (trim capacity (d ++ e) ≡ d' ++ e)
unfolding trim
trim-append capacity [] e h = ([], trim-short capacity e h)
trim-append capacity (x ∷ d) e h = elim (Bool-cases (ltb capacity (suc (length (d ++ e))))) [
  | inl full ↦ let (d', p) = trim-append capacity d e h in (d', rw full p)
  | inr room ↦ (x ∷ d, rw room)
]

-- The nonce stands in the dictionary with at most `later` entries behind it.
pub record Within (nonce : String) (later : ℕ) (d : Dict ℤ) : Type 0 where
  pub older : Dict ℤ
  pub stamp : ℤ
  pub newer : Dict ℤ
  pub split : d ≡ older ++ (nonce, stamp) ∷ newer
  pub few : length newer ≤ later

Within-weaken :
    (nonce : String) (j k : ℕ) (d : Dict ℤ) → j ≤ k → Within nonce j d → Within nonce k d
Within-weaken nonce j k d h w = record {
  older = w.older;
  stamp = w.stamp;
  newer = w.newer;
  split = w.split;
  few = omega arith;
}

lookup-append_self :
    (nonce : String) (stamp : ℤ) (d e : Dict ℤ) → lookup nonce (d ++ (nonce, stamp) ∷ e) ≢ none
lookup-append_self nonce stamp [] e = ground (arith, eq_iff nonce nonce)
lookup-append_self nonce stamp (x ∷ d) e = ground (arith, lookup-append_self nonce stamp d e)

Within-lookup : (nonce : String) (j : ℕ) (d : Dict ℤ) → Within nonce j d → lookup nonce d ≢ none
Within-lookup nonce j d w = rw w.split (lookup-append_self nonce w.stamp w.older w.newer)

-- An entry that has been added at the end, and those before it that are kept.
Within-trim :
    (nonce m : String) (t : ℤ) (j capacity : ℕ) (d : Dict ℤ)
    → suc j < capacity
    → Within nonce j d
    → Within nonce (suc j) (trim capacity (d ++ (m, t) ∷ []))
Within-trim nonce m t j capacity d room w =
    let tail : Dict ℤ = (nonce, w.stamp) ∷ w.newer ++ (m, t) ∷ [] in
    let size = length-append {0} w.newer ((m, t) ∷ []) in
    let (kept, p) = trim-append capacity w.older tail (omega (arith, size, w.few)) in
    record {
      older = kept;
      stamp = w.stamp;
      newer = w.newer ++ (m, t) ∷ [];
      split = rw (w.split, append_assoc w.older) p;
      few = omega (arith, size, w.few);
    }

-- Calls of `check`, in a row: nonce, timestamp and time.
abbrev pub Call : Type 0
Call = String × ℤ × ℤ

unfoldable pub check_all : List Call → ReplayGuard → ReplayGuard
check_all [] g = g
check_all (c ∷ cs) g = check_all cs (check c.0 c.1 c.2 g).1

capacity-check :
    (m : String) (t now : ℤ) (g : ReplayGuard) → (check m t now g).1.capacity ≡ g.capacity
unfolding check
capacity-check m t now g = ground arith

seen-check :
    (m : String) (t now : ℤ) (g : ReplayGuard)
    → ((check m t now g).1.seen ≡ g.seen)
      ⊎ ((check m t now g).1.seen ≡ trim g.capacity (g.seen ++ (m, t) ∷ []))
unfolding check
seen-check m t now g = ground (arith, insert-append_new m t g.seen)

check-Within :
    (nonce : String) (j : ℕ) (c : Call) (g : ReplayGuard)
    → suc j < g.capacity
    → Within nonce j g.seen
    → Within nonce (suc j) (check c.0 c.1 c.2 g).1.seen
check-Within nonce j c g room w = elim (seen-check c.0 c.1 c.2 g) [
  | inl same ↦ rw same (Within-weaken nonce j (suc j) g.seen (omega arith) w)
  | inr added ↦ rw added (Within-trim nonce c.0 c.1 j g.capacity g.seen room w)
]

check_all-Within :
    (nonce : String) (cs : List Call) (j : ℕ) (g : ReplayGuard)
    → length cs + j < g.capacity
    → Within nonce j g.seen
    → Within nonce (length cs + j) (check_all cs g).seen
unfolding check_all
check_all-Within nonce [] j g room w = rw (zero-add j) w
check_all-Within nonce (c ∷ cs) j g room w =
    let same = capacity-check c.0 c.1 c.2 g in
    let sum : suc (length cs + j) ≡ length cs + suc j = omega arith in
    let sum' : suc (length cs) + j ≡ length cs + suc j = omega arith in
    rw sum' (
      check_all-Within nonce cs (suc j) (check c.0 c.1 c.2 g).1 (omega arith)
        (check-Within nonce j c g (omega arith) w))

seen-check_accepted :
    (nonce : String) (t now : ℤ) (g : ReplayGuard)
    → (check nonce t now g).0 ≡ accepted
    → lookup nonce g.seen ≡ none
    → (check nonce t now g).1.seen ≡ trim g.capacity (g.seen ++ (nonce, t) ∷ [])
unfolding check
seen-check_accepted nonce t now g ok new = ground (arith, insert-append_new nonce t g.seen new)

accepted-Within :
    (nonce : String) (t now : ℤ) (g : ReplayGuard)
    → 0 < g.capacity
    → (check nonce t now g).0 ≡ accepted
    → Within nonce 0 (check nonce t now g).1.seen
accepted-Within nonce t now g room ok =
    let new = ((check-accepted_iff nonce t now g).0 ok).1 in
    let (kept, p) = trim-append g.capacity g.seen ((nonce, t) ∷ []) (omega arith) in
    record {
      older = kept;
      stamp = t;
      newer = [];
      split = rw (seen-check_accepted nonce t now g ok new) p;
      few = omega arith;
    }

-- An accepted nonce is accepted again by no call that comes after fewer than `capacity` others,
-- whatever their nonces, their timestamps and the times.
pub check-no_replay :
    (nonce : String) (t now t' now' : ℤ) (cs : List Call) (g : ReplayGuard)
    → (check nonce t now g).0 ≡ accepted
    → length cs < g.capacity
    → (check nonce t' now' (check_all cs (check nonce t now g).1)).0 ≢ accepted
check-no_replay nonce t now t' now' cs g ok few again =
    let same = capacity-check nonce t now g in
    let w =
      check_all-Within nonce cs 0 (check nonce t now g).1 (omega arith)
        (accepted-Within nonce t now g (omega arith) ok) in
    Within-lookup nonce (length cs + 0) _ w
      ((check-accepted_iff nonce t' now' (check_all cs (check nonce t now g).1)).0 again).1

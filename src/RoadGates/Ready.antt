-- ===== src/RoadGates/Ready.antt =====
-- When `review` of app/road_gates.py finds a release ready.
use Prim.Native.String.{len}
use sara_omega.Prelude.{
  ℕ, String, ◌≡◌, refl, ◌↔◌, ◌≤◌, Bool, true, false, not, ◌&&◌, ◌||◌, map, Option, none, some,
  all_iff, Every, member, if◌then◌else◌, arith, eq_iff,
}
use sara_omega.Prelude.Dict.{lookup}
use sara_omega.Prelude.Int.{ℤ, pos, negsuc}
use sara_omega.Prelude.Text.{lower}
use sara_omega.RoadGates.{
  Value, text, flag, Request, blocked, ready_for_verification, is_text, is_true, by_id, has_passed,
  required_observations, required_flags, is_flag_set, is_valid_sha, within_budget, review,
  governance_record, privacy_record, performance_record, recovery_record, multi_cloud_record,
}

-- What the five gates ask of a request together.
pub record IsReady (r : Request) : Type 0 where
  pub exact_commit : lookup "source_commit_sha" r.production ≡ some (text r.candidate_id)
  pub commit_length : len r.candidate_id ≡ 40
  pub accepted : lookup "production_accepted" r.production ≡ some (flag true)
  pub observed : Every (λ k. has_passed (by_id r.observations) k ≡ true) required_observations
  pub probe : (n : ℕ) × (r.probe_ms ≡ pos n) × (n ≤ 4500)
  pub recoverable : Every (λ k. is_flag_set r.production k ≡ true) required_flags
  pub persistent : lookup "persistence_status" r.production ≡ some (text "PROVEN")
  pub on_railway : member "railway" (map lower r.providers) ≡ true
  pub on_github : member "github-actions" (map lower r.providers) ≡ true

is_text_iff : (v : Option Value) (s : String) → (is_text v s ≡ true) ↔ (v ≡ some (text s))
is_text_iff none s = (λ h. cc, λ h. cc)
is_text_iff (some (text t)) s = (λ h. ground (arith, eq_iff t s), λ h. ground (arith, eq_iff t s))
is_text_iff (some (flag b)) s = (λ h. cc, λ h. cc)
is_text_iff (some _) s = (λ h. cc, λ h. cc)

is_true_iff : (v : Option Value) → (is_true v ≡ true) ↔ (v ≡ some (flag true))
is_true_iff none = (λ h. cc, λ h. cc)
is_true_iff (some (text t)) = (λ h. cc, λ h. cc)
is_true_iff (some (flag b)) = (λ h. ground arith, λ h. ground arith)
is_true_iff (some _) = (λ h. cc, λ h. cc)

within_budget_iff : (p : ℤ) → (within_budget p ≡ true) ↔ ((n : ℕ) × (p ≡ pos n) × (n ≤ 4500))
within_budget_iff (pos n) = (λ h. (n, refl, ground arith), λ (m, e, l). ground arith)
within_budget_iff (negsuc n) = (λ h. cc, λ (m, e, l). cc)

-- All five gates pass where their tests do.
five_iff :
    (v acc obs priv prob flags pers rail hub : Bool)
    → ((not (v && acc && obs)
          || (not (v && priv)
              || (not (v && prob)
                  || (not (v && flags && pers) || (not (v && rail && hub) || false)))))
        ≡ false)
      ↔ ((v ≡ true)
          × (acc ≡ true)
          × (obs ≡ true)
          × (priv ≡ true)
          × (prob ≡ true)
          × (flags ≡ true)
          × (pers ≡ true)
          × (rail ≡ true)
          × (hub ≡ true))
five_iff v acc obs priv prob flags pers rail hub = (λ h. ground arith, λ h. ground arith)

ready_iff :
    (b : Bool)
    → ((if b then blocked else ready_for_verification) ≡ ready_for_verification) ↔ (b ≡ false)
ready_iff b = (λ h. ground arith, λ h. ground arith)

-- A release is ready for verification exactly when the deployed commit is the candidate, of 40
-- characters, production has accepted it, every required observation has passed, the probe took
-- at most 4500 ms, every recovery flag is set, persistence is proven, and both providers are there.
pub review-IsReady_iff : (r : Request) → ((review r).decision ≡ ready_for_verification) ↔ IsReady r
unfolding review is_valid_sha governance_record privacy_record performance_record recovery_record
    multi_cloud_record
review-IsReady_iff r =
    let sha = is_text_iff (lookup "source_commit_sha" r.production) r.candidate_id in
    let acc = is_true_iff (lookup "production_accepted" r.production) in
    let obs = all_iff (has_passed (by_id r.observations)) required_observations in
    let probe = within_budget_iff r.probe_ms in
    let flags = all_iff (is_flag_set r.production) required_flags in
    let pers = is_text_iff (lookup "persistence_status" r.production) "PROVEN" in
    let five = five_iff _ _ _ _ _ _ _ _ _ in
    (
      λ h.
          let t = five.0 ((ready_iff _).0 h) in
          record {
            exact_commit = sha.0 (ground (arith, t.0));
            commit_length = ground (arith, t.0);
            accepted = acc.0 t.1;
            observed = obs.0 t.2;
            probe = probe.0 t.4;
            recoverable = flags.0 t.5;
            persistent = pers.0 t.6;
            on_railway = t.7;
            on_github = t.8;
          },
      λ h. (ready_iff _).1 (
          five.1 (
            ground (arith, sha.1 h.exact_commit, h.commit_length),
            acc.1 h.accepted,
            obs.1 h.observed,
            h.observed.0,
            probe.1 h.probe,
            flags.1 h.recoverable,
            pers.1 h.persistent,
            h.on_railway,
            h.on_github,
          )),
    )

-- ===== src/Kernel/Risk.antt =====
-- `CounterfactualRiskEngine.evaluate` of sara_unified/governance/unified_kernel.py.
use sara_omega.Prelude.{ℕ, String, ◌+◌, Bool, not, List, [], ◌∷◌, ◌++◌, map, if◌then◌else◌}
use sara_omega.Prelude.Dict.{Dict}
use sara_omega.Prelude.Int.{ℤ, pos, pos_part, ltb_ℤ}
use sara_omega.Prelude.Float.{Float, fmin, fmax}
use sara_omega.Kernel.Model.{ActionRequest}

module _ (F : Float) where
  -- `factors[name] = value` under a test
  abbrev pub factor_if : Bool → String → F.Num → Dict F.Num
  factor_if b name value = if b then (name, value) ∷ [] else []

  -- `min(0.16, max(0.0, math.log10(n + 1) / 30))`
  unfoldable pub records_factor : ℕ → F.Num
  records_factor n =
      fmin F (F.lit 1600) (fmax F (F.lit 0) (F.div (F.log10 (F.of_int (n + 1))) (F.of_int 30)))

  -- `min(0.18, max(0.0, math.log10(x + 1) / 35))`
  unfoldable pub financial_factor : F.Num → F.Num
  financial_factor x =
      fmin F (F.lit 1800) (fmax F (F.lit 0) (F.div (F.log10 (F.add x (F.of_int 1))) (F.of_int 35)))

  -- `min(0.20, score * 0.20)`
  unfoldable pub anomaly_factor : F.Num → F.Num
  anomaly_factor score = fmin F (F.lit 2000) (F.mul score (F.lit 2000))

  -- The entries for the three amounts.
  unfoldable pub records_entry : ℤ → Dict F.Num
  unfolding records_factor
  records_entry n = factor_if (ltb_ℤ (pos 0) n) "records_affected" (records_factor (pos_part n))

  unfoldable pub financial_entry : F.Num → Dict F.Num
  unfolding financial_factor
  financial_entry x = factor_if (F.lt (F.lit 0) x) "financial_value" (financial_factor x)

  unfoldable pub anomaly_entry : F.Num → Dict F.Num
  unfolding anomaly_factor
  anomaly_entry x = factor_if (F.lt (F.lit 0) x) "behavioral_anomaly" (anomaly_factor x)

  -- The entries for what the request says of itself.
  unfoldable pub flag_entries : ActionRequest F → Dict F.Num
  flag_entries r =
      factor_if r.transition.production "production" (F.lit 1000)
      ++ factor_if (not r.transition.reversible) "irreversible" (F.lit 1800)
      ++ factor_if r.contains_sensitive_data "sensitive_data" (F.lit 1200)
      ++ factor_if r.high_impact_domain "high_impact_domain" (F.lit 1800)
      ++ factor_if r.external_network_access "external_network_access" (F.lit 800)
      ++ factor_if r.autonomous "autonomous_agent" (F.lit 1000)

  -- The keys are distinct, so each assignment appends to the dict.
  unfoldable pub risk_factors : ActionRequest F → Dict F.Num
  unfolding flag_entries records_entry financial_entry anomaly_entry
  risk_factors r =
      flag_entries r
      ++ records_entry r.affected_records
      ++ financial_entry r.financial_value_usd
      ++ anomaly_entry r.anomaly_score

  -- `factors.values()`
  abbrev pub values : Dict F.Num → List F.Num
  values = map (λ (e : String × F.Num). e.1)

  unfoldable pub risk_score : ActionRequest F → F.Num
  unfolding risk_factors
  risk_score r = F.round4 (fmin F (F.lit 10000) (F.sum (values (risk_factors r))))

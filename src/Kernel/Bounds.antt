-- ===== src/Kernel/Bounds.antt =====
-- The risk score of sara_unified/governance/unified_kernel.py: its bound, and that it grows with
-- the risks of a request.
use sara_omega.Prelude.{
  ap, String, ◌≡◌, refl, Bool, true, false, not, arith, List, [], ◌∷◌, ◌++◌, ℕ,
}
use mathlib.Core.Path.{subst}
use mathlib.Core.List.{map-append}
use sara_omega.Prelude.Dict.{Dict}
use sara_omega.Prelude.Float.{Float, Lawful, fmin, Below, done, keep, more}
use sara_omega.Kernel.Model.{ActionRequest}
use sara_omega.Kernel.Risk.{
  factor_if, risk_factors, values, risk_score, records_entry, financial_entry, anomaly_entry,
  flag_entries,
}

-- `r'` has every flag that raises the risk of `r`, and the same amounts.
pub record AtLeastAsRisky {F : Float} (r r' : ActionRequest F) : Type 0 where
  pub production : r.transition.production ≡ true → r'.transition.production ≡ true
  pub irreversible : r.transition.reversible ≡ false → r'.transition.reversible ≡ false
  pub sensitive : r.contains_sensitive_data ≡ true → r'.contains_sensitive_data ≡ true
  pub high_impact : r.high_impact_domain ≡ true → r'.high_impact_domain ≡ true
  pub network : r.external_network_access ≡ true → r'.external_network_access ≡ true
  pub autonomous : r.autonomous ≡ true → r'.autonomous ≡ true
  pub records : r.affected_records ≡ r'.affected_records
  pub value : r.financial_value_usd ≡ r'.financial_value_usd
  pub anomaly : r.anomaly_score ≡ r'.anomaly_score

-- The summands of `d'` are no smaller than those of `d`.
abbrev Dominates : (F : Float) → Dict F.Num → Dict F.Num → Type 0
Dominates F d d' = Below F (values F d) (values F d')

module _ {F : Float} (w : Lawful F) where
  fmin-le : (a b : F.Num) → F.le (fmin F a b) a ≡ true
  fmin-le a b = ground (arith, w.lt-eq-not-le b a, w.le_refl a, w.le_total a b)

  fmin_mono : (a b c : F.Num) → F.le b c ≡ true → F.le (fmin F a b) (fmin F a c) ≡ true
  fmin_mono a b c h = ground (
    arith,
    w.lt-eq-not-le b a,
    w.lt-eq-not-le c a,
    w.le_refl a,
    w.le_total a b,
    w.le_trans b c a,
    w.le_trans a b c,
  )

  -- The risk score is at most 1.
  pub risk_score-le-one : (r : ActionRequest F) → F.le (risk_score F r) (F.lit 10000) ≡ true
  unfolding risk_score
  risk_score-le-one r =
      rw w.round4-one at
        (w.round4_mono _ _ (fmin-le (F.lit 10000) (F.sum (values F (risk_factors F r)))))

  Below_refl : (d : Dict F.Num) → Dominates F d d
  Below_refl [] = done
  Below_refl (e ∷ d) = keep (w.le_refl e.1) (Below_refl d)

  Dominates-same : {d d' : Dict F.Num} → d ≡ d' → Dominates F d d'
  Dominates-same {d} p = subst (Dominates F d) p (Below_refl d)

  Below-append :
      {xs xs' ys ys' : List F.Num}
      → Below F xs xs'
      → Below F ys ys'
      → Below F (xs ++ ys) (xs' ++ ys')
  Below-append done k = k
  Below-append (keep e h) k = keep e (Below-append h k)
  Below-append (more e h) k = more e (Below-append h k)

  Dominates-append :
      (d d' e e' : Dict F.Num)
      → Dominates F d d'
      → Dominates F e e'
      → Dominates F (d ++ e) (d' ++ e')
  Dominates-append d d' e e' h k = rw (map-append _ d e, map-append _ d' e') (Below-append h k)

  -- A factor that may be added raises the sum.
  Dominates-factor :
      (b b' : Bool) (n : String) (v : ℕ)
      → (b ≡ true → b' ≡ true)
      → Dominates F (factor_if F b n (F.lit v)) (factor_if F b' n (F.lit v))
  Dominates-factor true true n v imp = keep (w.le_refl (F.lit v)) done
  Dominates-factor true false n v imp = absurd (ground (arith, imp refl))
  Dominates-factor false true n v imp = more (w.lit_mono 0 v (ground arith)) done
  Dominates-factor false false n v imp = done

  not_mono : (a b : Bool) → (a ≡ false → b ≡ false) → not a ≡ true → not b ≡ true
  not_mono a b h k = ground arith

  module _ {r r' : ActionRequest F} (h : AtLeastAsRisky r r') where
    flags-Dominates : Dominates F (flag_entries F r) (flag_entries F r')
    unfolding flag_entries
    flags-Dominates =
        Dominates-append _ _ _ _
          (Dominates-append _ _ _ _
            (Dominates-append _ _ _ _
              (Dominates-append _ _ _ _
                (Dominates-append _ _ _ _ (Dominates-factor _ _ "production" 1000 h.production)
                  (Dominates-factor _ _ "irreversible" 1800 (not_mono _ _ h.irreversible)))
                (Dominates-factor _ _ "sensitive_data" 1200 h.sensitive))
              (Dominates-factor _ _ "high_impact_domain" 1800 h.high_impact))
            (Dominates-factor _ _ "external_network_access" 800 h.network))
          (Dominates-factor _ _ "autonomous_agent" 1000 h.autonomous)

    risk_factors-Dominates : Dominates F (risk_factors F r) (risk_factors F r')
    unfolding risk_factors
    risk_factors-Dominates =
        Dominates-append _ _ _ _
          (Dominates-append _ _ _ _
            (Dominates-append _ _ _ _ flags-Dominates
              (Dominates-same (ap (records_entry F) h.records)))
            (Dominates-same (ap (financial_entry F) h.value)))
          (Dominates-same (ap (anomaly_entry F) h.anomaly))

  -- Where sums and roundings are monotone, a request with every risk flag of another, and the same
  -- number of records, financial value and anomaly score, scores no lower.
  pub risk_score_mono :
      (r r' : ActionRequest F)
      → AtLeastAsRisky r r'
      → F.le (risk_score F r) (risk_score F r') ≡ true
  unfolding risk_score
  risk_score_mono r r' h = w.round4_mono _ _ (
      fmin_mono (F.lit 10000) (F.sum (values F (risk_factors F r)))
        (F.sum (values F (risk_factors F r')))
        (w.sum_mono (values F (risk_factors F r)) (values F (risk_factors F r'))
          (risk_factors-Dominates h)))

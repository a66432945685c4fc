-- ===== src/Semantics/Regression.antt =====
-- `semantic_regression_pass` of qfbench2_track_simulation/semantics.py: numeric sanity of both
-- traces, then the check that the family or the card selects.
use track3_simulation_public.Common.{
  ℕ, Bool, false, ◌||◌, Option, none, some, List, [], ◌∷◌, map, ◌==◌, if◌then◌else◌,
}
use track3_simulation_public.Common.Int.{ℤ}
use track3_simulation_public.Semantics.Trace.{
  Event, TraceBreach, TraceChecked, trace_report, check_tier_a,
}
use track3_simulation_public.Semantics.Sanity.{Table, SanityBreach, check_numeric_sanity}
use track3_simulation_public.Semantics.Attempt.{
  reference_incomplete, nonfinite_statistic, Attempt, raises, returns,
}
use track3_simulation_public.Semantics.Proximity.{Numerics, ProximityBreach, check_tier_b}

pub data RegressionBreach : Type 0 where
  sanity : SanityBreach → RegressionBreach
  exact : TraceBreach → RegressionBreach
  statistical : ProximityBreach → RegressionBreach

-- What the card says of the comparison: `tier` is a text of code points, `ks` the entry of
-- `ceilings`, and `timestamp_tolerance` is in nanoseconds.
pub record Settings (F : Type 0) : Type 0 where
  pub family : ℕ
  pub tier : Option (List ℕ)
  pub ks : Option F
  pub spread_tolerance : F
  pub timestamp_tolerance : ℤ
  pub kendall_tau_floor : F

-- `TIER_A_FAMILIES`
abbrev pub is_tier_a_family : ℕ → Bool
is_tier_a_family n = (n == 1) || ((n == 3) || ((n == 6) || ((n == 7) || (n == 8))))

-- Its upper case is "A".
abbrev pub is_letter_a : List ℕ → Bool
is_letter_a [] = false
is_letter_a (c ∷ []) = (c == 65) || (c == 97)
is_letter_a (c ∷ d ∷ cs) = false

-- An empty text is as none.
abbrev pub is_tier_a : ℕ → Option (List ℕ) → Bool
is_tier_a family none = is_tier_a_family family
is_tier_a family (some []) = is_tier_a_family family
is_tier_a family (some (c ∷ cs)) = is_letter_a (c ∷ cs)

abbrev pub ceiling_or {ℓ} : {F : Type ℓ} → F → Option F → F
ceiling_or d none = d
ceiling_or d (some x) = x

-- A report of either tier as that of the whole.
abbrev pub exact_report : TraceChecked → Attempt (List RegressionBreach)
exact_report TraceChecked.nonfinite_statistic = raises nonfinite_statistic
exact_report (trace_report bs) = returns (map exact bs)

abbrev pub statistical_report : Attempt (List ProximityBreach) → Attempt (List RegressionBreach)
statistical_report (raises e) = raises e
statistical_report (returns bs) = returns (map statistical bs)

abbrev pub after_candidate :
    List SanityBreach → Attempt (List RegressionBreach) → Attempt (List RegressionBreach)
after_candidate [] rest = rest
after_candidate (b ∷ bs) rest = returns (map sanity (b ∷ bs))

abbrev pub after_reference :
    List SanityBreach → Attempt (List RegressionBreach) → Attempt (List RegressionBreach)
after_reference [] rest = rest
after_reference (b ∷ bs) rest = raises reference_incomplete

module _ {F : Type 0} (num : Numerics F) where
  unfoldable pub compare_traces :
      Settings F → List Event → List Event → Attempt (List RegressionBreach)
  compare_traces s cs rs =
      if is_tier_a s.family s.tier
      then exact_report (
          check_tier_a num.is_finite num.less num.kendalltau s.kendall_tau_floor
            s.timestamp_tolerance cs rs)
      else statistical_report
          (check_tier_b num (ceiling_or num.default_ks_ceiling s.ks) s.spread_tolerance cs rs)

  abbrev pub sanity_breaches : Table → List SanityBreach
  sanity_breaches t = check_numeric_sanity num.to_float num.is_finite num.is_nonpositive t

  -- `semantic_regression_pass`, the candidate first; a candidate passes if there is no breach.
  unfoldable pub semantic_regression_pass :
      Settings F → Table → Table → Attempt (List RegressionBreach)
  semantic_regression_pass s cand ref =
      after_reference (sanity_breaches ref)
        (after_candidate (sanity_breaches cand) (compare_traces s cand.rows ref.rows))

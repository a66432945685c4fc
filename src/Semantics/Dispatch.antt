-- ===== src/Semantics/Dispatch.antt =====
-- What `semantic_regression_pass` decides, and when the reference is at fault.
use track3_simulation_public.Common.{
  ◌≡◌, refl, ◌↔◌, inl, inr, true, false, List, [], ◌∷◌, Bool-cases,
}
use track3_simulation_public.Semantics.Trace.{Event, TraceChecked, trace_report, trace_passes}
use track3_simulation_public.Semantics.TierA.{Matches, check_tier_a-Matches}
use track3_simulation_public.Semantics.Sanity.{Table, SanityBreach, Sane}
use track3_simulation_public.Semantics.Sane.{check_numeric_sanity-Sane}
use track3_simulation_public.Semantics.Attempt.{Attempt, raises, returns, returns-cons}
use track3_simulation_public.Semantics.Proximity.{Numerics, ProximityBreach}
use track3_simulation_public.Semantics.Proximate.{Proximate, check_tier_b-Proximate}
use track3_simulation_public.Semantics.Regression.{
  RegressionBreach, Settings, is_tier_a, ceiling_or, exact_report, statistical_report,
  compare_traces, after_candidate, after_reference, semantic_regression_pass,
}

exact_report_iff : (r : TraceChecked) → (exact_report r ≡ returns []) ↔ (trace_passes r ≡ true)
exact_report_iff TraceChecked.nonfinite_statistic = (λ h. cc, λ h. cc)
exact_report_iff (trace_report []) = (λ h. refl, λ h. refl)
exact_report_iff (trace_report (b ∷ bs)) = (λ h. absurd (returns-cons _ _ h), λ h. cc)

statistical_report_iff :
    (r : Attempt (List ProximityBreach)) → (statistical_report r ≡ returns []) ↔ (r ≡ returns [])
statistical_report_iff (raises e) = (λ h. cc, λ h. cc)
statistical_report_iff (returns []) = (λ h. refl, λ h. refl)
statistical_report_iff (returns (b ∷ bs)) = (λ h. absurd (returns-cons _ _ h), λ h. cc)

after_reference_iff :
    (bs : List SanityBreach) (r : Attempt (List RegressionBreach))
    → (after_reference bs r ≡ returns []) ↔ ((bs ≡ []) × (r ≡ returns []))
after_reference_iff [] r = (λ h. (refl, h), λ h. h.1)
after_reference_iff (b ∷ bs) r = (λ h. cc, λ h. cc)

after_candidate_iff :
    (bs : List SanityBreach) (r : Attempt (List RegressionBreach))
    → (after_candidate bs r ≡ returns []) ↔ ((bs ≡ []) × (r ≡ returns []))
after_candidate_iff [] r = (λ h. (refl, h), λ h. h.1)
after_candidate_iff (b ∷ bs) r = (λ h. absurd (returns-cons _ _ h), λ h. cc)

module _ {F : Type 0} (num : Numerics F) where
  abbrev pub SaneTrace : Table → Type 0
  SaneTrace t = Sane num.to_float num.is_finite num.is_nonpositive t

  -- A candidate passes against a reference.
  pub record Regresses (s : Settings F) (cand ref : Table) : Type 0 where
    pub reference_sane : SaneTrace ref
    pub candidate_sane : SaneTrace cand
    pub in_tier_a :
        is_tier_a s.family s.tier ≡ true
        → Matches num.is_finite num.less num.kendalltau s.kendall_tau_floor s.timestamp_tolerance
            cand.rows ref.rows
    pub in_tier_b :
        is_tier_a s.family s.tier ≡ false
        → Proximate num
            (ceiling_or num.default_ks_ceiling s.ks)
            s.spread_tolerance
            cand.rows
            ref.rows

  compare_traces_iff :
      (s : Settings F) (cs rs : List Event)
      → (compare_traces num s cs rs ≡ returns []) ↔ (
          (is_tier_a s.family s.tier ≡ true
            → Matches num.is_finite num.less num.kendalltau s.kendall_tau_floor
                s.timestamp_tolerance cs rs)
          × (is_tier_a s.family s.tier ≡ false
              → Proximate num (ceiling_or num.default_ks_ceiling s.ks) s.spread_tolerance cs rs))
  unfolding compare_traces
  compare_traces_iff s cs rs = elim (Bool-cases (is_tier_a s.family s.tier)) [
    | inl a ↦ rw a (
      λ h. (λ _. (check_tier_a-Matches _ _ _ _ _ cs rs).0 ((exact_report_iff _).0 h), λ no. cc),
      λ h. (exact_report_iff _).1 ((check_tier_a-Matches _ _ _ _ _ cs rs).1 (h.0 refl)),
    )
    | inr b ↦ rw b (
      λ h. (λ no. cc, λ _. (check_tier_b-Proximate _ _ _ cs rs).0 ((statistical_report_iff _).0 h)),
      λ h. (statistical_report_iff _).1 ((check_tier_b-Proximate _ _ _ cs rs).1 (h.1 refl)),
    )
  ]

  -- For any floats and any statistics on them, a candidate passes exactly if both traces are sane and,
  -- where the tier is A, it matches the reference, or, where it is not, it is statistically close to it.
  pub semantic_regression_pass-Regresses :
      (s : Settings F) (cand ref : Table)
      → (semantic_regression_pass num s cand ref ≡ returns []) ↔ Regresses s cand ref
  unfolding semantic_regression_pass
  semantic_regression_pass-Regresses s cand ref = (
    λ h.
        let (r, rest) = (after_reference_iff _ _).0 h in
        let (c, compared) = (after_candidate_iff _ _).0 rest in
        let (tier_a, tier_b) = (compare_traces_iff s _ _).0 compared in
        record {
          reference_sane = (check_numeric_sanity-Sane _ _ _ ref).0 r;
          candidate_sane = (check_numeric_sanity-Sane _ _ _ cand).0 c;
          in_tier_a = tier_a;
          in_tier_b = tier_b;
        },
    λ p. (after_reference_iff _ _).1 (
      (check_numeric_sanity-Sane _ _ _ ref).1 p.reference_sane,
      (after_candidate_iff _ _).1 (
        (check_numeric_sanity-Sane _ _ _ cand).1 p.candidate_sane,
        (compare_traces_iff s _ _).1 (p.in_tier_a, p.in_tier_b),
      ),
    ),
  )

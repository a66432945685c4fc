-- ===== src/Semantics/Faults.antt =====
-- Whose fault it is when `semantic_regression_pass` raises.
use track3_simulation_public.Common.{
  ◌≡◌, ◌≢◌, refl, ◌⊎◌, inl, inr, Bool, true, false, ◌||◌, Option, none, some, List, [], ◌∷◌, length,
  ltb, arith, Bool-cases,
}
use track3_simulation_public.Semantics.Trace.{Event, TraceChecked, trace_report}
use track3_simulation_public.Semantics.Sanity.{Table, SanityBreach}
use track3_simulation_public.Semantics.Sane.{check_numeric_sanity-Sane}
use track3_simulation_public.Semantics.Attempt.{
  reference_incomplete, nonfinite_statistic, other_error, Attempt, raises, returns,
  is_reference_fault, past_attempt,
}
use track3_simulation_public.Semantics.Proximity.{
  Numerics, ProximityBreach, paired_quotes, fill_prices, mids_or_fills, mid_price_series,
  spreads_of, spread_series, is_price_series, deviation_check, spread_check, return_ks,
  distribution_check, compare_series, guarded, check_tier_b,
}
use track3_simulation_public.Semantics.Regression.{
  RegressionBreach, Settings, is_tier_a, exact_report, statistical_report, compare_traces,
  after_candidate, after_reference, semantic_regression_pass,
}
use track3_simulation_public.Semantics.Dispatch.{SaneTrace}

clash : (b : Bool) → b ≡ false → b ≡ true → ⊥
clash b h g = cc

module _ {F : Type 0} (num : Numerics F) where
  mids_or_fills-blameless :
      (prices : List F) (o : Option (List (F × F)))
      → is_reference_fault (mids_or_fills num prices o) ≡ false
  mids_or_fills-blameless prices none = refl
  mids_or_fills-blameless prices (some ps) = refl

  pub mid_price_series-blameless :
      (es : List Event) → is_reference_fault (mid_price_series num es) ≡ false
  unfolding mid_price_series
  mid_price_series-blameless es =
      ground (arith, mids_or_fills-blameless (fill_prices num es) (paired_quotes num es))

  spreads_of-blameless : (o : Option (List (F × F))) → is_reference_fault (spreads_of num o) ≡ false
  spreads_of-blameless none = refl
  spreads_of-blameless (some ps) = refl

  spread_series-blameless : (es : List Event) → is_reference_fault (spread_series num es) ≡ false
  unfolding spread_series
  spread_series-blameless es = ground (arith, spreads_of-blameless (paired_quotes num es))

  distribution_check-blameless :
      (ceiling ks : F) → is_reference_fault (distribution_check num ceiling ks) ≡ false
  unfolding distribution_check
  distribution_check-blameless ceiling ks = ground arith

  deviation_check-blameless :
      (tolerance d : F) → is_reference_fault (deviation_check num tolerance d) ≡ false
  unfolding deviation_check
  deviation_check-blameless tolerance d = ground arith

  spread_check-blameless :
      (tolerance : F) (mids : List F) (ro co : Option (List F))
      → is_reference_fault (spread_check num tolerance mids ro co) ≡ false
  spread_check-blameless tolerance mids none co = refl
  spread_check-blameless tolerance mids (some rs) none = refl
  spread_check-blameless tolerance mids (some []) (some cs) = refl
  spread_check-blameless tolerance mids (some (r ∷ rs)) (some cs) =
      elim (Bool-cases (num.is_positive (num.mean mids))) [
        | inl level ↦ rw level (deviation_check-blameless tolerance _)
        | inr flat ↦ rw flat refl
      ]

  compare_series-blameless :
      (ceiling tolerance : F) (cs rs : List Event) (cm rm : List F)
      → is_reference_fault (compare_series num ceiling tolerance cs rs cm rm) ≡ true
      → ⊥
  unfolding compare_series
  compare_series-blameless ceiling tolerance cs rs cm rm h =
      let (ks, a, rest1) = past_attempt _ _ (distribution_check-blameless ceiling _) h in
      let (ro, b, rest2) = past_attempt _ _ (spread_series-blameless rs) rest1 in
      let (co, c, rest3) = past_attempt _ _ (spread_series-blameless cs) rest2 in
      let (dev, d, rest4) = past_attempt _ _ (spread_check-blameless tolerance rm ro co) rest3 in cc

  guarded-reference_fault :
      (cm rm : List F) (rest : Attempt (List ProximityBreach))
      → (is_reference_fault rest ≡ true → ⊥)
      → is_reference_fault (guarded num cm rm rest) ≡ true
      → is_price_series num rm ≡ false
  unfolding guarded
  guarded-reference_fault cm rm rest blameless h = elim (Bool-cases (is_price_series num rm)) [
    | inr bad ↦ bad
    | inl good ↦ absurd (blameless (ground (arith, good, h)))
  ]

  check_tier_b-reference_fault :
      (ceiling tolerance : F) (cs rs : List Event)
      → is_reference_fault (check_tier_b num ceiling tolerance cs rs) ≡ true
      → (rm : List F) × (mid_price_series num rs ≡ returns rm) × (is_price_series num rm ≡ false)
  unfolding check_tier_b
  check_tier_b-reference_fault ceiling tolerance cs rs h =
      let (rm, r, rest1) = past_attempt _ _ (mid_price_series-blameless rs) h in
      let (cm, c, rest2) = past_attempt _ _ (mid_price_series-blameless cs) rest1 in
      (
        rm,
        r,
        guarded-reference_fault cm rm _ (compare_series-blameless ceiling tolerance cs rs cm rm)
            rest2,
      )

  exact_report-blameless : (r : TraceChecked) → is_reference_fault (exact_report r) ≡ false
  exact_report-blameless TraceChecked.nonfinite_statistic = refl
  exact_report-blameless (trace_report bs) = refl

  statistical_report-fault :
      (r : Attempt (List ProximityBreach))
      → is_reference_fault (statistical_report r) ≡ true
      → is_reference_fault r ≡ true
  statistical_report-fault (raises reference_incomplete) h = refl
  statistical_report-fault (raises nonfinite_statistic) h = h
  statistical_report-fault (raises other_error) h = h
  statistical_report-fault (returns bs) h = h

  -- The mid prices of a trace are there but are not finite and above 0.
  abbrev pub BadMids : List Event → Type 0
  BadMids rs =
      (rm : List F) × (mid_price_series num rs ≡ returns rm) × (is_price_series num rm ≡ false)

  compare_traces-reference_fault :
      (s : Settings F) (cs rs : List Event)
      → is_reference_fault (compare_traces num s cs rs) ≡ true
      → BadMids rs
  unfolding compare_traces
  compare_traces-reference_fault s cs rs h = elim (Bool-cases (is_tier_a s.family s.tier)) [
    | inl a ↦ absurd (clash _ (exact_report-blameless _) (rw a at h))
    | inr b ↦ check_tier_b-reference_fault _ _ cs rs (statistical_report-fault _ (rw b at h))
  ]

  sanity_cases :
      (rb cb : List SanityBreach) (rest : Attempt (List RegressionBreach))
      → is_reference_fault (after_reference rb (after_candidate cb rest)) ≡ true
      → (rb ≢ []) ⊎ (is_reference_fault rest ≡ true)
  sanity_cases [] [] rest h = inr h
  sanity_cases [] (c ∷ cb) rest h = cc
  sanity_cases (r ∷ rb) cb rest h = inl (λ e. cc)

  -- `ReferenceIncomplete` is raised only where the reference trace is not sane or its mid prices are
  -- there but not finite and above 0, whatever the candidate is.
  pub semantic_regression_pass-reference_fault :
      (s : Settings F) (cand ref : Table)
      → is_reference_fault (semantic_regression_pass num s cand ref) ≡ true
      → (SaneTrace num ref → ⊥) ⊎ BadMids ref.rows
  unfolding semantic_regression_pass
  semantic_regression_pass-reference_fault s cand ref h = elim (sanity_cases _ _ _ h) [
    | inl breaches ↦ inl (λ sane. breaches ((check_numeric_sanity-Sane _ _ _ ref).1 sane))
    | inr compared ↦ inr (compare_traces-reference_fault s cand.rows ref.rows compared)
  ]

  -- The two traces get as far as their spreads, with the mid prices `cm` and `rm`.
  pub record Compares (ceiling : F) (cs rs : List Event) (cm rm : List F) : Type 0 where
    pub candidate_series : mid_price_series num cs ≡ returns cm
    pub reference_series : mid_price_series num rs ≡ returns rm
    pub enough : (ltb (length rm) 10 || ltb (length cm) 10) ≡ false
    pub candidate_prices : is_price_series num cm ≡ true
    pub reference_prices : is_price_series num rm ≡ true
    pub finite_ks : num.is_finite (return_ks num cm rm) ≡ true

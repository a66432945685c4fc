-- ===== src/Semantics/Incomplete.antt =====
-- When the comparisons of ledgers find the reference incomplete.
use track3_simulation_public.Common.{ℕ, ◌≡◌, refl, Bool, true, false, List, [], ◌∷◌, arith}
use track3_simulation_public.Common.Int.{ℤ}
use track3_simulation_public.Semantics.Ledger.{Row, sent}
use track3_simulation_public.Semantics.Reference.{
  ReferenceBreach, Compared, reference_incomplete, nonfinite_statistic, comparison, followed_by,
  sent_latencies, wakeups_of, reports, ks_check, latency_check, report_latency_check, wakeup_check,
  reference_rows, check_message_reference, compare_reports, check_protocol_fidelity,
}

abbrev pub is_incomplete : Compared → Bool
is_incomplete reference_incomplete = true
is_incomplete nonfinite_statistic = false
is_incomplete (comparison bs) = false

followed_by_complete :
    (r : Compared) (bs : List ReferenceBreach)
    → is_incomplete r ≡ false
    → is_incomplete (followed_by r bs) ≡ false
followed_by_complete reference_incomplete bs h = h
followed_by_complete nonfinite_statistic bs h = h
followed_by_complete (comparison as_before) bs h = refl

clash : (b : Bool) → b ≡ false → b ≡ true → ⊥
clash b h g = cc

module _ {F : Type 0} (required : ℕ → ℕ) (ks : List ℤ → List ℤ → F)
    (is_finite exceeds : F → Bool) where
  ks_check_complete :
      (cs rs : List ℤ) → is_incomplete (ks_check required ks is_finite exceeds cs rs) ≡ false
  unfolding ks_check
  ks_check_complete cs rs = ground arith

  latency_check_complete :
      (cs rs : List ℤ) → is_incomplete (latency_check required ks is_finite exceeds cs rs) ≡ false
  unfolding latency_check
  latency_check_complete [] rs = refl
  latency_check_complete (c ∷ cs) rs = ground (arith, ks_check_complete (c ∷ cs) rs)

  report_latency_check_complete :
      (cs rs : List ℤ)
      → is_incomplete (report_latency_check required ks is_finite exceeds cs rs) ≡ false
  unfolding report_latency_check
  report_latency_check_complete cs [] = refl
  report_latency_check_complete cs (r ∷ rs) = ground (arith, ks_check_complete cs (r ∷ rs))

  rows-incomplete :
      (deviates : ℕ → ℕ → Bool) (cs : List Row) (rs : List Row) (ls : List ℤ)
      → is_incomplete (elim ls [
        | [] ↦ reference_incomplete
        | l ∷ ls ↦
            followed_by
              (latency_check required ks is_finite exceeds (sent_latencies cs) (l ∷ ls))
              (wakeup_check required ks is_finite exceeds deviates (wakeups_of cs) (wakeups_of rs))
      ])
        ≡ true
      → ls ≡ []
  rows-incomplete deviates cs rs [] h = refl
  rows-incomplete deviates cs rs (l ∷ ls) h =
      absurd (clash _ (followed_by_complete _ _ (latency_check_complete _ _)) h)

  -- A reference ledger that the comparison finds incomplete has no message that was sent.
  pub check_message_reference-incomplete :
      (deviates : ℕ → ℕ → Bool) (cs rs : List Row)
      → is_incomplete (check_message_reference required ks is_finite exceeds deviates cs rs) ≡ true
      → sent_latencies rs ≡ []
  unfolding check_message_reference reference_rows sent
  check_message_reference-incomplete deviates cs [] h = refl
  check_message_reference-incomplete deviates [] (r ∷ rs) h = cc
  check_message_reference-incomplete deviates (c ∷ cs) (r ∷ rs) h =
      rows-incomplete deviates (c ∷ cs) (r ∷ rs) (sent_latencies (r ∷ rs)) h

  merged_complete :
      (f : List ReferenceBreach → List ReferenceBreach) (r : Compared)
      → is_incomplete r ≡ false
      → is_incomplete (elim r [
        | reference_incomplete ↦ reference_incomplete
        | nonfinite_statistic ↦ nonfinite_statistic
        | comparison bs ↦ comparison (f bs)
      ])
        ≡ true
      → ⊥
  merged_complete f reference_incomplete n h = cc
  merged_complete f nonfinite_statistic n h = cc
  merged_complete f (comparison bs) n h = cc

  compare_reports-incomplete :
      (cs rs : List Row)
      → is_incomplete (compare_reports required ks is_finite exceeds cs rs) ≡ true
      → rs ≡ []
  unfolding compare_reports
  compare_reports-incomplete cs [] h = refl
  compare_reports-incomplete [] (r ∷ rs) h = cc
  compare_reports-incomplete (c ∷ cs) (r ∷ rs) h =
      absurd (merged_complete _ _ (report_latency_check_complete _ _) h)

  -- A reference ledger that the protocol check finds incomplete has no execution report.
  pub check_protocol_fidelity-incomplete :
      (cs rs : List Row)
      → is_incomplete (check_protocol_fidelity required ks is_finite exceeds cs rs) ≡ true
      → reports rs ≡ []
  unfolding check_protocol_fidelity
  check_protocol_fidelity-incomplete cs rs h =
      compare_reports-incomplete (reports cs) (reports rs) h

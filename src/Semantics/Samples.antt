-- ===== src/Semantics/Samples.antt =====
-- The comparisons with a reference on small traces, with concrete functions for the statistics.
use track3_simulation_public.Common.{ℕ, ◌<◌, ◌≡◌, ◌≢◌, refl, ◌↔◌, true, false, List, [], ◌∷◌, ltb}
use track3_simulation_public.Common.Int.{ℤ, pos}
use track3_simulation_public.Semantics.Ledger.{sent}
use track3_simulation_public.Semantics.Trace.{
  Event, int_cell, float_cell, integral, text_cell, trace_passes, check_tier_a,
  file_order_positions, coverage_breaches,
}
use track3_simulation_public.Semantics.Coverage.{coverage_breaches-exact}
use track3_simulation_public.Semantics.TierA.{Matches, SameEvents, check_tier_a-Matches}
use track3_simulation_public.Semantics.Reference.{
  Close, SameCounts, check_message_reference, check_message_reference-Close,
  check_protocol_fidelity, check_protocol_fidelity-SameCounts, sent_latencies, wakeups_of, reports,
  report_types, latency_check, reference_rows, ks_check, wakeup_check, compare_reports,
  report_latency_check, count_mismatches,
}
use track3_simulation_public.Semantics.Tests.{sample_ledger}

abbrev event : ℤ → ℕ → ℕ → ℕ → Event
event t id kind p = record {
  t_ns = t;
  order_id = int_cell (pos id);
  msg_type = text_cell kind;
  agent_id = int_cell (pos 1);
  side = text_cell 7;
  price = int_cell (pos p);
  size = int_cell (pos 10);
}

abbrev pub reference_trace : List Event
reference_trace = event (pos 5) 1 2 100 ∷ event (pos 6) 1 0 100 ∷ event (pos 9) 2 2 101 ∷ []

-- The same, with a fill one nanosecond later and its price in a float column.
abbrev pub candidate_trace : List Event
candidate_trace =
    event (pos 5) 1 2 100
    ∷ record (event (pos 7) 1 0 100) { price = float_cell (integral (pos 100)) }
    ∷ event (pos 9) 2 2 101
    ∷ []

abbrev full_order : List ℕ → List ℕ → ℕ
full_order xs ys = 1000

check_tier_a-Matches_example :
    (trace_passes
        (check_tier_a (λ tau. true) ltb full_order 999 (pos 1000) candidate_trace reference_trace)
      ≡ true)
    ↔ Matches (λ tau. true) ltb full_order 999 (pos 1000) candidate_trace reference_trace
check_tier_a-Matches_example =
    check_tier_a-Matches (λ tau. true) ltb full_order 999 (pos 1000) candidate_trace reference_trace

coverage_breaches-exact_example :
    (coverage_breaches (file_order_positions reference_trace) (file_order_positions candidate_trace)
      ≡ [])
    ↔ SameEvents candidate_trace reference_trace
coverage_breaches-exact_example = coverage_breaches-exact reference_trace candidate_trace

abbrev no_distance : List ℤ → List ℤ → ℕ
no_distance xs ys = 0

check_message_reference-Close_example :
    Close
      (λ n. n)
      no_distance
      (λ d. true)
      (λ d. false)
      (sent_latencies sample_ledger.rows)
      (sent_latencies sample_ledger.rows)
    × (0 < wakeups_of sample_ledger.rows → false ≡ false)
unfolding check_message_reference reference_rows latency_check ks_check wakeup_check sent
check_message_reference-Close_example =
    check_message_reference-Close (λ n. n) no_distance (λ d. true) (λ d. false) (λ c r. false)
      sample_ledger.rows sample_ledger.rows (λ n p. p) refl

check_protocol_fidelity-SameCounts_example :
    (reports sample_ledger.rows ≢ [])
    × SameCounts
        (λ n. n)
        no_distance
        (λ d. true)
        (λ d. false)
        report_types
        (reports sample_ledger.rows)
        (reports sample_ledger.rows)
    × (sent_latencies (reports sample_ledger.rows) ≢ []
        → Close
            (λ n. n)
            no_distance
            (λ d. true)
            (λ d. false)
            (sent_latencies (reports sample_ledger.rows))
            (sent_latencies (reports sample_ledger.rows)))
unfolding check_protocol_fidelity compare_reports report_latency_check ks_check reports sent
    count_mismatches
check_protocol_fidelity-SameCounts_example =
    check_protocol_fidelity-SameCounts (λ n. n) no_distance (λ d. true) (λ d. false)
      sample_ledger.rows sample_ledger.rows refl

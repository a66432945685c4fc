-- ===== src/Telemetry/Tests.antt =====
-- Ranked timing on a small run record, with whole numbers for floats.
use track3_simulation_public.Common.{ℕ, ◌/◌, refl, true, false, none, some, List, [], ◌∷◌, ltb}
use track3_simulation_public.Telemetry.Timing.{
  trace, Repeat, RunRecord, Plan, RankedTiming, ranked_timing, require_official_telemetry,
  require_exclusive_instance, trusted_event_count, sum_counts, measured_repeats,
  assert_repeats_reproduce_scored_tree,
}
use track3_simulation_public.Telemetry.Ranked.{
  Ranked, Charged, ranked_timing-Ranked, ranked_timing-Charged,
}

abbrev repeat_of : ℕ → ℕ → Repeat ℕ
repeat_of i n = record {
  index = i;
  is_rankable = true;
  output_tree_digest = 77;
  event_count = n;
  elapsed_sec = 2;
}

-- One warm-up and two measured repeats, the last with `n` events.
abbrev run_of : ℕ → RunRecord ℕ
run_of n = record {
  telemetry = some (record { exclusive = true; contender_process_count = 0; throttled = false });
  output_row_counts = (trace, 100) ∷ [];
  repeats = repeat_of 0 100 ∷ repeat_of 1 100 ∷ repeat_of 2 n ∷ [];
  sanitized_tree_digest = 77;
}

abbrev plan : Plan
plan = record { repeats = some 3; warmup_discarded = some 1 }

abbrev head_or_zero : List ℕ → ℕ
head_or_zero [] = 0
head_or_zero (x ∷ xs) = x

abbrev rated : RankedTiming ℕ
rated = record {
  events_per_sec = 50;
  n_events = 100;
  measured_repeats = 2;
  elapsed_sec_median = 2;
  official = true;
  rankable = true;
}

ranked_timing-Ranked_example :
    Ranked (λ r. true) (ltb 0) (λ v. true) ◌/◌ head_or_zero (run_of 100) plan (some 100) none rated
unfolding ranked_timing require_official_telemetry require_exclusive_instance trusted_event_count
    sum_counts measured_repeats assert_repeats_reproduce_scored_tree
ranked_timing-Ranked_example =
    ranked_timing-Ranked (λ r. true) (ltb 0) (λ v. true) ◌/◌ head_or_zero (run_of 100) plan
      (some 100) none rated refl

ranked_timing-Charged_example :
    Charged (λ r. true) (ltb 0) (λ v. true) ◌/◌ head_or_zero (run_of 99) plan (some 100) none
unfolding ranked_timing require_official_telemetry require_exclusive_instance trusted_event_count
    sum_counts measured_repeats assert_repeats_reproduce_scored_tree
ranked_timing-Charged_example =
    ranked_timing-Charged (λ r. true) (ltb 0) (λ v. true) ◌/◌ head_or_zero (run_of 99) plan
      (some 100) none refl

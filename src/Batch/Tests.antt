-- ===== src/Batch/Tests.antt =====
-- The batch gates on a batch of one sub-scenario, with whole numbers for floats.
use track3_simulation_public.Common.{ℕ, refl, true, Option, some, [], ◌∷◌, All}
use track3_simulation_public.Semantics.Ledger.{report}
use track3_simulation_public.Semantics.Attempt.{returns}
use track3_simulation_public.Semantics.Cases.{table}
use track3_simulation_public.Semantics.Reference.{comparison}
use track3_simulation_public.Semantics.Tests.{sample_ledger}
use track3_simulation_public.Semantics.Samples.{reference_trace, candidate_trace}
use track3_simulation_public.Batch.Isolation.{
  SubScenario, SubFiles, score_subs, score_sub, compare_ledgers,
}
use track3_simulation_public.Batch.Isolated.{Isolated, score_subs-Isolated}
use track3_simulation_public.Batch.Aggregate.{BatchEvents, number}

abbrev only_sub : SubScenario
only_sub = record { sub = 4; n_events = some 3; declares_ledger = true }

abbrev files : ℕ → SubFiles
files n = record {
  candidate_trace = some (table candidate_trace);
  reference_trace = some (table reference_trace);
  candidate_messages = some sample_ledger;
  reference_messages = some sample_ledger.rows;
}

score_subs-Isolated_example :
    All
      (λ (s : SubScenario).
        Isolated
          (λ cs rs. returns [])
          (λ ms. report [])
          (λ cs rs. comparison [])
          (λ cs rs. comparison [])
          7
          s
          (files s.sub))
      (only_sub ∷ [])
unfolding score_subs score_sub compare_ledgers
score_subs-Isolated_example =
    score_subs-Isolated (λ cs rs. returns []) (λ ms. report []) (λ cs rs. comparison [])
      (λ cs rs. comparison []) 7 files (only_sub ∷ []) refl

abbrev batch_events : BatchEvents ℕ
batch_events = record {
  per_scenario = record { sub = 4; n_events = some 3 } ∷ [];
  total_events = number 3;
  wall_clock_sec = number 1;
  events_per_sec = number 3;
}

abbrev rows_of : ℕ → Option ℕ
rows_of n = some 3

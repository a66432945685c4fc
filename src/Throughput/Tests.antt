-- ===== src/Throughput/Tests.antt =====
-- Three submissions, one of them beaten on the plane and one with telemetry of its own.
use track3_simulation_public.Common.{
  ℕ, ◌+◌, ◌≡◌, refl, Bool, true, false, none, some, List, [], ◌∷◌, ltb, arith,
}
use track3_simulation_public.Throughput.Frontier.{
  FrontierPoint, pareto_frontier, any_of, sort_points, undominated,
}
use track3_simulation_public.Throughput.Pareto.{Ordering}
use track3_simulation_public.Throughput.Front.{IsFrontier, pareto_frontier-IsFrontier}
use track3_simulation_public.Throughput.Awards.{
  AwardEntry, entry_from_diagnostics, best_gpu_acceleration, gpu_key, reaches, best_by, max_from,
  ranked_by, best_systems_diagnosis,
}
use track3_simulation_public.Throughput.Diagnostics.{Diagnostics, events_per_gpu_hour}
use track3_simulation_public.Throughput.Winners.{Wins, best_gpu_acceleration-Wins}
use track3_simulation_public.Common.{All, ◌↔◌}
use track3_simulation_public.Throughput.Awards.{select_all, diagnosis_key}
use track3_simulation_public.Throughput.Awarded.{select_all-none}

ltb-irreflexive : (x : ℕ) → ltb x x ≡ false
ltb-irreflexive x = ground arith

ltb-transitive : (x y z : ℕ) → ltb x y ≡ true → ltb y z ≡ true → ltb x z ≡ true
ltb-transitive x y z h g = ground arith

ltb-co_transitive : (x y z : ℕ) → ltb x y ≡ false → ltb y z ≡ false → ltb x z ≡ false
ltb-co_transitive x y z h g = ground arith

abbrev never_same : FrontierPoint ℕ → FrontierPoint ℕ → Bool
never_same q p = false

ltb-Ordering : Ordering ltb never_same
ltb-Ordering = record {
  irreflexive = ltb-irreflexive;
  transitive = ltb-transitive;
  co_transitive = ltb-co_transitive;
  identical = λ q p h. cc;
}

abbrev quick : FrontierPoint ℕ
quick = record { label = 97 ∷ []; throughput = 900; sf_divergence = 5 }

abbrev real : FrontierPoint ℕ
real = record { label = 98 ∷ []; throughput = 400; sf_divergence = 1 }

abbrev beaten : FrontierPoint ℕ
beaten = record { label = 99 ∷ []; throughput = 300; sf_divergence = 2 }

abbrev points : List (FrontierPoint ℕ)
points = beaten ∷ real ∷ quick ∷ []

the_frontier : pareto_frontier ltb never_same points ≡ quick ∷ real ∷ []
unfolding pareto_frontier sort_points undominated any_of
the_frontier = refl

pareto_frontier-IsFrontier_example :
    IsFrontier ltb never_same points (pareto_frontier ltb never_same points)
pareto_frontier-IsFrontier_example = pareto_frontier-IsFrontier ltb never_same ltb-Ordering points

-- A run with the speedup, a utilization of 40 percent and the given provenance.
abbrev measured : Bool → ℕ → Diagnostics ℕ
measured own speedup = record {
  speedup_vs_cpu_abides = some speedup;
  efficiency = some 7;
  efficiency_unit = events_per_gpu_hour;
  memory_efficiency = none;
  telemetry_self_reported = own;
  gpu_utilization = some 40;
}

abbrev entrant : ℕ → Bool → ℕ → AwardEntry ℕ
entrant name own speedup =
    entry_from_diagnostics (name ∷ []) (measured own speedup) true none none none

abbrev entrants : List (AwardEntry ℕ)
entrants = entrant 97 false 3 ∷ entrant 98 true 90 ∷ entrant 99 false 8 ∷ []

the_winner : best_gpu_acceleration ltb 5 entrants ≡ some (99 ∷ [])
unfolding best_gpu_acceleration best_by ranked_by entry_from_diagnostics max_from
the_winner = refl

best_gpu_acceleration-Wins_example :
    (e : AwardEntry ℕ) × (e.label ≡ 99 ∷ [])
    × Wins ltb (gpu_key ltb 5) entrants e
    × (e.is_gpu ≡ true)
    × (e.telemetry_self_reported ≡ false)
    × (reaches ltb 5 e.gpu_utilization ≡ true)
best_gpu_acceleration-Wins_example =
    best_gpu_acceleration-Wins ltb ltb-irreflexive ltb-co_transitive ltb-transitive 5 entrants
      (99 ∷ []) the_winner

-- A stand-in for the product of speed and realism.
abbrev balance : FrontierPoint ℕ → ℕ
balance p = p.throughput + p.sf_divergence

no_score : (select_all ltb never_same balance 5 entrants).best_systems_diagnosis ≡ none
unfolding select_all best_systems_diagnosis best_by ranked_by entry_from_diagnostics
no_score = refl

select_all-none_example :
    let w = select_all ltb never_same balance 5 entrants in
    ((w.best_gpu_acceleration ≡ none) ↔ All (λ e. gpu_key ltb 5 e ≡ none) entrants)
    × ((w.best_speed_realism_frontier ≡ none) ↔ All (λ e. e.frontier_point ≡ none) entrants)
    × ((w.best_latency_semantics_preservation ≡ none) ↔ All (λ e. e.latency_margin ≡ none) entrants)
    × ((w.best_systems_diagnosis ≡ none) ↔ All (λ e. diagnosis_key ltb e ≡ none) entrants)
select_all-none_example = select_all-none ltb never_same ltb-Ordering balance 5 entrants

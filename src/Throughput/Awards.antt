-- ===== src/Throughput/Awards.antt =====
-- throughput/awards.py: the four awards, each a ranking of one diagnostic.
use track3_simulation_public.Common.{
  Bool, false, not, ◌&&◌, Option, none, some, List, [], ◌∷◌, if◌then◌else◌,
}
use track3_simulation_public.Common.Result.{Text}
use track3_simulation_public.Throughput.Diagnostics.{EfficiencyUnit, Diagnostics}
use track3_simulation_public.Throughput.Frontier.{FrontierPoint, pareto_frontier}

pub record AwardEntry (F : Type 0) : Type 0 where
  pub label : Text
  pub efficiency : Option F
  pub is_gpu : Bool
  pub frontier_point : Option (FrontierPoint F)
  pub latency_margin : Option F
  pub systems_diagnosis_score : Option F
  pub telemetry_self_reported : Bool
  pub efficiency_unit : Option EfficiencyUnit
  pub speedup_vs_cpu_abides : Option F
  pub gpu_utilization : Option F

unfoldable pub entry_from_diagnostics :
    {F : Type 0}
    → Text
    → Diagnostics F
    → Bool
    → Option (FrontierPoint F)
    → Option F
    → Option F
    → AwardEntry F
entry_from_diagnostics label d is_gpu point margin score = record {
  label = label;
  efficiency = d.efficiency;
  is_gpu = is_gpu;
  frontier_point = point;
  latency_margin = margin;
  systems_diagnosis_score = score;
  telemetry_self_reported = d.telemetry_self_reported;
  efficiency_unit = some d.efficiency_unit;
  speedup_vs_cpu_abides = d.speedup_vs_cpu_abides;
  gpu_utilization = d.gpu_utilization;
}

-- The items that have a value to rank them by.
abbrev pub add_ranked : {A F : Type 0} → A → Option F → List (A × F) → List (A × F)
add_ranked a none later = later
add_ranked a (some v) later = (a, v) ∷ later

unfoldable pub ranked_by : {A F : Type 0} → (A → Option F) → List A → List (A × F)
ranked_by key [] = []
ranked_by key (a ∷ as_) = add_ranked a (key a) (ranked_by key as_)

-- The four names of `select_all`.
pub record Winners : Type 0 where
  pub best_gpu_acceleration : Option Text
  pub best_speed_realism_frontier : Option Text
  pub best_latency_semantics_preservation : Option Text
  pub best_systems_diagnosis : Option Text

module _ {F : Type 0} (less : F → F → Bool) where
  -- `max` with a key keeps the first of the greatest.
  unfoldable pub max_from : {A : Type 0} → A × F → List (A × F) → A
  max_from best [] = best.0
  max_from best (x ∷ xs) = max_from (if less best.1 x.1 then x else best) xs

  abbrev pub max_or_none : {A : Type 0} → List (A × F) → Option A
  max_or_none [] = none
  max_or_none (x ∷ xs) = some (max_from x xs)

  unfoldable pub best_by : {A : Type 0} → (A → Option F) → List A → Option A
  best_by key as_ = max_or_none (ranked_by key as_)

  abbrev pub label_of : Option (AwardEntry F) → Option Text
  label_of none = none
  label_of (some e) = some e.label

  -- `floor` is `GPU_UTILIZATION_FLOOR`; the numbers are no NaN.
  abbrev pub reaches : F → Option F → Bool
  reaches floor none = false
  reaches floor (some u) = not (less u floor)

  abbrev pub gpu_key : F → AwardEntry F → Option F
  gpu_key floor e =
      if e.is_gpu && (not e.telemetry_self_reported && reaches floor e.gpu_utilization)
      then e.speedup_vs_cpu_abides
      else none

  unfoldable pub best_gpu_acceleration : F → List (AwardEntry F) → Option Text
  best_gpu_acceleration floor es = label_of (best_by (gpu_key floor) es)

  unfoldable pub best_latency_semantics_preservation : List (AwardEntry F) → Option Text
  best_latency_semantics_preservation es = label_of (best_by (λ e. e.latency_margin) es)

  abbrev pub diagnosis_key : AwardEntry F → Option F
  diagnosis_key e = if e.telemetry_self_reported then none else e.systems_diagnosis_score

  unfoldable pub best_systems_diagnosis : List (AwardEntry F) → Option Text
  best_systems_diagnosis es = label_of (best_by diagnosis_key es)

  abbrev pub add_point : Option (FrontierPoint F) → List (FrontierPoint F) → List (FrontierPoint F)
  add_point none later = later
  add_point (some p) later = p ∷ later

  unfoldable pub points_of : List (AwardEntry F) → List (FrontierPoint F)
  points_of [] = []
  points_of (e ∷ es) = add_point e.frontier_point (points_of es)

  abbrev pub point_label : Option (FrontierPoint F) → Option Text
  point_label none = none
  point_label (some p) = some p.label

  -- `balance` is the product of throughput and realism.
  module _ (is_same : FrontierPoint F → FrontierPoint F → Bool)
      (balance : FrontierPoint F → F) where
    unfoldable pub best_speed_realism_frontier : List (AwardEntry F) → Option Text
    best_speed_realism_frontier es =
        point_label (best_by (λ p. some (balance p)) (pareto_frontier less is_same (points_of es)))

    unfoldable pub select_all : F → List (AwardEntry F) → Winners
    select_all floor es = record {
      best_gpu_acceleration = best_gpu_acceleration floor es;
      best_speed_realism_frontier = best_speed_realism_frontier es;
      best_latency_semantics_preservation = best_latency_semantics_preservation es;
      best_systems_diagnosis = best_systems_diagnosis es;
    }

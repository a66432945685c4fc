-- ===== src/Throughput/Diagnostics.antt =====
-- throughput/diagnostics.py: what is reported of a run beside its rate.
use track3_simulation_public.Common.{ℕ, Bool, false, ◌&&◌, Option, none, some, ltb, if◌then◌else◌}

pub data EfficiencyUnit : Type 0 where
  events_per_gpu_hour events_per_cpu_core_hour : EfficiencyUnit

pub record Diagnostics (F : Type 0) : Type 0 where
  pub speedup_vs_cpu_abides : Option F
  pub efficiency : Option F
  pub efficiency_unit : EfficiencyUnit
  pub memory_efficiency : Option F
  pub telemetry_self_reported : Bool
  pub gpu_utilization : Option F

-- The telemetry of a run.
pub record Telemetry (F : Type 0) : Type 0 where
  pub events_per_sec : F
  pub n_events : ℕ
  pub wall_clock_sec : F
  pub peak_memory_bytes : Option ℕ
  pub gpu_seconds : Option F
  pub baseline_events_per_sec : Option F
  pub cpus : F
  pub gpu : Bool
  pub self_reported : Bool

-- `per_hour r t` is r / (t / 3600), and `ratio` the quotient of two integers.
module _ {F : Type 0} (is_positive : F → Bool) (divide times per_hour : F → F → F)
    (ratio : ℕ → ℕ → F) where
  abbrev pub speedup : F → Option F → Option F
  speedup rate none = none
  speedup rate (some b) = if is_positive b then some (divide rate b) else none

  abbrev pub uses_device : Bool → Option F → Bool
  uses_device gpu none = false
  uses_device gpu (some s) = gpu && is_positive s

  abbrev pub seconds_or : F → Option F → F
  seconds_or d none = d
  seconds_or d (some s) = s

  abbrev pub core_hours : F → F → F → Option F
  core_hours rate wall cpus =
      if is_positive wall && is_positive cpus then some (per_hour rate (times cpus wall)) else none

  abbrev pub memory : ℕ → Option ℕ → Option F
  memory n none = none
  memory n (some bytes) = if ltb 0 bytes then some (ratio n bytes) else none

  abbrev pub utilization : Option F → F → Option F
  utilization none wall = none
  utilization (some s) wall = if is_positive wall then some (divide s wall) else none

  -- `compute`
  unfoldable pub compute : Telemetry F → Diagnostics F
  compute t = record {
    speedup_vs_cpu_abides = speedup t.events_per_sec t.baseline_events_per_sec;
    efficiency =
        if uses_device t.gpu t.gpu_seconds
        then some (per_hour t.events_per_sec (seconds_or t.wall_clock_sec t.gpu_seconds))
        else core_hours t.events_per_sec t.wall_clock_sec t.cpus;
    efficiency_unit =
        if uses_device t.gpu t.gpu_seconds then events_per_gpu_hour else events_per_cpu_core_hour;
    memory_efficiency = memory t.n_events t.peak_memory_bytes;
    telemetry_self_reported = t.self_reported;
    gpu_utilization = utilization t.gpu_seconds t.wall_clock_sec;
  }

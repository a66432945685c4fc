-- ===== src/Telemetry/Timing.antt =====
-- `ranked_timing` of qfbench2_track_simulation/telemetry.py and what it calls: the ranked rate of
-- a unit from the trusted run record, or whose fault it is that there is none.
use track3_simulation_public.Common.{
  ℕ, zero, suc, ◌+◌, Bool, true, false, not, ◌&&◌, Option, none, some, List, [], ◌∷◌, map, length,
  ◌==◌, if◌then◌else◌,
}
use track3_simulation_public.Telemetry.Verdict.{
  Verdict, accepted, organizer_fault, ◌>>=◌, require, require_of_participant,
}

-- A path in `output_row_counts`: "trace.parquet", or that of a sub-scenario by the code of its name.
pub data TracePath : Type 0 where
  trace : TracePath
  sub_trace : ℕ → TracePath

pub record TelemetryBlock : Type 0 where
  pub exclusive : Bool
  pub contender_process_count : ℕ
  pub throttled : Bool

-- A repeat record; `F` is the type of floats, a digest is a code.
pub record Repeat (F : Type 0) : Type 0 where
  pub index : ℕ
  pub is_rankable : Bool
  pub output_tree_digest : ℕ
  pub event_count : ℕ
  pub elapsed_sec : F

-- What is read of the trusted run record and of the plan.
pub record RunRecord (F : Type 0) : Type 0 where
  pub telemetry : Option TelemetryBlock
  pub output_row_counts : List (TracePath × ℕ)
  pub repeats : List (Repeat F)
  pub sanitized_tree_digest : ℕ

pub record Plan : Type 0 where
  pub repeats : Option ℕ
  pub warmup_discarded : Option ℕ

pub record RankedTiming (F : Type 0) : Type 0 where
  pub events_per_sec : F
  pub n_events : ℕ
  pub measured_repeats : ℕ
  pub elapsed_sec_median : F
  pub official : Bool
  pub rankable : Bool

-- Why there is no rate.
pub data Reason : Type 0 where
  inadmissible_telemetry no_telemetry shared_instance no_repeat_policy : Reason
  repeat_count unrankable_repeat nothing_measured bad_clock bad_median : Reason
  event_count_differs repeats_differ : Reason
  missing_counts : List TracePath → Reason

abbrev pub same_path : TracePath → TracePath → Bool
same_path trace trace = true
same_path trace (sub_trace n) = false
same_path (sub_trace m) trace = false
same_path (sub_trace m) (sub_trace n) = m == n

-- `counts.get(relpath)`
abbrev pub row_count : TracePath → List (TracePath × ℕ) → Option ℕ
row_count p [] = none
row_count p ((q, n) ∷ cs) = if same_path p q then some n else row_count p cs

-- The loop over the wanted paths: the total, and the paths with no count.
abbrev pub tally : Option ℕ → TracePath → ℕ × List TracePath → ℕ × List TracePath
tally none p (total, missing) = (total, p ∷ missing)
tally (some n) p (total, missing) = (n + total, missing)

unfoldable pub sum_counts : List (TracePath × ℕ) → List TracePath → ℕ × List TracePath
sum_counts cs [] = (0, [])
sum_counts cs (p ∷ ps) = tally (row_count p cs) p (sum_counts cs ps)

abbrev pub wanted : Option (List ℕ) → List TracePath
wanted none = trace ∷ []
wanted (some names) = map sub_trace names

abbrev pub total_or_missing : ℕ × List TracePath → Verdict Reason ℕ
total_or_missing (total, []) = accepted total
total_or_missing (total, p ∷ ps) = organizer_fault (missing_counts (p ∷ ps))

-- `record.repeats[discard:]`
abbrev pub drop {ℓ} : {A : Type ℓ} → ℕ → List A → List A
drop zero xs = xs
drop (suc n) [] = []
drop (suc n) (x ∷ xs) = drop n xs

abbrev pub every {ℓ} : {A : Type ℓ} → (A → Bool) → List A → Bool
every p [] = true
every p (x ∷ xs) = p x && every p xs

abbrev pub is_idle : TelemetryBlock → Bool
is_idle t = t.exclusive && ((t.contender_process_count == 0) && not t.throttled)

-- The policy of a plan; both numbers are committed or there is none.
abbrev pub policy : Option ℕ → Option ℕ → Verdict Reason (ℕ × ℕ)
policy none d = organizer_fault no_repeat_policy
policy (some r) none = organizer_fault no_repeat_policy
policy (some r) (some d) = accepted (r, d)

-- The count must be the reference's, if one is given.
abbrev pub is_expected : Option ℕ → ℕ → Bool
is_expected none n = true
is_expected (some m) n = n == m

-- Floats and the shared contract are parameters: `admissible` is `telemetry_admissible_for_timing` at
-- the frozen thresholds, `is_positive` tells a finite elapsed time above 0, `rate` divides a count by
-- an elapsed time, and `median` is that of `statistics`.
module _ {F : Type 0} where
  unfoldable pub require_official_telemetry :
      (RunRecord F → Bool) → RunRecord F → Verdict Reason (Unit {0})
  require_official_telemetry admissible r = require (admissible r) inadmissible_telemetry

  unfoldable pub require_exclusive_instance : RunRecord F → Verdict Reason (Unit {0})
  require_exclusive_instance r = elim r.telemetry [
    | none ↦ organizer_fault no_telemetry
    | some t ↦ require (is_idle t) shared_instance
  ]

  unfoldable pub trusted_event_count : RunRecord F → Option (List ℕ) → Verdict Reason ℕ
  trusted_event_count r names = total_or_missing (sum_counts r.output_row_counts (wanted names))

  unfoldable pub measured_repeats : RunRecord F → Plan → Verdict Reason (List (Repeat F))
  measured_repeats r plan = do
    (expected, discard) ← policy plan.repeats plan.warmup_discarded
    _ ← require (length r.repeats == expected) repeat_count
    _ ← require (every (λ p. p.is_rankable) r.repeats) unrankable_repeat
    accepted (drop discard r.repeats)

  abbrev pub reproduces : RunRecord F → ℕ → Repeat F → Bool
  reproduces r n p = (p.output_tree_digest == r.sanitized_tree_digest) && (p.event_count == n)

  unfoldable pub assert_repeats_reproduce_scored_tree :
      RunRecord F → List (Repeat F) → ℕ → Verdict Reason (Unit {0})
  assert_repeats_reproduce_scored_tree r ps n =
      require_of_participant (every (reproduces r n) ps) repeats_differ

  abbrev pub is_some_repeat : List (Repeat F) → Bool
  is_some_repeat [] = false
  is_some_repeat (p ∷ ps) = true

  module _ (admissible : RunRecord F → Bool) (is_positive is_finite : F → Bool) (rate : ℕ → F → F)
      (median : List F → F) where
    -- `ranked_timing`
    unfoldable pub ranked_timing :
        RunRecord F → Plan → Option ℕ → Option (List ℕ) → Verdict Reason (RankedTiming F)
    ranked_timing r plan reference names = do
      _ ← require_official_telemetry admissible r
      _ ← require_exclusive_instance r
      n ← trusted_event_count r names
      _ ← require_of_participant (is_expected reference n) event_count_differs
      ps ← measured_repeats r plan
      _ ← require (is_some_repeat ps) nothing_measured
      _ ← assert_repeats_reproduce_scored_tree r ps n
      _ ← require (every (λ (p : Repeat F). is_positive p.elapsed_sec) ps) bad_clock
      _ ← require (is_finite (median (map (λ (p : Repeat F). rate n p.elapsed_sec) ps))) bad_median
      accepted (record {
        events_per_sec = median (map (λ (p : Repeat F). rate n p.elapsed_sec) ps);
        n_events = n;
        measured_repeats = length ps;
        elapsed_sec_median = median (map (λ (p : Repeat F). p.elapsed_sec) ps);
        official = true;
        rankable = true;
      })

-- ===== src/Scoring/Schema.antt =====
-- `_g1_schema` of qfbench2_track_simulation/scoring.py: the declared numbers, and the ranked timing.
use track3_simulation_public.Common.{
  ℕ, Bool, true, false, not, ◌||◌, Option, none, some, List, [], ◌∷◌, map, length, if◌then◌else◌,
}
use track3_simulation_public.Common.Int.{pos, negsuc}
use track3_simulation_public.Common.Json.{Json, null, boolean, integer, real, text, array, object}
use track3_simulation_public.Semantics.Attempt.{other_error}
use track3_simulation_public.Semantics.Sanity.{Table}
use track3_simulation_public.Limits.Host.{implausible_self_report}
use track3_simulation_public.Telemetry.Verdict.{Verdict, accepted, participant_failure}
use track3_simulation_public.Telemetry.Timing.{Reason, RunRecord, RankedTiming, ranked_timing}
use track3_simulation_public.Batch.Isolation.{SubScenario, declared_reference_event_count}
use track3_simulation_public.Batch.Aggregate.{Aggregate, consistent, check_aggregate}
use track3_simulation_public.Scoring.Files.{
  File, not_there, broken, contents, schema_invalid_output, parse_error, semantic_regression,
  Outcome, passed, refused, organizer_fault, raising, ◌>>=◌, ensure, Profile, official, developer,
  EventsField, scenario_id, n_events, wall_clock_sec, events_per_sec, seed, trace_sha256, Sidecar,
  EventsFile, no_events, broken_events, null_events, listed_events, unset_events, events_object,
  BatchEventsFile, no_batch_events, broken_batch_events, null_batch_events, other_batch_events,
  batch_object, UnitFiles, Submission, SignedPlan, Evidence, Context,
}
use track3_simulation_public.Scoring.Contract.{
  Converted, converted, not_a_number, overflow, Contract,
}
use track3_simulation_public.Scoring.Binding.{get_field, bind_to_trusted_scenario}

-- `_load_subs`, which raises what reading `batch.json` raises.
abbrev pub load_subs : Option (List SubScenario) → Outcome (List SubScenario)
load_subs none = raising other_error
load_subs (some ss) = passed ss

abbrev pub required_events : List EventsField
required_events =
    scenario_id ∷ n_events ∷ wall_clock_sec ∷ events_per_sec ∷ seed ∷ trace_sha256 ∷ []

abbrev pub is_declared : {A : Type 0} → Option A → Bool
is_declared none = false
is_declared (some a) = true

unfoldable pub has_all : {F : Type 0} → Sidecar F → List EventsField → Bool
has_all ev [] = true
has_all ev (f ∷ fs) = if is_declared (ev.get f) then has_all ev fs else false

-- A count of a reference sidecar: an integer that is no Boolean and not below 0.
abbrev pub count_of_json : {F : Type 0} → Option (Json F) → Option ℕ
count_of_json none = none
count_of_json (some (integer (pos n))) = some n
count_of_json (some (integer (negsuc n))) = none
count_of_json (some null) = none
count_of_json (some (boolean b)) = none
count_of_json (some (real x)) = none
count_of_json (some (text t)) = none
count_of_json (some (array c)) = none
count_of_json (some (object c)) = none

abbrev pub rows_of : File Table → Outcome (Option ℕ)
rows_of not_there = passed none
rows_of broken = raising other_error
rows_of (contents t) = passed (some (length t.rows))

abbrev pub count_or_rows : Option ℕ → File Table → Outcome (Option ℕ)
count_or_rows (some n) t = passed (some n)
count_or_rows none t = rows_of t

abbrev pub single_event_count :
    {F : Type 0} → UnitFiles F → File (Option (Json F)) → Outcome (Option ℕ)
single_event_count unit not_there = rows_of unit.reference_trace
single_event_count unit broken = raising other_error
single_event_count unit (contents v) = count_or_rows (count_of_json v) unit.reference_trace

-- `_reference_event_count`
unfoldable pub reference_event_count : {F : Type 0} → UnitFiles F → Bool → Outcome (Option ℕ)
reference_event_count unit false = single_event_count unit unit.reference_events
reference_event_count unit true = do
  ss ← load_subs unit.subs
  passed (declared_reference_event_count ss)

-- The names of the sub-scenarios of a batch.
unfoldable pub sub_names : {F : Type 0} → UnitFiles F → Bool → Outcome (Option (List ℕ))
sub_names unit false = passed none
sub_names unit true = do
  ss ← load_subs unit.subs
  passed (some (map (λ (s : SubScenario). s.sub) ss))

module _ {F : Type 0} (con : Contract F) where
  abbrev pub as_float : Converted F → Outcome F
  as_float (converted x) = passed x
  as_float not_a_number = refused schema_invalid_output
  as_float overflow = raising other_error

  -- The test of the reported rate against the quotient; a quotient of 0 is the `ZeroDivisionError`.
  unfoldable pub consistent_rate : F → F → Outcome (Unit {0})
  consistent_rate eps recomputed =
      if con.is_zero recomputed
      then raising other_error
      else ensure (not (con.num.less (con.decimal 5 2) (con.relative_gap eps recomputed)))
          schema_invalid_output

  -- `_developer_plausibility`
  abbrev pub developer_plausibility : Profile → UnitFiles F → Context F → F → ℕ → Outcome (Unit {0})
  developer_plausibility official unit ctx reported n = passed tt
  developer_plausibility developer unit ctx reported n =
      ensure
        (not (
          implausible_self_report con.of_integer con.num.is_positive con.divide con.at_most
            con.per_market ctx.host_metrics unit.name reported n))
        schema_invalid_output

  -- What the verdict of the timing does to the context.
  abbrev pub with_timing : Context F → Verdict Reason (RankedTiming F) → Outcome (Context F)
  with_timing ctx (accepted t) = passed (record ctx { timing = some t })
  with_timing ctx (Verdict.organizer_fault e) = organizer_fault
  with_timing ctx (participant_failure e) = refused semantic_regression

  -- `ctx["run_record"]` and `ctx["plan"]` are there once the integrity gate passed.
  abbrev pub timing_of :
      Option (RunRecord F)
      → Option (SignedPlan F)
      → Context F
      → Option ℕ
      → Option (List ℕ)
      → Outcome (Context F)
  timing_of none plan ctx reference names = raising other_error
  timing_of (some r) none ctx reference names = raising other_error
  timing_of (some r) (some plan) ctx reference names = with_timing ctx (
      ranked_timing con.admissible con.is_timed con.num.is_finite con.rate con.median r plan.repeats
        reference names)

  unfoldable pub resolve_official_timing :
      Profile → UnitFiles F → Evidence F → Context F → Outcome (Context F)
  resolve_official_timing developer unit ev ctx = passed ctx
  resolve_official_timing official unit ev ctx = do
    names ← sub_names unit ctx.is_batch
    reference ← reference_event_count unit ctx.is_batch
    timing_of ev.run_record ev.plan ctx reference names

  -- The sidecar of a single market.
  unfoldable pub check_sidecar :
      Profile → UnitFiles F → Submission F → Context F → Sidecar F → Outcome (Unit {0})
  check_sidecar profile unit sub ctx ev = do
    _ ← ensure (has_all ev required_events) schema_invalid_output
    n ← as_float (con.to_number (get_field ev n_events))
    wall ← as_float (con.to_number (get_field ev wall_clock_sec))
    eps ← as_float (con.to_number (get_field ev events_per_sec))
    _ ←
        ensure
          (not (con.num.is_nonpositive n || (con.num.is_nonpositive wall || con.is_negative eps)))
          schema_invalid_output
    _ ← consistent_rate eps (con.divide n wall)
    _ ← bind_to_trusted_scenario con unit sub ev
    developer_plausibility profile unit ctx eps 1

  abbrev pub check_events_file :
      Profile → UnitFiles F → Submission F → Context F → EventsFile F → Outcome (Unit {0})
  check_events_file profile unit sub ctx no_events = raising other_error
  check_events_file profile unit sub ctx broken_events = raising other_error
  check_events_file profile unit sub ctx null_events = raising other_error
  check_events_file profile unit sub ctx listed_events = refused schema_invalid_output
  check_events_file profile unit sub ctx unset_events = raising other_error
  check_events_file profile unit sub ctx (events_object ev) = check_sidecar profile unit sub ctx ev

  abbrev pub after_aggregate :
      Profile → UnitFiles F → Context F → ℕ → Aggregate F → Outcome (Unit {0})
  after_aggregate profile unit ctx n (consistent total eps) =
      developer_plausibility profile unit ctx eps n
  after_aggregate profile unit ctx n (Aggregate.refused r) = refused schema_invalid_output

  -- The totals of a batch.
  abbrev pub check_totals :
      Profile
      → UnitFiles F
      → Submission F
      → Context F
      → List SubScenario
      → BatchEventsFile F
      → Outcome (Unit {0})
  check_totals profile unit sub ctx ss (batch_object be) =
      if sub.sub_rows_raise
      then refused parse_error
      else after_aggregate profile unit ctx (length ss) (
          check_aggregate con.positive_totals con.close_totals con.truncate_total sub.sub_rows ss
            (some be))
  check_totals profile unit sub ctx ss no_batch_events = refused parse_error
  check_totals profile unit sub ctx ss broken_batch_events = refused parse_error
  check_totals profile unit sub ctx ss null_batch_events = refused parse_error
  check_totals profile unit sub ctx ss other_batch_events = refused parse_error

  abbrev pub check_declared :
      Bool → Profile → UnitFiles F → Submission F → Context F → Outcome (Unit {0})
  check_declared false profile unit sub ctx = check_events_file profile unit sub ctx ctx.events
  check_declared true profile unit sub ctx = do
    ss ← load_subs unit.subs
    check_totals profile unit sub ctx ss ctx.batch_events

  -- `_g1_schema`
  unfoldable pub g1_schema :
      Profile → UnitFiles F → Evidence F → Submission F → Context F → Outcome (Context F)
  g1_schema profile unit ev sub ctx = do
    _ ← check_declared ctx.is_batch profile unit sub ctx
    resolve_official_timing profile unit ev ctx

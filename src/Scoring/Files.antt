-- ===== src/Scoring/Files.antt =====
-- The files of a unit and of a submission, the trusted evidence and the outcome of a gate, for
-- qfbench2_track_simulation/scoring.py.
use track3_simulation_public.Common.{ℕ, Bool, true, false, Option, none, List, ◌≡◌, refl}
use track3_simulation_public.Common.Int.{ℤ}
use track3_simulation_public.Common.Result.{Text}
use track3_simulation_public.Common.Json.{Json}
use track3_simulation_public.Semantics.Ledger.{Row, Frame}
use track3_simulation_public.Semantics.Sanity.{Table}
use track3_simulation_public.Semantics.Attempt.{Raise}
use track3_simulation_public.Limits.Domain.{BatchDocument}
use track3_simulation_public.Limits.Host.{HostFile, HostMap}
use track3_simulation_public.Telemetry.Timing.{Plan, RunRecord, RankedTiming}
use track3_simulation_public.Batch.Isolation.{SubScenario, SubFiles}
use track3_simulation_public.Batch.Aggregate.{BatchEvents}

-- A file that is not there, that cannot be read, or as read.
pub data File {ℓ} (A : Type ℓ) : Type ℓ where
  not_there broken : File A
  contents : A → File A

-- The labels of `FailureLabel` that the gates use.
pub data Label : Type 0 where
  schema_invalid_output parse_error semantic_regression reference_integrity_error : Label
  stylized_fact_breach latency_causality_violation : Label

-- A gate passes, is refused with a label, blames the organizer by `OrganizerFault`, or raises another
-- exception.
pub data Outcome {ℓ} (A : Type ℓ) : Type ℓ where
  passed : A → Outcome A
  refused : Label → Outcome A
  organizer_fault : Outcome A
  raising : Raise → Outcome A

infixl 5 ◌>>=◌
abbrev pub ◌>>=◌ {ℓ κ} : {A : Type ℓ} {B : Type κ} → Outcome A → (A → Outcome B) → Outcome B
passed a >>= f = f a
refused l >>= f = refused l
organizer_fault >>= f = organizer_fault
raising e >>= f = raising e

-- Goes on if the test holds.
abbrev pub ensure : Bool → Label → Outcome (Unit {0})
ensure true l = passed tt
ensure false l = refused l

-- `_t3_profile`
pub data Profile : Type 0 where
  official developer : Profile

-- `[scoring.params]` of a card, each value after its conversion.
pub record Parameters (F : Type 0) : Type 0 where
  pub semantic_tier : Option Text
  pub stylized_fact_ceilings : List (Text × F)
  pub timestamp_tolerance_ns : Option ℤ
  pub kendall_tau_floor : Option F
  pub spread_bps_tolerance : Option F
  pub requires_message_ledger : Option (Json F)

-- A card: the family, whether `[batch].batch` is set, and the parameters, `none` if a conversion of
-- them raises.
pub record Card (F : Type 0) : Type 0 where
  pub scenario_family : Option Text
  pub is_batch : Bool
  pub parameters : Option (Parameters F)

-- The fields of `_REQUIRED_EVENTS`.
pub data EventsField : Type 0 where
  scenario_id n_events wall_clock_sec events_per_sec seed trace_sha256 : EventsField

-- A sidecar by what it has for a field.
pub record Sidecar (F : Type 0) : Type 0 where
  pub get : EventsField → Option (Json F)

-- `events.json` of a submission: not there, not JSON, null, a list or a text, a value of which `set`
-- raises, or an object.
pub data EventsFile (F : Type 0) : Type 0 where
  no_events broken_events null_events listed_events unset_events : EventsFile F
  events_object : Sidecar F → EventsFile F

-- `batch_events.json`; `other_batch_events` is a value other than null that is no object.
pub data BatchEventsFile (F : Type 0) : Type 0 where
  no_batch_events broken_batch_events null_batch_events other_batch_events : BatchEventsFile F
  batch_object : BatchEvents F → BatchEventsFile F

-- `scenario.json` of the organizer: with the two fields that are read, a missing one being null.
pub data ScenarioFile (F : Type 0) : Type 0 where
  no_scenario broken_scenario no_object : ScenarioFile F
  scenario : (scenario_id seed : Json F) → ScenarioFile F

-- What the organizer has of a unit: the name of its directory, its files, and those of the
-- sub-scenarios of a batch; `subs` is `none` if `batch.json` cannot be loaded.
pub record UnitFiles (F : Type 0) : Type 0 where
  pub name : Text
  pub card : File (Card F)
  pub scenario_file : ScenarioFile F
  pub reference_events : File (Option (Json F))
  pub reference_trace : File Table
  pub reference_messages : File (List Row)
  pub subs : Option (List SubScenario)
  pub sub_files : ℕ → SubFiles

-- What a submission wrote. `trace_digest` is the digest of the bytes of its trace, `none` if they cannot
-- be read; `sub_rows` are the rows of the traces of sub-scenarios, and `sub_rows_raise` tells that one of
-- those that are read is corrupt.
pub record Submission (F : Type 0) : Type 0 where
  pub events_file : EventsFile F
  pub batch_events_file : BatchEventsFile F
  pub trace : File Table
  pub trace_digest : Option Text
  pub messages : File Frame
  pub sub_rows : ℕ → Option ℕ
  pub sub_rows_raise : Bool
  pub host_file : HostFile F

-- The signed plan: the policy of repeats, the metric's ceiling, the roster, and its `clip`.
pub record SignedPlan (F : Type 0) : Type 0 where
  pub repeats : Plan
  pub domain_max : F
  pub expected_handles : List Text
  pub clip : F → F

-- The trusted evidence in `ctx`, and the documents beside the unit's directory.
pub record Evidence (F : Type 0) : Type 0 where
  pub run_record : Option (RunRecord F)
  pub plan : Option (SignedPlan F)
  pub reference_root : Text → BatchDocument

-- What the gates leave in `ctx`; a report of stylized facts by a code.
pub record Context (F : Type 0) : Type 0 where
  pub host_metrics : Option (HostMap F)
  pub is_batch : Bool
  pub batch_events : BatchEventsFile F
  pub events : EventsFile F
  pub timing : Option (RankedTiming F)
  pub sf_report : Option ℕ

abbrev pub empty_context : {F : Type 0} → Context F
empty_context = record {
  host_metrics = none;
  is_batch = false;
  batch_events = no_batch_events;
  events = no_events;
  timing = none;
  sf_report = none;
}

module _ {ℓ κ} {A : Type ℓ} {B : Type κ} where
  pub bind-passed :
      (r : Outcome A) (f : A → Outcome B) (b : B)
      → (r >>= f) ≡ passed b
      → (a : A) × (r ≡ passed a) × (f a ≡ passed b)
  bind-passed (passed a) f b h = (a, refl, h)
  bind-passed (refused l) f b h = cc
  bind-passed organizer_fault f b h = cc
  bind-passed (raising e) f b h = cc

pub ensure-holds : (b : Bool) (l : Label) (u : Unit {0}) → ensure b l ≡ passed u → b ≡ true
ensure-holds true l u h = refl
ensure-holds false l u h = cc

-- ===== src/Scoring/Binding.antt =====
-- `_bind_to_trusted_scenario` of qfbench2_track_simulation/scoring.py: the sidecar against the
-- organizer's scenario and against the bytes of the trace.
use track3_simulation_public.Common.{Bool, true, false, Option, none, some}
use track3_simulation_public.Common.Result.{Text, eq_text}
use track3_simulation_public.Common.Json.{Json, null, boolean, integer, real, text, array, object}
use track3_simulation_public.Semantics.Attempt.{other_error}
use track3_simulation_public.Scoring.Files.{
  File, not_there, broken, contents, schema_invalid_output, parse_error, Outcome, passed, refused,
  organizer_fault, raising, ◌>>=◌, ensure, EventsField, scenario_id, seed, trace_sha256, Sidecar,
  ScenarioFile, no_scenario, broken_scenario, no_object, scenario, UnitFiles, Submission,
}
use track3_simulation_public.Scoring.Contract.{Contract, same_json}

-- `ev.get(field)`
abbrev pub value_or_null : {F : Type 0} → Option (Json F) → Json F
value_or_null none = null
value_or_null (some v) = v

abbrev pub get_field : {F : Type 0} → Sidecar F → EventsField → Json F
get_field ev f = value_or_null (ev.get f)

abbrev pub is_there {ℓ} : {A : Type ℓ} → File A → Bool
is_there not_there = false
is_there broken = true
is_there (contents a) = true

module _ {F : Type 0} (con : Contract F) where
  -- One round of the loop over the two fields, the expected value first.
  abbrev pub bind_field : Json F → Json F → Outcome (Unit {0})
  bind_field null declared = passed tt
  bind_field (boolean b) declared =
      ensure (same_json con declared (boolean b)) schema_invalid_output
  bind_field (integer z) declared =
      ensure (same_json con declared (integer z)) schema_invalid_output
  bind_field (real x) declared = ensure (same_json con declared (real x)) schema_invalid_output
  bind_field (text t) declared = ensure (same_json con declared (text t)) schema_invalid_output
  bind_field (array c) declared = ensure (same_json con declared (array c)) schema_invalid_output
  bind_field (object c) declared = ensure (same_json con declared (object c)) schema_invalid_output

  abbrev pub bind_scenario : ScenarioFile F → Sidecar F → Outcome (Unit {0})
  bind_scenario no_scenario ev = passed tt
  bind_scenario broken_scenario ev = organizer_fault
  bind_scenario no_object ev = raising other_error
  bind_scenario (scenario id s) ev = do
    _ ← bind_field id (get_field ev scenario_id)
    bind_field s (get_field ev seed)

  abbrev pub bind_digest_to : Option Text → Text → Outcome (Unit {0})
  bind_digest_to none declared = refused parse_error
  bind_digest_to (some actual) declared =
      ensure (eq_text (con.lower actual) (con.strip_lower declared)) schema_invalid_output

  abbrev pub bind_existing : Bool → Option Text → Text → Outcome (Unit {0})
  bind_existing true digest declared = bind_digest_to digest declared
  bind_existing false digest declared = passed tt

  -- A digest that is not a text is not compared.
  abbrev pub bind_digest : Bool → Option Text → Json F → Outcome (Unit {0})
  bind_digest there digest (text declared) = bind_existing there digest declared
  bind_digest there digest null = passed tt
  bind_digest there digest (boolean b) = passed tt
  bind_digest there digest (integer z) = passed tt
  bind_digest there digest (real x) = passed tt
  bind_digest there digest (array c) = passed tt
  bind_digest there digest (object c) = passed tt

  unfoldable pub bind_to_trusted_scenario :
      UnitFiles F → Submission F → Sidecar F → Outcome (Unit {0})
  bind_to_trusted_scenario unit sub ev = do
    _ ← bind_scenario unit.scenario_file ev
    bind_digest (is_there sub.trace) sub.trace_digest (get_field ev trace_sha256)

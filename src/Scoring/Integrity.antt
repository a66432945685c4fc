-- ===== src/Scoring/Integrity.antt =====
-- `_g0_integrity` of qfbench2_track_simulation/scoring.py: the trusted evidence, then the sidecar.
use track3_simulation_public.Common.{Bool, true, false, Option, none, some}
use track3_simulation_public.Common.Result.{Result, error, ok}
use track3_simulation_public.Semantics.Attempt.{other_error}
use track3_simulation_public.Limits.Domain.{
  Failure, value_error, os_error, type_error, key_error, assert_domain_max_covers_roster,
}
use track3_simulation_public.Limits.Host.{HostFault, HostMap, load}
use track3_simulation_public.Telemetry.Verdict.{Verdict, accepted, participant_failure}
use track3_simulation_public.Telemetry.Timing.{
  RunRecord, Reason, require_official_telemetry, require_exclusive_instance,
}
use track3_simulation_public.Scoring.Files.{
  File, not_there, broken, contents, schema_invalid_output, parse_error, Outcome, passed, refused,
  organizer_fault, raising, Profile, official, developer, Card, EventsFile, no_events,
  broken_events, null_events, listed_events, unset_events, events_object, BatchEventsFile,
  no_batch_events, broken_batch_events, null_batch_events, other_batch_events, batch_object,
  UnitFiles, Submission, SignedPlan, Evidence, Context, ◌>>=◌,
}
use track3_simulation_public.Scoring.Contract.{Contract}

module _ {F : Type 0} (con : Contract F) where
  -- `except ValueError` around the check of the ceiling.
  abbrev pub after_ceiling : Result Failure (Unit {0}) → Outcome (Unit {0})
  after_ceiling (ok u) = passed tt
  after_ceiling (error value_error) = organizer_fault
  after_ceiling (error os_error) = raising other_error
  after_ceiling (error type_error) = raising other_error
  after_ceiling (error key_error) = raising other_error

  -- The telemetry checks raise `OrganizerFault`; `ParticipantFailure` is not caught here.
  abbrev pub after_telemetry : Verdict Reason (Unit {0}) → Outcome (Unit {0})
  after_telemetry (accepted u) = passed tt
  after_telemetry (Verdict.organizer_fault e) = organizer_fault
  after_telemetry (participant_failure e) = raising other_error

  unfoldable pub trusted : RunRecord F → Outcome (Unit {0})
  trusted r = do
    _ ← after_telemetry (require_official_telemetry con.admissible r)
    after_telemetry (require_exclusive_instance r)

  abbrev pub evidence_of :
      Evidence F → Option (RunRecord F) → Option (SignedPlan F) → Outcome (Unit {0})
  evidence_of ev none plan = organizer_fault
  evidence_of ev (some r) none = organizer_fault
  evidence_of ev (some r) (some plan) = do
    _ ← after_ceiling (
        assert_domain_max_covers_roster ev.reference_root con.below plan.domain_max
          plan.expected_handles)
    trusted r

  -- The local measurements of the developer profile.
  abbrev pub after_load : Result HostFault (Option (HostMap F)) → Outcome (Option (HostMap F))
  after_load (error e) = refused schema_invalid_output
  after_load (ok m) = passed m

  abbrev pub host_of : Outcome (Unit {0}) → Outcome (Option (HostMap F))
  host_of (passed u) = passed none
  host_of (refused l) = refused l
  host_of organizer_fault = organizer_fault
  host_of (raising e) = raising e

  unfoldable pub evidence_gate : Profile → Evidence F → Submission F → Outcome (Option (HostMap F))
  evidence_gate official ev sub = host_of (evidence_of ev ev.run_record ev.plan)
  evidence_gate developer ev sub = after_load (load sub.host_file)

  -- `batch_meta`, whether it is a batch; a card that cannot be read raises.
  unfoldable pub batch_meta : File (Card F) → Outcome Bool
  batch_meta not_there = passed false
  batch_meta broken = raising other_error
  batch_meta (contents c) = passed c.is_batch

  -- The sidecar of a batch, and that of a single market, each kept if it is not null.
  abbrev pub with_batch_events : Context F → BatchEventsFile F → Outcome (Context F)
  with_batch_events ctx no_batch_events = refused schema_invalid_output
  with_batch_events ctx broken_batch_events = refused parse_error
  with_batch_events ctx null_batch_events = refused schema_invalid_output
  with_batch_events ctx other_batch_events =
      passed (record ctx { batch_events = other_batch_events })
  with_batch_events ctx (batch_object be) = passed (record ctx { batch_events = batch_object be })

  abbrev pub with_events : Context F → EventsFile F → Outcome (Context F)
  with_events ctx no_events = refused schema_invalid_output
  with_events ctx broken_events = refused parse_error
  with_events ctx null_events = refused schema_invalid_output
  with_events ctx listed_events = passed (record ctx { events = listed_events })
  with_events ctx unset_events = passed (record ctx { events = unset_events })
  with_events ctx (events_object ev) = passed (record ctx { events = events_object ev })

  abbrev pub with_sidecar : Context F → Submission F → Bool → Outcome (Context F)
  with_sidecar ctx sub true =
      with_batch_events (record ctx { is_batch = true }) sub.batch_events_file
  with_sidecar ctx sub false = with_events (record ctx { is_batch = false }) sub.events_file

  -- The developer profile replaces the local measurements.
  abbrev pub with_hosts : Profile → Context F → Option (HostMap F) → Context F
  with_hosts official ctx hosts = ctx
  with_hosts developer ctx hosts = record ctx { host_metrics = hosts }

  -- `_g0_integrity`
  unfoldable pub g0_integrity :
      Profile → UnitFiles F → Evidence F → Submission F → Context F → Outcome (Context F)
  g0_integrity profile unit ev sub ctx = do
    hosts ← evidence_gate profile ev sub
    batch ← batch_meta unit.card
    with_sidecar (with_hosts profile ctx hosts) sub batch

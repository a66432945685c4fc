-- ===== src/Scoring/Score.antt =====
-- The scores of qfbench2_track_simulation/scoring.py, and its two factories.
use track3_simulation_public.Common.{
  ℕ, Bool, true, false, Option, none, some, List, [], ◌∷◌, if◌then◌else◌,
}
use track3_simulation_public.Semantics.Attempt.{other_error}
use track3_simulation_public.Limits.Host.{Source, developer_events_per_sec}
use track3_simulation_public.Telemetry.Timing.{RankedTiming}
use track3_simulation_public.Batch.Aggregate.{Field, absent, not_numeric, number}
use track3_simulation_public.Scoring.Files.{
  Outcome, passed, raising, ◌>>=◌, Profile, official, developer, EventsFile, no_events,
  broken_events, null_events, listed_events, unset_events, events_object, events_per_sec,
  BatchEventsFile, no_batch_events, broken_batch_events, null_batch_events, other_batch_events,
  batch_object, UnitFiles, Submission, SignedPlan, Evidence, Context, empty_context,
}
use track3_simulation_public.Scoring.Contract.{
  Converted, converted, not_a_number, overflow, Contract,
}
use track3_simulation_public.Scoring.Binding.{get_field}
use track3_simulation_public.Scoring.Integrity.{g0_integrity}
use track3_simulation_public.Scoring.Schema.{g1_schema}
use track3_simulation_public.Scoring.Exactness.{g3_domain_semantics}

-- A score; the counts of an official one, or the source of a developer's.
pub record Score (F : Type 0) : Type 0 where
  pub score : F
  pub profile : Profile
  pub rankable : Bool
  pub measured_repeats : Option ℕ
  pub n_events : Option ℕ
  pub score_source : Option Source
  pub stylized_facts : Option ℕ

-- `None if ctx.get("_batch") else ctx.get("_sf_report")`
abbrev pub facts_of : {F : Type 0} → Context F → Option ℕ
facts_of ctx = if ctx.is_batch then none else ctx.sf_report

abbrev pub official_of :
    {F : Type 0} → Context F → Option (SignedPlan F) → Option (RankedTiming F) → Outcome (Score F)
official_of ctx none timing = raising other_error
official_of ctx (some plan) none = raising other_error
official_of ctx (some plan) (some t) = passed (record {
  score = plan.clip t.events_per_sec;
  profile = official;
  rankable = true;
  measured_repeats = some t.measured_repeats;
  n_events = some t.n_events;
  score_source = none;
  stylized_facts = facts_of ctx;
})

-- `_official_score`
unfoldable pub official_score : {F : Type 0} → Evidence F → Context F → Outcome (Score F)
official_score ev ctx = official_of ctx ev.plan ctx.timing

module _ {F : Type 0} (con : Contract F) where
  abbrev pub float_or_raise : Converted F → Outcome F
  float_or_raise (converted x) = passed x
  float_or_raise not_a_number = raising other_error
  float_or_raise overflow = raising other_error

  abbrev pub field_or_raise : Field F → Outcome F
  field_or_raise absent = raising other_error
  field_or_raise not_numeric = raising other_error
  field_or_raise (number x) = passed x

  abbrev pub batch_rate : BatchEventsFile F → Outcome F
  batch_rate (batch_object be) = field_or_raise be.events_per_sec
  batch_rate no_batch_events = raising other_error
  batch_rate broken_batch_events = raising other_error
  batch_rate null_batch_events = raising other_error
  batch_rate other_batch_events = raising other_error

  abbrev pub single_rate : EventsFile F → Outcome F
  single_rate (events_object ev) = float_or_raise (con.to_number (get_field ev events_per_sec))
  single_rate no_events = raising other_error
  single_rate broken_events = raising other_error
  single_rate null_events = raising other_error
  single_rate listed_events = raising other_error
  single_rate unset_events = raising other_error

  -- `_developer_score`
  unfoldable pub developer_score : UnitFiles F → Context F → Outcome (Score F)
  developer_score unit ctx = do
    reported ← if ctx.is_batch then batch_rate ctx.batch_events else single_rate ctx.events
    let (rate, source) =
        developer_events_per_sec con.of_integer con.num.is_positive con.divide ctx.host_metrics
          unit.name reported
    passed (record {
      score = rate;
      profile = developer;
      rankable = false;
      measured_repeats = none;
      n_events = none;
      score_source = some source;
      stylized_facts = facts_of ctx;
    })

  abbrev pub Gate : Type 0
  Gate = Context F → Outcome (Context F)

  -- `_g2_cutoff_resource`
  abbrev pub g2_cutoff_resource : Gate
  g2_cutoff_resource ctx = passed ctx

  -- `_GATES`
  abbrev pub gates : Profile → UnitFiles F → Evidence F → Submission F → List Gate
  gates profile unit ev sub =
      g0_integrity con profile unit ev sub
      ∷ g1_schema con profile unit ev sub
      ∷ g2_cutoff_resource
      ∷ g3_domain_semantics con unit sub
      ∷ []

  -- `run` is that of the shared `HierarchicalVerifier`, on its gates and its scorer.
  module _ (run : List Gate → (Context F → Outcome (Score F)) → Context F → Outcome (Score F)) where
    -- `build_verifier(ctx).run(ctx)`
    unfoldable pub build_verifier : UnitFiles F → Evidence F → Submission F → Outcome (Score F)
    build_verifier unit ev sub = run (gates official unit ev sub) (official_score ev) empty_context

    unfoldable pub build_developer_verifier :
        UnitFiles F → Evidence F → Submission F → Outcome (Score F)
    build_developer_verifier unit ev sub =
        run (gates developer unit ev sub) (developer_score unit) empty_context

-- ===== src/Scoring/Trusted.antt =====
-- What the integrity gate leaves when it passes.
use track3_simulation_public.Common.{◌≡◌, refl, sym, ap, ◌∙◌, Bool, true, false, Option, none, some}
use track3_simulation_public.Common.Result.{Result, error, ok}
use track3_simulation_public.Limits.Domain.{
  Failure, value_error, os_error, type_error, key_error, assert_domain_max_covers_roster,
}
use track3_simulation_public.Limits.Host.{HostMap}
use track3_simulation_public.Telemetry.Verdict.{Verdict, accepted, participant_failure}
use track3_simulation_public.Telemetry.Timing.{
  Reason, RunRecord, require_official_telemetry, require_exclusive_instance,
}
use track3_simulation_public.Scoring.Files.{
  Outcome, passed, refused, organizer_fault, raising, official, EventsFile, no_events,
  broken_events, null_events, listed_events, unset_events, events_object, BatchEventsFile,
  no_batch_events, broken_batch_events, null_batch_events, other_batch_events, batch_object,
  UnitFiles, Submission, SignedPlan, Evidence, Context, bind-passed,
}
use track3_simulation_public.Scoring.Contract.{Contract}
use track3_simulation_public.Scoring.Integrity.{
  after_ceiling, after_telemetry, trusted, evidence_of, host_of, evidence_gate, batch_meta,
  with_batch_events, with_events, with_sidecar, with_hosts, g0_integrity,
}

abbrev passed_or {ℓ} : {A : Type ℓ} → A → Outcome A → A
passed_or d (passed a) = a
passed_or d (refused l) = d
passed_or d organizer_fault = d
passed_or d (raising e) = d

pub passed_injective {ℓ} :
    {A : Type ℓ} (a b : A) → ◌≡◌ {A = Outcome A} (passed a) (passed b) → a ≡ b
passed_injective a b h = ap (passed_or a) h

module _ {F : Type 0} (con : Contract F) where
  -- What the integrity gate of the official profile leaves.
  pub record Trusted (unit : UnitFiles F) (ev : Evidence F) (sub : Submission F) (next : Context F)
      : Type 0 where
    pub run_record : RunRecord F
    pub plan : SignedPlan F
    pub has_record : ev.run_record ≡ some run_record
    pub has_plan : ev.plan ≡ some plan
    pub ceiling :
        assert_domain_max_covers_roster ev.reference_root con.below plan.domain_max
          plan.expected_handles
        ≡ ok tt
    pub telemetry : require_official_telemetry con.admissible run_record ≡ accepted tt
    pub exclusive : require_exclusive_instance run_record ≡ accepted tt
    pub card_batch : batch_meta con unit.card ≡ passed next.is_batch
    pub events : next.is_batch ≡ false → next.events ≡ sub.events_file

  after_ceiling-ok :
      (r : Result Failure (Unit {0})) (u : Unit {0}) → after_ceiling con r ≡ passed u → r ≡ ok tt
  after_ceiling-ok (ok tt) u h = refl
  after_ceiling-ok (error value_error) u h = cc
  after_ceiling-ok (error os_error) u h = cc
  after_ceiling-ok (error type_error) u h = cc
  after_ceiling-ok (error key_error) u h = cc

  after_telemetry-accepted :
      (r : Verdict Reason (Unit {0})) (u : Unit {0})
      → after_telemetry con r ≡ passed u
      → r ≡ accepted tt
  after_telemetry-accepted (accepted tt) u h = refl
  after_telemetry-accepted (Verdict.organizer_fault e) u h = cc
  after_telemetry-accepted (participant_failure e) u h = cc

  host_of-passed :
      (r : Outcome (Unit {0})) (m : Option (HostMap F)) → host_of con r ≡ passed m → r ≡ passed tt
  host_of-passed (passed tt) m h = refl
  host_of-passed (refused l) m h = cc
  host_of-passed organizer_fault m h = cc
  host_of-passed (raising e) m h = cc

  -- The evidence is there and passes its checks.
  pub record Evident (ev : Evidence F) (record_there : Option (RunRecord F))
      (plan_there : Option (SignedPlan F)) : Type 0 where
    pub run_record : RunRecord F
    pub plan : SignedPlan F
    pub has_record : record_there ≡ some run_record
    pub has_plan : plan_there ≡ some plan
    pub ceiling :
        assert_domain_max_covers_roster ev.reference_root con.below plan.domain_max
          plan.expected_handles
        ≡ ok tt
    pub telemetry : require_official_telemetry con.admissible run_record ≡ accepted tt
    pub exclusive : require_exclusive_instance run_record ≡ accepted tt

  evidence_of-Evident :
      (ev : Evidence F) (r : Option (RunRecord F)) (p : Option (SignedPlan F)) (u : Unit {0})
      → evidence_of con ev r p ≡ passed u
      → Evident ev r p
  unfolding trusted
  evidence_of-Evident ev none p u h = cc
  evidence_of-Evident ev (some r) none u h = cc
  evidence_of-Evident ev (some r) (some p) u h =
      let (u1, a, h1) = bind-passed _ _ u h in
      let (u2, b, h2) = bind-passed _ _ u h1 in
      record {
        run_record = r;
        plan = p;
        has_record = refl;
        has_plan = refl;
        ceiling = after_ceiling-ok _ u1 a;
        telemetry = after_telemetry-accepted _ u2 b;
        exclusive = after_telemetry-accepted _ u h2;
      }

  -- The sidecar that is kept.
  pub record Kept (batch : Bool) (sub : Submission F) (next : Context F) : Type 0 where
    pub same_batch : next.is_batch ≡ batch
    pub same_events : batch ≡ false → next.events ≡ sub.events_file

  batch_kept :
      (ctx next : Context F) (f : BatchEventsFile F)
      → with_batch_events con ctx f ≡ passed next
      → next.is_batch ≡ ctx.is_batch
  batch_kept ctx next no_batch_events h = cc
  batch_kept ctx next broken_batch_events h = cc
  batch_kept ctx next null_batch_events h = cc
  batch_kept ctx next other_batch_events h =
      sym (ap (λ (c : Context F). c.is_batch) (passed_injective _ _ h))
  batch_kept ctx next (batch_object be) h =
      sym (ap (λ (c : Context F). c.is_batch) (passed_injective _ _ h))

  events_kept :
      (ctx next : Context F) (f : EventsFile F)
      → with_events con ctx f ≡ passed next
      → (next.is_batch ≡ ctx.is_batch) × (next.events ≡ f)
  events_kept ctx next no_events h = cc
  events_kept ctx next broken_events h = cc
  events_kept ctx next null_events h = cc
  events_kept ctx next listed_events h =
      let e = sym (passed_injective _ _ h) in
      (ap (λ (c : Context F). c.is_batch) e, ap (λ (c : Context F). c.events) e)
  events_kept ctx next unset_events h =
      let e = sym (passed_injective _ _ h) in
      (ap (λ (c : Context F). c.is_batch) e, ap (λ (c : Context F). c.events) e)
  events_kept ctx next (events_object ev) h =
      let e = sym (passed_injective _ _ h) in
      (ap (λ (c : Context F). c.is_batch) e, ap (λ (c : Context F). c.events) e)

  with_sidecar-Kept :
      (ctx : Context F) (sub : Submission F) (batch : Bool) (next : Context F)
      → with_sidecar con ctx sub batch ≡ passed next
      → Kept batch sub next
  with_sidecar-Kept ctx sub true next h = record {
    same_batch = batch_kept (record ctx { is_batch = true }) next sub.batch_events_file h;
    same_events = λ e. cc;
  }
  with_sidecar-Kept ctx sub false next h =
      let (b, e) = events_kept (record ctx { is_batch = false }) next sub.events_file h in
      record { same_batch = b; same_events = λ _. e }

  pub g0_integrity-Trusted :
      (unit : UnitFiles F) (ev : Evidence F) (sub : Submission F) (ctx next : Context F)
      → g0_integrity con official unit ev sub ctx ≡ passed next
      → Trusted unit ev sub next
  unfolding g0_integrity evidence_gate
  g0_integrity-Trusted unit ev sub ctx next h =
      let (hosts, a, h1) = bind-passed _ _ next h in
      let (batch, b, h2) = bind-passed _ _ next h1 in
      let e = evidence_of-Evident ev ev.run_record ev.plan tt (host_of-passed _ hosts a) in
      let k = with_sidecar-Kept (with_hosts con official ctx hosts) sub batch next h2 in
      record {
        run_record = e.run_record;
        plan = e.plan;
        has_record = e.has_record;
        has_plan = e.has_plan;
        ceiling = e.ceiling;
        telemetry = e.telemetry;
        exclusive = e.exclusive;
        card_batch = b ∙ ap passed (sym k.same_batch);
        events = λ f. k.same_events (sym k.same_batch ∙ f);
      }

-- ===== src/Scoring/Scored.antt =====
-- What an official score is made of.
use track3_simulation_public.Common.{ℕ, ◌≡◌, refl, sym, ap, Bool, Option, none, some, List}
use track3_simulation_public.Telemetry.Verdict.{Verdict, accepted, participant_failure}
use track3_simulation_public.Telemetry.Timing.{Reason, RunRecord, RankedTiming, ranked_timing}
use track3_simulation_public.Scoring.Files.{
  passed, official, UnitFiles, Submission, SignedPlan, Evidence, Context, bind-passed,
}
use track3_simulation_public.Scoring.Contract.{Contract}
use track3_simulation_public.Scoring.Schema.{
  sub_names, reference_event_count, with_timing, timing_of, resolve_official_timing, check_declared,
  g1_schema,
}
use track3_simulation_public.Scoring.Trusted.{passed_injective}

some_injective {ℓ} : {A : Type ℓ} (a b : A) → ◌≡◌ {A = Option A} (some a) (some b) → a ≡ b
some_injective a b h = ap (some_or a) h
  where
    some_or : {A : Type ℓ} → A → Option A → A
    some_or d none = d
    some_or d (some x) = x

module _ {F : Type 0} (con : Contract F) where
  -- The ranked timing, from the organizer's files and the trusted evidence alone.
  pub record Timed (unit : UnitFiles F) (ev : Evidence F) (batch : Bool) (t : RankedTiming F)
      : Type 0 where
    pub run_record : RunRecord F
    pub plan : SignedPlan F
    pub names : Option (List ℕ)
    pub reference : Option ℕ
    pub has_record : ev.run_record ≡ some run_record
    pub has_plan : ev.plan ≡ some plan
    pub has_names : sub_names unit batch ≡ passed names
    pub has_reference : reference_event_count unit batch ≡ passed reference
    pub ranked :
        ranked_timing con.admissible con.is_timed con.num.is_finite con.rate con.median run_record
          plan.repeats reference names
        ≡ accepted t

  -- The timing is added to a context, and nothing else of it changes.
  pub record Adds (ctx next : Context F) (t : RankedTiming F) : Type 0 where
    pub timing : next.timing ≡ some t
    pub same_batch : next.is_batch ≡ ctx.is_batch
    pub same_events : next.events ≡ ctx.events

  with_timing-Adds :
      (ctx next : Context F) (v : Verdict Reason (RankedTiming F))
      → with_timing con ctx v ≡ passed next
      → (t : RankedTiming F) × (v ≡ accepted t) × Adds ctx next t
  with_timing-Adds ctx next (accepted t) h =
      let e = sym (passed_injective _ _ h) in
      (
        t,
        refl,
        record {
          timing = ap (λ (c : Context F). c.timing) e;
          same_batch = ap (λ (c : Context F). c.is_batch) e;
          same_events = ap (λ (c : Context F). c.events) e;
        },
      )
  with_timing-Adds ctx next (Verdict.organizer_fault e) h = cc
  with_timing-Adds ctx next (participant_failure e) h = cc

  timing_of-Timed :
      (unit : UnitFiles F) (ev : Evidence F) (ctx next : Context F) (r : Option (RunRecord F))
      (p : Option (SignedPlan F)) (names : Option (List ℕ)) (reference : Option ℕ)
      → ev.run_record ≡ r
      → ev.plan ≡ p
      → sub_names unit ctx.is_batch ≡ passed names
      → reference_event_count unit ctx.is_batch ≡ passed reference
      → timing_of con r p ctx reference names ≡ passed next
      → (t : RankedTiming F) × Timed unit ev ctx.is_batch t × Adds ctx next t
  timing_of-Timed unit ev ctx next none p names reference hr hp hn hf h = cc
  timing_of-Timed unit ev ctx next (some r) none names reference hr hp hn hf h = cc
  timing_of-Timed unit ev ctx next (some r) (some p) names reference hr hp hn hf h =
      let (t, ranked, adds) = with_timing-Adds ctx next _ h in
      (
        t,
        record {
          run_record = r;
          plan = p;
          names = names;
          reference = reference;
          has_record = hr;
          has_plan = hp;
          has_names = hn;
          has_reference = hf;
          ranked = ranked;
        },
        adds,
      )

  resolve_official_timing-Timed :
      (unit : UnitFiles F) (ev : Evidence F) (ctx next : Context F)
      → resolve_official_timing con official unit ev ctx ≡ passed next
      → (t : RankedTiming F) × Timed unit ev ctx.is_batch t × Adds ctx next t
  unfolding resolve_official_timing
  resolve_official_timing-Timed unit ev ctx next h =
      let (names, b, h2) = bind-passed (sub_names unit ctx.is_batch) _ next h in
      let (reference, c, h3) = bind-passed (reference_event_count unit ctx.is_batch) _ next h2 in
      timing_of-Timed unit ev ctx next ev.run_record ev.plan names reference refl refl b c h3

  pub g1_schema-Timed :
      (unit : UnitFiles F) (ev : Evidence F) (sub : Submission F) (ctx next : Context F)
      → g1_schema con official unit ev sub ctx ≡ passed next
      → (t : RankedTiming F) × Timed unit ev ctx.is_batch t × Adds ctx next t
  unfolding g1_schema
  g1_schema-Timed unit ev sub ctx next h =
      let (u, a, h1) =
        bind-passed (check_declared con ctx.is_batch official unit sub ctx)
          (λ u. resolve_official_timing con official unit ev ctx) next h in
      resolve_official_timing-Timed unit ev ctx next h1

-- ===== src/Scoring/Official.antt =====
-- What an official score is made of: the run of the production gates.
use track3_simulation_public.Common.{
  ℕ, ◌≡◌, refl, sym, ap, ◌∙◌, subst, Bool, true, false, Option, none, some, List, [], ◌∷◌, ◌==◌,
  length, if◌then◌else◌,
}
use track3_simulation_public.Telemetry.Verdict.{accepted_injective}
use track3_simulation_public.Telemetry.Timing.{RunRecord, RankedTiming, ranked_timing}
use track3_simulation_public.Semantics.Sanity.{Table}
use track3_simulation_public.Semantics.Proximity.{mid_price_series}
use track3_simulation_public.Scoring.Files.{
  parse_error, semantic_regression, Outcome, passed, official, UnitFiles, Submission, SignedPlan,
  Evidence, Context, empty_context, bind-passed,
}
use track3_simulation_public.Scoring.Contract.{Contract}
use track3_simulation_public.Scoring.Card.{Policy, card_policy, settings_of}
use track3_simulation_public.Scoring.Integrity.{batch_meta}
use track3_simulation_public.Scoring.Schema.{sub_names, reference_event_count}
use track3_simulation_public.Scoring.Exactness.{
  regression, attempted, count_matches, without_breaches, with_report, stylized_facts,
  stylized_gate, ledger_if, load_reference, load_candidate, single_body, body_of, score_isolation,
  g3_body, g3_domain_semantics,
}
use track3_simulation_public.Scoring.Score.{
  Score, Gate, official_of, official_score, build_verifier,
}
use track3_simulation_public.Scoring.Trusted.{passed_injective, g0_integrity-Trusted}
use track3_simulation_public.Scoring.Scored.{Timed, g1_schema-Timed}
use track3_simulation_public.Scoring.Exact.{contain-passed}

abbrev some_or {ℓ} : {A : Type ℓ} → A → Option A → A
some_or d none = d
some_or d (some a) = a

some_injective {ℓ} : {A : Type ℓ} (a b : A) → ◌≡◌ {A = Option A} (some a) (some b) → a ≡ b
some_injective a b h = ap (some_or a) h

module _ {F : Type 0} (con : Contract F) where
  -- The timing and the kind of unit stay.
  pub record Keeps (ctx next : Context F) : Type 0 where
    pub same_timing : next.timing ≡ ctx.timing
    pub same_batch : next.is_batch ≡ ctx.is_batch

  Keeps-self : (ctx next : Context F) → ctx ≡ next → Keeps ctx next
  Keeps-self ctx next e = record {
    same_timing = ap (λ (c : Context F). c.timing) (sym e);
    same_batch = ap (λ (c : Context F). c.is_batch) (sym e);
  }

  with_report-Keeps :
      (ctx next : Context F) (r : Bool × ℕ) → with_report con ctx r ≡ passed next → Keeps ctx next
  with_report-Keeps ctx next (true, code) h =
      let e = sym (passed_injective _ _ h) in
      record {
        same_timing = ap (λ (c : Context F). c.timing) e;
        same_batch = ap (λ (c : Context F). c.is_batch) e;
      }
  with_report-Keeps ctx next (false, code) h = cc

  stylized_facts-Keeps :
      (p : Policy F) (cand ref : Table) (ctx next : Context F)
      → stylized_facts con p cand ref ctx ≡ passed next
      → Keeps ctx next
  unfolding stylized_facts
  stylized_facts-Keeps p cand ref ctx next h =
      let (cm, a, h1) = bind-passed (attempted (mid_price_series con.num cand.rows)) _ next h in
      let (rm, b, h2) = bind-passed (attempted (mid_price_series con.num ref.rows)) _ next h1 in
      with_report-Keeps ctx next _ h2

  stylized_if-Keeps :
      (b : Bool) (p : Policy F) (cand ref : Table) (ctx next : Context F)
      → (if b then stylized_facts con p cand ref ctx else passed ctx) ≡ passed next
      → Keeps ctx next
  stylized_if-Keeps true p cand ref ctx next h = stylized_facts-Keeps p cand ref ctx next h
  stylized_if-Keeps false p cand ref ctx next h = Keeps-self ctx next (passed_injective ctx next h)

  stylized_gate-Keeps :
      (p : Policy F) (cand ref : Table) (ctx next : Context F)
      → stylized_gate con p cand ref ctx ≡ passed next
      → Keeps ctx next
  unfolding stylized_gate
  stylized_gate-Keeps p cand ref ctx next h =
      stylized_if-Keeps (p.family == 5) p cand ref ctx next h

  single_body-Keeps :
      (p : Policy F) (unit : UnitFiles F) (sub : Submission F) (ctx next : Context F)
      → single_body con p unit sub ctx ≡ passed next
      → Keeps ctx next
  unfolding single_body
  single_body-Keeps p unit sub ctx next h =
      let (ref, a, h1) = bind-passed (load_reference unit.reference_trace) _ next h in
      let (cand, b, h2) = bind-passed (load_candidate parse_error sub.trace) _ next h1 in
      let (u1, c, h3) = bind-passed (count_matches con ctx.events (length cand.rows)) _ next h2 in
      let (bs, d, h4) =
        bind-passed (attempted (regression con (settings_of p) cand ref)) _ next h3 in
      let (u2, e, h5) = bind-passed (without_breaches semantic_regression bs) _ next h4 in
      let (facts, f, h6) = bind-passed (stylized_gate con p cand ref ctx) _ next h5 in
      let (u3, g, h7) =
        bind-passed (ledger_if con p.requires_message_ledger p unit sub) _ next h6 in
      stylized_gate-Keeps p cand ref ctx next (f ∙ ap passed (passed_injective facts next h7))

  body_of-Keeps :
      (b : Bool) (p : Policy F) (unit : UnitFiles F) (sub : Submission F) (ctx next : Context F)
      → body_of con b p unit sub ctx ≡ passed next
      → Keeps ctx next
  body_of-Keeps false p unit sub ctx next h = single_body-Keeps p unit sub ctx next h
  body_of-Keeps true p unit sub ctx next h =
      let (u, a, h1) = bind-passed (score_isolation con p unit) (λ u. passed ctx) next h in
      Keeps-self ctx next (passed_injective ctx next h1)

  g3_domain_semantics-Keeps :
      (unit : UnitFiles F) (sub : Submission F) (ctx next : Context F)
      → g3_domain_semantics con unit sub ctx ≡ passed next
      → Keeps ctx next
  unfolding g3_domain_semantics g3_body
  g3_domain_semantics-Keeps unit sub ctx next h =
      let (p, a, h1) =
        bind-passed (card_policy con.decimal unit.card)
          (λ p. body_of con ctx.is_batch p unit sub ctx) next (contain-passed _ next h) in
      body_of-Keeps ctx.is_batch p unit sub ctx next h1

  -- Every gate of a list passes, in its order, each on what the one before left.
  abbrev pub Passes : List (Gate con) → Context F → Context F → Type 0
  Passes [] ctx last = ctx ≡ last
  Passes (g ∷ gs) ctx last = (next : Context F) × (g ctx ≡ passed next) × Passes gs next last

  -- An admissible result of a verifier comes from its scorer after its gates passed.
  abbrev pub RunsInOrder :
      (List (Gate con) → (Context F → Outcome (Score F)) → Context F → Outcome (Score F)) → Type 0
  RunsInOrder run =
      (gs : List (Gate con)) (scorer : Context F → Outcome (Score F)) (ctx : Context F)
      (s : Score F)
      → run gs scorer ctx ≡ passed s
      → (last : Context F) × Passes gs ctx last × (scorer last ≡ passed s)

  -- An official score: the clipped rate of the ranked timing, which is computed from the organizer's
  -- files and the trusted evidence.
  pub record Scored (unit : UnitFiles F) (ev : Evidence F) (s : Score F) : Type 0 where
    pub batch : Bool
    pub timing : RankedTiming F
    pub plan : SignedPlan F
    pub kind : batch_meta con unit.card ≡ passed batch
    pub timed : Timed con unit ev batch timing
    pub has_plan : ev.plan ≡ some plan
    pub rate : s.score ≡ plan.clip timing.events_per_sec
    pub counted : s.n_events ≡ some timing.n_events
    pub repeated : s.measured_repeats ≡ some timing.measured_repeats
    pub ranks : (s.rankable ≡ true) × (s.profile ≡ official)

  official_of-Scored :
      (unit : UnitFiles F) (ev : Evidence F) (ctx : Context F) (batch : Bool) (t : RankedTiming F)
      (s : Score F) (p : Option (SignedPlan F))
      → batch_meta con unit.card ≡ passed batch
      → Timed con unit ev batch t
      → ev.plan ≡ p
      → official_of ctx p (some t) ≡ passed s
      → Scored unit ev s
  official_of-Scored unit ev ctx batch t s none kind timed e h = cc
  official_of-Scored unit ev ctx batch t s (some plan) kind timed e h =
      let same = sym (passed_injective _ _ h) in
      record {
        batch = batch;
        timing = t;
        plan = plan;
        kind = kind;
        timed = timed;
        has_plan = e;
        rate = ap (λ (x : Score F). x.score) same;
        counted = ap (λ (x : Score F). x.n_events) same;
        repeated = ap (λ (x : Score F). x.measured_repeats) same;
        ranks = (ap (λ (x : Score F). x.rankable) same, ap (λ (x : Score F). x.profile) same);
      }

  timing_kept :
      (c2 c3 c4 last : Context F) (t : RankedTiming F)
      → c2 ≡ c3
      → c4 ≡ last
      → c4.timing ≡ c3.timing
      → c2.timing ≡ some t
      → last.timing ≡ some t
  timing_kept c2 c3 c4 last t e f kept timed =
      ap (λ (c : Context F). c.timing) (sym f)
      ∙ kept
      ∙ ap (λ (c : Context F). c.timing) (sym e)
      ∙ timed

  ranked_same :
      (r r' : RunRecord F) (p p' : SignedPlan F) (f f' : Option ℕ) (n n' : Option (List ℕ))
      → r ≡ r'
      → p ≡ p'
      → f ≡ f'
      → n ≡ n'
      → ranked_timing con.admissible con.is_timed con.num.is_finite con.rate con.median r p.repeats
          f n
        ≡ ranked_timing con.admissible con.is_timed con.num.is_finite con.rate con.median r'
            p'.repeats f' n'
  ranked_same r r' p p' f f' n n' a b c d = rw (a, b, c, d) refl

  clipped :
      (p p' : SignedPlan F) (t t' : RankedTiming F)
      → p ≡ p'
      → t ≡ t'
      → p.clip t.events_per_sec ≡ p'.clip t'.events_per_sec
  clipped p p' t t' a b = rw (a, b) refl

  same_timing :
      (unit : UnitFiles F) (ev : Evidence F) (b b' : Bool) (t t' : RankedTiming F)
      → b ≡ b'
      → Timed con unit ev b t
      → Timed con unit ev b' t'
      → t ≡ t'
  same_timing unit ev b b' t t' e a c =
      let record_same = some_injective _ _ (sym a.has_record ∙ c.has_record) in
      let plan_same = some_injective _ _ (sym a.has_plan ∙ c.has_plan) in
      let names_same =
        passed_injective _ _ (sym a.has_names ∙ ap (sub_names unit) e ∙ c.has_names) in
      let reference_same =
        passed_injective _ _
          (sym a.has_reference ∙ ap (reference_event_count unit) e ∙ c.has_reference) in
      accepted_injective _ _ (
        sym a.ranked
        ∙ ranked_same a.run_record c.run_record a.plan c.plan a.reference c.reference a.names
            c.names record_same plan_same reference_same names_same
        ∙ c.ranked)

  same_scores :
      (unit : UnitFiles F) (ev : Evidence F) (s s' : Score F)
      → Scored unit ev s
      → Scored unit ev s'
      → (s.score ≡ s'.score)
        × (s.n_events ≡ s'.n_events)
        × (s.measured_repeats ≡ s'.measured_repeats)
  same_scores unit ev s s' a c =
      let b = passed_injective _ _ (sym a.kind ∙ c.kind) in
      let t = same_timing unit ev a.batch c.batch a.timing c.timing b a.timed c.timed in
      let p = some_injective _ _ (sym a.has_plan ∙ c.has_plan) in
      (
        a.rate ∙ clipped a.plan c.plan a.timing c.timing p t ∙ sym c.rate,
        a.counted ∙ ap (λ (r : RankedTiming F). some r.n_events) t ∙ sym c.counted,
        a.repeated ∙ ap (λ (r : RankedTiming F). some r.measured_repeats) t ∙ sym c.repeated,
      )

  module _ (run : List (Gate con) → (Context F → Outcome (Score F)) → Context F → Outcome (Score F))
      (in_order : RunsInOrder run) where
    -- If the shared verifier runs its gates in order, an admissible result of the production verifier is
    -- a rankable official score: the clipped rate of a ranked timing that is computed from the trusted
    -- run record, the signed plan and the organizer's files, with the timing's counts.
    pub build_verifier-Scored :
        (unit : UnitFiles F) (ev : Evidence F) (sub : Submission F) (s : Score F)
        → build_verifier con run unit ev sub ≡ passed s
        → Scored unit ev s
    unfolding build_verifier official_score
    build_verifier-Scored unit ev sub s h =
        let (last, (c1, g0, (c2, g1, (c3, g2, (c4, g3, e)))), score) = in_order _ _ _ s h in
        let trusted = g0_integrity-Trusted con unit ev sub empty_context c1 g0 in
        let (t, timed, adds) = g1_schema-Timed con unit ev sub c1 c2 g1 in
        let kept = g3_domain_semantics-Keeps unit sub c3 c4 g3 in
        official_of-Scored unit ev last c1.is_batch t s ev.plan trusted.card_batch timed refl (
          subst (λ o. official_of last ev.plan o ≡ passed s)
            (timing_kept c2 c3 c4 last t (passed_injective c2 c3 g2) e kept.same_timing adds.timing)
            score)

    -- If the shared verifier runs its gates in order, two submissions that are admissible for the same
    -- unit under the same evidence have the same score, number of events and number of repeats, whatever
    -- each of them reports.
    pub build_verifier-same_score :
        (unit : UnitFiles F) (ev : Evidence F) (sub other : Submission F) (s s' : Score F)
        → build_verifier con run unit ev sub ≡ passed s
        → build_verifier con run unit ev other ≡ passed s'
        → (s.score ≡ s'.score)
          × (s.n_events ≡ s'.n_events)
          × (s.measured_repeats ≡ s'.measured_repeats)
    build_verifier-same_score unit ev sub other s s' h g =
        same_scores unit ev s s' (build_verifier-Scored unit ev sub s h)
          (build_verifier-Scored unit ev other s' g)

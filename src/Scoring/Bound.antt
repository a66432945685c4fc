-- ===== src/Scoring/Bound.antt =====
-- What the schema gate decides of the sidecar of a single market.
use track3_simulation_public.Common.{
  ◌≡◌, ◌≢◌, refl, ap, subst, Bool, true, false, not, ◌||◌, Option, none, some, arith, Bool-cases,
  inl, inr,
}
use track3_simulation_public.Common.Result.{Text, eq_text}
use track3_simulation_public.Common.Json.{Json, null, boolean, integer, real, text, array, object}
use track3_simulation_public.Semantics.Attempt.{Raise}
use track3_simulation_public.Scoring.Files.{
  schema_invalid_output, Outcome, passed, raising, Profile, EventsField, scenario_id, n_events,
  wall_clock_sec, events_per_sec, seed, trace_sha256, Sidecar, EventsFile, no_events, broken_events,
  null_events, listed_events, unset_events, events_object, ScenarioFile, no_scenario,
  broken_scenario, no_object, scenario, UnitFiles, Submission, Evidence, Context, bind-passed,
  ensure-holds, ensure,
}
use track3_simulation_public.Scoring.Contract.{
  Converted, converted, not_a_number, overflow, Contract, same_json,
}
use track3_simulation_public.Scoring.Binding.{
  get_field, is_there, bind_field, bind_scenario, bind_digest_to, bind_existing, bind_digest,
  bind_to_trusted_scenario,
}
use track3_simulation_public.Scoring.Schema.{
  required_events, is_declared, has_all, as_float, consistent_rate, resolve_official_timing,
  check_sidecar, check_events_file, check_declared, g1_schema,
}
use track3_simulation_public.Scoring.Trusted.{passed_injective}

has_all-declared :
    {F : Type 0} (ev : Sidecar F)
    → has_all ev required_events ≡ true
    → (f : EventsField) → is_declared (ev.get f) ≡ true
unfolding has_all
has_all-declared ev h scenario_id = ground (arith, h)
has_all-declared ev h n_events = ground (arith, h)
has_all-declared ev h wall_clock_sec = ground (arith, h)
has_all-declared ev h events_per_sec = ground (arith, h)
has_all-declared ev h seed = ground (arith, h)
has_all-declared ev h trace_sha256 = ground (arith, h)

raised : {A : Type 0} (e : Raise) (a : A) → ◌≡◌ {A = Outcome A} (raising e) (passed a) → ⊥
raised e a h = cc

not-true : (b : Bool) → not b ≡ true → b ≡ false
not-true true h = cc
not-true false h = refl

module _ {F : Type 0} (con : Contract F) where
  -- A declared value equals the organizer's, where that is not null.
  abbrev pub Equals : Json F → Json F → Type 0
  Equals expected declared = expected ≢ null → same_json con declared expected ≡ true

  -- The scenario of the organizer can be read, and the sidecar is about it.
  abbrev pub SameScenario : ScenarioFile F → Sidecar F → Type 0
  SameScenario no_scenario ev = Unit
  SameScenario broken_scenario ev = ⊥
  SameScenario no_object ev = ⊥
  SameScenario (scenario id s) ev =
      Equals id (get_field ev scenario_id) × Equals s (get_field ev seed)

  -- A digest that is a text is that of the trace, where there is one.
  abbrev pub SameDigest : Submission F → Json F → Type 0
  SameDigest sub declared =
      (t : Text)
      → declared ≡ text t
      → is_there sub.trace ≡ true
      → (d : Text) × (sub.trace_digest ≡ some d)
        × (eq_text (con.lower d) (con.strip_lower t) ≡ true)

  -- A sidecar that is consistent in itself and bound to its scenario and its trace.
  pub record Bound (unit : UnitFiles F) (sub : Submission F) (ev : Sidecar F) : Type 0 where
    pub all_fields : (f : EventsField) → is_declared (ev.get f) ≡ true
    pub count : F
    pub wall : F
    pub rate : F
    pub has_count : con.to_number (get_field ev n_events) ≡ converted count
    pub has_wall : con.to_number (get_field ev wall_clock_sec) ≡ converted wall
    pub has_rate : con.to_number (get_field ev events_per_sec) ≡ converted rate
    pub signs :
        (con.num.is_nonpositive count ≡ false)
        × (con.num.is_nonpositive wall ≡ false)
        × (con.is_negative rate ≡ false)
    pub consistent :
        (con.is_zero (con.divide count wall) ≡ false)
        × (con.num.less (con.decimal 5 2) (con.relative_gap rate (con.divide count wall)) ≡ false)
    pub same_scenario : SameScenario unit.scenario_file ev
    pub same_digest : SameDigest sub (get_field ev trace_sha256)

  as_float-converted : (c : Converted F) (x : F) → as_float con c ≡ passed x → c ≡ converted x
  as_float-converted (converted y) x h = ap converted (passed_injective y x h)
  as_float-converted not_a_number x h = cc
  as_float-converted overflow x h = cc

  signs_of :
      (a b c : Bool) (u : Unit {0})
      → ensure (not (a || (b || c))) schema_invalid_output ≡ passed u
      → (a ≡ false) × (b ≡ false) × (c ≡ false)
  signs_of true b c u h = cc
  signs_of false true c u h = cc
  signs_of false false true u h = cc
  signs_of false false false u h = (refl, refl, refl)

  consistent_rate-close :
      (eps recomputed : F) (u : Unit {0})
      → consistent_rate con eps recomputed ≡ passed u
      → (con.is_zero recomputed ≡ false)
        × (con.num.less (con.decimal 5 2) (con.relative_gap eps recomputed) ≡ false)
  unfolding consistent_rate
  consistent_rate-close eps recomputed u h = elim (Bool-cases (con.is_zero recomputed)) [
    | inl zero_rate ↦ absurd (raised _ u (rw zero_rate at h))
    | inr some_rate ↦ (some_rate, not-true _ (ensure-holds _ _ u (rw some_rate at h)))
  ]

  bind_field-Equals :
      (expected declared : Json F) (u : Unit {0})
      → bind_field con expected declared ≡ passed u
      → Equals expected declared
  bind_field-Equals null declared u h some_value = absurd (some_value refl)
  bind_field-Equals (boolean b) declared u h e = ensure-holds _ _ u h
  bind_field-Equals (integer z) declared u h e = ensure-holds _ _ u h
  bind_field-Equals (real x) declared u h e = ensure-holds _ _ u h
  bind_field-Equals (text t) declared u h e = ensure-holds _ _ u h
  bind_field-Equals (array c) declared u h e = ensure-holds _ _ u h
  bind_field-Equals (object c) declared u h e = ensure-holds _ _ u h

  bind_scenario-SameScenario :
      (f : ScenarioFile F) (ev : Sidecar F) (u : Unit {0})
      → bind_scenario con f ev ≡ passed u
      → SameScenario f ev
  bind_scenario-SameScenario no_scenario ev u h = tt
  bind_scenario-SameScenario broken_scenario ev u h = cc
  bind_scenario-SameScenario no_object ev u h = cc
  bind_scenario-SameScenario (scenario id s) ev u h =
      let (u1, a, h1) = bind-passed (bind_field con id (get_field ev scenario_id)) _ u h in
      (bind_field-Equals id _ u1 a, bind_field-Equals s _ u h1)

  digest_of :
      (d : Option Text) (t : Text) (u : Unit {0})
      → bind_digest_to con d t ≡ passed u
      → (a : Text) × (d ≡ some a) × (eq_text (con.lower a) (con.strip_lower t) ≡ true)
  digest_of none t u h = cc
  digest_of (some a) t u h = (a, refl, ensure-holds _ _ u h)

  bind_digest-SameDigest :
      (sub : Submission F) (declared : Json F) (u : Unit {0})
      → bind_digest con (is_there sub.trace) sub.trace_digest declared ≡ passed u
      → SameDigest sub declared
  bind_digest-SameDigest sub declared u h t e there = digest_of sub.trace_digest t u (
      subst (λ b. bind_existing con b sub.trace_digest t ≡ passed u) there
        (subst (λ v. bind_digest con (is_there sub.trace) sub.trace_digest v ≡ passed u) e h))

  check_sidecar-Bound :
      (profile : Profile) (unit : UnitFiles F) (sub : Submission F) (ctx : Context F)
      (ev : Sidecar F) (u : Unit {0})
      → check_sidecar con profile unit sub ctx ev ≡ passed u
      → Bound unit sub ev
  unfolding check_sidecar bind_to_trusted_scenario
  check_sidecar-Bound profile unit sub ctx ev u h =
      let (u1, a, h1) =
        bind-passed (ensure (has_all ev required_events) schema_invalid_output) _ u h in
      let (n, b, h2) = bind-passed (as_float con (con.to_number (get_field ev n_events))) _ u h1 in
      let (wall, c, h3) =
        bind-passed (as_float con (con.to_number (get_field ev wall_clock_sec))) _ u h2 in
      let (eps, d, h4) =
        bind-passed (as_float con (con.to_number (get_field ev events_per_sec))) _ u h3 in
      let (u2, e, h5) = bind-passed _ _ u h4 in
      let (u3, f, h6) = bind-passed (consistent_rate con eps (con.divide n wall)) _ u h5 in
      let (u4, g, h7) = bind-passed (bind_to_trusted_scenario con unit sub ev) _ u h6 in
      let (u5, i, h8) = bind-passed (bind_scenario con unit.scenario_file ev) _ u4 g in
      record {
        all_fields = has_all-declared ev (ensure-holds _ _ u1 a);
        count = n;
        wall = wall;
        rate = eps;
        has_count = as_float-converted _ n b;
        has_wall = as_float-converted _ wall c;
        has_rate = as_float-converted _ eps d;
        signs = signs_of _ _ _ u2 e;
        consistent = consistent_rate-close eps _ u3 f;
        same_scenario = bind_scenario-SameScenario unit.scenario_file ev u5 i;
        same_digest = bind_digest-SameDigest sub (get_field ev trace_sha256) u4 h8;
      }

  by_sidecar :
      (profile : Profile) (unit : UnitFiles F) (sub : Submission F) (ctx : Context F)
      (f : EventsFile F) (u : Unit {0})
      → check_events_file con profile unit sub ctx f ≡ passed u
      → (ev : Sidecar F) × (f ≡ events_object ev) × Bound unit sub ev
  by_sidecar profile unit sub ctx no_events u h = cc
  by_sidecar profile unit sub ctx broken_events u h = cc
  by_sidecar profile unit sub ctx null_events u h = cc
  by_sidecar profile unit sub ctx listed_events u h = cc
  by_sidecar profile unit sub ctx unset_events u h = cc
  by_sidecar profile unit sub ctx (events_object ev) u h =
      (ev, refl, check_sidecar-Bound profile unit sub ctx ev u h)

  pub g1_schema-Bound :
      (profile : Profile) (unit : UnitFiles F) (ev : Evidence F) (sub : Submission F)
      (ctx next : Context F)
      → ctx.is_batch ≡ false
      → g1_schema con profile unit ev sub ctx ≡ passed next
      → (sidecar : Sidecar F) × (ctx.events ≡ events_object sidecar) × Bound unit sub sidecar
  unfolding g1_schema
  g1_schema-Bound profile unit ev sub ctx next single h =
      let (u, a, h1) =
        bind-passed (check_declared con ctx.is_batch profile unit sub ctx)
          (λ u. resolve_official_timing con profile unit ev ctx) next h in
      by_sidecar profile unit sub ctx ctx.events u
        (subst (λ b. check_declared con b profile unit sub ctx ≡ passed u) single a)

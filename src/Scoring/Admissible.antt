-- ===== src/Scoring/Admissible.antt =====
-- What an official score shows of a submission for a single market, and which sidecars escape a gate.
use track3_simulation_public.Common.{◌≡◌, sym, ◌∙◌, subst, false, List}
use track3_simulation_public.Scoring.Files.{
  Outcome, passed, official, UnitFiles, Submission, Evidence, Context, empty_context,
}
use track3_simulation_public.Scoring.Contract.{Contract}
use track3_simulation_public.Scoring.Integrity.{batch_meta}
use track3_simulation_public.Scoring.Exactness.{g3_domain_semantics}
use track3_simulation_public.Scoring.Score.{Score, Gate, build_verifier}
use track3_simulation_public.Scoring.Trusted.{passed_injective, Trusted, g0_integrity-Trusted}
use track3_simulation_public.Scoring.Scored.{g1_schema-Timed}
use track3_simulation_public.Scoring.Files.{Sidecar, events_object}
use track3_simulation_public.Scoring.Bound.{Bound, g1_schema-Bound}
use track3_simulation_public.Scoring.Exact.{Exact, g3_domain_semantics-Exact}
use track3_simulation_public.Scoring.Official.{RunsInOrder}

module _ {F : Type 0} (con : Contract F) where
  -- An admissible submission for a single market: the evidence is trusted, and its sidecar is an
  -- object that is bound to its scenario and its trace, of a run that reproduces the reference.
  pub record Admissible (unit : UnitFiles F) (ev : Evidence F) (sub : Submission F) : Type 0 where
    pub first : Context F
    pub sidecar : Sidecar F
    pub trusted : Trusted con unit ev sub first
    pub wrote : sub.events_file ≡ events_object sidecar
    pub bound : Bound con unit sub sidecar
    pub exact : Exact con unit sub (events_object sidecar)

  module _ (run : List (Gate con) → (Context F → Outcome (Score F)) → Context F → Outcome (Score F))
      (in_order : RunsInOrder con run) where
    -- If the shared verifier runs its gates in order, a submission for a unit whose card declares no
    -- batch has an official score only if the run record and the plan are there and pass their checks,
    -- its sidecar is consistent and bound to the scenario and the trace, and its run reproduces the
    -- reference.
    pub build_verifier-Admissible :
        (unit : UnitFiles F) (ev : Evidence F) (sub : Submission F) (s : Score F)
        → batch_meta con unit.card ≡ passed false
        → build_verifier con run unit ev sub ≡ passed s
        → Admissible unit ev sub
    unfolding build_verifier
    build_verifier-Admissible unit ev sub s no_batch h =
        let (last, (c1, g0, (c2, g1, (c3, g2, (c4, g3, e)))), score) = in_order _ _ _ s h in
        let trusted = g0_integrity-Trusted con unit ev sub empty_context c1 g0 in
        let single = passed_injective _ _ (sym trusted.card_batch ∙ no_batch) in
        let (sidecar, kept, bound) = g1_schema-Bound con official unit ev sub c1 c2 single g1 in
        let (t, timed, adds) = g1_schema-Timed con unit ev sub c1 c2 g1 in
        let same = passed_injective c2 c3 g2 in
        let exact =
          g3_domain_semantics-Exact con unit sub c2 c4 (adds.same_batch ∙ single)
            (subst (λ c. g3_domain_semantics con unit sub c ≡ passed c4) (sym same) g3) in
        record {
          first = c1;
          sidecar = sidecar;
          trusted = trusted;
          wrote = sym (trusted.events single) ∙ kept;
          bound = bound;
          exact = subst (Exact con unit sub) (adds.same_events ∙ kept) exact;
        }

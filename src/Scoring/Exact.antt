-- ===== src/Scoring/Exact.antt =====
-- What the gate of the exact semantics decides of a single market.
use track3_simulation_public.Common.{
  ℕ, ◌≡◌, ◌≢◌, refl, ap, ◌∙◌, subst, Bool, true, false, Option, none, some, List, [], ◌∷◌, length,
  arith,
}
use track3_simulation_public.Common.Int.{ℤ, pos}
use track3_simulation_public.Common.Json.{Json, null, boolean, integer, real, text, array, object}
use track3_simulation_public.Semantics.Values.{eqb_ℤ→eq}
use track3_simulation_public.Semantics.Ledger.{Row, Frame, Checked, raised, report, passes}
use track3_simulation_public.Semantics.Sanity.{Table}
use track3_simulation_public.Semantics.Attempt.{
  reference_incomplete, nonfinite_statistic, other_error, Attempt, raises, returns,
}
use track3_simulation_public.Semantics.Reference.{Compared, comparison, agrees}
use track3_simulation_public.Semantics.Dispatch.{Regresses, semantic_regression_pass-Regresses}
use track3_simulation_public.Scoring.Files.{
  File, not_there, broken, contents, Label, Outcome, passed, refused, organizer_fault, raising,
  n_events, Sidecar, EventsFile, events_object, UnitFiles, Submission, Context, bind-passed,
  ensure-holds,
}
use track3_simulation_public.Scoring.Contract.{
  Converted, converted, not_a_number, overflow, Contract,
}
use track3_simulation_public.Scoring.Card.{Policy, card_policy, settings_of}
use track3_simulation_public.Scoring.Binding.{get_field}
use track3_simulation_public.Scoring.Exactness.{
  load_reference, load_candidate, attempted, without_breaches, after_ledger, after_compared,
  ledger_check, ledger_comparison, protocol_comparison, same_count, as_count, reported_count,
  count_matches, stylized_gate, ledger_gate, ledger_if, single_body, body_of, g3_body, contain,
  g3_domain_semantics,
}
use track3_simulation_public.Scoring.Trusted.{passed_injective}

pub load_reference-contents {ℓ} :
    {A : Type ℓ} (f : File A) (a : A) → load_reference f ≡ passed a → f ≡ contents a
load_reference-contents not_there a h = cc
load_reference-contents broken a h = cc
load_reference-contents (contents b) a h = ap contents (passed_injective b a h)

load_candidate-contents {ℓ} :
    {A : Type ℓ} (l : Label) (f : File A) (a : A) → load_candidate l f ≡ passed a → f ≡ contents a
load_candidate-contents l not_there a h = cc
load_candidate-contents l broken a h = cc
load_candidate-contents l (contents b) a h = ap contents (passed_injective b a h)

attempted-returns {ℓ} :
    {A : Type ℓ} (r : Attempt A) (a : A) → attempted r ≡ passed a → r ≡ returns a
attempted-returns (raises e) a h = cc
attempted-returns (returns b) a h = ap returns (passed_injective b a h)

without_breaches-none {ℓ} :
    {A : Type ℓ} (l : Label) (bs : List A) (u : Unit {0})
    → without_breaches l bs ≡ passed u
    → bs ≡ []
without_breaches-none l [] u h = refl
without_breaches-none l (b ∷ bs) u h = cc

after_ledger-passes : (r : Checked) (u : Unit {0}) → after_ledger r ≡ passed u → passes r ≡ true
after_ledger-passes raised u h = cc
after_ledger-passes (report []) u h = refl
after_ledger-passes (report (b ∷ bs)) u h = cc

after_compared-agrees :
    (r : Compared) (u : Unit {0}) → after_compared r ≡ passed u → agrees r ≡ true
after_compared-agrees Compared.reference_incomplete u h = cc
after_compared-agrees Compared.nonfinite_statistic u h = cc
after_compared-agrees (comparison []) u h = refl
after_compared-agrees (comparison (b ∷ bs)) u h = cc

pub contain-passed {ℓ} : {A : Type ℓ} (r : Outcome A) (a : A) → contain r ≡ passed a → r ≡ passed a
unfolding contain
contain-passed (passed b) a h = h
contain-passed (refused l) a h = cc
contain-passed organizer_fault a h = cc
contain-passed (raising reference_incomplete) a h = cc
contain-passed (raising nonfinite_statistic) a h = cc
contain-passed (raising other_error) a h = cc

module _ {F : Type 0} (con : Contract F) where
  -- The number of events that a sidecar reports is a float that truncates to the number of rows.
  abbrev pub Counted : Json F → ℕ → Type 0
  Counted v n = (x : F) × (con.to_number v ≡ converted x) × (con.truncate x ≡ some (pos n))

  -- The ledgers of both are there, that of the candidate is consistent, and it is close to the
  -- reference, for family 7 in its protocol too.
  pub record LedgerPasses (p : Policy F) (unit : UnitFiles F) (sub : Submission F) : Type 0 where
    pub ledger : Frame
    pub reference : List Row
    pub has_ledger : sub.messages ≡ contents ledger
    pub has_reference : unit.reference_messages ≡ contents reference
    pub consistent : passes (ledger_check con ledger) ≡ true
    pub near : agrees (ledger_comparison con ledger.rows reference) ≡ true
    pub protocol_near : p.family ≡ 7 → agrees (protocol_comparison con ledger.rows reference) ≡ true

  -- A run that reproduces its reference.
  pub record Exact (unit : UnitFiles F) (sub : Submission F) (kept : EventsFile F) : Type 0 where
    pub policy : Policy F
    pub trace : Table
    pub reference : Table
    pub from_card : card_policy con.decimal unit.card ≡ passed policy
    pub has_trace : sub.trace ≡ contents trace
    pub has_reference : unit.reference_trace ≡ contents reference
    pub counted :
        (ev : Sidecar F)
        → kept ≡ events_object ev
        → get_field ev n_events ≢ null
        → Counted (get_field ev n_events) (length trace.rows)
    pub regresses : Regresses con.num (settings_of policy) trace reference
    pub ledger : policy.requires_message_ledger ≡ true → LedgerPasses policy unit sub

  same_count-Counted :
      (z : Option ℤ) (n : ℕ) (u : Unit {0}) → same_count con z n ≡ passed u → z ≡ some (pos n)
  same_count-Counted none n u h = cc
  same_count-Counted (some z) n u h = ap some (eqb_ℤ→eq z (pos n) (ensure-holds _ _ u h))

  as_count-Counted :
      (v : Json F) (c : Converted F) (n : ℕ) (u : Unit {0})
      → con.to_number v ≡ c
      → as_count con c n ≡ passed u
      → Counted v n
  as_count-Counted v (converted x) n u e h = (x, e, same_count-Counted (con.truncate x) n u h)
  as_count-Counted v not_a_number n u e h = cc
  as_count-Counted v overflow n u e h = cc

  reported_count-Counted :
      (v : Json F) (n : ℕ) (u : Unit {0})
      → reported_count con v n ≡ passed u
      → v ≢ null
      → Counted v n
  reported_count-Counted null n u h some_value = absurd (some_value refl)
  reported_count-Counted (boolean b) n u h e = as_count-Counted (boolean b) _ n u refl h
  reported_count-Counted (integer z) n u h e = as_count-Counted (integer z) _ n u refl h
  reported_count-Counted (real x) n u h e = as_count-Counted (real x) _ n u refl h
  reported_count-Counted (text t) n u h e = as_count-Counted (text t) _ n u refl h
  reported_count-Counted (array c) n u h e = as_count-Counted (array c) _ n u refl h
  reported_count-Counted (object c) n u h e = as_count-Counted (object c) _ n u refl h

  count_matches-Counted :
      (kept : EventsFile F) (n : ℕ) (u : Unit {0})
      → count_matches con kept n ≡ passed u
      → (ev : Sidecar F) → kept ≡ events_object ev
      → get_field ev n_events ≢ null
      → Counted (get_field ev n_events) n
  count_matches-Counted kept n u h ev e some_value =
      reported_count-Counted (get_field ev n_events) n u
        (subst (λ f. count_matches con f n ≡ passed u) e h) some_value

  ledger_gate-LedgerPasses :
      (p : Policy F) (unit : UnitFiles F) (sub : Submission F) (u : Unit {0})
      → ledger_gate con p unit sub ≡ passed u
      → LedgerPasses p unit sub
  unfolding ledger_gate
  ledger_gate-LedgerPasses p unit sub u h =
      let (rs, a, h1) = bind-passed _ _ u h in
      let (cs, b, h2) = bind-passed _ _ u h1 in
      let (u1, c, h3) = bind-passed _ _ u h2 in
      let (u2, d, h4) = bind-passed _ _ u h3 in
      record {
        ledger = cs;
        reference = rs;
        has_ledger = load_candidate-contents _ _ cs b;
        has_reference = load_reference-contents _ rs a;
        consistent = after_ledger-passes _ u1 c;
        near = after_compared-agrees _ u2 d;
        protocol_near = λ e. after_compared-agrees _ u (ground (arith, h4, e));
      }

  ledger_if-LedgerPasses :
      (b : Bool) (p : Policy F) (unit : UnitFiles F) (sub : Submission F) (u : Unit {0})
      → ledger_if con b p unit sub ≡ passed u
      → b ≡ true
      → LedgerPasses p unit sub
  ledger_if-LedgerPasses true p unit sub u h e = ledger_gate-LedgerPasses p unit sub u h
  ledger_if-LedgerPasses false p unit sub u h e = cc

  single_body-Exact :
      (p : Policy F) (unit : UnitFiles F) (sub : Submission F) (ctx next : Context F)
      → card_policy con.decimal unit.card ≡ passed p
      → single_body con p unit sub ctx ≡ passed next
      → Exact unit sub ctx.events
  unfolding single_body
  single_body-Exact p unit sub ctx next from_card h =
      let (ref, a, h1) = bind-passed _ _ next h in
      let (cand, b, h2) = bind-passed _ _ next h1 in
      let (u1, c, h3) = bind-passed _ _ next h2 in
      let (bs, d, h4) = bind-passed _ _ next h3 in
      let (u2, e, h5) = bind-passed _ _ next h4 in
      let (facts, f, h6) = bind-passed (stylized_gate con p cand ref ctx) _ next h5 in
      let (u3, g, h7) = bind-passed _ _ next h6 in
      record {
        policy = p;
        trace = cand;
        reference = ref;
        from_card = from_card;
        has_trace = load_candidate-contents _ _ cand b;
        has_reference = load_reference-contents _ ref a;
        counted = count_matches-Counted ctx.events _ u1 c;
        regresses =
            (semantic_regression_pass-Regresses con.num (settings_of p) cand ref).0
              (attempted-returns _ bs d ∙ ap returns (without_breaches-none _ bs u2 e));
        ledger = ledger_if-LedgerPasses p.requires_message_ledger p unit sub u3 g;
      }

  by_batch :
      (b : Bool) (p : Policy F) (unit : UnitFiles F) (sub : Submission F) (ctx next : Context F)
      → b ≡ false
      → body_of con b p unit sub ctx ≡ passed next
      → single_body con p unit sub ctx ≡ passed next
  by_batch true p unit sub ctx next e h = cc
  by_batch false p unit sub ctx next e h = h

  -- If the gate passes for a single market, the card has a policy, both traces are there, the number of
  -- events that the sidecar reports, if it is not null, converts to a float that truncates to the number
  -- of rows, the candidate passes the semantic regression with the card's settings, and, where the
  -- policy requires a ledger, both ledgers are there, the candidate's is consistent and close to the
  -- reference, for family 7 in its protocol too.
  pub g3_domain_semantics-Exact :
      (unit : UnitFiles F) (sub : Submission F) (ctx next : Context F)
      → ctx.is_batch ≡ false
      → g3_domain_semantics con unit sub ctx ≡ passed next
      → Exact unit sub ctx.events
  unfolding g3_domain_semantics g3_body
  g3_domain_semantics-Exact unit sub ctx next single h =
      let (p, a, h1) =
        bind-passed (card_policy con.decimal unit.card)
          (λ p. body_of con ctx.is_batch p unit sub ctx) next (contain-passed _ next h) in
      single_body-Exact p unit sub ctx next a (by_batch ctx.is_batch p unit sub ctx next single h1)

-- ===== src/Scoring/Faulty.antt =====
-- What is wrong with the reference of a single market when the gate of the exact semantics blames it.
use track3_simulation_public.Common.{
  ◌≡◌, refl, sym, ◌∙◌, ap, ◌⊎◌, inl, inr, Bool, true, false, Option, none, some, List, [], length,
  ◌==◌, if◌then◌else◌,
}
use track3_simulation_public.Common.Result.{Text}
use track3_simulation_public.Semantics.Ledger.{Row}
use track3_simulation_public.Semantics.Sanity.{Table}
use track3_simulation_public.Semantics.Proximity.{mid_price_series}
use track3_simulation_public.Semantics.Reference.{sent_latencies, reports}
use track3_simulation_public.Semantics.Incomplete.{
  check_message_reference-incomplete, check_protocol_fidelity-incomplete,
}
use track3_simulation_public.Semantics.Dispatch.{SaneTrace}
use track3_simulation_public.Semantics.Faults.{
  BadMids, mid_price_series-blameless, semantic_regression_pass-reference_fault,
}
use track3_simulation_public.Scoring.Files.{
  File, not_there, broken, contents, parse_error, semantic_regression, reference_integrity_error,
  latency_causality_violation, passed, refused, ◌>>=◌, UnitFiles, Submission, Context, Card,
  Parameters,
}
use track3_simulation_public.Scoring.Contract.{Contract}
use track3_simulation_public.Scoring.Card.{Policy, policy_or_raise, card_policy, settings_of}
use track3_simulation_public.Scoring.Exactness.{
  load_reference, load_candidate, attempted, without_breaches, after_ledger, after_compared,
  regression, ledger_check, ledger_comparison, protocol_comparison, count_matches, stylized_facts,
  stylized_gate, ledger_gate, ledger_if, single_body, body_of, g3_body, g3_domain_semantics,
}
use track3_simulation_public.Semantics.Regression.{RegressionBreach}
use track3_simulation_public.Scoring.Exact.{load_reference-contents}
use track3_simulation_public.Scoring.Blame.{
  blames, step, past, contain-blames, clash, is_readable, load_reference-blames,
  load_parse-blameless, load_ledger-blameless, attempted-blames, without_breaches-blameless,
  after_ledger-blameless, after_compared-blames, count_matches-blameless, with_report-blameless,
}

module _ {F : Type 0} (con : Contract F) where
  -- The reference trace is not there or cannot be read, is not sane, or has bad mid prices.
  abbrev pub FaultyTrace : UnitFiles F → Type 0
  FaultyTrace unit =
      (is_readable unit.reference_trace ≡ false)
      ⊎ ((ref : Table) × (unit.reference_trace ≡ contents ref)
          × ((SaneTrace con.num ref → ⊥) ⊎ BadMids con.num ref.rows))

  -- A ledger that cannot be compared: without a message that was sent, or without an execution report.
  abbrev pub FaultyRows : List Row → Type 0
  FaultyRows rs = (sent_latencies rs ≡ []) ⊎ (reports rs ≡ [])

  -- The reference ledger is not there or cannot be read, or cannot be compared.
  abbrev pub FaultyLedger : UnitFiles F → Type 0
  FaultyLedger unit =
      (is_readable unit.reference_messages ≡ false)
      ⊎ ((rs : List Row) × (unit.reference_messages ≡ contents rs) × FaultyRows rs)

  stylized_facts-blameless :
      (p : Policy F) (cand ref : Table) (ctx : Context F)
      → blames (stylized_facts con p cand ref ctx) ≡ true
      → ⊥
  unfolding stylized_facts
  stylized_facts-blameless p cand ref ctx h =
      let (cm, a, h1) =
        past (attempted (mid_price_series con.num cand.rows)) _
          (attempted-blames _ ∙ mid_price_series-blameless con.num cand.rows) h in
      let (rm, b, h2) =
        past (attempted (mid_price_series con.num ref.rows)) _
          (attempted-blames _ ∙ mid_price_series-blameless con.num ref.rows) h1 in
      clash _ (with_report-blameless con ctx _) h2

  stylized_if-blameless :
      (b : Bool) (p : Policy F) (cand ref : Table) (ctx : Context F)
      → blames (if b then stylized_facts con p cand ref ctx else passed ctx) ≡ true
      → ⊥
  stylized_if-blameless true p cand ref ctx h = stylized_facts-blameless p cand ref ctx h
  stylized_if-blameless false p cand ref ctx h = cc

  stylized_gate-blameless :
      (p : Policy F) (cand ref : Table) (ctx : Context F)
      → blames (stylized_gate con p cand ref ctx) ≡ true
      → ⊥
  unfolding stylized_gate
  stylized_gate-blameless p cand ref ctx h = stylized_if-blameless (p.family == 5) p cand ref ctx h

  protocol_if-blames :
      (b : Bool) (cs rs : List Row)
      → blames (if b then after_compared (protocol_comparison con cs rs) else passed tt) ≡ true
      → reports rs ≡ []
  protocol_if-blames true cs rs h =
      check_protocol_fidelity-incomplete _ _ _ _ cs rs (sym (after_compared-blames _) ∙ h)
  protocol_if-blames false cs rs h = cc

  ledger_rows-blames :
      (p : Policy F) (sub : Submission F) (rs : List Row)
      → blames (do
        cs ← load_candidate latency_causality_violation sub.messages
        _ ← after_ledger (ledger_check con cs)
        _ ← after_compared (ledger_comparison con cs.rows rs)
        if p.family == 7 then after_compared (protocol_comparison con cs.rows rs) else passed tt)
        ≡ true
      → FaultyRows rs
  ledger_rows-blames p sub rs h =
      let (cs, a, h1) =
        past (load_candidate latency_causality_violation sub.messages) _
          (load_ledger-blameless sub.messages) h in
      let (u1, b, h2) = past (after_ledger (ledger_check con cs)) _ (after_ledger-blameless _) h1 in
      elim (step (after_compared (ledger_comparison con cs.rows rs)) _ h2) [
        | inl now ↦ inl (
            check_message_reference-incomplete _ _ _ _ _ cs.rows rs
              (sym (after_compared-blames _) ∙ now))
        | inr (u2, c, h3) ↦ inr (protocol_if-blames (p.family == 7) cs.rows rs h3)
      ]

  ledger_gate-blames :
      (p : Policy F) (unit : UnitFiles F) (sub : Submission F)
      → blames (ledger_gate con p unit sub) ≡ true
      → FaultyLedger unit
  unfolding ledger_gate
  ledger_gate-blames p unit sub h = elim (step (load_reference unit.reference_messages) _ h) [
    | inl now ↦ inl (load_reference-blames unit.reference_messages now)
    | inr (rs, a, h1) ↦ inr (rs, load_reference-contents _ rs a, ledger_rows-blames p sub rs h1)
  ]

  ledger_if-blames :
      (b : Bool) (p : Policy F) (unit : UnitFiles F) (sub : Submission F)
      → blames (ledger_if con b p unit sub) ≡ true
      → (b ≡ true) × FaultyLedger unit
  ledger_if-blames true p unit sub h = (refl, ledger_gate-blames p unit sub h)
  ledger_if-blames false p unit sub h = cc

  regression-blames :
      (p : Policy F) (cand ref : Table)
      → blames (attempted (regression con (settings_of p) cand ref)) ≡ true
      → (SaneTrace con.num ref → ⊥) ⊎ BadMids con.num ref.rows
  regression-blames p cand ref h =
      semantic_regression_pass-reference_fault con.num (settings_of p) cand ref
        (sym (attempted-blames _) ∙ h)

  by_ledger :
      (p : Policy F) (unit : UnitFiles F) (sub : Submission F) (next : Context F)
      → blames (do _ ← ledger_if con p.requires_message_ledger p unit sub; passed next) ≡ true
      → (p.requires_message_ledger ≡ true) × FaultyLedger unit
  by_ledger p unit sub next h =
      elim (step (ledger_if con p.requires_message_ledger p unit sub) _ h) [
        | inl now ↦ ledger_if-blames p.requires_message_ledger p unit sub now
        | inr (u, a, h1) ↦ cc
      ]

  after_regression :
      (p : Policy F) (unit : UnitFiles F) (sub : Submission F) (ctx : Context F) (cand ref : Table)
      (bs : List RegressionBreach)
      → blames (do
        _ ← without_breaches semantic_regression bs
        next ← stylized_gate con p cand ref ctx
        _ ← ledger_if con p.requires_message_ledger p unit sub
        passed next)
        ≡ true
      → (p.requires_message_ledger ≡ true) × FaultyLedger unit
  after_regression p unit sub ctx cand ref bs h =
      let (u1, a, h1) =
        past (without_breaches semantic_regression bs) _ (without_breaches-blameless bs) h in
      elim (step (stylized_gate con p cand ref ctx) _ h1) [
        | inl now ↦ absurd (stylized_gate-blameless p cand ref ctx now)
        | inr (next, b, h2) ↦ by_ledger p unit sub next h2
      ]

  rest-blames :
      (p : Policy F) (unit : UnitFiles F) (sub : Submission F) (ctx : Context F) (cand ref : Table)
      → blames (do
        _ ← count_matches con ctx.events (length cand.rows)
        bs ← attempted (regression con (settings_of p) cand ref)
        _ ← without_breaches semantic_regression bs
        next ← stylized_gate con p cand ref ctx
        _ ← ledger_if con p.requires_message_ledger p unit sub
        passed next)
        ≡ true
      → ((SaneTrace con.num ref → ⊥) ⊎ BadMids con.num ref.rows)
        ⊎ ((p.requires_message_ledger ≡ true) × FaultyLedger unit)
  rest-blames p unit sub ctx cand ref h =
      let (u1, a, h1) =
        past (count_matches con ctx.events (length cand.rows)) _
          (count_matches-blameless con ctx.events _) h in
      elim (step (attempted (regression con (settings_of p) cand ref)) _ h1) [
        | inl now ↦ inl (regression-blames p cand ref now)
        | inr (bs, b, h2) ↦ inr (after_regression p unit sub ctx cand ref bs h2)
      ]

  traced :
      (unit : UnitFiles F) (B : Type 0) (ref : Table)
      → unit.reference_trace ≡ contents ref
      → ((SaneTrace con.num ref → ⊥) ⊎ BadMids con.num ref.rows) ⊎ (B × FaultyLedger unit)
      → FaultyTrace unit ⊎ (B × FaultyLedger unit)
  traced unit B ref e (inl faulty) = inl (inr (ref, e, faulty))
  traced unit B ref e (inr ledger) = inr ledger

  single_body-blames :
      (p : Policy F) (unit : UnitFiles F) (sub : Submission F) (ctx : Context F)
      → blames (single_body con p unit sub ctx) ≡ true
      → FaultyTrace unit ⊎ ((p.requires_message_ledger ≡ true) × FaultyLedger unit)
  unfolding single_body
  single_body-blames p unit sub ctx h = elim (step (load_reference unit.reference_trace) _ h) [
    | inl now ↦ inl (inl (load_reference-blames unit.reference_trace now))
    | inr (ref, a, h1) ↦
        traced unit (p.requires_message_ledger ≡ true) ref (load_reference-contents _ ref a) (
          let (cand, b, h2) =
            past (load_candidate parse_error sub.trace) _ (load_parse-blameless sub.trace) h1 in
          rest-blames p unit sub ctx cand ref h2)
  ]

  by_batch :
      (b : Bool) (p : Policy F) (unit : UnitFiles F) (sub : Submission F) (ctx : Context F)
      → b ≡ false
      → blames (body_of con b p unit sub ctx) ≡ true
      → blames (single_body con p unit sub ctx) ≡ true
  by_batch true p unit sub ctx e h = cc
  by_batch false p unit sub ctx e h = h

  policy-blameless :
      (family : Option Text) (ps : Option (Parameters F))
      → blames (policy_or_raise con.decimal family ps) ≡ false
  policy-blameless family none = refl
  policy-blameless family (some ps) = refl

  card_policy-blameless : (c : File (Card F)) → blames (card_policy con.decimal c) ≡ false
  unfolding card_policy
  card_policy-blameless not_there = refl
  card_policy-blameless broken = refl
  card_policy-blameless (contents c) = policy-blameless c.scenario_family c.parameters

  -- If the gate gives a submission for a single market the label of a reference integrity error, the
  -- reference trace is not there or cannot be read, is not sane, or has mid prices that are not all
  -- finite and above 0, or the card's policy requires a ledger and the reference ledger is not there or
  -- cannot be read, has no message that was sent, or has no execution report.
  pub g3_domain_semantics-faulty :
      (unit : UnitFiles F) (sub : Submission F) (ctx : Context F)
      → ctx.is_batch ≡ false
      → g3_domain_semantics con unit sub ctx ≡ refused reference_integrity_error
      → FaultyTrace unit
        ⊎ ((p : Policy F) × (card_policy con.decimal unit.card ≡ passed p)
            × (p.requires_message_ledger ≡ true)
            × FaultyLedger unit)
  unfolding g3_domain_semantics g3_body
  g3_domain_semantics-faulty unit sub ctx single h =
      let (p, a, h1) =
        past (card_policy con.decimal unit.card) (λ p. body_of con ctx.is_batch p unit sub ctx)
          (card_policy-blameless unit.card) (contain-blames _ (ap blames h)) in
      elim (single_body-blames p unit sub ctx (by_batch ctx.is_batch p unit sub ctx single h1)) [
        | inl trace ↦ inl trace
        | inr (required, ledger) ↦ inr (p, a, required, ledger)
      ]

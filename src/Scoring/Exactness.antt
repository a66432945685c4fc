-- ===== src/Scoring/Exactness.antt =====
-- `_g3_domain_semantics` of qfbench2_track_simulation/scoring.py: the exact semantics of a run.
use track3_simulation_public.Common.{
  ℕ, Bool, true, false, Option, none, some, List, [], ◌∷◌, length, ◌==◌, if◌then◌else◌,
}
use track3_simulation_public.Common.Int.{ℤ, pos}
use track3_simulation_public.Common.Json.{Json, null}
use track3_simulation_public.Semantics.Values.{eqb_ℤ}
use track3_simulation_public.Semantics.Ledger.{
  Row, Frame, Checked, raised, report, check_message_semantics,
}
use track3_simulation_public.Semantics.Attempt.{
  Raise, reference_incomplete, nonfinite_statistic, other_error, Attempt, raises, returns,
}
use track3_simulation_public.Semantics.Sanity.{Table}
use track3_simulation_public.Semantics.Proximity.{mid_price_series, depth_histogram}
use track3_simulation_public.Semantics.Reference.{
  Compared, comparison, check_message_reference, check_protocol_fidelity,
}
use track3_simulation_public.Semantics.Regression.{
  RegressionBreach, Settings, semantic_regression_pass,
}
use track3_simulation_public.Telemetry.Verdict.{Verdict, accepted, participant_failure}
use track3_simulation_public.Batch.Isolation.{
  SubReason, no_reference_trace, declared_count_differs, no_reference_ledger, reference_raised,
  statistic_raised, column_raised, missing_candidate_trace, missing_candidate_messages, event_count,
  semantic, message_semantics, message_reference, protocol_fidelity, score_subs,
}
use track3_simulation_public.Scoring.Files.{
  File, not_there, broken, contents, Label, schema_invalid_output, parse_error, semantic_regression,
  reference_integrity_error, stylized_fact_breach, latency_causality_violation, Outcome, passed,
  refused, organizer_fault, raising, ◌>>=◌, ensure, n_events, EventsFile, no_events, broken_events,
  null_events, listed_events, unset_events, events_object, UnitFiles, Submission, Context,
}
use track3_simulation_public.Scoring.Card.{Policy, card_policy, settings_of}
use track3_simulation_public.Scoring.Contract.{
  Converted, converted, not_a_number, overflow, Contract,
}
use track3_simulation_public.Scoring.Binding.{get_field}
use track3_simulation_public.Scoring.Schema.{load_subs}

-- `_load_reference_trace`: a file of the organizer that is not there or cannot be read.
abbrev pub load_reference {ℓ} : {A : Type ℓ} → File A → Outcome A
load_reference not_there = raising reference_incomplete
load_reference broken = raising reference_incomplete
load_reference (contents a) = passed a

-- `_load_trace`, and what the gate does on none.
abbrev pub load_candidate {ℓ} : {A : Type ℓ} → Label → File A → Outcome A
load_candidate l not_there = refused l
load_candidate l broken = raising other_error
load_candidate l (contents a) = passed a

-- The exceptions of a check, or its value.
abbrev pub attempted {ℓ} : {A : Type ℓ} → Attempt A → Outcome A
attempted (raises e) = raising e
attempted (returns a) = passed a

-- Refused with the label if there are breaches.
abbrev pub without_breaches {ℓ} : {A : Type ℓ} → Label → List A → Outcome (Unit {0})
without_breaches l [] = passed tt
without_breaches l (b ∷ bs) = refused l

abbrev pub after_ledger : Checked → Outcome (Unit {0})
after_ledger raised = raising other_error
after_ledger (report bs) = without_breaches latency_causality_violation bs

abbrev pub after_compared : Compared → Outcome (Unit {0})
after_compared Compared.reference_incomplete = raising reference_incomplete
after_compared Compared.nonfinite_statistic = raising nonfinite_statistic
after_compared (comparison bs) = without_breaches latency_causality_violation bs

-- The exception that an organizer's fault of the isolation gate is.
abbrev pub raise_of : SubReason → Raise
raise_of no_reference_trace = reference_incomplete
raise_of declared_count_differs = reference_incomplete
raise_of no_reference_ledger = reference_incomplete
raise_of reference_raised = reference_incomplete
raise_of statistic_raised = nonfinite_statistic
raise_of column_raised = other_error
raise_of missing_candidate_trace = other_error
raise_of missing_candidate_messages = other_error
raise_of event_count = other_error
raise_of semantic = other_error
raise_of message_semantics = other_error
raise_of message_reference = other_error
raise_of protocol_fidelity = other_error

abbrev pub after_isolation : Verdict SubReason (List SubReason) → Outcome (Unit {0})
after_isolation (accepted es) = without_breaches semantic_regression es
after_isolation (Verdict.organizer_fault e) = raising (raise_of e)
after_isolation (participant_failure e) = raising other_error

-- The handlers around the body.
unfoldable pub contain {ℓ} : {A : Type ℓ} → Outcome A → Outcome A
contain (passed a) = passed a
contain (refused l) = refused l
contain organizer_fault = organizer_fault
contain (raising reference_incomplete) = refused reference_integrity_error
contain (raising nonfinite_statistic) = organizer_fault
contain (raising other_error) = refused parse_error

module _ {F : Type 0} (con : Contract F) where
  abbrev pub regression : Settings F → Table → Table → Attempt (List RegressionBreach)
  regression s cand ref = semantic_regression_pass con.num s cand ref

  abbrev pub ledger_check : Frame → Checked
  ledger_check f = check_message_semantics con.drop_duplicates con.sort f

  abbrev pub ledger_comparison : List Row → List Row → Compared
  ledger_comparison cs rs =
      check_message_reference con.required con.ledger_ks con.num.is_finite con.exceeds con.deviates
        cs rs

  abbrev pub protocol_comparison : List Row → List Row → Compared
  protocol_comparison cs rs =
      check_protocol_fidelity con.required con.ledger_ks con.num.is_finite con.exceeds cs rs

  -- The settings of a batch: the tolerance of spreads is the default of the check.
  abbrev pub batch_settings : Policy F → Settings F
  batch_settings p = record (settings_of p) { spread_tolerance = con.decimal 100 1 }

  -- `score_isolation`
  unfoldable pub score_isolation : Policy F → UnitFiles F → Outcome (Unit {0})
  score_isolation p unit = do
    ss ← load_subs unit.subs
    after_isolation (
        score_subs (regression (batch_settings p)) ledger_check ledger_comparison
          protocol_comparison p.family unit.sub_files ss)

  -- `int(float(reported_n)) != len(cand)`
  abbrev pub same_count : Option ℤ → ℕ → Outcome (Unit {0})
  same_count none n = raising other_error
  same_count (some z) n = ensure (eqb_ℤ z (pos n)) schema_invalid_output

  abbrev pub as_count : Converted F → ℕ → Outcome (Unit {0})
  as_count (converted x) n = same_count (con.truncate x) n
  as_count not_a_number n = raising other_error
  as_count overflow n = raising other_error

  abbrev pub reported_count : Json F → ℕ → Outcome (Unit {0})
  reported_count null n = passed tt
  reported_count v n = as_count (con.to_number v) n

  abbrev pub count_matches : EventsFile F → ℕ → Outcome (Unit {0})
  count_matches (events_object ev) n = reported_count (get_field ev n_events) n
  count_matches no_events n = raising other_error
  count_matches broken_events n = raising other_error
  count_matches null_events n = raising other_error
  count_matches listed_events n = raising other_error
  count_matches unset_events n = raising other_error

  abbrev pub with_report : Context F → Bool × ℕ → Outcome (Context F)
  with_report ctx (true, code) = passed (record ctx { sf_report = some code })
  with_report ctx (false, code) = refused stylized_fact_breach

  unfoldable pub stylized_facts : Policy F → Table → Table → Context F → Outcome (Context F)
  stylized_facts p cand ref ctx = do
    cm ← attempted (mid_price_series con.num cand.rows)
    rm ← attempted (mid_price_series con.num ref.rows)
    with_report ctx (
        con.stylized cm rm (depth_histogram con.num cand.rows) (depth_histogram con.num ref.rows)
          p.ceilings)

  -- The stylized facts, for family 5 only.
  unfoldable pub stylized_gate : Policy F → Table → Table → Context F → Outcome (Context F)
  stylized_gate p cand ref ctx = if p.family == 5 then stylized_facts p cand ref ctx else passed ctx

  -- The message ledger.
  unfoldable pub ledger_gate : Policy F → UnitFiles F → Submission F → Outcome (Unit {0})
  ledger_gate p unit sub = do
    rs ← load_reference unit.reference_messages
    cs ← load_candidate latency_causality_violation sub.messages
    _ ← after_ledger (ledger_check cs)
    _ ← after_compared (ledger_comparison cs.rows rs)
    if p.family == 7 then after_compared (protocol_comparison cs.rows rs) else passed tt

  abbrev pub ledger_if : Bool → Policy F → UnitFiles F → Submission F → Outcome (Unit {0})
  ledger_if true p unit sub = ledger_gate p unit sub
  ledger_if false p unit sub = passed tt

  unfoldable pub single_body :
      Policy F → UnitFiles F → Submission F → Context F → Outcome (Context F)
  single_body p unit sub ctx = do
    ref ← load_reference unit.reference_trace
    cand ← load_candidate parse_error sub.trace
    _ ← count_matches ctx.events (length cand.rows)
    bs ← attempted (regression (settings_of p) cand ref)
    _ ← without_breaches semantic_regression bs
    next ← stylized_gate p cand ref ctx
    _ ← ledger_if p.requires_message_ledger p unit sub
    passed next

  abbrev pub body_of :
      Bool → Policy F → UnitFiles F → Submission F → Context F → Outcome (Context F)
  body_of false p unit sub ctx = single_body p unit sub ctx
  body_of true p unit sub ctx = do _ ← score_isolation p unit; passed ctx

  -- `_g3_body`
  unfoldable pub g3_body : UnitFiles F → Submission F → Context F → Outcome (Context F)
  g3_body unit sub ctx = do
    p ← card_policy con.decimal unit.card
    body_of ctx.is_batch p unit sub ctx

  -- `_g3_domain_semantics`
  unfoldable pub g3_domain_semantics : UnitFiles F → Submission F → Context F → Outcome (Context F)
  g3_domain_semantics unit sub ctx = contain (g3_body unit sub ctx)

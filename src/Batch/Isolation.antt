-- ===== src/Batch/Isolation.antt =====
-- `score_subs` of qfbench2_track_simulation/batch.py: the isolation gate over the sub-scenarios of
-- a batch. An organizer fault is `ReferenceIncomplete` or another raise, a participant failure is an
-- entry of `failures`.
use track3_simulation_public.Common.{
  ℕ, ◌+◌, Bool, true, false, Option, none, some, List, [], ◌∷◌, length, ◌==◌, if◌then◌else◌,
}
use track3_simulation_public.Semantics.Ledger.{Row, Frame, Checked, raised, report}
use track3_simulation_public.Semantics.Sanity.{Table}
use track3_simulation_public.Semantics.Attempt.{
  Attempt, raises, returns, reference_incomplete, nonfinite_statistic, other_error,
}
use track3_simulation_public.Semantics.Regression.{RegressionBreach}
use track3_simulation_public.Semantics.Reference.{Compared, comparison}
use track3_simulation_public.Telemetry.Verdict.{
  Verdict, accepted, organizer_fault, participant_failure, ◌>>=◌, require, require_of_participant,
}

-- An entry of `batch.json`: the code of its name, its count, and whether it declares a digest of
-- a reference message ledger.
pub record SubScenario : Type 0 where
  pub sub : ℕ
  pub n_events : Option ℕ
  pub declares_ledger : Bool

-- The files of a sub-scenario that are there, as read.
pub record SubFiles : Type 0 where
  pub candidate_trace : Option Table
  pub reference_trace : Option Table
  pub candidate_messages : Option Frame
  pub reference_messages : Option (List Row)

pub data SubReason : Type 0 where
  no_reference_trace declared_count_differs no_reference_ledger reference_raised : SubReason
  statistic_raised column_raised : SubReason
  missing_candidate_trace missing_candidate_messages event_count : SubReason
  semantic message_semantics message_reference protocol_fidelity : SubReason

abbrev pub file_or_fault {ℓ} : {A : Type ℓ} → SubReason → Option A → Verdict SubReason A
file_or_fault e none = organizer_fault e
file_or_fault e (some a) = accepted a

abbrev pub file_or_failure {ℓ} : {A : Type ℓ} → SubReason → Option A → Verdict SubReason A
file_or_failure e none = participant_failure e
file_or_failure e (some a) = accepted a

abbrev pub declared_agrees : Option ℕ → ℕ → Bool
declared_agrees none n = true
declared_agrees (some m) n = m == n

-- What follows from a check: it raised, or found breaches, or the gate goes on.
abbrev pub after_semantic : Attempt (List RegressionBreach) → Verdict SubReason (Unit {0})
after_semantic (raises reference_incomplete) = organizer_fault reference_raised
after_semantic (raises nonfinite_statistic) = organizer_fault statistic_raised
after_semantic (raises other_error) = organizer_fault column_raised
after_semantic (returns []) = accepted tt
after_semantic (returns (b ∷ bs)) = participant_failure semantic

abbrev pub after_messages : Checked → Verdict SubReason (Unit {0})
after_messages raised = organizer_fault column_raised
after_messages (report []) = accepted tt
after_messages (report (b ∷ bs)) = participant_failure message_semantics

abbrev pub after_comparison : SubReason → Compared → Verdict SubReason (Unit {0})
after_comparison e Compared.reference_incomplete = organizer_fault no_reference_ledger
after_comparison e Compared.nonfinite_statistic = organizer_fault statistic_raised
after_comparison e (comparison []) = accepted tt
after_comparison e (comparison (b ∷ bs)) = participant_failure e

-- `declared_reference_event_count`
unfoldable pub declared_reference_event_count : List SubScenario → Option ℕ
declared_reference_event_count [] = some 0
declared_reference_event_count (s ∷ ss) = elim s.n_events [
  | none ↦ none
  | some n ↦ elim (declared_reference_event_count ss) [ none ↦ none | some m ↦ some (n + m) ]
]

-- The check that `semantic_regression_pass` selects, and the three checks on ledgers.
module _ (semantic_pass : Table → Table → Attempt (List RegressionBreach))
    (messages : Frame → Checked) (reference protocol : List Row → List Row → Compared)
    (family : ℕ) where
  -- The comparison with the reference ledger, where one is declared.
  unfoldable pub compare_ledgers : Bool → Frame → Option (List Row) → Verdict SubReason (Unit {0})
  compare_ledgers false cs rs = accepted tt
  compare_ledgers true cs rs = do
    ls ← file_or_fault no_reference_ledger rs
    _ ← after_comparison message_reference (reference cs.rows ls)
    if family == 7 then after_comparison protocol_fidelity (protocol cs.rows ls) else accepted tt

  -- One round of the loop.
  unfoldable pub score_sub : SubScenario → SubFiles → Verdict SubReason (Unit {0})
  score_sub s f = do
    rs ← file_or_fault no_reference_trace f.reference_trace
    cs ← file_or_failure missing_candidate_trace f.candidate_trace
    _ ← require (declared_agrees s.n_events (length rs.rows)) declared_count_differs
    _ ← require_of_participant (length cs.rows == length rs.rows) event_count
    _ ← after_semantic (semantic_pass cs rs)
    ms ← file_or_failure missing_candidate_messages f.candidate_messages
    _ ← after_messages (messages ms)
    compare_ledgers s.declares_ledger ms f.reference_messages

  -- A failure goes before those of the later rounds; a raise ends the loop.
  abbrev pub with_failure :
      Verdict SubReason (Unit {0})
      → Verdict SubReason (List SubReason)
      → Verdict SubReason (List SubReason)
  with_failure (accepted u) later = later
  with_failure (organizer_fault e) later = organizer_fault e
  with_failure (participant_failure e) (accepted es) = accepted (e ∷ es)
  with_failure (participant_failure e) (organizer_fault d) = organizer_fault d
  with_failure (participant_failure e) (participant_failure d) = participant_failure d

  -- `score_subs`; the batch passes if the list is empty.
  unfoldable pub score_subs : (ℕ → SubFiles) → List SubScenario → Verdict SubReason (List SubReason)
  score_subs files [] = accepted []
  score_subs files (s ∷ ss) = with_failure (score_sub s (files s.sub)) (score_subs files ss)

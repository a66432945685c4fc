-- ===== src/Batch/Isolated.antt =====
-- What the isolation gate of a batch shows of every sub-scenario.
use track3_simulation_public.Common.{
  ℕ, ◌≡◌, refl, Bool, true, false, Option, none, some, List, [], ◌∷◌, length, All, ◌==◌,
  if◌then◌else◌, arith,
}
use track3_simulation_public.Semantics.Ledger.{Row, Frame, Checked, raised, report, passes}
use track3_simulation_public.Semantics.Sanity.{Table}
use track3_simulation_public.Semantics.Attempt.{
  Attempt, raises, returns, reference_incomplete, nonfinite_statistic, other_error,
}
use track3_simulation_public.Semantics.Regression.{RegressionBreach}
use track3_simulation_public.Semantics.Reference.{Compared, comparison, agrees}
use track3_simulation_public.Telemetry.Verdict.{
  Verdict, accepted, organizer_fault, participant_failure, require-holds,
  require_of_participant-holds, bind-accepted, accepted_injective,
}
use track3_simulation_public.Batch.Isolation.{
  SubScenario, SubFiles, SubReason, file_or_fault, file_or_failure, declared_agrees, after_semantic,
  after_messages, after_comparison, compare_ledgers, score_sub, with_failure, score_subs,
}

file_or_fault-some {ℓ} :
    {A : Type ℓ} (e : SubReason) (o : Option A) (a : A)
    → file_or_fault e o ≡ accepted a
    → o ≡ some a
file_or_fault-some e none a h = cc
file_or_fault-some e (some b) a h = rw (accepted_injective b a h) refl

file_or_failure-some {ℓ} :
    {A : Type ℓ} (e : SubReason) (o : Option A) (a : A)
    → file_or_failure e o ≡ accepted a
    → o ≡ some a
file_or_failure-some e none a h = cc
file_or_failure-some e (some b) a h = rw (accepted_injective b a h) refl

after_semantic-passes :
    (r : Attempt (List RegressionBreach)) (u : Unit {0})
    → after_semantic r ≡ accepted u
    → r ≡ returns []
after_semantic-passes (raises reference_incomplete) u h = cc
after_semantic-passes (raises nonfinite_statistic) u h = cc
after_semantic-passes (raises other_error) u h = cc
after_semantic-passes (returns []) u h = refl
after_semantic-passes (returns (b ∷ bs)) u h = cc

after_messages-passes :
    (r : Checked) (u : Unit {0}) → after_messages r ≡ accepted u → passes r ≡ true
after_messages-passes raised u h = cc
after_messages-passes (report []) u h = refl
after_messages-passes (report (b ∷ bs)) u h = cc

after_comparison-agrees :
    (e : SubReason) (r : Compared) (u : Unit {0})
    → after_comparison e r ≡ accepted u
    → agrees r ≡ true
after_comparison-agrees e Compared.reference_incomplete u h = cc
after_comparison-agrees e Compared.nonfinite_statistic u h = cc
after_comparison-agrees e (comparison []) u h = refl
after_comparison-agrees e (comparison (b ∷ bs)) u h = cc

same_number : (m n : ℕ) → (m == n) ≡ true → m ≡ n
same_number m n h = ground (arith, h)

module _ (semantic_pass : Table → Table → Attempt (List RegressionBreach))
    (messages : Frame → Checked) (reference protocol : List Row → List Row → Compared)
    (family : ℕ) where
  -- A declared reference ledger is there, and the candidate's agrees with it.
  pub record LedgerAgrees (ms : Frame) (f : SubFiles) : Type 0 where
    pub ledger : List Row
    pub present : f.reference_messages ≡ some ledger
    pub near : agrees (reference ms.rows ledger) ≡ true
    pub protocol_near : family ≡ 7 → agrees (protocol ms.rows ledger) ≡ true

  -- A sub-scenario that reproduces its isolated reference.
  pub record Isolated (s : SubScenario) (f : SubFiles) : Type 0 where
    pub trace : Table
    pub reference_table : Table
    pub ledger : Frame
    pub has_trace : f.candidate_trace ≡ some trace
    pub has_reference : f.reference_trace ≡ some reference_table
    pub has_ledger : f.candidate_messages ≡ some ledger
    pub declared : declared_agrees s.n_events (length reference_table.rows) ≡ true
    pub same_count : length trace.rows ≡ length reference_table.rows
    pub semantic : semantic_pass trace reference_table ≡ returns []
    pub consistent : passes (messages ledger) ≡ true
    pub ledger_agrees : s.declares_ledger ≡ true → LedgerAgrees ledger f

  by_family :
      (r : Compared) (u : Unit {0})
      → (if family == 7 then after_comparison SubReason.protocol_fidelity r else accepted tt)
        ≡ accepted u
      → family ≡ 7
      → agrees r ≡ true
  by_family r u h e = after_comparison-agrees SubReason.protocol_fidelity r u (ground (arith, h, e))

  compare_ledgers-LedgerAgrees :
      (b : Bool) (ms : Frame) (f : SubFiles) (u : Unit {0})
      → compare_ledgers semantic_pass messages reference protocol family b ms f.reference_messages
        ≡ accepted u
      → b ≡ true
      → LedgerAgrees ms f
  unfolding compare_ledgers
  compare_ledgers-LedgerAgrees false ms f u h e = cc
  compare_ledgers-LedgerAgrees true ms f u h e =
      let (ls, a, h1) = bind-accepted _ _ u h in
      let (u1, b, h2) = bind-accepted _ _ u h1 in
      record {
        ledger = ls;
        present = file_or_fault-some _ _ ls a;
        near = after_comparison-agrees _ _ u1 b;
        protocol_near = by_family (protocol ms.rows ls) u h2;
      }

  score_sub-Isolated :
      (s : SubScenario) (f : SubFiles) (u : Unit {0})
      → score_sub semantic_pass messages reference protocol family s f ≡ accepted u
      → Isolated s f
  unfolding score_sub
  score_sub-Isolated s f u h =
      let (rs, a, h1) = bind-accepted _ _ u h in
      let (cs, b, h2) = bind-accepted _ _ u h1 in
      let (u1, c, h3) = bind-accepted _ _ u h2 in
      let (u2, d, h4) = bind-accepted _ _ u h3 in
      let (u3, e, h5) = bind-accepted _ _ u h4 in
      let (ms, g, h6) = bind-accepted _ _ u h5 in
      let (u4, i, h7) = bind-accepted _ _ u h6 in
      record {
        trace = cs;
        reference_table = rs;
        ledger = ms;
        has_trace = file_or_failure-some _ _ cs b;
        has_reference = file_or_fault-some _ _ rs a;
        has_ledger = file_or_failure-some _ _ ms g;
        declared = require-holds _ _ u1 c;
        same_count =
            same_number (length cs.rows) (length rs.rows) (require_of_participant-holds _ _ u2 d);
        semantic = after_semantic-passes (semantic_pass cs rs) u3 e;
        consistent = after_messages-passes (messages ms) u4 i;
        ledger_agrees = compare_ledgers-LedgerAgrees s.declares_ledger ms f u h7;
      }

  with_failure-empty :
      (r : Verdict SubReason (Unit {0})) (later : Verdict SubReason (List SubReason))
      → with_failure semantic_pass messages reference protocol family r later ≡ accepted []
      → ((u : Unit {0}) × (r ≡ accepted u)) × (later ≡ accepted [])
  with_failure-empty (accepted u) later h = ((u, refl), h)
  with_failure-empty (organizer_fault e) later h = cc
  with_failure-empty (participant_failure e) (accepted es) h =
      absurd (cons-empty (accepted_injective _ _ h))
    where
      cons-empty : {e : SubReason} {es : List SubReason} → e ∷ es ≡ [] → ⊥
      cons-empty h = cc
  with_failure-empty (participant_failure e) (organizer_fault d) h = cc
  with_failure-empty (participant_failure e) (participant_failure d) h = cc

  -- A batch passes the isolation gate only if every sub-scenario reproduces its isolated reference.
  pub score_subs-Isolated :
      (files : ℕ → SubFiles) (ss : List SubScenario)
      → score_subs semantic_pass messages reference protocol family files ss ≡ accepted []
      → All (λ (s : SubScenario). Isolated s (files s.sub)) ss
  unfolding score_subs
  score_subs-Isolated files [] h = tt
  score_subs-Isolated files (s ∷ ss) h =
      let ((u, a), later) = with_failure-empty _ _ h in
      (score_sub-Isolated s (files s.sub) u a, score_subs-Isolated files ss later)

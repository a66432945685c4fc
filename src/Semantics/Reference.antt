-- ===== src/Semantics/Reference.antt =====
-- `check_message_reference` and `check_protocol_fidelity` of qfbench2_track_simulation/semantics.py: a
-- candidate's message ledger against that of the reference.
use track3_simulation_public.Common.{
  ℕ, zero, suc, ◌<◌, ◌≤◌, ◌≡◌, ◌≢◌, refl, inl, inr, Bool, true, false, List, [], ◌∷◌, ◌++◌, map,
  length, All, ltb, ◌==◌, if◌then◌else◌, arith, Bool-cases,
}
use track3_simulation_public.Common.Int.{ℤ}
use track3_simulation_public.Semantics.Ledger.{
  MessageType, agent_wakeup, order_accepted, order_executed, order_cancelled,
  order_partial_cancelled, order_modified, order_replaced, order_rejected, other_type, Row, sent,
  is_wakeup, count_if,
}

pub data ReferenceBreach : Type 0 where
  empty_candidate no_reports latency_distribution : ReferenceBreach
  truncated wakeup_count : ℕ → ℕ → ReferenceBreach
  report_count : MessageType → ℕ → ℕ → ReferenceBreach

-- A list of breaches, or one of the two organizer faults that are raised.
pub data Compared : Type 0 where
  reference_incomplete nonfinite_statistic : Compared
  comparison : List ReferenceBreach → Compared

abbrev pub agrees : Compared → Bool
agrees reference_incomplete = false
agrees nonfinite_statistic = false
agrees (comparison []) = true
agrees (comparison (b ∷ bs)) = false

-- The next part of a check, after the breaches of the first: a raise drops them.
abbrev pub followed_by : Compared → List ReferenceBreach → Compared
followed_by reference_incomplete cs = reference_incomplete
followed_by nonfinite_statistic cs = nonfinite_statistic
followed_by (comparison bs) cs = comparison (bs ++ cs)

-- The latencies of the rows that were sent.
abbrev pub sent_latencies : List Row → List ℤ
sent_latencies rs = map (λ u. u.1.latency) (sent rs)

abbrev pub wakeups_of : List Row → ℕ
wakeups_of rs = count_if (λ r. is_wakeup r.msg_type) rs

-- The place of a type in `sorted(...)`, from 1; 0 for a type that is no execution report.
abbrev pub report_code : MessageType → ℕ
report_code agent_wakeup = 0
report_code (other_type n) = 0
report_code order_accepted = 1
report_code order_cancelled = 2
report_code order_executed = 3
report_code order_modified = 4
report_code order_partial_cancelled = 5
report_code order_rejected = 6
report_code order_replaced = 7

-- `_EXEC_REPORT_TYPES` in the order of their names.
abbrev pub report_types : List MessageType
report_types =
    order_accepted ∷ order_cancelled ∷ order_executed ∷ order_modified ∷ order_partial_cancelled
    ∷ order_rejected ∷ order_replaced ∷ []

abbrev pub is_report : Row → Bool
is_report r = ltb 0 (report_code r.msg_type)

unfoldable pub reports : List Row → List Row
reports [] = []
reports (r ∷ rs) = if is_report r then r ∷ reports rs else reports rs

abbrev pub count_of : MessageType → List Row → ℕ
count_of t rs = count_if (λ r. report_code r.msg_type == report_code t) rs

-- The loop over the types that either ledger has; a type that neither has makes no breach.
unfoldable pub count_mismatches : List MessageType → List Row → List Row → List ReferenceBreach
count_mismatches [] cs rs = []
count_mismatches (t ∷ ts) cs rs =
    if count_of t cs == count_of t rs
    then count_mismatches ts cs rs
    else report_count t (count_of t cs) (count_of t rs) ∷ count_mismatches ts cs rs

-- Floats are parameters: `required n` is `int(np.ceil(min_coverage * n))`, `ks` SciPy's two-sample
-- statistic, `exceeds` its comparison with the ceiling, and `deviates c r` the test of the relative
-- deviation of `c` wakeups from `r`.
module _ {F : Type 0} (required : ℕ → ℕ) (ks : List ℤ → List ℤ → F)
    (is_finite exceeds : F → Bool) where
  -- The comparison of two samples that are both there.
  unfoldable pub ks_check : List ℤ → List ℤ → Compared
  ks_check cs rs =
      if is_finite (ks cs rs)
      then comparison (if exceeds (ks cs rs) then latency_distribution ∷ [] else [])
      else nonfinite_statistic

  -- That of the latencies of sent messages: an empty candidate sample is not compared.
  unfoldable pub latency_check : List ℤ → List ℤ → Compared
  latency_check [] rs =
      comparison
        (if ltb 0 (required (length rs)) then truncated 0 (required (length rs)) ∷ [] else [])
  latency_check (c ∷ cs) rs =
      if ltb (length (c ∷ cs)) (required (length rs))
      then comparison (truncated (length (c ∷ cs)) (required (length rs)) ∷ [])
      else ks_check (c ∷ cs) rs

  -- That of the latencies of execution reports: a reference with none is not compared.
  unfoldable pub report_latency_check : List ℤ → List ℤ → Compared
  report_latency_check cs [] = comparison []
  report_latency_check cs (r ∷ rs) =
      if ltb (length cs) (required (length (r ∷ rs)))
      then comparison (truncated (length cs) (required (length (r ∷ rs))) ∷ [])
      else ks_check cs (r ∷ rs)

  unfoldable pub wakeup_check : (ℕ → ℕ → Bool) → ℕ → ℕ → List ReferenceBreach
  wakeup_check deviates c zero = []
  wakeup_check deviates c (suc r) = if deviates c (suc r) then wakeup_count c (suc r) ∷ [] else []

  -- The checks behind the two tests for an empty ledger.
  unfoldable pub reference_rows : (ℕ → ℕ → Bool) → List Row → List Row → Compared
  reference_rows deviates cs rs = elim (sent_latencies rs) [
    | [] ↦ reference_incomplete
    | l ∷ ls ↦
        followed_by (latency_check (sent_latencies cs) (l ∷ ls))
          (wakeup_check deviates (wakeups_of cs) (wakeups_of rs))
  ]

  -- `check_message_reference`, the candidate first.
  unfoldable pub check_message_reference : (ℕ → ℕ → Bool) → List Row → List Row → Compared
  check_message_reference deviates cs [] = reference_incomplete
  check_message_reference deviates [] (r ∷ rs) = comparison (empty_candidate ∷ [])
  check_message_reference deviates (c ∷ cs) (r ∷ rs) = reference_rows deviates (c ∷ cs) (r ∷ rs)

  -- The checks on the execution reports of both.
  unfoldable pub compare_reports : List Row → List Row → Compared
  compare_reports cs [] = reference_incomplete
  compare_reports [] (r ∷ rs) = comparison (no_reports ∷ [])
  compare_reports (c ∷ cs) (r ∷ rs) =
      elim (report_latency_check (sent_latencies (c ∷ cs)) (sent_latencies (r ∷ rs))) [
        | reference_incomplete ↦ reference_incomplete
        | nonfinite_statistic ↦ nonfinite_statistic
        | comparison bs ↦ comparison (count_mismatches report_types (c ∷ cs) (r ∷ rs) ++ bs)
      ]

  -- `check_protocol_fidelity`, the candidate first; an empty reference ledger has no reports.
  unfoldable pub check_protocol_fidelity : List Row → List Row → Compared
  check_protocol_fidelity cs rs = compare_reports (reports cs) (reports rs)

  -- The candidate has enough of the reference's sample, and the two are close.
  pub record Close (cs rs : List ℤ) : Type 0 where
    pub enough : required (length rs) ≤ length cs
    pub finite : is_finite (ks cs rs) ≡ true
    pub near : exceeds (ks cs rs) ≡ false

  ks_check-Close :
      (cs rs : List ℤ)
      → required (length rs) ≤ length cs
      → agrees (ks_check cs rs) ≡ true
      → Close cs rs
  unfolding ks_check
  ks_check-Close cs rs e h = record {
    enough = e;
    finite = ground (arith, h);
    near = ground (arith, h);
  }

  latency_check-Close :
      (cs : List ℤ) (l : ℤ) (ls : List ℤ)
      → 0 < required (length (l ∷ ls))
      → agrees (latency_check cs (l ∷ ls)) ≡ true
      → Close cs (l ∷ ls)
  unfolding latency_check
  latency_check-Close [] l ls some_needed h = absurd (ground (arith, some_needed, h))
  latency_check-Close (c ∷ cs) l ls some_needed h =
      elim (Bool-cases (ltb (length (c ∷ cs)) (required (length (l ∷ ls))))) [
        | inl few ↦ absurd (ground (arith, few, h))
        | inr many ↦ ks_check-Close (c ∷ cs) (l ∷ ls) (ground (arith, many)) (rw many at h)
      ]

  followed_by-agrees :
      (r : Compared) (bs : List ReferenceBreach)
      → agrees (followed_by r bs) ≡ true
      → (agrees r ≡ true) × (bs ≡ [])
  followed_by-agrees reference_incomplete bs h = cc
  followed_by-agrees nonfinite_statistic bs h = cc
  followed_by-agrees (comparison []) [] h = (refl, refl)
  followed_by-agrees (comparison []) (b ∷ bs) h = cc
  followed_by-agrees (comparison (a ∷ others)) bs h = cc

  wakeup_check-near :
      (deviates : ℕ → ℕ → Bool) (c r : ℕ)
      → wakeup_check deviates c r ≡ []
      → 0 < r
      → deviates c r ≡ false
  unfolding wakeup_check
  wakeup_check-near deviates c zero h p = absurd (omega arith)
  wakeup_check-near deviates c (suc r) h p = ground (arith, h)

  rows-Close :
      (deviates : ℕ → ℕ → Bool) (cs rs : List Row) (ls : List ℤ)
      → sent_latencies rs ≡ ls
      → ((n : ℕ) → 0 < n → 0 < required n)
      → agrees (elim ls [
        | [] ↦ reference_incomplete
        | l ∷ ls ↦
            followed_by
              (latency_check (sent_latencies cs) (l ∷ ls))
              (wakeup_check deviates (wakeups_of cs) (wakeups_of rs))
      ])
        ≡ true
      → Close (sent_latencies cs) ls
        × (0 < wakeups_of rs → deviates (wakeups_of cs) (wakeups_of rs) ≡ false)
  rows-Close deviates cs rs [] e needed h = cc
  rows-Close deviates cs rs (l ∷ ls) e needed h =
      let (a, b) = followed_by-agrees _ _ h in
      (
        latency_check-Close (sent_latencies cs) l ls (needed _ (omega arith)) a,
        λ p. wakeup_check-near deviates (wakeups_of cs) (wakeups_of rs) b p,
      )

  -- If the coverage asks for at least one message of any sample, a candidate passes only with enough
  -- sent messages, whose latencies are finitely close to the reference's, and with a number of wakeups
  -- within the tolerance: leaving messages out does not switch the comparison off.
  pub check_message_reference-Close :
      (deviates : ℕ → ℕ → Bool) (cs rs : List Row)
      → ((n : ℕ) → 0 < n → 0 < required n)
      → agrees (check_message_reference deviates cs rs) ≡ true
      → Close (sent_latencies cs) (sent_latencies rs)
        × (0 < wakeups_of rs → deviates (wakeups_of cs) (wakeups_of rs) ≡ false)
  unfolding check_message_reference reference_rows
  check_message_reference-Close deviates cs [] needed h = cc
  check_message_reference-Close deviates [] (r ∷ rs) needed h = cc
  check_message_reference-Close deviates (c ∷ cs) (r ∷ rs) needed h =
      rows-Close deviates (c ∷ cs) (r ∷ rs) (sent_latencies (r ∷ rs)) refl needed h

  -- The execution reports of the candidate are as many of each type as the reference's.
  abbrev pub SameCounts : List MessageType → List Row → List Row → Type 0
  SameCounts ts cs rs = All (λ t. count_of t cs ≡ count_of t rs) ts

  count_mismatches-none :
      (ts : List MessageType) (cs rs : List Row)
      → count_mismatches ts cs rs ≡ []
      → SameCounts ts cs rs
  unfolding count_mismatches
  count_mismatches-none [] cs rs h = tt
  count_mismatches-none (t ∷ ts) cs rs h = elim (Bool-cases (count_of t cs == count_of t rs)) [
    | inl same ↦ (ground (arith, same), count_mismatches-none ts cs rs (rw same at h))
    | inr other ↦ absurd (cons-empty (rw other at h))
  ]
    where
      cons-empty : {b : ReferenceBreach} {bs : List ReferenceBreach} → b ∷ bs ≡ [] → ⊥
      cons-empty h = cc

  report_latency_check-Close :
      (cs : List ℤ) (r : ℤ) (rs : List ℤ)
      → agrees (report_latency_check cs (r ∷ rs)) ≡ true
      → Close cs (r ∷ rs)
  unfolding report_latency_check
  report_latency_check-Close cs r rs h =
      elim (Bool-cases (ltb (length cs) (required (length (r ∷ rs))))) [
        | inl few ↦ absurd (ground (arith, few, h))
        | inr many ↦ ks_check-Close cs (r ∷ rs) (ground (arith, many)) (rw many at h)
      ]

  latencies-Close :
      (cs rs : List ℤ) → agrees (report_latency_check cs rs) ≡ true → rs ≢ [] → Close cs rs
  latencies-Close cs [] h some_sent = absurd (some_sent refl)
  latencies-Close cs (r ∷ rs) h some_sent = report_latency_check-Close cs r rs h

  after_counts :
      (r : Compared) (bs : List ReferenceBreach)
      → agrees (elim r [
        | reference_incomplete ↦ reference_incomplete
        | nonfinite_statistic ↦ nonfinite_statistic
        | comparison cs ↦ comparison (bs ++ cs)
      ])
        ≡ true
      → (agrees r ≡ true) × (bs ≡ [])
  after_counts reference_incomplete bs h = cc
  after_counts nonfinite_statistic bs h = cc
  after_counts (comparison cs) [] h = (h, refl)
  after_counts (comparison cs) (b ∷ bs) h = cc

  -- A candidate passes the protocol check only with as many execution reports of each type as the
  -- reference, of which there is at least one, and, if the reference sent any, with enough of them,
  -- whose latencies are finitely close to the reference's.
  pub check_protocol_fidelity-SameCounts :
      (cs rs : List Row)
      → agrees (check_protocol_fidelity cs rs) ≡ true
      → (reports rs ≢ [])
        × SameCounts report_types (reports cs) (reports rs)
        × (sent_latencies (reports rs) ≢ []
            → Close (sent_latencies (reports cs)) (sent_latencies (reports rs)))
  unfolding check_protocol_fidelity compare_reports
  check_protocol_fidelity-SameCounts cs rs h = on_reports (reports cs) (reports rs) h
    where
      on_reports :
          (cs rs : List Row)
          → agrees (compare_reports cs rs) ≡ true
          → (rs ≢ [])
            × SameCounts report_types cs rs
            × (sent_latencies rs ≢ [] → Close (sent_latencies cs) (sent_latencies rs))
      on_reports cs [] h = cc
      on_reports [] (r ∷ rs) h = cc
      on_reports (c ∷ cs) (r ∷ rs) h =
          let (a, b) = after_counts _ _ h in
          (
            λ e. cc,
            count_mismatches-none report_types (c ∷ cs) (r ∷ rs) b,
            λ n. latencies-Close _ _ a n,
          )

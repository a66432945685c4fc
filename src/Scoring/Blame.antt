-- ===== src/Scoring/Blame.antt =====
-- When the gate of the exact semantics blames the reference of a single market.
use track3_simulation_public.Common.{
  ℕ, ◌≡◌, refl, ◌⊎◌, inl, inr, Bool, true, false, Option, none, some, List, [], ◌∷◌,
}
use track3_simulation_public.Common.Int.{ℤ}
use track3_simulation_public.Common.Json.{Json, null, boolean, integer, real, text, array, object}
use track3_simulation_public.Semantics.Ledger.{Checked, raised, report}
use track3_simulation_public.Semantics.Attempt.{
  reference_incomplete, nonfinite_statistic, other_error, Attempt, raises, returns,
  is_reference_fault,
}
use track3_simulation_public.Semantics.Reference.{Compared, comparison}
use track3_simulation_public.Semantics.Incomplete.{is_incomplete}
use track3_simulation_public.Scoring.Files.{
  File, not_there, broken, contents, schema_invalid_output, parse_error, semantic_regression,
  reference_integrity_error, stylized_fact_breach, latency_causality_violation, Outcome, passed,
  refused, organizer_fault, raising, ◌>>=◌, ensure, EventsFile, no_events, broken_events,
  null_events, listed_events, unset_events, events_object, Context,
}
use track3_simulation_public.Scoring.Contract.{
  Converted, converted, not_a_number, overflow, Contract,
}
use track3_simulation_public.Scoring.Exactness.{
  load_reference, load_candidate, attempted, without_breaches, after_ledger, after_compared,
  same_count, as_count, reported_count, count_matches, with_report, contain,
}

-- The reference is blamed: `ReferenceIncomplete` is raised, or its label is given.
abbrev pub blames {ℓ} : {A : Type ℓ} → Outcome A → Bool
blames (passed a) = false
blames (refused schema_invalid_output) = false
blames (refused parse_error) = false
blames (refused semantic_regression) = false
blames (refused reference_integrity_error) = true
blames (refused stylized_fact_breach) = false
blames (refused latency_causality_violation) = false
blames organizer_fault = false
blames (raising reference_incomplete) = true
blames (raising nonfinite_statistic) = false
blames (raising other_error) = false

-- A step blames the reference, or the next one does after it passed.
pub step {ℓ κ} :
    {A : Type ℓ} {B : Type κ} (r : Outcome A) (f : A → Outcome B)
    → blames (r >>= f) ≡ true
    → (blames r ≡ true) ⊎ ((a : A) × (r ≡ passed a) × (blames (f a) ≡ true))
step (passed a) f h = inr (a, refl, h)
step (refused schema_invalid_output) f h = cc
step (refused parse_error) f h = cc
step (refused semantic_regression) f h = cc
step (refused reference_integrity_error) f h = inl refl
step (refused stylized_fact_breach) f h = cc
step (refused latency_causality_violation) f h = cc
step organizer_fault f h = cc
step (raising reference_incomplete) f h = inl refl
step (raising nonfinite_statistic) f h = cc
step (raising other_error) f h = cc

pub clash : (b : Bool) → b ≡ false → b ≡ true → ⊥
clash b h g = cc

-- A step that never blames the reference has passed.
pub past {ℓ κ} :
    {A : Type ℓ} {B : Type κ} (r : Outcome A) (f : A → Outcome B)
    → blames r ≡ false
    → blames (r >>= f) ≡ true
    → (a : A) × (r ≡ passed a) × (blames (f a) ≡ true)
past r f never h = elim (step r f h) [ inl now ↦ absurd (clash _ never now) | inr later ↦ later ]

pub contain-blames {ℓ} : {A : Type ℓ} (r : Outcome A) → blames (contain r) ≡ true → blames r ≡ true
unfolding contain
contain-blames (passed a) h = h
contain-blames (refused l) h = h
contain-blames organizer_fault h = h
contain-blames (raising reference_incomplete) h = refl
contain-blames (raising nonfinite_statistic) h = cc
contain-blames (raising other_error) h = cc

-- The file is there and can be read.
abbrev pub is_readable {ℓ} : {A : Type ℓ} → File A → Bool
is_readable not_there = false
is_readable broken = false
is_readable (contents a) = true

pub load_reference-blames {ℓ} :
    {A : Type ℓ} (f : File A) → blames (load_reference f) ≡ true → is_readable f ≡ false
load_reference-blames not_there h = refl
load_reference-blames broken h = refl
load_reference-blames (contents a) h = cc

pub load_parse-blameless {ℓ} :
    {A : Type ℓ} (f : File A) → blames (load_candidate parse_error f) ≡ false
load_parse-blameless not_there = refl
load_parse-blameless broken = refl
load_parse-blameless (contents a) = refl

pub load_ledger-blameless {ℓ} :
    {A : Type ℓ} (f : File A) → blames (load_candidate latency_causality_violation f) ≡ false
load_ledger-blameless not_there = refl
load_ledger-blameless broken = refl
load_ledger-blameless (contents a) = refl

pub attempted-blames {ℓ} :
    {A : Type ℓ} (r : Attempt A) → blames (attempted r) ≡ is_reference_fault r
attempted-blames (raises reference_incomplete) = refl
attempted-blames (raises nonfinite_statistic) = refl
attempted-blames (raises other_error) = refl
attempted-blames (returns a) = refl

pub without_breaches-blameless {ℓ} :
    {A : Type ℓ} (bs : List A) → blames (without_breaches semantic_regression bs) ≡ false
without_breaches-blameless [] = refl
without_breaches-blameless (b ∷ bs) = refl

pub after_ledger-blameless : (r : Checked) → blames (after_ledger r) ≡ false
after_ledger-blameless raised = refl
after_ledger-blameless (report []) = refl
after_ledger-blameless (report (b ∷ bs)) = refl

pub after_compared-blames : (r : Compared) → blames (after_compared r) ≡ is_incomplete r
after_compared-blames Compared.reference_incomplete = refl
after_compared-blames Compared.nonfinite_statistic = refl
after_compared-blames (comparison []) = refl
after_compared-blames (comparison (b ∷ bs)) = refl

ensure-blameless : (b : Bool) → blames (ensure b schema_invalid_output) ≡ false
ensure-blameless true = refl
ensure-blameless false = refl

module _ {F : Type 0} (con : Contract F) where
  same_count-blameless : (z : Option ℤ) (n : ℕ) → blames (same_count con z n) ≡ false
  same_count-blameless none n = refl
  same_count-blameless (some z) n = ensure-blameless _

  as_count-blameless : (c : Converted F) (n : ℕ) → blames (as_count con c n) ≡ false
  as_count-blameless (converted x) n = same_count-blameless (con.truncate x) n
  as_count-blameless not_a_number n = refl
  as_count-blameless overflow n = refl

  reported_count-blameless : (v : Json F) (n : ℕ) → blames (reported_count con v n) ≡ false
  reported_count-blameless null n = refl
  reported_count-blameless (boolean b) n = as_count-blameless _ n
  reported_count-blameless (integer z) n = as_count-blameless _ n
  reported_count-blameless (real x) n = as_count-blameless _ n
  reported_count-blameless (text t) n = as_count-blameless _ n
  reported_count-blameless (array c) n = as_count-blameless _ n
  reported_count-blameless (object c) n = as_count-blameless _ n

  pub count_matches-blameless : (f : EventsFile F) (n : ℕ) → blames (count_matches con f n) ≡ false
  count_matches-blameless no_events n = refl
  count_matches-blameless broken_events n = refl
  count_matches-blameless null_events n = refl
  count_matches-blameless listed_events n = refl
  count_matches-blameless unset_events n = refl
  count_matches-blameless (events_object ev) n = reported_count-blameless _ n

  pub with_report-blameless :
      (ctx : Context F) (r : Bool × ℕ) → blames (with_report con ctx r) ≡ false
  with_report-blameless ctx (true, code) = refl
  with_report-blameless ctx (false, code) = refl

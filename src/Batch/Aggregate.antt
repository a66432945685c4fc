-- ===== src/Batch/Aggregate.antt =====
-- `check_aggregate` of qfbench2_track_simulation/batch.py: the totals that a submission reports for
-- a batch against its own traces.
use track3_simulation_public.Common.{
  ℕ, ◌+◌, ◌≡◌, refl, sym, ap, inl, inr, Bool, true, false, not, ◌&&◌, ◌||◌, Option, none, some,
  List, [], ◌∷◌, map, ◌==◌, if◌then◌else◌, arith, Bool-cases,
}
use track3_simulation_public.Batch.Isolation.{SubScenario}

-- A required field of `batch_events.json`.
pub data Field (F : Type 0) : Type 0 where
  absent not_numeric : Field F
  number : F → Field F

-- An entry of `per_scenario`: the code of its "sub" and its "n_events", -1 being `none`.
pub record BatchEntry : Type 0 where
  pub sub : ℕ
  pub n_events : Option ℕ

pub record BatchEvents (F : Type 0) : Type 0 where
  pub per_scenario : List BatchEntry
  pub total_events : Field F
  pub wall_clock_sec : Field F
  pub events_per_sec : Field F

pub data Refusal : Type 0 where
  no_batch_events duplicate_sub other_subs missing_field not_a_number not_positive : Refusal
  inconsistent_rate wrong_total : Refusal
  missing_trace wrong_count : ℕ → Refusal

pub data Aggregate (F : Type 0) : Type 0 where
  refused : Refusal → Aggregate F
  consistent : (total : ℕ) (events_per_sec : F) → Aggregate F

abbrev pub occurs : ℕ → List ℕ → Bool
occurs n [] = false
occurs n (m ∷ ms) = (n == m) || occurs n ms

-- `len(seen) == len(set(seen))`
abbrev pub no_duplicates : List ℕ → Bool
no_duplicates [] = true
no_duplicates (n ∷ ns) = not (occurs n ns) && no_duplicates ns

abbrev pub all_in : List ℕ → List ℕ → Bool
all_in [] ms = true
all_in (n ∷ ns) ms = occurs n ms && all_in ns ms

-- `set(seen) == declared`
abbrev pub same_set : List ℕ → List ℕ → Bool
same_set ns ms = all_in ns ms && all_in ms ns

abbrev pub is_absent : {F : Type 0} → Field F → Bool
is_absent absent = true
is_absent not_numeric = false
is_absent (number x) = false

-- The loop over the entries: why it stops, or the sum of the rows of their traces.
pub data Summed : Type 0 where
  stopped : Refusal → Summed
  sum : ℕ → Summed

abbrev pub add_rows : ℕ → Summed → Summed
add_rows n (stopped r) = stopped r
add_rows n (sum m) = sum (n + m)

abbrev pub is_count : Option ℕ → ℕ → Bool
is_count none n = false
is_count (some m) n = m == n

-- Rows are the numbers of rows of the traces that are there.
abbrev pub sum_entry : (ℕ → Option ℕ) → BatchEntry → Option ℕ → Summed → Summed
sum_entry rows e none later = stopped (missing_trace e.sub)
sum_entry rows e (some n) later =
    if is_count e.n_events n then add_rows n later else stopped (wrong_count e.sub)

unfoldable pub sum_rows : (ℕ → Option ℕ) → List BatchEntry → Summed
sum_rows rows [] = sum 0
sum_rows rows (e ∷ es) = sum_entry rows e (rows e.sub) (sum_rows rows es)

abbrev pub names_of : List BatchEntry → List ℕ
names_of es = map (λ e. e.sub) es

-- Floats are parameters: `positive total wall rate` is not `total <= 0 or wc <= 0 or eps < 0`, `close`
-- the test of the reported rate against the quotient, and `truncate` is `int(total)`.
module _ {F : Type 0} (positive close : F → F → F → Bool) (truncate : F → ℕ) where
  abbrev pub against_sum : F → F → Summed → Aggregate F
  against_sum total eps (stopped r) = refused r
  against_sum total eps (sum n) =
      if n == truncate total then consistent (truncate total) eps else refused wrong_total

  abbrev pub check_numbers :
      (ℕ → Option ℕ) → List BatchEntry → Field F → Field F → Field F → Aggregate F
  check_numbers rows es (number total) (number wall) (number eps) =
      if positive total wall eps
      then (if close total wall eps
          then against_sum total eps (sum_rows rows es)
          else refused inconsistent_rate)
      else refused not_positive
  check_numbers rows es (number total) (number wall) absent = refused not_a_number
  check_numbers rows es (number total) (number wall) not_numeric = refused not_a_number
  check_numbers rows es (number total) absent eps = refused not_a_number
  check_numbers rows es (number total) not_numeric eps = refused not_a_number
  check_numbers rows es absent wall eps = refused not_a_number
  check_numbers rows es not_numeric wall eps = refused not_a_number

  abbrev pub check_events : (ℕ → Option ℕ) → List ℕ → BatchEvents F → Aggregate F
  check_events rows declared be =
      if no_duplicates (names_of be.per_scenario)
      then (if same_set (names_of be.per_scenario) declared
          then (if is_absent be.total_events
                || (is_absent be.wall_clock_sec || is_absent be.events_per_sec)
              then refused missing_field
              else check_numbers rows be.per_scenario be.total_events be.wall_clock_sec
                  be.events_per_sec)
          else refused other_subs)
      else refused duplicate_sub

  -- `check_aggregate`
  unfoldable pub check_aggregate :
      (ℕ → Option ℕ) → List SubScenario → Option (BatchEvents F) → Aggregate F
  check_aggregate rows declared none = refused no_batch_events
  check_aggregate rows declared (some be) = check_events rows (map (λ s. s.sub) declared) be

-- Every entry reports the rows of a trace that is there, and they add up to the number.
abbrev pub AddsUp : (ℕ → Option ℕ) → List BatchEntry → ℕ → Type 0
AddsUp rows [] n = n ≡ 0
AddsUp rows (e ∷ es) n =
    (m k : ℕ) × (rows e.sub ≡ some m) × (e.n_events ≡ some m) × AddsUp rows es k × (n ≡ m + k)

is_count-some : (o : Option ℕ) (n : ℕ) → is_count o n ≡ true → o ≡ some n
is_count-some none n h = cc
is_count-some (some m) n h = ap some (same m n h)
  where
    same : (m n : ℕ) → (m == n) ≡ true → m ≡ n
    same m n h = ground (arith, h)

sum_value : ℕ → Summed → ℕ
sum_value d (stopped r) = d
sum_value d (sum n) = n

add_rows-sum : (n m : ℕ) (s : Summed) → add_rows n s ≡ sum m → (k : ℕ) × (s ≡ sum k) × (m ≡ n + k)
unfolding sum_value
add_rows-sum n m (stopped r) h = cc
add_rows-sum n m (sum k) h = (k, refl, sym (ap (sum_value 0) h))

sum_entry-sum :
    (rows : ℕ → Option ℕ) (e : BatchEntry) (o : Option ℕ) (later : Summed) (n : ℕ)
    → sum_entry rows e o later ≡ sum n
    → (m : ℕ) × (o ≡ some m) × (e.n_events ≡ some m) × (add_rows m later ≡ sum n)
sum_entry-sum rows e none later n h = cc
sum_entry-sum rows e (some m) later n h = elim (Bool-cases (is_count e.n_events m)) [
  | inl same ↦ (m, refl, is_count-some e.n_events m same, (rw same at h))
  | inr other ↦ absurd (stopped-sum (rw other at h))
]
  where
    stopped-sum : {r : Refusal} {n : ℕ} → stopped r ≡ sum n → ⊥
    stopped-sum h = cc

pub sum_rows-AddsUp :
    (rows : ℕ → Option ℕ) (es : List BatchEntry) (n : ℕ)
    → sum_rows rows es ≡ sum n
    → AddsUp rows es n
unfolding sum_rows sum_value
sum_rows-AddsUp rows [] n h = sym (ap (sum_value 0) h)
sum_rows-AddsUp rows (e ∷ es) n h =
    let (m, a, b, c) = sum_entry-sum rows e (rows e.sub) (sum_rows rows es) n h in
    let (k, d, f) = add_rows-sum m n (sum_rows rows es) c in
    (m, k, a, b, sum_rows-AddsUp rows es k d, f)

abbrev total_value : {F : Type 0} → Aggregate F → ℕ
total_value (refused r) = 0
total_value (consistent total eps) = total

abbrev rate_value : {F : Type 0} → F → Aggregate F → F
rate_value d (refused r) = d
rate_value d (consistent total eps) = eps

module _ {F : Type 0} (positive close : F → F → F → Bool) (truncate : F → ℕ) where
  -- The reported totals are those of the declared sub-scenarios.
  pub record Honest (rows : ℕ → Option ℕ) (declared : List ℕ) (be : BatchEvents F) (total : ℕ)
      (eps : F) : Type 0 where
    pub unique : no_duplicates (names_of be.per_scenario) ≡ true
    pub none_extra : (x : ℕ) → occurs x (names_of be.per_scenario) ≡ true → occurs x declared ≡ true
    pub none_missing :
        (x : ℕ) → occurs x declared ≡ true → occurs x (names_of be.per_scenario) ≡ true
    pub adds_up : AddsUp rows be.per_scenario total
    pub reported_total : F
    pub wall : F
    pub rate_close : close reported_total wall eps ≡ true
    pub total_of : total ≡ truncate reported_total
    pub in_report :
        (be.total_events ≡ number reported_total)
        × (be.wall_clock_sec ≡ number wall)
        × (be.events_per_sec ≡ number eps)

-- ===== src/Scoring/Tests.antt =====
-- The gates on a single market of two quotes, with numbers that may be NaN for floats.
use track3_simulation_public.Semantics.Reference.{
  check_message_reference, latency_check, reference_rows, ks_check, wakeup_check,
}
use track3_simulation_public.Semantics.Values.{wrap_int64}
use track3_simulation_public.Semantics.Ledger.{
  arange, causal_breaches, check_message_semantics, check_rows, children, duplicate_breaches,
  get_or, latency_breaches, recv_by_key, sent, seq_breaches, wakeup_breaches,
}
use track3_simulation_public.Semantics.Trace.{
  check_tier_a, common_positions, count_breaches, coverage_breaches, fill_breaches, fills,
  order_check, paired, position_of, positions_from, sequence_check,
}
use track3_simulation_public.Semantics.Regression.{semantic_regression_pass, compare_traces}
use track3_simulation_public.Scoring.Binding.{bind_to_trusted_scenario}
use track3_simulation_public.Scoring.Integrity.{batch_meta, evidence_gate, g0_integrity, trusted}
use track3_simulation_public.Common.{
  ℕ, ◌+◌, ◌*◌, ◌-◌, ◌/◌, ◌≡◌, refl, ◌⊎◌, Bool, true, false, Option, none, some, List, [], ◌∷◌, ◌==◌,
}
use track3_simulation_public.Common.Int.{ℤ, pos, ◌-ℤ◌}
use track3_simulation_public.Common.Json.{Json, null, boolean, integer, real, text, array, object}
use track3_simulation_public.Semantics.Tests.{drop_rows, sort_values, sample_ledger}
use track3_simulation_public.Semantics.Cases.{
  Value, below, combine, of_integer, numbers, two_sided, table,
}
use track3_simulation_public.Semantics.Sanity.{
  Table, check_numeric_sanity, missing_numeric_from, nonfinite_breaches, nonpositive_breaches,
  value_breaches,
}
use track3_simulation_public.Limits.Domain.{
  no_batch, assert_domain_max_covers_roster, batch_width, required_domain_max, widest_from,
}
use track3_simulation_public.Limits.Host.{no_file}
use track3_simulation_public.Telemetry.Timing.{
  trace, RunRecord, require_exclusive_instance, require_official_telemetry,
  assert_repeats_reproduce_scored_tree, measured_repeats, ranked_timing, sum_counts,
  trusted_event_count,
}
use track3_simulation_public.Batch.Isolation.{SubFiles}
use track3_simulation_public.Scoring.Files.{
  File, not_there, broken, contents, Outcome, passed, ◌>>=◌, official, Card, EventsField,
  scenario_id, n_events, wall_clock_sec, events_per_sec, seed, trace_sha256, events_object,
  no_batch_events, scenario, UnitFiles, Submission, Evidence, Context, empty_context, bind-passed,
}
use track3_simulation_public.Scoring.Contract.{Converted, converted, not_a_number, Contract}
use track3_simulation_public.Scoring.Card.{
  Policy, card_policy, latency_profile, family_number, lookup, policy_of,
}
use track3_simulation_public.Scoring.Schema.{
  g1_schema, check_sidecar, consistent_rate, has_all, resolve_official_timing, sub_names,
  reference_event_count,
}
use track3_simulation_public.Scoring.Exactness.{
  g3_domain_semantics, contain, g3_body, single_body, ledger_gate, stylized_gate,
}
use track3_simulation_public.Scoring.Score.{Score, Gate, official_score, build_verifier}
use track3_simulation_public.Scoring.Bound.{Bound}
use track3_simulation_public.Scoring.Exact.{Exact, g3_domain_semantics-Exact}
use track3_simulation_public.Scoring.Faulty.{FaultyTrace, FaultyLedger, g3_domain_semantics-faulty}
use track3_simulation_public.Scoring.Admissible.{Admissible, build_verifier-Admissible}
use track3_simulation_public.Scoring.Official.{
  RunsInOrder, Scored, build_verifier-Scored, build_verifier-same_score,
}

abbrev to_value : Json Value → Converted Value
to_value (integer z) = converted (of_integer z)
to_value (real x) = converted x
to_value (boolean b) = not_a_number
to_value null = not_a_number
to_value (text t) = not_a_number
to_value (array c) = not_a_number
to_value (object c) = not_a_number

abbrev whole_part : Value → Option ℤ
whole_part none = none
whole_part (some n) = some (pos n)

abbrev is_zero_value : Value → Bool
is_zero_value none = false
is_zero_value (some n) = n == 0

abbrev same_value : Value → Value → Bool
same_value none v = false
same_value (some m) none = false
same_value (some m) (some n) = m == n

abbrev first_value : List Value → Value
first_value [] = none
first_value (v ∷ vs) = v

abbrev contract : Contract Value
contract = record {
  num = numbers;
  decimal = λ n k. some n;
  of_integer = of_integer;
  to_number = to_value;
  truncate = whole_part;
  is_zero = is_zero_value;
  is_negative = λ v. false;
  divide = combine ◌/◌;
  relative_gap = combine (λ m n. (m - n) + (n - m));
  equal = same_value;
  equal_integer = λ v z. same_value v (of_integer z);
  lower = λ t. t;
  strip_lower = λ t. t;
  below = λ v n. below v (some n);
  at_most = λ v w. below v w;
  per_market = λ n. some (10000000 * n);
  admissible = λ r. true;
  is_timed = λ v. below (some 0) v;
  rate = λ n v. combine ◌/◌ (some n) v;
  median = first_value;
  drop_duplicates = drop_rows;
  sort = sort_values;
  required = λ n. n;
  ledger_ks = λ xs ys. some 0;
  exceeds = λ v. false;
  deviates = λ m n. false;
  positive_totals = λ t w e. true;
  close_totals = λ t w e. true;
  truncate_total = λ v. 0;
  stylized = λ cs rs cd rd c. (true, 0);
}

abbrev card : Card Value
card = record {
  scenario_family = some latency_profile;
  is_batch = false;
  parameters = some (record {
    semantic_tier = none;
    stylized_fact_ceilings = [];
    timestamp_tolerance_ns = none;
    kendall_tau_floor = none;
    spread_bps_tolerance = none;
    requires_message_ledger = none;
  });
}

abbrev no_subs_files : ℕ → SubFiles
no_subs_files n = record {
  candidate_trace = none;
  reference_trace = none;
  candidate_messages = none;
  reference_messages = none;
}

-- A unit with the given reference trace.
abbrev unit_with : File Table → UnitFiles Value
unit_with reference = record {
  name = 117 ∷ [];
  card = contents card;
  scenario_file = scenario (text (97 ∷ [])) (integer (pos 7));
  reference_events = not_there;
  reference_trace = reference;
  reference_messages = contents sample_ledger.rows;
  subs = none;
  sub_files = no_subs_files;
}

abbrev good_unit : UnitFiles Value
good_unit = unit_with (contents (table (two_sided 1)))

-- A sidecar that reports a rate.
abbrev reported : ℕ → EventsField → Option (Json Value)
reported rate scenario_id = some (text (97 ∷ []))
reported rate n_events = some (integer (pos 2))
reported rate wall_clock_sec = some (integer (pos 1))
reported rate events_per_sec = some (integer (pos rate))
reported rate seed = some (integer (pos 7))
reported rate trace_sha256 = some (text (100 ∷ []))

abbrev submission : ℕ → Submission Value
submission rate = record {
  events_file = events_object (record { get = reported rate });
  batch_events_file = no_batch_events;
  trace = contents (table (two_sided 1));
  trace_digest = some (100 ∷ []);
  messages = contents sample_ledger;
  sub_rows = λ n. none;
  sub_rows_raise = false;
  host_file = no_file;
}

abbrev run_record : RunRecord Value
run_record = record {
  telemetry = some (record { exclusive = true; contender_process_count = 0; throttled = false });
  output_row_counts = (trace, 2) ∷ [];
  repeats =
      record {
        index = 0;
        is_rankable = true;
        output_tree_digest = 77;
        event_count = 2;
        elapsed_sec = some 1;
      }
      ∷ [];
  sanitized_tree_digest = 77;
}

abbrev evidence : Evidence Value
evidence = record {
  run_record = some run_record;
  plan = some (record {
    repeats = record { repeats = some 1; warmup_discarded = some 0 };
    domain_max = some 10000000;
    expected_handles = (117 ∷ []) ∷ [];
    clip = λ v. v;
  });
  reference_root = λ h. no_batch;
}

abbrev context_of : ℕ → Context Value
context_of rate = record (empty_context) { events = events_object (record { get = reported rate }) }

-- A verifier that runs its gates in order.
abbrev run_gates :
    List (Gate contract)
    → (Context Value → Outcome (Score Value))
    → Context Value
    → Outcome (Score Value)
run_gates [] scorer ctx = scorer ctx
run_gates (g ∷ gs) scorer ctx = g ctx >>= run_gates gs scorer

run_gates-RunsInOrder : RunsInOrder contract run_gates
run_gates-RunsInOrder [] scorer ctx s h = (ctx, refl, h)
run_gates-RunsInOrder (g ∷ gs) scorer ctx s h =
    let (next, a, h1) = bind-passed (g ctx) (run_gates gs scorer) s h in
    let (last, ps, e) = run_gates-RunsInOrder gs scorer next s h1 in (last, (next, a, ps), e)

abbrev good_score : Score Value
good_score = record {
  score = some 2;
  profile = official;
  rankable = true;
  measured_repeats = some 1;
  n_events = some 2;
  score_source = none;
  stylized_facts = none;
}

-- Two admissible runs, the second with another reported rate.
admissible_run :
    build_verifier contract run_gates good_unit evidence (submission 2) ≡ passed good_score
unfolding build_verifier g0_integrity evidence_gate assert_domain_max_covers_roster
    required_domain_max widest_from batch_width trusted require_official_telemetry
    require_exclusive_instance batch_meta g1_schema check_sidecar has_all consistent_rate
    bind_to_trusted_scenario resolve_official_timing sub_names reference_event_count ranked_timing
    trusted_event_count sum_counts measured_repeats assert_repeats_reproduce_scored_tree
    g3_domain_semantics contain g3_body card_policy single_body semantic_regression_pass
    check_numeric_sanity missing_numeric_from value_breaches nonfinite_breaches nonpositive_breaches
    compare_traces policy_of family_number lookup check_tier_a sequence_check order_check
    common_positions positions_from position_of count_breaches fills fill_breaches paired
    coverage_breaches stylized_gate ledger_gate check_message_semantics check_rows children
    duplicate_breaches latency_breaches sent wrap_int64 ◌-ℤ◌ seq_breaches arange causal_breaches
    get_or recv_by_key wakeup_breaches check_message_reference reference_rows latency_check ks_check
    wakeup_check official_score
admissible_run = refl

other_run : build_verifier contract run_gates good_unit evidence (submission 4) ≡ passed good_score
unfolding build_verifier g0_integrity evidence_gate assert_domain_max_covers_roster
    required_domain_max widest_from batch_width trusted require_official_telemetry
    require_exclusive_instance batch_meta g1_schema check_sidecar has_all consistent_rate
    bind_to_trusted_scenario resolve_official_timing sub_names reference_event_count ranked_timing
    trusted_event_count sum_counts measured_repeats assert_repeats_reproduce_scored_tree
    g3_domain_semantics contain g3_body card_policy single_body semantic_regression_pass
    check_numeric_sanity missing_numeric_from value_breaches nonfinite_breaches nonpositive_breaches
    compare_traces policy_of family_number lookup check_tier_a sequence_check order_check
    common_positions positions_from position_of count_breaches fills fill_breaches paired
    coverage_breaches stylized_gate ledger_gate check_message_semantics check_rows children
    duplicate_breaches latency_breaches sent wrap_int64 ◌-ℤ◌ seq_breaches arange causal_breaches
    get_or recv_by_key wakeup_breaches check_message_reference reference_rows latency_check ks_check
    wakeup_check official_score
other_run = refl

build_verifier-Scored_example : Scored contract good_unit evidence good_score
build_verifier-Scored_example =
    build_verifier-Scored contract run_gates run_gates-RunsInOrder good_unit evidence (submission 2)
      good_score admissible_run

build_verifier-same_score_example :
    (good_score.score ≡ good_score.score)
    × (good_score.n_events ≡ good_score.n_events)
    × (good_score.measured_repeats ≡ good_score.measured_repeats)
build_verifier-same_score_example =
    build_verifier-same_score contract run_gates run_gates-RunsInOrder good_unit evidence
      (submission 2) (submission 4) good_score good_score admissible_run other_run

g3_domain_semantics-Exact_example :
    Exact contract good_unit (submission 2) (events_object (record { get = reported 2 }))
unfolding g3_domain_semantics contain g3_body card_policy single_body semantic_regression_pass
    check_numeric_sanity missing_numeric_from value_breaches nonfinite_breaches nonpositive_breaches
    compare_traces policy_of family_number lookup check_tier_a sequence_check order_check
    common_positions positions_from position_of count_breaches fills fill_breaches paired
    coverage_breaches stylized_gate ledger_gate check_message_semantics check_rows children
    duplicate_breaches latency_breaches sent wrap_int64 ◌-ℤ◌ seq_breaches arange causal_breaches
    get_or recv_by_key wakeup_breaches check_message_reference reference_rows latency_check ks_check
    wakeup_check
g3_domain_semantics-Exact_example =
    g3_domain_semantics-Exact contract good_unit (submission 2) (context_of 2) (context_of 2) refl
      refl

-- A reference trace that cannot be read.
g3_domain_semantics-faulty_example :
    FaultyTrace contract (unit_with broken)
    ⊎ ((p : Policy Value) × (card_policy contract.decimal (contents card) ≡ passed p)
        × (p.requires_message_ledger ≡ true)
        × FaultyLedger contract (unit_with broken))
unfolding g3_domain_semantics contain g3_body card_policy single_body
g3_domain_semantics-faulty_example =
    g3_domain_semantics-faulty contract (unit_with broken) (submission 2) (context_of 2) refl refl

build_verifier-Admissible_example : Admissible contract good_unit evidence (submission 2)
unfolding batch_meta
build_verifier-Admissible_example =
    build_verifier-Admissible contract run_gates run_gates-RunsInOrder good_unit evidence
      (submission 2) good_score refl admissible_run

-- A wall clock so long that the quotient is 0.
abbrev slow : EventsField → Option (Json Value)
slow scenario_id = some (text (97 ∷ []))
slow n_events = some (integer (pos 2))
slow wall_clock_sec = some (integer (pos 9))
slow events_per_sec = some (integer (pos 0))
slow seed = some (integer (pos 7))
slow trace_sha256 = some (text (100 ∷ []))

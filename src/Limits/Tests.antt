-- ===== src/Limits/Tests.antt =====
-- The rules on a roster of a single market and a batch of two.
use track3_simulation_public.Common.{
  ℕ, ◌*◌, ◌+◌, ◌≤◌, ◌≡◌, refl, ◌↔◌, Bool, true, false, Option, some, List, [], ◌∷◌, All, ltb, leb,
  arith,
}
use track3_simulation_public.Common.Int.{pos, pos_part}
use track3_simulation_public.Common.Result.{ok, Text}
use track3_simulation_public.Common.Json.{null, integer}
use track3_simulation_public.Semantics.Ledger.{count_if}
use track3_simulation_public.Limits.Domain.{
  BatchDocument, no_batch, subs_of, max_per_market, maximum, required_domain_max,
  assert_domain_max_covers_roster, batch_width, widest_from,
}
use track3_simulation_public.Limits.Covers.{
  Widest, CoveredBy, required_domain_max-Widest, assert_domain_max_covers_roster-covers,
}
use track3_simulation_public.Limits.Paths.{
  batch_events_json, events_json, message_trace_parquet, profile_sidecar, trace_parquet, path_in,
  allowed_paths_for, stable_paths_for, volatile_paths_for, sub_paths,
}
use track3_simulation_public.Limits.Partition.{stable_paths_for-split}
use track3_simulation_public.Limits.Host.{
  fields, HostMap, self_reported, developer_events_per_sec, implausible_self_report,
  implausible_self_report_iff,
}

abbrev pair_batch : BatchDocument
pair_batch = subs_of ((97 ∷ []) ∷ (98 ∷ []) ∷ [])

abbrev documents : Text → BatchDocument
documents [] = no_batch
documents (c ∷ cs) = pair_batch

abbrev roster : List Text
roster = [] ∷ (117 ∷ []) ∷ []

required_domain_max-Widest_example :
    (w : ℕ) × (20000000 ≡ max_per_market * w) × Widest documents w roster
unfolding required_domain_max widest_from batch_width
required_domain_max-Widest_example = required_domain_max-Widest documents 20000000 roster refl

ltb-monotone : (d m n : ℕ) → m ≤ n → ltb d n ≡ false → ltb d m ≡ false
ltb-monotone d m n le h = ground arith

assert_domain_max_covers_roster-covers_example : All (CoveredBy documents ltb 20000000) roster
unfolding assert_domain_max_covers_roster required_domain_max widest_from batch_width
assert_domain_max_covers_roster-covers_example =
    assert_domain_max_covers_roster-covers documents ltb 20000000 (ltb-monotone 20000000) roster
      refl

abbrev batch_paths : List Text
batch_paths =
    batch_events_json
    ∷ path_in (97 ∷ []) trace_parquet
    ∷ path_in (97 ∷ []) events_json
    ∷ path_in (97 ∷ []) message_trace_parquet
    ∷ path_in (97 ∷ []) profile_sidecar
    ∷ path_in (98 ∷ []) trace_parquet
    ∷ path_in (98 ∷ []) events_json
    ∷ path_in (98 ∷ []) message_trace_parquet
    ∷ path_in (98 ∷ []) profile_sidecar
    ∷ []

stable_paths_for-split_example :
    (ss : List Text) × (vs : List Text) × (stable_paths_for pair_batch ≡ ok ss)
    × (volatile_paths_for pair_batch ≡ ok vs)
    × ((q : Text → Bool) → count_if q batch_paths ≡ count_if q ss + count_if q vs)
unfolding allowed_paths_for sub_paths
stable_paths_for-split_example = stable_paths_for-split pair_batch batch_paths refl

abbrev hosts : Option (HostMap ℕ)
hosts = some ((97 ∷ [], fields (integer (pos 5)) null null) ∷ [])

implausible_self_report_iff_example :
    (implausible_self_report
        (λ z. pos_part z)
        (λ x. ltb 0 x)
        (λ x y. x)
        leb
        (λ n. n * 100)
        hosts
        (98 ∷ [])
        250
        2
      ≡ true)
    ↔ (((developer_events_per_sec (λ z. pos_part z) (λ x. ltb 0 x) (λ x y. x) hosts (98 ∷ []) 250).1
          ≡ self_reported)
        × (leb 250 (maximum 1 2 * 100) ≡ false))
implausible_self_report_iff_example =
    implausible_self_report_iff (λ z. pos_part z) (λ x. ltb 0 x) (λ x y. x) leb (λ n. n * 100) hosts
      (98 ∷ []) 250 2

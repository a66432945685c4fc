-- ===== src/Semantics/Tests.antt =====
-- The semantic checks on small ledgers, with concrete functions for those of pandas and numpy.
use track3_simulation_public.Common.{
  ◌≡◌, refl, ◌∙◌, ◌↔◌, ◌≢◌, inl, inr, true, false, none, some, List, [], ◌∷◌, All, arith,
  Bool-cases, if◌then◌else◌,
}
use track3_simulation_public.Common.Int.{ℤ, pos, ◌-ℤ◌}
use track3_simulation_public.Semantics.Values.{ltb_ℤ, ltb_ℤ_asym, ltb_ℤ_trans, wrap_int64}
use track3_simulation_public.Semantics.Ledger.{
  Row, Frame, agent_wakeup, order_accepted, other_type, passes, check_message_semantics,
  message_trace_columns, check_rows, children, duplicate_breaches, latency_breaches, sent,
  seq_breaches, arange, causal_breaches, get_or, recv_by_key, wakeup_breaches,
}
use track3_simulation_public.Semantics.Counting.{IsSorted, occurrences}
use track3_simulation_public.Semantics.Faithful.{Faithful, DropsDuplicates, Sorts, without}
use track3_simulation_public.Semantics.Exact.{check_message_semantics-Faithful}

abbrev pub drop_rows : List Row → List Row
drop_rows [] = []
drop_rows (r ∷ rs) = r ∷ without r (drop_rows rs)

drop_rows-DropsDuplicates : DropsDuplicates drop_rows
drop_rows-DropsDuplicates = record { on_empty = refl; on_row = λ r rs. refl }

abbrev insert_sorted : ℤ → List ℤ → List ℤ
insert_sorted z [] = z ∷ []
insert_sorted z (y ∷ ys) = if ltb_ℤ y z then y ∷ insert_sorted z ys else z ∷ y ∷ ys

abbrev pub sort_values : List ℤ → List ℤ
sort_values [] = []
sort_values (z ∷ zs) = insert_sorted z (sort_values zs)

insert_sorted-All :
    (P : ℤ → Type 0) (z : ℤ) (ys : List ℤ) → P z → All P ys → All P (insert_sorted z ys)
insert_sorted-All P z [] h hs = (h, tt)
insert_sorted-All P z (y ∷ ys) h hs = elim (Bool-cases (ltb_ℤ y z)) [
  | inl lt ↦ rw lt (hs.0, insert_sorted-All P z ys h hs.1)
  | inr ge ↦ rw ge (h, hs)
]

above-All :
    (z y : ℤ) (ys : List ℤ)
    → ltb_ℤ y z ≡ false
    → All (λ x. ltb_ℤ x y ≡ false) ys
    → All (λ x. ltb_ℤ x z ≡ false) ys
above-All z y [] h hs = tt
above-All z y (x ∷ ys) h hs = (ltb_ℤ_trans z y x h hs.0, above-All z y ys h hs.1)

insert_sorted-IsSorted : (z : ℤ) (ys : List ℤ) → IsSorted ys → IsSorted (insert_sorted z ys)
insert_sorted-IsSorted z [] h = (tt, tt)
insert_sorted-IsSorted z (y ∷ ys) h = elim (Bool-cases (ltb_ℤ y z)) [
  | inl lt ↦ rw lt (
    insert_sorted-All (λ x. ltb_ℤ x y ≡ false) z ys (ltb_ℤ_asym y z lt) h.0,
    insert_sorted-IsSorted z ys h.1,
  )
  | inr ge ↦ rw ge ((ge, above-All z y ys ge h.0), h)
]

sort_values-IsSorted : (zs : List ℤ) → IsSorted (sort_values zs)
sort_values-IsSorted [] = tt
sort_values-IsSorted (z ∷ zs) = insert_sorted-IsSorted z (sort_values zs) (sort_values-IsSorted zs)

occurrences-insert_sorted :
    (x z : ℤ) (ys : List ℤ) → occurrences x (insert_sorted z ys) ≡ occurrences x (z ∷ ys)
occurrences-insert_sorted x z [] = refl
occurrences-insert_sorted x z (y ∷ ys) = ground (arith, occurrences-insert_sorted x z ys)

occurrences-sort_values : (zs : List ℤ) (x : ℤ) → occurrences x (sort_values zs) ≡ occurrences x zs
occurrences-sort_values [] x = refl
occurrences-sort_values (z ∷ zs) x =
    occurrences-insert_sorted x z (sort_values zs) ∙ ground (arith, occurrences-sort_values zs x)

sort_values-Sorts : Sorts sort_values
sort_values-Sorts = record {
  ascending = sort_values-IsSorted;
  same_values = occurrences-sort_values;
}

-- A wakeup of agent 1 at time 5, its order to agent 0 with latency 2, and the reply.
abbrev pub sample_ledger : Frame
sample_ledger = record {
  has_column = λ c. true;
  rows =
      record {
        seq = pos 0;
        t_recv = pos 5;
        t_send = none;
        latency = pos 0;
        src = 1;
        dst = 1;
        message_id = 10;
        msg_type = agent_wakeup;
        causal_parent = none;
      }
      ∷ record {
        seq = pos 1;
        t_recv = pos 8;
        t_send = some (pos 6);
        latency = pos 2;
        src = 1;
        dst = 0;
        message_id = 11;
        msg_type = other_type 0;
        causal_parent = some 10;
      }
      ∷ record {
        seq = pos 2;
        t_recv = pos 11;
        t_send = some (pos 8);
        latency = pos 3;
        src = 0;
        dst = 1;
        message_id = 12;
        msg_type = order_accepted;
        causal_parent = some 11;
      }
      ∷ [];
}

check_message_semantics-Faithful_example :
    (passes (check_message_semantics drop_rows sort_values sample_ledger) ≡ true) ↔ (
      All (λ c. sample_ledger.has_column c ≡ true) message_trace_columns
      × (sample_ledger.rows ≢ [])
      × Faithful sample_ledger.rows)
check_message_semantics-Faithful_example =
    check_message_semantics-Faithful drop_rows sort_values drop_rows-DropsDuplicates
      sort_values-Sorts sample_ledger

sample_passes : passes (check_message_semantics drop_rows sort_values sample_ledger) ≡ true
unfolding check_message_semantics check_rows children duplicate_breaches latency_breaches sent
    wrap_int64 ◌-ℤ◌ seq_breaches arange causal_breaches get_or recv_by_key wakeup_breaches
sample_passes = refl

-- ===== src/Semantics/Exact.antt =====
-- `check_message_semantics` passes a ledger exactly if the ledger is faithful.
use track3_simulation_public.Common.{
  ◌≡◌, refl, sym, subst, ◌∙◌, inl, inr, ◌↔◌, ◌≢◌, Bool, true, false, not, ◌&&◌, Option, none, some,
  List, [], ◌∷◌, All, arith, Bool-cases, ◌==◌,
}
use mathlib.Core.Bool.{false≢true}
use track3_simulation_public.Common.Int.{ℤ, pos}
use track3_simulation_public.Semantics.Values.{eqb_ℤ, eqb_ℤ→eq}
use track3_simulation_public.Semantics.Ledger.{
  Row, Frame, no_rows, missing_columns, report, passes, is_wakeup, sent, with_send, breaks_identity,
  is_before_send, latency_breaches, Child, children, has_value, is_bad_wakeup, wakeup_breaches,
  report_rows, check_rows, missing_from, message_trace_columns, check_message_semantics, Column,
}
use track3_simulation_public.Semantics.Counting.{
  count_if-none, count_if-zero, if_any-none, append-empty, passes-empty,
}
use track3_simulation_public.Semantics.Causal.{
  causal_breaches_iff, children-Caused, Caused-children, GoodIfSome,
}
use track3_simulation_public.Semantics.Faithful.{
  OnTime, IsSelf, Faithful, DropsDuplicates, Sorts, duplicate_breaches_iff, seq_breaches_iff,
  breaks_identity_iff,
}

abbrev Sound : List (ℤ × Row) → Type 0
Sound us = All (λ u. breaks_identity u ≡ false) us × All (λ u. is_before_send u ≡ false) us

with_send-Sound :
    (r : Row) (t : Option ℤ) (us : List (ℤ × Row))
    → Sound (with_send r t us) ↔ (OnTime r t × Sound us)
with_send-Sound r none us = (λ h. (tt, h), λ h. h.1)
with_send-Sound r (some t) us = (
  λ h. (((breaks_identity_iff r t).0 h.0.0, h.1.0), (h.0.1, h.1.1)),
  λ h. (((breaks_identity_iff r t).1 h.0.0, h.1.0), (h.0.1, h.1.1)),
)

sent-Sound : (rs : List Row) → Sound (sent rs) ↔ All (λ r. OnTime r r.t_send) rs
unfolding sent
sent-Sound [] = (λ h. tt, λ h. (tt, tt))
sent-Sound (r ∷ rs) = (
  λ h. let (o, s) = (with_send-Sound r r.t_send (sent rs)).0 h in (o, (sent-Sound rs).0 s),
  λ h. (with_send-Sound r r.t_send (sent rs)).1 (h.0, (sent-Sound rs).1 h.1),
)

latency_breaches_iff :
    (rs : List Row) → (latency_breaches rs ≡ []) ↔ All (λ r. OnTime r r.t_send) rs
unfolding latency_breaches
latency_breaches_iff rs = (
  λ h.
      let (a, b) = append-empty _ _ h in
      (sent-Sound rs).0
        (count_if-none _ _ (if_any-none _ _ a), count_if-none _ _ (if_any-none _ _ b)),
  λ h. let (a, b) = (sent-Sound rs).1 h in rw (count_if-zero _ _ a, count_if-zero _ _ b) refl,
)

no_send : (o : Option ℤ) → has_value o ≡ false → o ≡ none
no_send none h = refl
no_send (some t) h = cc

both_tests :
    (a b c : Bool) → not (a && (b && not c)) ≡ false → (a ≡ true) × (b ≡ true) × (c ≡ false)
both_tests a b c h = ground (arith, h)

wakeup-IsSelf : (r : Row) → is_bad_wakeup r ≡ false → IsSelf r
wakeup-IsSelf r h w =
    let (a, b, c) =
      both_tests (r.src == r.dst) (eqb_ℤ r.latency (pos 0)) (has_value r.t_send) (rw w at h) in
    (ground (arith, a), eqb_ℤ→eq _ _ b, no_send r.t_send c)

IsSelf-wakeup : (r : Row) → IsSelf r → is_bad_wakeup r ≡ false
IsSelf-wakeup r h = elim (Bool-cases (is_wakeup r.msg_type)) [
  | inr other ↦ rw other refl
  | inl w ↦ let (a, b, c) = h w in rw (w, a, b, c) (ground arith)
]

All-both {ℓ κ μ} :
    {A : Type ℓ} {P : A → Type κ} {Q : A → Type μ}
    → ((a : A) → P a ↔ Q a)
    → (xs : List A) → All P xs ↔ All Q xs
All-both f [] = (λ h. tt, λ h. tt)
All-both f (x ∷ xs) =
    (λ h. ((f x).0 h.0, (All-both f xs).0 h.1), λ h. ((f x).1 h.0, (All-both f xs).1 h.1))

wakeup_breaches_iff : (rs : List Row) → (wakeup_breaches rs ≡ []) ↔ All IsSelf rs
unfolding wakeup_breaches
wakeup_breaches_iff rs = (
  λ h.
      (All-both (λ r. (wakeup-IsSelf r, IsSelf-wakeup r)) rs).0
        (count_if-none _ _ (if_any-none _ _ h)),
  λ h. rw (count_if-zero _ _ ((All-both (λ r. (wakeup-IsSelf r, IsSelf-wakeup r)) rs).1 h)) refl,
)

cons-empty : {c : Column} {cs : List Column} → c ∷ cs ≡ [] → ⊥
cons-empty h = cc

missing_from-none :
    (has : Column → Bool) (cs : List Column)
    → (missing_from has cs ≡ []) ↔ All (λ c. has c ≡ true) cs
unfolding missing_from
missing_from-none has [] = (λ h. tt, λ h. refl)
missing_from-none has (c ∷ cs) = elim (Bool-cases (has c)) [
  | inl there ↦ (
    λ h. (there, (missing_from-none has cs).0 (rw there at h)),
    λ h. rw there ((missing_from-none has cs).1 h.1),
  )
  | inr gone ↦ (λ h. absurd (cons-empty (rw gone at h)), λ h. absurd (false≢true (sym gone ∙ h.0)))
]

module _ (drop_duplicates : List Row → List Row) (sort : List ℤ → List ℤ)
    (drops : DropsDuplicates drop_duplicates) (sorts : Sorts sort) where
  passes-Faithful :
      (rs : List Row) (cs : Option (List Child))
      → children rs rs ≡ cs
      → passes (report_rows drop_duplicates sort rs cs) ≡ true
      → Faithful rs
  passes-Faithful rs none e h = cc
  passes-Faithful rs (some cs) e h =
      let all_empty = passes-empty _ h in
      let (duplicates, rest1) = append-empty _ _ all_empty in
      let (latency, rest2) = append-empty _ _ rest1 in
      let (sequence, rest3) = append-empty _ _ rest2 in
      let (causal, wakeups) = append-empty _ _ rest3 in
      record {
        unique = (duplicate_breaches_iff drop_duplicates drops rs).0 duplicates;
        on_time = (latency_breaches_iff rs).0 latency;
        in_sequence = (seq_breaches_iff sort sorts rs).0 sequence;
        caused =
            children-Caused rs rs (subst GoodIfSome (sym e) ((causal_breaches_iff cs).0 causal));
        wakeups = (wakeup_breaches_iff rs).0 wakeups;
      }

  Faithful-passes :
      (rs : List Row) (cs : Option (List Child))
      → children rs rs ≡ cs
      → Faithful rs
      → passes (report_rows drop_duplicates sort rs cs) ≡ true
  Faithful-passes rs none e f =
      absurd (subst GoodIfSome e (Caused-children rs rs f.unique f.caused))
  Faithful-passes rs (some cs) e f =
      rw
        (
          (duplicate_breaches_iff drop_duplicates drops rs).1 f.unique,
          (latency_breaches_iff rs).1 f.on_time,
          (seq_breaches_iff sort sorts rs).1 f.in_sequence,
          (causal_breaches_iff cs).1 (subst GoodIfSome e (Caused-children rs rs f.unique f.caused)),
          (wakeup_breaches_iff rs).1 f.wakeups,
        )
        refl

  check_rows-Faithful :
      (rs : List Row) → (passes (check_rows drop_duplicates sort rs) ≡ true) ↔ Faithful rs
  unfolding check_rows
  check_rows-Faithful rs =
      (passes-Faithful rs (children rs rs) refl, Faithful-passes rs (children rs rs) refl)

  check_present :
      (rs : List Row)
      → (passes (elim rs [
        | [] ↦ report (no_rows ∷ [])
        | r ∷ rs ↦ check_rows drop_duplicates sort (r ∷ rs)
      ])
          ≡ true)
        ↔ ((rs ≢ []) × Faithful rs)
  check_present [] = (λ h. cc, λ h. absurd (h.0 refl))
  check_present (r ∷ rs) = (
    λ h. (λ e. cc, (check_rows-Faithful (r ∷ rs)).0 h),
    λ h. (check_rows-Faithful (r ∷ rs)).1 h.1,
  )

  -- A message frame passes exactly if it has all the columns and a row, and its ledger is faithful: no
  -- message reaches a recipient twice, latencies are the time taken, the sequence numbers are
  -- a permutation of 0 to n - 1, every causal parent reached the sender before the row was sent, and
  -- wakeups are self-messages.
  pub check_message_semantics-Faithful :
      (f : Frame)
      → (passes (check_message_semantics drop_duplicates sort f) ≡ true)
        ↔ (All (λ c. f.has_column c ≡ true) message_trace_columns × (f.rows ≢ []) × Faithful f.rows)
  unfolding check_message_semantics
  check_message_semantics-Faithful f =
      by_columns (missing_from f.has_column message_trace_columns) refl
    where
      by_columns :
          (cs : List Column)
          → missing_from f.has_column message_trace_columns ≡ cs
          → (passes (elim cs [
            | c ∷ cs ↦ report (missing_columns (c ∷ cs) ∷ [])
            | [] ↦ elim f.rows [
              | [] ↦ report (no_rows ∷ [])
              | r ∷ rs ↦ check_rows drop_duplicates sort (r ∷ rs)
            ]
          ])
              ≡ true)
            ↔ (All (λ c. f.has_column c ≡ true) message_trace_columns
                × (f.rows ≢ [])
                × Faithful f.rows)
      by_columns [] e = (
        λ h.
            let (filled, faithful) = (check_present f.rows).0 h in
            ((missing_from-none f.has_column message_trace_columns).0 e, filled, faithful),
        λ h. (check_present f.rows).1 (h.1, h.2),
      )
      by_columns (c ∷ cs) e = (
        λ h. cc,
        λ h.
            absurd
              (cons-empty (sym e ∙ (missing_from-none f.has_column message_trace_columns).1 h.0)),
      )

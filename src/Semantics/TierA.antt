-- ===== src/Semantics/TierA.antt =====
-- What `check_tier_a` decides: a candidate trace passes exactly if it matches the reference.
use track3_simulation_public.Common.{
  ℕ, zero, suc, ◌<◌, ◌≡◌, refl, ap, ◌↔◌, inl, inr, Bool, true, false, List, [], ◌∷◌, map, length,
  All, ltb, arith, Bool-cases,
}
use track3_simulation_public.Common.Int.{ℤ}
use track3_simulation_public.Semantics.Counting.{count_if-none, count_if-zero, append-empty}
use track3_simulation_public.Semantics.Trace.{
  Text, Event, key_of, differs, fills, paired, is_late, TraceBreach, event_count, fill_count,
  if_some, count_breaches, fill_breaches, times_seen, file_order_positions, common_positions,
  TraceChecked, nonfinite_statistic, trace_report, trace_passes, then_report, order_check,
  sequence_check, check_tier_a,
}
use track3_simulation_public.Semantics.Coverage.{coverage_breaches-exact}

-- Two fills agree on order, price and size, and on the time up to the tolerance.
pub record Agrees (tolerance : ℤ) (p : Event × Event) : Type 0 where
  pub order_id : differs p.0.order_id p.1.order_id ≡ false
  pub price : differs p.0.price p.1.price ≡ false
  pub size : differs p.0.size p.1.size ≡ false
  pub in_time : is_late tolerance p ≡ false

-- The sequences of fills agree one by one.
abbrev pub FillsAgree : ℤ → List Event → List Event → Type 0
FillsAgree tolerance [] [] = Unit
FillsAgree tolerance [] (r ∷ rs) = ⊥
FillsAgree tolerance (c ∷ cs) [] = ⊥
FillsAgree tolerance (c ∷ cs) (r ∷ rs) = Agrees tolerance (c, r) × FillsAgree tolerance cs rs

-- The events of both are the same, each the same number of times.
abbrev pub SameEvents : List Event → List Event → Type 0
SameEvents cs rs = (k : List Text) → times_seen k (map key_of rs) ≡ times_seen k (map key_of cs)

then_report_iff :
    (bs : List TraceBreach) (r : TraceChecked)
    → (trace_passes (then_report bs r) ≡ true) ↔ ((bs ≡ []) × (trace_passes r ≡ true))
then_report_iff [] nonfinite_statistic = (λ h. cc, λ h. h.1)
then_report_iff [] (trace_report cs) = (λ h. (refl, h), λ h. h.1)
then_report_iff (b ∷ bs) nonfinite_statistic = (λ h. cc, λ h. cc)
then_report_iff (b ∷ bs) (trace_report cs) = (λ h. cc, λ h. cc)

if_some-none : (n : ℕ) (b : TraceBreach) → if_some n b ≡ [] → n ≡ 0
if_some-none zero b h = refl
if_some-none (suc n) b h = cc

count_breaches_iff : (b : ℕ → ℕ → TraceBreach) (m n : ℕ) → (count_breaches b m n ≡ []) ↔ (m ≡ n)
unfolding count_breaches
count_breaches_iff b m n = (λ h. ground (arith, h), λ h. ground (arith, h))

All-Agrees :
    (tolerance : ℤ) (ps : List (Event × Event))
    → All (λ (p : Event × Event). differs p.0.order_id p.1.order_id ≡ false) ps
    → All (λ (p : Event × Event). differs p.0.price p.1.price ≡ false) ps
    → All (λ (p : Event × Event). differs p.0.size p.1.size ≡ false) ps
    → All (λ p. is_late tolerance p ≡ false) ps
    → All (Agrees tolerance) ps
All-Agrees tolerance [] a b c d = tt
All-Agrees tolerance (p ∷ ps) a b c d = (
  record { order_id = a.0; price = b.0; size = c.0; in_time = d.0 },
  All-Agrees tolerance ps a.1 b.1 c.1 d.1,
)

Agrees-All :
    (tolerance : ℤ) (P : Event × Event → Type 0)
    → ((p : Event × Event) → Agrees tolerance p → P p)
    → (ps : List (Event × Event)) → All (Agrees tolerance) ps
    → All P ps
Agrees-All tolerance P f [] h = tt
Agrees-All tolerance P f (p ∷ ps) h = (f p h.0, Agrees-All tolerance P f ps h.1)

fill_breaches_iff :
    (tolerance : ℤ) (ps : List (Event × Event))
    → (fill_breaches tolerance ps ≡ []) ↔ All (Agrees tolerance) ps
unfolding fill_breaches
fill_breaches_iff tolerance ps = (
  λ h.
      let (a, rest1) = append-empty _ _ h in
      let (b, rest2) = append-empty _ _ rest1 in
      let (c, d) = append-empty _ _ rest2 in
      All-Agrees tolerance ps (count_if-none _ _ (if_some-none _ _ a))
        (count_if-none _ _ (if_some-none _ _ b)) (count_if-none _ _ (if_some-none _ _ c))
        (count_if-none _ _ (if_some-none _ _ d)),
  λ h.
      rw
        (
          count_if-zero _ _ (
              Agrees-All tolerance
                (λ (p : Event × Event). differs p.0.order_id p.1.order_id ≡ false)
                (λ p a. a.order_id) ps h),
          count_if-zero _ _ (
              Agrees-All tolerance (λ (p : Event × Event). differs p.0.price p.1.price ≡ false)
                (λ p a. a.price) ps h),
          count_if-zero _ _ (
              Agrees-All tolerance (λ (p : Event × Event). differs p.0.size p.1.size ≡ false)
                (λ p a. a.size) ps h),
          count_if-zero _ _
              (Agrees-All tolerance (λ p. is_late tolerance p ≡ false) (λ p a. a.in_time) ps h),
        )
        refl,
)

paired-FillsAgree :
    (tolerance : ℤ) (cs rs : List Event)
    → (FillsAgree tolerance cs rs)
      ↔ ((length cs ≡ length rs) × All (Agrees tolerance) (paired cs rs))
unfolding paired
paired-FillsAgree tolerance [] [] = (λ h. (refl, tt), λ h. tt)
paired-FillsAgree tolerance [] (r ∷ rs) = (λ h. absurd h, λ h. absurd (omega (arith, h.0)))
paired-FillsAgree tolerance (c ∷ cs) [] = (λ h. absurd h, λ h. absurd (omega (arith, h.0)))
paired-FillsAgree tolerance (c ∷ cs) (r ∷ rs) = (
  λ h. let (e, a) = (paired-FillsAgree tolerance cs rs).0 h.1 in (ap suc e, (h.0, a)),
  λ h. (h.1.0, (paired-FillsAgree tolerance cs rs).1 (omega (arith, h.0), h.1.1)),
)

module _ {F : Type 0} (is_finite : F → Bool) (less : F → F → Bool)
    (kendalltau : List ℕ → List ℕ → F) (floor : F) where
  -- The statistic on the events that both traces have is finite and reaches the floor.
  abbrev pub Ordered : List Event → List Event → Type 0
  Ordered cs rs =
      let common = common_positions (file_order_positions rs) (file_order_positions cs) in
      let tau = kendalltau (map (λ p. p.0) common) (map (λ p. p.1) common) in
      ltb 1 (length common) ≡ true → (is_finite tau ≡ true) × (less tau floor ≡ false)

  -- The candidate matches the reference.
  pub record Matches (tolerance : ℤ) (cs rs : List Event) : Type 0 where
    pub same_length : length cs ≡ length rs
    pub fills_agree : FillsAgree tolerance (fills cs) (fills rs)
    pub in_sequence : 1 < length rs → SameEvents cs rs × Ordered cs rs

  order_check_iff :
      (common : List (ℕ × ℕ))
      → (trace_passes (order_check is_finite less kendalltau floor common) ≡ true) ↔ (
          let tau = kendalltau (map (λ p. p.0) common) (map (λ p. p.1) common) in
          ltb 1 (length common) ≡ true → (is_finite tau ≡ true) × (less tau floor ≡ false))
  unfolding order_check
  order_check_iff common = (
    λ h many. ground (arith, h, many),
    λ h. elim (Bool-cases (ltb 1 (length common))) [
      | inr few ↦ rw few refl
      | inl many ↦ let (a, b) = h many in rw (many, a, b) refl
    ],
  )

  sequence_check_iff :
      (cs rs : List Event)
      → length cs ≡ length rs
      → (trace_passes (sequence_check is_finite less kendalltau floor cs rs) ≡ true)
        ↔ (1 < length rs → SameEvents cs rs × Ordered cs rs)
  unfolding sequence_check
  sequence_check_iff cs rs e = elim (Bool-cases (ltb 1 (length rs))) [
    | inr few ↦ (λ h many. absurd (ground (arith, few, many)), λ h. rw (e, few) refl)
    | inl many ↦
        rw (e, many)
          (
            λ h more.
                let (covered, ordered) = (then_report_iff _ _).0 h in
                ((coverage_breaches-exact rs cs).0 covered, (order_check_iff _).0 ordered),
            λ h.
                let (covered, ordered) = h (ground (arith, many)) in
                (then_report_iff _ _).1
                  ((coverage_breaches-exact rs cs).1 covered, (order_check_iff _).1 ordered),
          )
  ]

  -- A candidate trace passes exactly if it has as many events as the reference, its fills agree with
  -- those of the reference one by one, and, for traces of two or more events, both have the same
  -- events the same number of times and the order statistic is finite and reaches the floor.
  pub check_tier_a-Matches :
      (tolerance : ℤ) (cs rs : List Event)
      → (trace_passes (check_tier_a is_finite less kendalltau floor tolerance cs rs) ≡ true)
        ↔ Matches tolerance cs rs
  unfolding check_tier_a
  check_tier_a-Matches tolerance cs rs = (
    λ h.
        let (events, rest1) = (then_report_iff _ _).0 h in
        let (number, rest2) = (then_report_iff _ _).0 rest1 in
        let (agree, sequence) = (then_report_iff _ _).0 rest2 in
        let e = (count_breaches_iff event_count _ _).0 events in
        record {
          same_length = e;
          fills_agree = (paired-FillsAgree tolerance (fills cs) (fills rs)).1 (
            (count_breaches_iff fill_count _ _).0 number,
            (fill_breaches_iff tolerance _).0 agree,
          );
          in_sequence = (sequence_check_iff cs rs e).0 sequence;
        },
    λ m.
        let (number, agree) = (paired-FillsAgree tolerance (fills cs) (fills rs)).0 m.fills_agree in
        (then_report_iff _ _).1 (
          (count_breaches_iff event_count _ _).1 m.same_length,
          (then_report_iff _ _).1 (
            (count_breaches_iff fill_count _ _).1 number,
            (then_report_iff _ _).1 (
              (fill_breaches_iff tolerance _).1 agree,
              (sequence_check_iff cs rs m.same_length).1 m.in_sequence,
            ),
          ),
        ),
  )

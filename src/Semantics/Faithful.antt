-- ===== src/Semantics/Faithful.antt =====
-- What `check_message_semantics` decides: a ledger passes exactly if it is faithful.
use track3_simulation_public.Common.{
  ℕ, ◌≤◌, ◌≡◌, refl, sym, ap, subst, ◌∙◌, ◌⊎◌, inl, inr, ◌↔◌, Bool, true, false, not, Option, none,
  some, List, [], ◌∷◌, length, All, arith, Bool-cases, if◌then◌else◌,
}
use track3_simulation_public.Common.Int.{ℤ, pos, ◌-ℤ◌}
use track3_simulation_public.Semantics.Values.{
  eqb_ℤ, ltb_ℤ, is_negative, eqb_ℤ→eq, eqb_ℤ_refl, wrap_int64,
}
use track3_simulation_public.Semantics.Ledger.{
  Row, same_delivery, is_wakeup, breaks_identity, arange, equal_lists, seqs, duplicate_breaches,
  seq_breaches,
}
use track3_simulation_public.Semantics.Counting.{
  if_any-none, if_any-zero, IsSorted, occurrences, sorted_unique, arange-IsSorted, equal_lists→eq,
  equal_lists_refl,
}

-- No message is delivered twice to one recipient.
abbrev pub Distinct : List Row → Type 0
Distinct [] = Unit
Distinct (r ∷ rs) = All (λ r'. same_delivery r r' ≡ false) rs × Distinct rs

-- The latency of a sent row is the time that it took, in 64-bit arithmetic, and is not negative.
abbrev pub OnTime : Row → Option ℤ → Type 0
OnTime r none = Unit
OnTime r (some t) = (wrap_int64 (r.t_recv -ℤ t) ≡ r.latency) × (is_negative r.latency ≡ false)

-- The row delivers message `p` to agent `a`, at a time that is not negative and not after `t`.
abbrev pub Delivers : ℕ → ℕ → ℤ → Row → Type 0
Delivers p a t r =
    (r.message_id ≡ p) × (r.dst ≡ a) × (is_negative r.t_recv ≡ false) × (ltb_ℤ t r.t_recv ≡ false)

abbrev pub Any : (Row → Type 0) → List Row → Type 0
Any P [] = ⊥
Any P (r ∷ rs) = P r ⊎ Any P rs

-- The causal parent, if there is one, was delivered to the sender before the row was sent.
abbrev pub Caused : List Row → Row → Option ℕ → Type 0
Caused all r none = Unit
Caused all r (some p) = (t : ℤ) × (r.t_send ≡ some t) × Any (Delivers p r.src t) all

-- A wakeup is a self-message of latency 0 that was never sent.
abbrev pub IsSelf : Row → Type 0
IsSelf r = is_wakeup r.msg_type ≡ true → (r.src ≡ r.dst) × (r.latency ≡ pos 0) × (r.t_send ≡ none)

-- The kernel's invariants on a ledger.
pub record Faithful (rs : List Row) : Type 0 where
  pub unique : Distinct rs
  pub on_time : All (λ r. OnTime r r.t_send) rs
  pub in_sequence : (z : ℤ) → occurrences z (seqs rs) ≡ occurrences z (arange 0 (length rs))
  pub caused : All (λ r. Caused rs r r.causal_parent) rs
  pub wakeups : All IsSelf rs

-- The rows that are not the same delivery.
abbrev pub without : Row → List Row → List Row
without r [] = []
without r (r' ∷ rs) = if same_delivery r r' then without r rs else r' ∷ without r rs

-- pandas' `drop_duplicates`: the first row of each key stays, in order.
pub record DropsDuplicates (drop_duplicates : List Row → List Row) : Type 0 where
  pub on_empty : drop_duplicates [] ≡ []
  pub on_row :
      (r : Row) (rs : List Row) → drop_duplicates (r ∷ rs) ≡ r ∷ without r (drop_duplicates rs)

-- `np.sort`: ascending, and the same values.
pub record Sorts (sort : List ℤ → List ℤ) : Type 0 where
  pub ascending : (xs : List ℤ) → IsSorted (sort xs)
  pub same_values : (xs : List ℤ) (z : ℤ) → occurrences z (sort xs) ≡ occurrences z xs

length-without : (r : Row) (rs : List Row) → length (without r rs) ≤ length rs
length-without r [] = omega arith
length-without r (r' ∷ rs) = ground (arith, length-without r rs)

without-All :
    (r : Row) (rs : List Row)
    → length rs ≤ length (without r rs)
    → All (λ r'. same_delivery r r' ≡ false) rs
without-All r [] h = tt
without-All r (r' ∷ rs) h = elim (Bool-cases (same_delivery r r')) [
  | inl same ↦ absurd (omega (arith, (rw same at h), length-without r rs))
  | inr other ↦ (other, without-All r rs (ground (arith, other, h)))
]

without_self :
    (r : Row) (rs : List Row) → All (λ r'. same_delivery r r' ≡ false) rs → without r rs ≡ rs
without_self r [] h = refl
without_self r (r' ∷ rs) h = rw (h.0) (ap (◌∷◌ r') (without_self r rs h.1))

module _ (drop_duplicates : List Row → List Row) (drops : DropsDuplicates drop_duplicates) where
  length-drop : (rs : List Row) → length (drop_duplicates rs) ≤ length rs
  length-drop [] = rw drops.on_empty (omega arith)
  length-drop (r ∷ rs) =
      rw (drops.on_row r rs) (omega (arith, length-drop rs, length-without r (drop_duplicates rs)))

  drop-Distinct : (rs : List Row) → Distinct rs → drop_duplicates rs ≡ rs
  drop-Distinct [] h = drops.on_empty
  drop-Distinct (r ∷ rs) h =
      drops.on_row r rs ∙ ap (◌∷◌ r) (ap (without r) (drop-Distinct rs h.1) ∙ without_self r rs h.0)

  Distinct-drop : (rs : List Row) → length rs ≤ length (drop_duplicates rs) → Distinct rs
  Distinct-drop [] h = tt
  Distinct-drop (r ∷ rs) h =
      let k : length rs ≤ length (without r (drop_duplicates rs)) =
        omega (arith, h, ap length (drops.on_row r rs)) in
      let d : Distinct rs =
        Distinct-drop rs (omega (arith, k, length-without r (drop_duplicates rs))) in
      (without-All r rs (subst (λ l. length rs ≤ length (without r l)) (drop-Distinct rs d) k), d)

  pub duplicate_breaches_iff :
      (rs : List Row) → (duplicate_breaches drop_duplicates rs ≡ []) ↔ Distinct rs
  unfolding duplicate_breaches
  duplicate_breaches_iff rs = (
    λ h. Distinct-drop rs (omega (arith, if_any-none _ _ h)),
    λ d. if_any-zero _ _ (omega (arith, ap length (drop-Distinct rs d))),
  )

module _ (sort : List ℤ → List ℤ) (sorts : Sorts sort) where
  pub seq_breaches_iff :
      (rs : List Row)
      → (seq_breaches sort rs ≡ [])
        ↔ ((z : ℤ) → occurrences z (seqs rs) ≡ occurrences z (arange 0 (length rs)))
  unfolding seq_breaches
  seq_breaches_iff rs = (
    λ h z. sym (sorts.same_values (seqs rs) z) ∙ ap (occurrences z) (equal_lists→eq _ _ (passed h)),
    λ h.
        rw
          (sorted_unique (sort (seqs rs)) (arange 0 (length rs)) (sorts.ascending (seqs rs))
            (arange-IsSorted 0 (length rs)) (λ z. sorts.same_values (seqs rs) z ∙ h z))
          (rw (equal_lists_refl (arange 0 (length rs))) refl),
  )
    where
      passed :
          seq_breaches sort rs ≡ [] → equal_lists (sort (seqs rs)) (arange 0 (length rs)) ≡ true
      passed h = ground (arith, h)

pub breaks_identity_iff :
    (r : Row) (t : ℤ) → (breaks_identity (t, r) ≡ false) ↔ (wrap_int64 (r.t_recv -ℤ t) ≡ r.latency)
breaks_identity_iff r t = (
  λ h. eqb_ℤ→eq _ _ (not-false (eqb_ℤ (wrap_int64 (r.t_recv -ℤ t)) r.latency) h),
  λ h. rw h (rw (eqb_ℤ_refl r.latency) refl),
)
  where
    not-false : (b : Bool) → not b ≡ false → b ≡ true
    not-false true h = refl
    not-false false h = sym h

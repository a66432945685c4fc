-- ===== src/Semantics/Sane.antt =====
-- What the numeric sanity check decides.
use track3_simulation_public.Common.{
  ℕ, zero, suc, ◌≡◌, ◌≢◌, refl, ◌↔◌, Bool, true, false, List, [], ◌∷◌, All, arith,
}
use track3_simulation_public.Semantics.Trace.{Cell, Event}
use track3_simulation_public.Semantics.Counting.{count_if-none, count_if-zero, append-empty}
use track3_simulation_public.Semantics.Sanity.{
  NumericColumn, t_ns_column, price_column, size_column, Table, SanityBreach, numeric_columns,
  missing_numeric_from, sanity_if, is_nonfinite, is_nonphysical, nonfinite_breaches,
  nonpositive_breaches, value_breaches, sanity_of, check_numeric_sanity, Finite, Physical, SaneRow,
  Sane,
}

sanity_if-none : (n : ℕ) (b : SanityBreach) → sanity_if n b ≡ [] → n ≡ 0
sanity_if-none zero b h = refl
sanity_if-none (suc n) b h = cc

All-map {ℓ} :
    {A : Type ℓ} {P Q : A → Type 0} (f : (a : A) → P a → Q a) (xs : List A) → All P xs → All Q xs
All-map f [] h = tt
All-map f (x ∷ xs) h = (f x h.0, All-map f xs h.1)

All-both {ℓ} :
    {A : Type ℓ} {P Q R : A → Type 0} (f : (a : A) → P a → Q a → R a) (xs : List A)
    → All P xs
    → All Q xs
    → All R xs
All-both f [] h g = tt
All-both f (x ∷ xs) h g = (f x h.0 g.0, All-both f xs h.1 g.1)

missing_numeric_from-all :
    (has : NumericColumn → Bool)
    → missing_numeric_from has numeric_columns ≡ []
    → (c : NumericColumn) → has c ≡ true
unfolding missing_numeric_from
missing_numeric_from-all has h t_ns_column = ground (arith, h)
missing_numeric_from-all has h price_column = ground (arith, h)
missing_numeric_from-all has h size_column = ground (arith, h)

missing_numeric_from-none :
    (has : NumericColumn → Bool)
    → ((c : NumericColumn) → has c ≡ true)
    → missing_numeric_from has numeric_columns ≡ []
unfolding missing_numeric_from
missing_numeric_from-none has h = rw (h t_ns_column, h price_column, h size_column) refl

module _ {F : Type 0} (to_float : Cell → F) (is_finite is_nonpositive : F → Bool) where
  is_nonfinite-Finite :
      (c : NumericColumn) (e : Event)
      → (is_nonfinite to_float is_finite is_nonpositive c e ≡ false)
        ↔ Finite to_float is_finite is_nonpositive c e
  is_nonfinite-Finite c e = (λ h. ground (arith, h), λ h. ground (arith, h))

  is_nonphysical-Physical :
      (c : NumericColumn) (e : Event)
      → Finite to_float is_finite is_nonpositive c e
      → is_nonphysical to_float is_finite is_nonpositive c e ≡ false
      → Physical to_float is_finite is_nonpositive c e
  is_nonphysical-Physical c e finite h = (finite, ground (arith, finite, h))

  Physical-is_nonphysical :
      (c : NumericColumn) (e : Event)
      → Physical to_float is_finite is_nonpositive c e
      → is_nonphysical to_float is_finite is_nonpositive c e ≡ false
  Physical-is_nonphysical c e h = ground (arith, h.0, h.1)

  nonfinite_breaches_iff :
      (c : NumericColumn) (es : List Event)
      → (nonfinite_breaches to_float is_finite is_nonpositive c es ≡ [])
        ↔ All (Finite to_float is_finite is_nonpositive c) es
  unfolding nonfinite_breaches
  nonfinite_breaches_iff c es = (
    λ h. All-map (λ e. (is_nonfinite-Finite c e).0) es (count_if-none _ _ (sanity_if-none _ _ h)),
    λ h. rw (count_if-zero _ _ (All-map (λ e. (is_nonfinite-Finite c e).1) es h)) refl,
  )

  Physical-rows :
      (c : NumericColumn) (es : List Event)
      → All (Finite to_float is_finite is_nonpositive c) es
      → nonpositive_breaches to_float is_finite is_nonpositive c es ≡ []
      → All (Physical to_float is_finite is_nonpositive c) es
  unfolding nonpositive_breaches
  Physical-rows c es finite h =
      All-both (is_nonphysical-Physical c) es finite (count_if-none _ _ (sanity_if-none _ _ h))

  nonpositive_breaches-none :
      (c : NumericColumn) (es : List Event)
      → All (Physical to_float is_finite is_nonpositive c) es
      → nonpositive_breaches to_float is_finite is_nonpositive c es ≡ []
  unfolding nonpositive_breaches
  nonpositive_breaches-none c es h =
      rw (count_if-zero _ _ (All-map (Physical-is_nonphysical c) es h)) refl

  sane_rows :
      (es : List Event)
      → All (Finite to_float is_finite is_nonpositive t_ns_column) es
      → All (Physical to_float is_finite is_nonpositive price_column) es
      → All (Physical to_float is_finite is_nonpositive size_column) es
      → All (SaneRow to_float is_finite is_nonpositive) es
  sane_rows [] t p s = tt
  sane_rows (e ∷ es) t p s =
      (record { time = t.0; price = p.0; size = s.0 }, sane_rows es t.1 p.1 s.1)

  value_breaches_iff :
      (es : List Event)
      → (value_breaches to_float is_finite is_nonpositive es ≡ [])
        ↔ All (SaneRow to_float is_finite is_nonpositive) es
  unfolding value_breaches
  value_breaches_iff es = (
    λ h.
        let (times, rest1) = append-empty _ _ h in
        let (prices, rest2) = append-empty _ _ rest1 in
        let (sizes, rest3) = append-empty _ _ rest2 in
        let (positive_prices, positive_sizes) = append-empty _ _ rest3 in
        sane_rows es ((nonfinite_breaches_iff t_ns_column es).0 times)
          (Physical-rows price_column es ((nonfinite_breaches_iff price_column es).0 prices)
            positive_prices)
          (Physical-rows size_column es ((nonfinite_breaches_iff size_column es).0 sizes)
            positive_sizes),
    λ h.
        rw
          (
            (nonfinite_breaches_iff t_ns_column es).1 (All-map (λ e s. s.time) es h),
            (nonfinite_breaches_iff price_column es).1 (All-map (λ e s. s.price.0) es h),
            (nonfinite_breaches_iff size_column es).1 (All-map (λ e s. s.size.0) es h),
            nonpositive_breaches-none price_column es (All-map (λ e s. s.price) es h),
            nonpositive_breaches-none size_column es (All-map (λ e s. s.size) es h),
          )
          refl,
  )

  sanity_of_iff :
      (cs : List NumericColumn) (es : List Event)
      → (sanity_of to_float is_finite is_nonpositive cs es ≡ [])
        ↔ ((cs ≡ []) × (es ≢ []) × All (SaneRow to_float is_finite is_nonpositive) es)
  sanity_of_iff [] [] = (λ h. cc, λ h. absurd (h.1 refl))
  sanity_of_iff [] (e ∷ es) = (
    λ h. (refl, λ g. cc, (value_breaches_iff (e ∷ es)).0 h),
    λ h. (value_breaches_iff (e ∷ es)).1 h.2,
  )
  sanity_of_iff (c ∷ cs) es = (λ h. cc, λ h. cc)

  -- For any conversion to floats and any tests of finiteness and of being 0 or less, a trace passes
  -- numeric sanity exactly if it has the three numeric columns and a row, and in each row the time is
  -- finite and price and size are finite and pass the test of being above 0.
  pub check_numeric_sanity-Sane :
      (t : Table)
      → (check_numeric_sanity to_float is_finite is_nonpositive t ≡ [])
        ↔ Sane to_float is_finite is_nonpositive t
  unfolding check_numeric_sanity
  check_numeric_sanity-Sane t = (
    λ h.
        let (columns, rows, sane) = (sanity_of_iff _ _).0 h in
        record {
          all_columns = missing_numeric_from-all t.has_column columns;
          some_row = rows;
          all_rows = sane;
        },
    λ s.
        (sanity_of_iff _ _).1
          (missing_numeric_from-none t.has_column s.all_columns, s.some_row, s.all_rows),
  )

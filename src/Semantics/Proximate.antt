-- ===== src/Semantics/Proximate.antt =====
-- What `check_tier_b` decides, and what a candidate can make it raise.
use track3_simulation_public.Common.{
  ℕ, ◌≤◌, ◌≡◌, refl, ap, ◌↔◌, inl, inr, Bool, true, false, not, ◌||◌, Option, none, some, List, [],
  ◌∷◌, ◌++◌, length, ltb, leb, if◌then◌else◌, arith, Bool-cases,
}
use track3_simulation_public.Semantics.Counting.{append-empty}
use track3_simulation_public.Semantics.Trace.{Event}
use track3_simulation_public.Semantics.Attempt.{
  reference_incomplete, Attempt, raises, returns, ◌>>=◌, bind-returns, returns_injective,
}
use track3_simulation_public.Semantics.Proximity.{
  Numerics, quotes, ProximityBreach, insufficient_prices, bad_prices, paired_quotes, fill_prices,
  mids_or_fills, mid_price_series, spreads_of, spread_series, is_price_series, deviation,
  deviation_check, spread_check, return_ks, distribution_check, compare_series, guarded,
  check_tier_b,
}

module _ {F : Type 0} (num : Numerics F) where
  -- The mean spreads are close, where they are compared.
  abbrev pub SpreadsClose : F → List F → Option (List F) → Option (List F) → Type 0
  SpreadsClose tolerance mids none co = Unit
  SpreadsClose tolerance mids (some rs) none = Unit
  SpreadsClose tolerance mids (some []) (some cs) = Unit
  SpreadsClose tolerance mids (some (r ∷ rs)) (some cs) =
      num.is_positive (num.mean mids) ≡ true
      → (num.is_finite (deviation num mids cs (r ∷ rs)) ≡ true)
        × (num.less tolerance (deviation num mids cs (r ∷ rs)) ≡ false)

  -- A candidate is statistically close to the reference.
  pub record Proximate (ceiling tolerance : F) (cs rs : List Event) : Type 0 where
    pub candidate_mids : List F
    pub reference_mids : List F
    pub candidate_spreads : Option (List F)
    pub reference_spreads : Option (List F)
    pub candidate_series : mid_price_series num cs ≡ returns candidate_mids
    pub reference_series : mid_price_series num rs ≡ returns reference_mids
    pub candidate_spread_series : spread_series num cs ≡ returns candidate_spreads
    pub reference_spread_series : spread_series num rs ≡ returns reference_spreads
    pub enough : (10 ≤ length candidate_mids) × (10 ≤ length reference_mids)
    pub candidate_prices : is_price_series num candidate_mids ≡ true
    pub reference_prices : is_price_series num reference_mids ≡ true
    pub finite_ks : num.is_finite (return_ks num candidate_mids reference_mids) ≡ true
    pub ks_below : num.less ceiling (return_ks num candidate_mids reference_mids) ≡ false
    pub spreads_close : SpreadsClose tolerance reference_mids reference_spreads candidate_spreads

  deviation_check_iff :
      (tolerance d : F)
      → (deviation_check num tolerance d ≡ returns [])
        ↔ ((num.is_finite d ≡ true) × (num.less tolerance d ≡ false))
  unfolding deviation_check
  deviation_check_iff tolerance d =
      (λ h. (ground (arith, h), ground (arith, h)), λ h. rw (h.0, h.1) refl)

  distribution_check_iff :
      (ceiling ks : F)
      → (distribution_check num ceiling ks ≡ returns [])
        ↔ ((num.is_finite ks ≡ true) × (num.less ceiling ks ≡ false))
  unfolding distribution_check
  distribution_check_iff ceiling ks =
      (λ h. (ground (arith, h), ground (arith, h)), λ h. rw (h.0, h.1) refl)

  spread_check_iff :
      (tolerance : F) (mids : List F) (ro co : Option (List F))
      → (spread_check num tolerance mids ro co ≡ returns []) ↔ SpreadsClose tolerance mids ro co
  spread_check_iff tolerance mids none co = (λ h. tt, λ h. refl)
  spread_check_iff tolerance mids (some rs) none = (λ h. tt, λ h. refl)
  spread_check_iff tolerance mids (some []) (some cs) = (λ h. tt, λ h. refl)
  spread_check_iff tolerance mids (some (r ∷ rs)) (some cs) = (
    λ h level. (deviation_check_iff tolerance _).0 (rw level at h),
    λ h. elim (Bool-cases (num.is_positive (num.mean mids))) [
      | inr flat ↦ rw flat refl
      | inl level ↦ rw level ((deviation_check_iff tolerance _).1 (h level))
    ],
  )

  few_quotes : (n : ℕ) → ltb n 2 ≡ not (leb 2 n)
  few_quotes n = ground arith

  series_of :
      (many : Bool) (o : Option (List (F × F))) (prices mids : List F)
      → (if many then mids_or_fills num prices o else returns prices) ≡ returns mids
      → (r : Option (List F)) × ((if not many then returns none else spreads_of num o) ≡ returns r)
  series_of false o prices mids h = (none, refl)
  series_of true none prices mids h = cc
  series_of true (some ps) prices mids h = (_, refl)

  spread_series-returns :
      (es : List Event) (mids : List F)
      → mid_price_series num es ≡ returns mids
      → (o : Option (List F)) × (spread_series num es ≡ returns o)
  unfolding mid_price_series spread_series
  spread_series-returns es mids h =
      rw (few_quotes (length (quotes es)))
        (series_of (leb 2 (length (quotes es))) (paired_quotes num es) (fill_prices num es) mids h)

  both_none :
      (d s : Attempt (List ProximityBreach))
      → ((do ks ← d; dev ← s; returns (ks ++ dev)) ≡ returns [])
        ↔ ((d ≡ returns []) × (s ≡ returns []))
  both_none (raises e) s = (λ h. cc, λ h. cc)
  both_none (returns ks) (raises e) = (λ h. cc, λ h. cc)
  both_none (returns ks) (returns dev) = (
    λ h. let (a, b) = append-empty ks dev (returns_injective _ _ h) in (ap returns a, ap returns b),
    λ h. rw (returns_injective _ _ h.0, returns_injective _ _ h.1) refl,
  )

  compare_series_iff :
      (ceiling tolerance : F) (cs rs : List Event) (cm rm : List F) (co ro : Option (List F))
      → spread_series num cs ≡ returns co
      → spread_series num rs ≡ returns ro
      → (compare_series num ceiling tolerance cs rs cm rm ≡ returns []) ↔ (
          (distribution_check num ceiling (return_ks num cm rm) ≡ returns [])
          × (spread_check num tolerance rm ro co ≡ returns []))
  unfolding compare_series
  compare_series_iff ceiling tolerance cs rs cm rm co ro c r =
      rw (c, r) (both_none (distribution_check num ceiling (return_ks num cm rm)) _)

  enough_of :
      (m n : ℕ) (c r : Bool) (rest : Attempt (List ProximityBreach))
      → (10 ≤ m) × (10 ≤ n)
      → ((if c
            then (if r then rest else raises reference_incomplete)
            else returns (bad_prices ∷ []))
          ≡ returns [])
        ↔ (((10 ≤ m) × (10 ≤ n)) × (c ≡ true) × (r ≡ true) × (rest ≡ returns []))
  enough_of m n true true rest e = (λ h. (e, refl, refl, h), λ h. h.3)
  enough_of m n true false rest e = (λ h. cc, λ h. cc)
  enough_of m n false r rest e = (λ h. cc, λ h. cc)

  guard_of :
      (m n : ℕ) (c r : Bool) (rest : Attempt (List ProximityBreach))
      → ((if ltb n 10 || ltb m 10
            then returns (insufficient_prices m n ∷ [])
            else (if c
                then (if r then rest else raises reference_incomplete)
                else returns (bad_prices ∷ [])))
          ≡ returns [])
        ↔ (((10 ≤ m) × (10 ≤ n)) × (c ≡ true) × (r ≡ true) × (rest ≡ returns []))
  guard_of m n c r rest = elim (Bool-cases (ltb n 10 || ltb m 10)) [
    | inl few ↦ rw few (λ h. cc, λ h. absurd (ground (arith, few, h.0.0, h.0.1)))
    | inr many ↦ rw many (enough_of m n c r rest (ground (arith, many)))
  ]

  guarded_iff :
      (cm rm : List F) (rest : Attempt (List ProximityBreach))
      → (guarded num cm rm rest ≡ returns []) ↔ (
          ((10 ≤ length cm) × (10 ≤ length rm))
          × (is_price_series num cm ≡ true)
          × (is_price_series num rm ≡ true)
          × (rest ≡ returns []))
  unfolding guarded
  guarded_iff cm rm rest =
      guard_of (length cm) (length rm) (is_price_series num cm) (is_price_series num rm) rest

  -- For any floats and any statistics on them, a candidate trace passes Tier B exactly if the two
  -- mid-price series are there, with ten prices or more each, finite and above 0, the statistic of the
  -- log returns is finite and not above the ceiling, and, where both traces have spreads and the
  -- reference has some and a level above 0, the deviation of the mean spreads is finite and not above
  -- the tolerance.
  pub check_tier_b-Proximate :
      (ceiling tolerance : F) (cs rs : List Event)
      → (check_tier_b num ceiling tolerance cs rs ≡ returns []) ↔ Proximate ceiling tolerance cs rs
  unfolding check_tier_b
  check_tier_b-Proximate ceiling tolerance cs rs = (
    λ h.
        let (rm, r, rest) = bind-returns _ _ _ h in
        let (cm, c, passed) = bind-returns _ _ _ rest in
        let (enough, candidate, reference, compared) = (guarded_iff cm rm _).0 passed in
        let (co, cspr) = spread_series-returns cs cm c in
        let (ro, rspr) = spread_series-returns rs rm r in
        let (ks, dev) =
          (compare_series_iff ceiling tolerance cs rs cm rm co ro cspr rspr).0 compared in
        let (finite, below) = (distribution_check_iff ceiling _).0 ks in
        record {
          candidate_mids = cm;
          reference_mids = rm;
          candidate_spreads = co;
          reference_spreads = ro;
          candidate_series = c;
          reference_series = r;
          candidate_spread_series = cspr;
          reference_spread_series = rspr;
          enough = enough;
          candidate_prices = candidate;
          reference_prices = reference;
          finite_ks = finite;
          ks_below = below;
          spreads_close = (spread_check_iff tolerance rm ro co).0 dev;
        },
    λ p.
        rw (p.reference_series, p.candidate_series)
          ((guarded_iff _ _ _).1 (
            p.enough,
            p.candidate_prices,
            p.reference_prices,
            (compare_series_iff ceiling tolerance cs rs _ _ _ _ p.candidate_spread_series
                  p.reference_spread_series).1
                (
                  (distribution_check_iff ceiling _).1 (p.finite_ks, p.ks_below),
                  (spread_check_iff tolerance _ _ _).1 p.spreads_close,
                ),
          )),
  )

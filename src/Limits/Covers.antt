-- ===== src/Limits/Covers.antt =====
-- The ceiling that a roster requires bounds every unit of it, and is reached.
use track3_simulation_public.Common.{
  ℕ, ◌*◌, ◌≤◌, ◌≡◌, refl, sym, ap, subst, ◌∙◌, ◌⊎◌, inl, inr, Bool, true, false, not, List, [], ◌∷◌,
  All, arith,
}
use track3_simulation_public.Common.Result.{ok, Text, bind-ok, ok_injective, check-holds}
use track3_simulation_public.Limits.Domain.{
  BatchDocument, max_per_market, maximum, batch_width, widest_from, widest_batch,
  required_domain_max, assert_domain_max_covers_roster,
}

maximum-cases : (m n : ℕ) → (maximum m n ≡ m) ⊎ (maximum m n ≡ n)
maximum-cases m n = ground arith

maximum-bounds : (m n : ℕ) → (m ≤ maximum m n) × (n ≤ maximum m n)
maximum-bounds m n = ground arith

not-true : (b : Bool) → not b ≡ true → b ≡ false
not-true true h = cc
not-true false h = refl

le_of : {m w : ℕ} → m ≡ w → m ≤ w
le_of h = omega (arith, h)

module _ (root : Text → BatchDocument) where
  -- The width of a unit is known and at most `w`.
  abbrev pub WidthWithin : ℕ → Text → Type 0
  WidthWithin w h = (n : ℕ) × (batch_width (root h) ≡ ok n) × (n ≤ w)

  -- Some unit of the roster has the width.
  abbrev pub Attained : ℕ → List Text → Type 0
  Attained w [] = ⊥
  Attained w (h ∷ hs) = (batch_width (root h) ≡ ok w) ⊎ Attained w hs

  -- The widest width of a roster: it bounds every unit, and it is 1 or that of a unit.
  pub record Widest (w : ℕ) (hs : List Text) : Type 0 where
    pub bounds : All (WidthWithin w) hs
    pub least : (w ≡ 1) ⊎ Attained w hs

  widest_from-bounds :
      (m w : ℕ) (hs : List Text) → widest_from root m hs ≡ ok w → (m ≤ w) × All (WidthWithin w) hs
  unfolding widest_from
  widest_from-bounds m w [] h = (le_of (ok_injective _ _ h), tt)
  widest_from-bounds m w (u ∷ us) h =
      let (n, width, rest) = bind-ok _ _ _ h in
      let (above, later) = widest_from-bounds (maximum m n) w us rest in
      let (a, b) = maximum-bounds m n in
      (omega (arith, a, above), ((n, width, omega (arith, b, above)), later))

  widened :
      (m n w : ℕ) (u : Text) (us : List Text)
      → batch_width (root u) ≡ ok n
      → (w ≡ maximum m n) ⊎ Attained w us
      → (w ≡ m) ⊎ ((batch_width (root u) ≡ ok w) ⊎ Attained w us)
  widened m n w u us width (inr later) = inr (inr later)
  widened m n w u us width (inl top) = elim (maximum-cases m n) [
    | inl kept ↦ inl (top ∙ kept)
    | inr raised ↦ inr (inl (width ∙ ap ok (sym (top ∙ raised))))
  ]

  widest_from-Attained :
      (m w : ℕ) (hs : List Text) → widest_from root m hs ≡ ok w → (w ≡ m) ⊎ Attained w hs
  unfolding widest_from
  widest_from-Attained m w [] h = inl (sym (ok_injective _ _ h))
  widest_from-Attained m w (u ∷ us) h =
      let (n, width, rest) = bind-ok _ _ _ h in
      widened m n w u us width (widest_from-Attained (maximum m n) w us rest)

  -- The width of a unit is known, and the ceiling is not below what the unit can reach.
  abbrev pub CoveredBy : {F : Type 0} → (F → ℕ → Bool) → F → Text → Type 0
  CoveredBy below domain_max h =
      (n : ℕ) × (batch_width (root h) ≡ ok n) × (below domain_max (max_per_market * n) ≡ false)

  covered :
      {F : Type 0} (below : F → ℕ → Bool) (domain_max : F)
      → ((m n : ℕ) → m ≤ n → below domain_max n ≡ false → below domain_max m ≡ false)
      → (w : ℕ) → below domain_max (max_per_market * w) ≡ false
      → (hs : List Text) → All (WidthWithin w) hs
      → All (CoveredBy below domain_max) hs
  covered below domain_max monotone w top [] b = tt
  covered below domain_max monotone w top (h ∷ hs) b =
      let (n, width, le) = b.0 in
      (
        (n, width, monotone (max_per_market * n) (max_per_market * w) (omega (arith, le)) top),
        covered below domain_max monotone w top hs b.1,
      )

  widest_batch-Widest : (w : ℕ) (hs : List Text) → widest_batch root hs ≡ ok w → Widest w hs
  widest_batch-Widest w hs h = record {
    bounds = (widest_from-bounds 1 w hs h).1;
    least = widest_from-Attained 1 w hs h;
  }

  -- The ceiling that a roster requires is that of one market times a width that bounds the width of
  -- every unit, each of which is known, and that is 1 or the width of some unit.
  pub required_domain_max-Widest :
      (r : ℕ) (hs : List Text)
      → required_domain_max root hs ≡ ok r
      → (w : ℕ) × (r ≡ max_per_market * w) × Widest w hs
  unfolding required_domain_max
  required_domain_max-Widest r hs h =
      let (w, width, e) = bind-ok _ _ _ h in
      (w, sym (ok_injective _ _ e), widest_batch-Widest w hs width)

  -- A plan whose ceiling the check accepts has one that is not below that of one market times the width
  -- of any unit of the roster, if to be not below a number is to be not below the smaller ones.
  pub assert_domain_max_covers_roster-covers :
      {F : Type 0} (below : F → ℕ → Bool) (domain_max : F)
      → ((m n : ℕ) → m ≤ n → below domain_max n ≡ false → below domain_max m ≡ false)
      → (hs : List Text) → assert_domain_max_covers_roster root below domain_max hs ≡ ok tt
      → All (CoveredBy below domain_max) hs
  unfolding assert_domain_max_covers_roster
  assert_domain_max_covers_roster-covers below domain_max monotone hs h =
      let (r, required, rest) = bind-ok _ _ _ h in
      let (w, e, widest) = required_domain_max-Widest r hs required in
      covered below domain_max monotone w
        (subst (λ k. below domain_max k ≡ false) e (not-true _ (check-holds _ _ _ rest))) hs
        widest.bounds

-- ===== src/Throughput/Pareto.antt =====
-- What the frontier is: the points that no other beats, one of them for each point.
use track3_simulation_public.Common.{
  ◌≡◌, refl, sym, subst, ◌⊎◌, inl, inr, Bool, true, false, not, ◌&&◌, ◌||◌, List, [], ◌∷◌, All,
  arith, Bool-cases,
}
use track3_simulation_public.Throughput.Frontier.{
  FrontierPoint, any_of, beats, is_dominated, undominated,
}

-- Some member has the property.
abbrev pub Some : {A : Type 0} → (A → Type 0) → List A → Type 0
Some P [] = ⊥
Some P (x ∷ xs) = P x ⊎ Some P xs

clash : (b : Bool) → b ≡ false → b ≡ true → ⊥
clash b h g = cc

parts :
    (a b c d : Bool)
    → not a && (not b && (c || d)) ≡ true
    → (a ≡ false) × (b ≡ false) × ((c ≡ true) ⊎ (d ≡ true))
parts true b c d h = cc
parts false true c d h = cc
parts false false true d h = (refl, refl, inl refl)
parts false false false true h = (refl, refl, inr refl)
parts false false false false h = cc

whole :
    (a b c d : Bool)
    → a ≡ false
    → b ≡ false
    → (c ≡ true) ⊎ (d ≡ true)
    → not a && (not b && (c || d)) ≡ true
whole a b c d h g (inl e) = rw (h, g, e) refl
whole a b c d h g (inr e) = ground (arith, h, g, e)

module _ {F : Type 0} (less : F → F → Bool)
    (is_same : FrontierPoint F → FrontierPoint F → Bool) where
  -- A strict order whose negation is transitive too, and identity that implies equality.
  pub record Ordering : Type 0 where
    pub irreflexive : (x : F) → less x x ≡ false
    pub transitive : (x y z : F) → less x y ≡ true → less y z ≡ true → less x z ≡ true
    pub co_transitive : (x y z : F) → less x y ≡ false → less y z ≡ false → less x z ≡ false
    pub identical : (q p : FrontierPoint F) → is_same q p ≡ true → q ≡ p

  abbrev pub Beats : FrontierPoint F → FrontierPoint F → Type 0
  Beats q p = beats less is_same q p ≡ true

  -- No point of the list beats it.
  abbrev pub Unbeaten : List (FrontierPoint F) → FrontierPoint F → Type 0
  Unbeaten points p = All (λ q. beats less is_same q p ≡ false) points

  -- The point itself, or one that beats it.
  abbrev pub Covers : FrontierPoint F → FrontierPoint F → Type 0
  Covers p q = (q ≡ p) ⊎ Beats q p

  module _ (order : Ordering) where
    Beats-self : (p : FrontierPoint F) → beats less is_same p p ≡ false
    Beats-self p = rw (order.irreflexive p.throughput, order.irreflexive p.sf_divergence) refl

    below_trans : (x y z : F) → less x y ≡ true → less z y ≡ false → less x z ≡ true
    below_trans x y z h g = elim (Bool-cases (less x z)) [
      | inl lt ↦ lt
      | inr ge ↦ absurd (clash _ (order.co_transitive x z y ge g) h)
    ]

    above_trans : (x y z : F) → less x y ≡ true → less x z ≡ false → less z y ≡ true
    above_trans x y z h g = elim (Bool-cases (less z y)) [
      | inl lt ↦ lt
      | inr ge ↦ absurd (clash _ (order.co_transitive x z y g ge) h)
    ]

    Beats-trans : (r q p : FrontierPoint F) → Beats r q → Beats q p → Beats r p
    Beats-trans r q p h g =
        let (a, b, c) =
          parts (less r.throughput q.throughput) (less q.sf_divergence r.sf_divergence)
            (less q.throughput r.throughput) (less r.sf_divergence q.sf_divergence) h in
        let (a', b', c') =
          parts (less q.throughput p.throughput) (less p.sf_divergence q.sf_divergence)
            (less p.throughput q.throughput) (less q.sf_divergence p.sf_divergence) g in
        whole (less r.throughput p.throughput) (less p.sf_divergence r.sf_divergence)
          (less p.throughput r.throughput) (less r.sf_divergence p.sf_divergence)
          (order.co_transitive _ _ _ a a') (order.co_transitive _ _ _ b' b)
          (elim c [
            | inl faster ↦ inl (above_trans _ _ _ faster a')
            | inr closer ↦ inr (below_trans _ _ _ closer b')
          ])

    -- No point of a list beats a point, or some point of it that none of it beats does.
    abbrev pub Topped : List (FrontierPoint F) → FrontierPoint F → Type 0
    Topped points p = Unbeaten points p ⊎ Some (λ q. Beats q p × Unbeaten points q) points

    above_unbeaten :
        (y x p : FrontierPoint F)
        → Beats x p
        → beats less is_same y p ≡ false
        → beats less is_same y x ≡ false
    above_unbeaten y x p b h = elim (Bool-cases (beats less is_same y x)) [
      | inr under ↦ under
      | inl over ↦ absurd (clash _ h (Beats-trans y x p over b))
    ]

    other_unbeaten :
        (q p : FrontierPoint F)
        → not (is_same q p) && beats less is_same q p ≡ false
        → beats less is_same q p ≡ false
    other_unbeaten q p h = elim (Bool-cases (is_same q p)) [
      | inl same ↦
          subst (λ r. beats less is_same r p ≡ false) (sym (order.identical q p same))
            (Beats-self p)
      | inr other ↦ rw other at h
    ]

    stays_on_top :
        (x p : FrontierPoint F) (ys : List (FrontierPoint F))
        → Beats x p
        → Unbeaten ys p
        → Unbeaten ys x
    stays_on_top x p [] b h = tt
    stays_on_top x p (y ∷ ys) b h = (above_unbeaten y x p b h.0, stays_on_top x p ys b h.1)

    on_top :
        (x p : FrontierPoint F) (xs ys : List (FrontierPoint F))
        → Some (λ q. Beats q p × Unbeaten xs q) ys
        → (Beats x p × Unbeaten (x ∷ xs) x) ⊎ Some (λ q. Beats q p × Unbeaten (x ∷ xs) q) ys
    on_top x p xs [] h = absurd h
    on_top x p xs (q ∷ ys) (inl (b, h)) = elim (Bool-cases (beats less is_same x q)) [
      | inl over ↦ inl (Beats-trans x q p over b, (Beats-self x, stays_on_top x q xs over h))
      | inr under ↦ inr (inl (b, (under, h)))
    ]
    on_top x p xs (q ∷ ys) (inr later) = elim (on_top x p xs ys later) [
      | inl top ↦ inl top
      | inr found ↦ inr (inr found)
    ]

    extend : (x p : FrontierPoint F) (xs : List (FrontierPoint F)) → Topped xs p → Topped (x ∷ xs) p
    extend x p xs (inl h) = elim (Bool-cases (beats less is_same x p)) [
      | inl over ↦ inr (inl (over, (Beats-self x, stays_on_top x p xs over h)))
      | inr under ↦ inl (under, h)
    ]
    extend x p xs (inr some_top) = inr (on_top x p xs xs some_top)

    pub topped : (points : List (FrontierPoint F)) (p : FrontierPoint F) → Topped points p
    topped [] p = inl tt
    topped (x ∷ xs) p = extend x p xs (topped xs p)

    not_dominated :
        (p : FrontierPoint F) (qs : List (FrontierPoint F))
        → is_dominated less is_same qs p ≡ false
        → Unbeaten qs p
    unfolding any_of
    not_dominated p [] h = tt
    not_dominated p (q ∷ qs) h =
        (other_unbeaten q p (ground (arith, h)), not_dominated p qs (ground (arith, h)))

    kept_on_top :
        (p : FrontierPoint F) (qs : List (FrontierPoint F))
        → Unbeaten qs p
        → is_dominated less is_same qs p ≡ false
    unfolding any_of
    kept_on_top p [] h = refl
    kept_on_top p (q ∷ qs) h = ground (arith, h.0, kept_on_top p qs h.1)

    pub undominated-Unbeaten :
        (points ps : List (FrontierPoint F))
        → All (Unbeaten points) (undominated less is_same points ps)
    unfolding undominated
    undominated-Unbeaten points [] = tt
    undominated-Unbeaten points (p ∷ ps) = elim (Bool-cases (is_dominated less is_same points p)) [
      | inl out ↦ rw out (undominated-Unbeaten points ps)
      | inr kept ↦ rw kept (not_dominated p points kept, undominated-Unbeaten points ps)
    ]

    pub undominated-Some :
        (P : FrontierPoint F → Type 0) (points ps : List (FrontierPoint F))
        → Some (λ q. P q × Unbeaten points q) ps
        → Some P (undominated less is_same points ps)
    unfolding undominated
    undominated-Some P points [] h = absurd h
    undominated-Some P points (p ∷ ps) (inl (h, u)) = rw (kept_on_top p points u) (inl h)
    undominated-Some P points (p ∷ ps) (inr later) =
        elim (Bool-cases (is_dominated less is_same points p)) [
          | inl out ↦ rw out (undominated-Some P points ps later)
          | inr kept ↦ rw kept (inr (undominated-Some P points ps later))
        ]

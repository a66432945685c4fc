-- ===== src/Throughput/Front.antt =====
-- The order of the frontier, and what it decides of every point.
use track3_simulation_public.Common.{
  ◌≡◌, refl, sym, subst, ◌⊎◌, inl, inr, Bool, true, false, List, [], ◌∷◌, All, Bool-cases,
}
use track3_simulation_public.Throughput.Frontier.{
  FrontierPoint, undominated, insert_point, sort_points, pareto_frontier,
}
use track3_simulation_public.Throughput.Pareto.{
  Some, Ordering, Beats, Unbeaten, Covers, Topped, topped, undominated-Unbeaten, undominated-Some,
}

clash : (b : Bool) → b ≡ false → b ≡ true → ⊥
clash b h g = cc

module _ {F : Type 0} (less : F → F → Bool)
    (is_same : FrontierPoint F → FrontierPoint F → Bool) where
  -- By descending throughput.
  abbrev pub Descending : List (FrontierPoint F) → Type 0
  Descending [] = Unit
  Descending (p ∷ ps) =
      All (λ (q : FrontierPoint F). less p.throughput q.throughput ≡ false) ps × Descending ps

  insert_point-All :
      (P : FrontierPoint F → Type 0) (p : FrontierPoint F) (qs : List (FrontierPoint F))
      → P p
      → All P qs
      → All P (insert_point less is_same p qs)
  insert_point-All P p [] h hs = (h, tt)
  insert_point-All P p (q ∷ qs) h hs = elim (Bool-cases (less p.throughput q.throughput)) [
    | inl slower ↦ rw slower (hs.0, insert_point-All P p qs h hs.1)
    | inr first ↦ rw first (h, hs)
  ]

  sort_points-All :
      (P : FrontierPoint F → Type 0) (ps : List (FrontierPoint F))
      → All P ps
      → All P (sort_points less is_same ps)
  unfolding sort_points
  sort_points-All P [] h = tt
  sort_points-All P (p ∷ ps) h =
      insert_point-All P p (sort_points less is_same ps) h.0 (sort_points-All P ps h.1)

  insert_point-Some :
      (P : FrontierPoint F → Type 0) (p : FrontierPoint F) (qs : List (FrontierPoint F))
      → P p ⊎ Some P qs
      → Some P (insert_point less is_same p qs)
  insert_point-Some P p [] h = h
  insert_point-Some P p (q ∷ qs) (inl h) = elim (Bool-cases (less p.throughput q.throughput)) [
    | inl slower ↦ rw slower (inr (insert_point-Some P p qs (inl h)))
    | inr first ↦ rw first (inl h)
  ]
  insert_point-Some P p (q ∷ qs) (inr (inl h)) =
      elim (Bool-cases (less p.throughput q.throughput)) [
        | inl slower ↦ rw slower (inl h)
        | inr first ↦ rw first (inr (inl h))
      ]
  insert_point-Some P p (q ∷ qs) (inr (inr h)) =
      elim (Bool-cases (less p.throughput q.throughput)) [
        | inl slower ↦ rw slower (inr (insert_point-Some P p qs (inr h)))
        | inr first ↦ rw first (inr (inr h))
      ]

  sort_points-Some :
      (P : FrontierPoint F → Type 0) (ps : List (FrontierPoint F))
      → Some P ps
      → Some P (sort_points less is_same ps)
  unfolding sort_points
  sort_points-Some P [] h = absurd h
  sort_points-Some P (p ∷ ps) (inl h) = insert_point-Some P p _ (inl h)
  sort_points-Some P (p ∷ ps) (inr h) = insert_point-Some P p _ (inr (sort_points-Some P ps h))

  -- The frontier of a list: none of its points is beaten by a point of the list, each point of the list
  -- is on it or is beaten by a point on it, and it is sorted by descending throughput.
  pub record IsFrontier (points front : List (FrontierPoint F)) : Type 0 where
    pub unbeaten : All (Unbeaten less is_same points) front
    pub covering : All (λ p. Some (Covers less is_same p) front) points
    pub descending : Descending front

  module _ (order : Ordering less is_same) where
    not_above : (x y : F) → less x y ≡ true → less y x ≡ false
    not_above x y h = elim (Bool-cases (less y x)) [
      | inr ge ↦ ge
      | inl lt ↦ absurd (clash _ (order.irreflexive x) (order.transitive x y x h lt))
    ]

    rest-below :
        (p q : FrontierPoint F) (qs : List (FrontierPoint F))
        → less p.throughput q.throughput ≡ false
        → All (λ (r : FrontierPoint F). less q.throughput r.throughput ≡ false) qs
        → All (λ (r : FrontierPoint F). less p.throughput r.throughput ≡ false) qs
    rest-below p q [] h hs = tt
    rest-below p q (r ∷ qs) h hs = (order.co_transitive _ _ _ h hs.0, rest-below p q qs h hs.1)

    insert_point-Descending :
        (p : FrontierPoint F) (qs : List (FrontierPoint F))
        → Descending qs
        → Descending (insert_point less is_same p qs)
    insert_point-Descending p [] h = (tt, tt)
    insert_point-Descending p (q ∷ qs) h = elim (Bool-cases (less p.throughput q.throughput)) [
      | inl slower ↦ rw slower (
        insert_point-All (λ (r : FrontierPoint F). less q.throughput r.throughput ≡ false) p qs
            (not_above _ _ slower) h.0,
        insert_point-Descending p qs h.1,
      )
      | inr first ↦ rw first ((first, rest-below p q qs first h.0), h)
    ]

    sort_points-Descending :
        (ps : List (FrontierPoint F)) → Descending (sort_points less is_same ps)
    unfolding sort_points
    sort_points-Descending [] = tt
    sort_points-Descending (p ∷ ps) =
        insert_point-Descending p (sort_points less is_same ps) (sort_points-Descending ps)

    Some-map :
        (P Q : FrontierPoint F → Type 0)
        → ((q : FrontierPoint F) → P q → Q q)
        → (ps : List (FrontierPoint F)) → Some P ps
        → Some Q ps
    Some-map P Q f [] h = absurd h
    Some-map P Q f (p ∷ ps) (inl h) = inl (f p h)
    Some-map P Q f (p ∷ ps) (inr h) = inr (Some-map P Q f ps h)

    covered :
        (points : List (FrontierPoint F)) (p : FrontierPoint F)
        → Some (λ q. q ≡ p) points
        → Topped less is_same order points p
        → Some (λ q. Covers less is_same p q × Unbeaten less is_same points q) points
    covered points p here (inl h) =
        Some-map (λ q. q ≡ p) (λ q. Covers less is_same p q × Unbeaten less is_same points q)
          (λ q e. (inl e, subst (Unbeaten less is_same points) (sym e) h)) points here
    covered points p here (inr some_top) =
        Some-map (λ q. Beats less is_same q p × Unbeaten less is_same points q)
          (λ q. Covers less is_same p q × Unbeaten less is_same points q) (λ q h. (inr h.0, h.1))
          points some_top

    topped_by_frontier :
        (points ps : List (FrontierPoint F))
        → ((P : FrontierPoint F → Type 0) → Some P ps → Some P points)
        → All (λ p. Some (Covers less is_same p) (pareto_frontier less is_same points)) ps
    unfolding pareto_frontier
    topped_by_frontier points [] sub = tt
    topped_by_frontier points (p ∷ ps) sub = (
      sort_points-Some (Covers less is_same p) _ (
          undominated-Some less is_same order (Covers less is_same p) points points
            (covered points p (sub (λ q. q ≡ p) (inl refl)) (topped less is_same order points p))),
      topped_by_frontier points ps (λ P h. sub P (inr h)),
    )

    -- If `less` is a strict order whose negation is transitive and identity implies equality, no point
    -- of the frontier is beaten by any point, every point is on the frontier or is beaten by one on it,
    -- and the frontier is sorted by descending throughput.
    pub pareto_frontier-IsFrontier :
        (points : List (FrontierPoint F)) → IsFrontier points (pareto_frontier less is_same points)
    unfolding pareto_frontier
    pareto_frontier-IsFrontier points = record {
      unbeaten =
          sort_points-All (Unbeaten less is_same points) _
            (undominated-Unbeaten less is_same order points points);
      covering = topped_by_frontier points points (λ P h. h);
      descending = sort_points-Descending (undominated less is_same points points);
    }

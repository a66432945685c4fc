-- ===== src/Throughput/Awarded.antt =====
-- When an award of throughput/awards.py has no winner.
use track3_simulation_public.Common.{
  ◌≡◌, ◌↔◌, refl, subst, Bool, Option, none, some, List, [], ◌∷◌, All,
}
use track3_simulation_public.Throughput.Frontier.{
  FrontierPoint, pareto_frontier, sort_points, undominated,
}
use track3_simulation_public.Throughput.Pareto.{Some, Ordering, Covers}
use track3_simulation_public.Throughput.Front.{pareto_frontier-IsFrontier}
use track3_simulation_public.Throughput.Awards.{
  AwardEntry, add_ranked, ranked_by, max_or_none, best_by, label_of, gpu_key, diagnosis_key,
  best_gpu_acceleration, best_latency_semantics_preservation, best_systems_diagnosis, add_point,
  points_of, point_label, best_speed_realism_frontier, select_all,
}

add_ranked-none :
    {A F : Type 0} (a : A) (k : Option F) (later : List (A × F))
    → add_ranked a k later ≡ []
    → (k ≡ none) × (later ≡ [])
add_ranked-none a none later h = (refl, h)
add_ranked-none a (some v) later h = cc

ranked_by-none :
    {A F : Type 0} (key : A → Option F) (items : List A)
    → ranked_by key items ≡ []
    → All (λ a. key a ≡ none) items
unfolding ranked_by
ranked_by-none key [] h = tt
ranked_by-none key (a ∷ items) h =
    let (here, later) = add_ranked-none a (key a) (ranked_by key items) h in
    (here, ranked_by-none key items later)

none-ranked_by :
    {A F : Type 0} (key : A → Option F) (items : List A)
    → All (λ a. key a ≡ none) items
    → ranked_by key items ≡ []
unfolding ranked_by
none-ranked_by key [] h = refl
none-ranked_by key (a ∷ items) h = rw (h.0, none-ranked_by key items h.1) refl

all_ranked :
    {A F : Type 0} (key : A → F) (items : List A)
    → ranked_by (λ a. some (key a)) items ≡ []
    → items ≡ []
unfolding ranked_by
all_ranked key [] h = refl
all_ranked key (a ∷ items) h = cc

module _ {F : Type 0} (less : F → F → Bool) where
  add_point-none :
      (o : Option (FrontierPoint F)) (later : List (FrontierPoint F))
      → add_point less o later ≡ []
      → (o ≡ none) × (later ≡ [])
  add_point-none none later h = (refl, h)
  add_point-none (some p) later h = cc

  points_of-none :
      (es : List (AwardEntry F)) → points_of less es ≡ [] → All (λ e. e.frontier_point ≡ none) es
  unfolding points_of
  points_of-none [] h = tt
  points_of-none (e ∷ es) h =
      let (here, later) = add_point-none e.frontier_point (points_of less es) h in
      (here, points_of-none es later)

  none-points_of :
      (es : List (AwardEntry F)) → All (λ e. e.frontier_point ≡ none) es → points_of less es ≡ []
  unfolding points_of
  none-points_of [] h = refl
  none-points_of (e ∷ es) h = rw (h.0, none-points_of es h.1) refl

  max_or_none-empty : {A : Type 0} (xs : List (A × F)) → max_or_none less xs ≡ none → xs ≡ []
  max_or_none-empty [] h = refl
  max_or_none-empty (x ∷ xs) h = cc

  best_by-none :
      {A : Type 0} (key : A → Option F) (items : List A)
      → (best_by less key items ≡ none) ↔ All (λ a. key a ≡ none) items
  unfolding best_by
  best_by-none key items = (
    λ h. ranked_by-none key items (max_or_none-empty (ranked_by key items) h),
    λ h. rw (none-ranked_by key items h) refl,
  )

  label_of-none : (o : Option (AwardEntry F)) → label_of less o ≡ none → o ≡ none
  label_of-none none h = refl
  label_of-none (some e) h = cc

  labelled_none :
      (key : AwardEntry F → Option F) (es : List (AwardEntry F))
      → (label_of less (best_by less key es) ≡ none) ↔ All (λ e. key e ≡ none) es
  labelled_none key es = (
    λ h. (best_by-none key es).0 (label_of-none (best_by less key es) h),
    λ h. rw ((best_by-none key es).1 h) refl,
  )

  point_label-none : (o : Option (FrontierPoint F)) → point_label less o ≡ none → o ≡ none
  point_label-none none h = refl
  point_label-none (some p) h = cc

  module _ (is_same : FrontierPoint F → FrontierPoint F → Bool) (order : Ordering less is_same)
      (balance : FrontierPoint F → F) where
    frontier_empty :
        (points : List (FrontierPoint F)) → pareto_frontier less is_same points ≡ [] → points ≡ []
    frontier_empty [] h = refl
    frontier_empty (p ∷ ps) h = absurd (
        subst (Some (Covers less is_same p)) h
          ((pareto_frontier-IsFrontier less is_same order (p ∷ ps)).covering.0))

    frontier_none :
        (es : List (AwardEntry F))
        → (best_speed_realism_frontier less is_same balance es ≡ none)
          ↔ All (λ e. e.frontier_point ≡ none) es
    unfolding best_speed_realism_frontier best_by pareto_frontier ranked_by sort_points undominated
    frontier_none es = (
      λ h. points_of-none es (
          frontier_empty (points_of less es) (
            all_ranked balance (pareto_frontier less is_same (points_of less es))
              (max_or_none-empty _ (point_label-none _ h)))),
      λ h. rw (none-points_of es h) refl,
    )

    -- If `less` is a strict order whose negation is transitive and identity implies equality, each of
    -- the four awards has no winner exactly if no entry is eligible for it: none has a rank for the GPU
    -- award, a point, a latency margin, or a score that is not self-reported.
    pub select_all-none :
        (floor : F) (es : List (AwardEntry F))
        → let w = select_all less is_same balance floor es in
          ((w.best_gpu_acceleration ≡ none) ↔ All (λ e. gpu_key less floor e ≡ none) es)
          × ((w.best_speed_realism_frontier ≡ none) ↔ All (λ e. e.frontier_point ≡ none) es)
          × ((w.best_latency_semantics_preservation ≡ none) ↔ All (λ e. e.latency_margin ≡ none) es)
          × ((w.best_systems_diagnosis ≡ none) ↔ All (λ e. diagnosis_key less e ≡ none) es)
    unfolding select_all best_gpu_acceleration best_latency_semantics_preservation
        best_systems_diagnosis
    select_all-none floor es = (
      labelled_none (gpu_key less floor) es,
      frontier_none es,
      labelled_none (λ e. e.latency_margin) es,
      labelled_none (diagnosis_key less) es,
    )

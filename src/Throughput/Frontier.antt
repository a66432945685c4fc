-- ===== src/Throughput/Frontier.antt =====
-- throughput/frontier.py: the plane of speed and realism, and the points that no other one beats.
use track3_simulation_public.Common.{
  Bool, false, not, ◌&&◌, ◌||◌, Option, none, some, List, [], ◌∷◌, if◌then◌else◌,
}
use track3_simulation_public.Common.Result.{Text, eq_text}

-- A submission; `sf_divergence` is the lower the more realistic.
pub record FrontierPoint (F : Type 0) : Type 0 where
  pub label : Text
  pub throughput : F
  pub sf_divergence : F

unfoldable pub any_of {ℓ} : {A : Type ℓ} → (A → Bool) → List A → Bool
any_of p [] = false
any_of p (x ∷ xs) = p x || any_of p xs

-- `less` is `<` on floats, which for numbers that are no NaN has `>=` as its negation; `is_same` is
-- Python's identity of objects.
module _ {F : Type 0} (less : F → F → Bool)
    (is_same : FrontierPoint F → FrontierPoint F → Bool) where
  -- As fast and as realistic, and strictly better in one.
  abbrev pub beats : FrontierPoint F → FrontierPoint F → Bool
  beats q p =
      not (less q.throughput p.throughput)
      && (not (less p.sf_divergence q.sf_divergence)
          && (less p.throughput q.throughput || less q.sf_divergence p.sf_divergence))

  abbrev pub is_dominated : List (FrontierPoint F) → FrontierPoint F → Bool
  is_dominated points p = any_of (λ q. not (is_same q p) && beats q p) points

  -- The loop, before the sort, over the points that are left.
  unfoldable pub undominated :
      List (FrontierPoint F) → List (FrontierPoint F) → List (FrontierPoint F)
  undominated points [] = []
  undominated points (p ∷ ps) =
      if is_dominated points p then undominated points ps else p ∷ undominated points ps

  -- The sort by descending throughput, which keeps the order of equal ones.
  abbrev pub insert_point : FrontierPoint F → List (FrontierPoint F) → List (FrontierPoint F)
  insert_point p [] = p ∷ []
  insert_point p (q ∷ qs) =
      if less p.throughput q.throughput then q ∷ insert_point p qs else p ∷ q ∷ qs

  unfoldable pub sort_points : List (FrontierPoint F) → List (FrontierPoint F)
  sort_points [] = []
  sort_points (p ∷ ps) = insert_point p (sort_points ps)

  unfoldable pub pareto_frontier : List (FrontierPoint F) → List (FrontierPoint F)
  pareto_frontier points = sort_points (undominated points points)

-- `realism_from_divergences`; the divergence of a fact may be missing, `ratio` divides it by its
-- ceiling.
module _ {F : Type 0} (is_positive : F → Bool) (ratio : F → F → F) (mean : List F → F)
    (nothing : F) where
  unfoldable pub ceiling_of : Text → List (Text × F) → Option F
  ceiling_of k [] = none
  ceiling_of k ((name, c) ∷ cs) = if eq_text k name then some c else ceiling_of k cs

  abbrev pub with_ratio : Option F → Option F → List F → List F
  with_ratio none c later = later
  with_ratio (some d) none later = later
  with_ratio (some d) (some c) later = if is_positive c then ratio d c ∷ later else later

  unfoldable pub ratios : List (Text × F) → List (Text × Option F) → List F
  ratios ceilings [] = []
  ratios ceilings ((k, d) ∷ ds) = with_ratio d (ceiling_of k ceilings) (ratios ceilings ds)

  abbrev pub mean_or_nothing : List F → F
  mean_or_nothing [] = nothing
  mean_or_nothing (r ∷ rs) = mean (r ∷ rs)

  unfoldable pub realism_from_divergences : List (Text × Option F) → List (Text × F) → F
  realism_from_divergences ds ceilings = mean_or_nothing (ratios ceilings ds)

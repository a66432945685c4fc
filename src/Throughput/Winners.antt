-- ===== src/Throughput/Winners.antt =====
-- Who wins an award: the first of the eligible entries that none of them exceeds.
use track3_simulation_public.Common.{
  ◌≡◌, refl, ap, ◌∙◌, subst, ◌⊎◌, inl, inr, Bool, true, false, not, ◌&&◌, Option, none, some, List,
  [], ◌∷◌, All, if◌then◌else◌, Bool-cases,
}
use track3_simulation_public.Common.Result.{Text}
use track3_simulation_public.Throughput.Pareto.{Some}
use track3_simulation_public.Throughput.Awards.{
  AwardEntry, add_ranked, ranked_by, max_from, max_or_none, best_by, label_of, reaches, gpu_key,
  best_gpu_acceleration,
}

clash : (b : Bool) → b ≡ false → b ≡ true → ⊥
clash b h g = cc

abbrev some_or {ℓ} : {A : Type ℓ} → A → Option A → A
some_or d none = d
some_or d (some a) = a

some_injective {ℓ} : {A : Type ℓ} (a b : A) → ◌≡◌ {A = Option A} (some a) (some b) → a ≡ b
some_injective a b h = ap (some_or a) h

module _ {F : Type 0} (less : F → F → Bool) where
  -- No ranked member of the list is above the value.
  abbrev pub Tops : {A : Type 0} → (A → Option F) → F → List A → Type 0
  Tops key v [] = Unit
  Tops key v (a ∷ as_) = ((w : F) → key a ≡ some w → less v w ≡ false) × Tops key v as_

  -- It is a member of the list with a value that no other one exceeds.
  abbrev pub Wins : {A : Type 0} → (A → Option F) → List A → A → Type 0
  Wins key as_ a = Some (λ b. b ≡ a) as_ × ((v : F) × (key a ≡ some v) × Tops key v as_)

  added-member :
      {A : Type 0} (key : A → Option F) (b : A) (items : List A) (k : Option F) (a : A) (v : F)
      → key b ≡ k
      → Some (λ x. x ≡ (a, v)) (add_ranked b k (ranked_by key items))
      → (Some (λ x. x ≡ (a, v)) (ranked_by key items) → Some (λ b. b ≡ a) items × (key a ≡ some v))
      → Some (λ b. b ≡ a) (b ∷ items) × (key a ≡ some v)
  added-member key b items none a v e h later = let (found, k) = later h in (inr found, k)
  added-member key b items (some w) a v e (inl here) later = (
    inl (ap (λ x. x.0) here),
    subst (λ c. key c ≡ some v) (ap (λ x. x.0) here) (e ∙ ap (λ x. some x.1) here),
  )
  added-member key b items (some w) a v e (inr h) later = let (found, k) = later h in (inr found, k)

  added-Tops :
      {A : Type 0} (b : A) (later : List (A × F)) (k : Option F) (v : F)
      → All (λ x. less v x.1 ≡ false) (add_ranked b k later)
      → ((w : F) → k ≡ some w → less v w ≡ false) × All (λ x. less v x.1 ≡ false) later
  added-Tops b later none v h = (λ w e. cc, h)
  added-Tops b later (some u) v h =
      (λ w e. subst (λ x. less v x ≡ false) (some_injective u w e) h.0, h.1)

  eligible :
      (device self_reported used : Bool) (speedup : Option F) (v : F)
      → (if device && (not self_reported && used) then speedup else none) ≡ some v
      → (device ≡ true) × (self_reported ≡ false) × (used ≡ true)
  eligible true false true speedup v h = (refl, refl, refl)
  eligible true false false speedup v h = cc
  eligible true true used speedup v h = cc
  eligible false s used speedup v h = cc

  ranked_by-member :
      {A : Type 0} (key : A → Option F) (items : List A) (a : A) (v : F)
      → Some (λ x. x ≡ (a, v)) (ranked_by key items)
      → Some (λ b. b ≡ a) items × (key a ≡ some v)
  unfolding ranked_by
  ranked_by-member key [] a v h = absurd h
  ranked_by-member key (b ∷ items) a v h =
      added-member key b items (key b) a v refl h (ranked_by-member key items a v)

  ranked_by-Tops :
      {A : Type 0} (key : A → Option F) (items : List A) (v : F)
      → All (λ x. less v x.1 ≡ false) (ranked_by key items)
      → Tops key v items
  unfolding ranked_by
  ranked_by-Tops key [] v h = tt
  ranked_by-Tops key (b ∷ items) v h =
      let (here, later) = added-Tops b (ranked_by key items) (key b) v h in
      (here, ranked_by-Tops key items v later)

  gpu_key-eligible :
      (floor : F) (e : AwardEntry F) (v : F)
      → gpu_key less floor e ≡ some v
      → (e.is_gpu ≡ true)
        × (e.telemetry_self_reported ≡ false)
        × (reaches less floor e.gpu_utilization ≡ true)
  gpu_key-eligible floor e v h =
      eligible e.is_gpu e.telemetry_self_reported (reaches less floor e.gpu_utilization)
        e.speedup_vs_cpu_abides v h

  module _ (irreflexive : (x : F) → less x x ≡ false)
      (co_transitive : (x y z : F) → less x y ≡ false → less y z ≡ false → less x z ≡ false)
      (transitive : (x y z : F) → less x y ≡ true → less y z ≡ true → less x z ≡ true) where
    -- It has a value that none of the list exceeds, which begins with `best`.
    abbrev Greatest : {A : Type 0} → A × F → List (A × F) → A → Type 0
    Greatest best xs a =
        (v : F) × ((best ≡ (a, v)) ⊎ Some (λ x. x ≡ (a, v)) xs)
        × (less v best.1 ≡ false)
        × All (λ x. less v x.1 ≡ false) xs

    raised-Greatest :
        {A : Type 0} (best x : A × F) (xs : List (A × F)) (a : A)
        → less best.1 x.1 ≡ true
        → Greatest x xs a
        → Greatest best (x ∷ xs) a
    raised-Greatest best x xs a up (v, here, top, rest) = (
      v,
      inr here,
      elim (Bool-cases (less v best.1)) [
        | inr ge ↦ ge
        | inl lt ↦ absurd (clash _ top (transitive v best.1 x.1 lt up))
      ],
      (top, rest),
    )

    kept-Greatest :
        {A : Type 0} (best x : A × F) (xs : List (A × F)) (a : A)
        → less best.1 x.1 ≡ false
        → Greatest best xs a
        → Greatest best (x ∷ xs) a
    kept-Greatest best x xs a down (v, inl here, top, rest) =
        (v, inl here, top, (co_transitive v best.1 x.1 top down, rest))
    kept-Greatest best x xs a down (v, inr here, top, rest) =
        (v, inr (inr here), top, (co_transitive v best.1 x.1 top down, rest))

    max_from-step :
        {A : Type 0} (b : Bool) (best x : A × F) (xs : List (A × F))
        → less best.1 x.1 ≡ b
        → Greatest x xs (max_from less x xs)
        → Greatest best xs (max_from less best xs)
        → Greatest best (x ∷ xs) (max_from less (if b then x else best) xs)
    max_from-step true best x xs h raised kept = raised-Greatest best x xs _ h raised
    max_from-step false best x xs h raised kept = kept-Greatest best x xs _ h kept

    max_from-Greatest :
        {A : Type 0} (best : A × F) (xs : List (A × F)) → Greatest best xs (max_from less best xs)
    unfolding max_from
    max_from-Greatest best [] = (best.1, inl refl, irreflexive best.1, tt)
    max_from-Greatest best (x ∷ xs) =
        max_from-step (less best.1 x.1) best x xs refl (max_from-Greatest x xs)
          (max_from-Greatest best xs)

    max_or_none-greatest :
        {A : Type 0} (xs : List (A × F)) (a : A)
        → max_or_none less xs ≡ some a
        → (v : F) × Some (λ x. x ≡ (a, v)) xs × All (λ x. less v x.1 ≡ false) xs
    max_or_none-greatest [] a h = cc
    max_or_none-greatest (x ∷ xs) a h =
        let (v, here, top, rest) =
          subst (Greatest x xs) (some_injective _ _ h) (max_from-Greatest x xs) in
        (v, here, (top, rest))

    best_by-Wins :
        {A : Type 0} (key : A → Option F) (items : List A) (a : A)
        → best_by less key items ≡ some a
        → Wins key items a
    unfolding best_by
    best_by-Wins key items a h =
        let (v, here, top) = max_or_none-greatest (ranked_by key items) a h in
        let (found, e) = ranked_by-member key items a v here in
        (found, (v, e, ranked_by-Tops key items v top))

    label_of-some :
        (o : Option (AwardEntry F)) (l : Text)
        → label_of less o ≡ some l
        → (e : AwardEntry F) × (o ≡ some e) × (e.label ≡ l)
    label_of-some none l h = cc
    label_of-some (some e) l h = (e, refl, some_injective _ _ h)

    -- If `less` is a strict order whose negation is transitive, the winner of the GPU award is the
    -- label of an entry that used the device, has telemetry that is not self-reported, reaches the
    -- floor of utilization and has a speedup that no such entry exceeds.
    pub best_gpu_acceleration-Wins :
        (floor : F) (es : List (AwardEntry F)) (l : Text)
        → best_gpu_acceleration less floor es ≡ some l
        → (e : AwardEntry F) × (e.label ≡ l)
          × Wins (gpu_key less floor) es e
          × (e.is_gpu ≡ true)
          × (e.telemetry_self_reported ≡ false)
          × (reaches less floor e.gpu_utilization ≡ true)
    unfolding best_gpu_acceleration
    best_gpu_acceleration-Wins floor es l h =
        let (e, best, named) = label_of-some _ l h in
        let (found, (v, ranked, top)) = best_by-Wins (gpu_key less floor) es e best in
        let (device, measured, used) = gpu_key-eligible floor e v ranked in
        (e, named, (found, (v, ranked, top)), device, measured, used)

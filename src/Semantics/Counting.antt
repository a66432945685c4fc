-- ===== src/Semantics/Counting.antt =====
-- Counting the rows of a column, and sorted columns.
use track3_simulation_public.Common.{
  ℕ, zero, suc, ◌<◌, ◌≤◌, ◌≡◌, refl, sym, ap, subst, Bool, true, false, inl, inr, List, [], ◌∷◌,
  ◌++◌, All, arith, Bool-cases,
}
use track3_simulation_public.Common.Int.{ℤ, pos}
use track3_simulation_public.Semantics.Values.{
  eqb_ℤ, ltb_ℤ, eqb_ℤ→eq, eqb_ℤ_refl, ltb_ℤ_antisym, ltb_ℤ_irrefl,
}
use track3_simulation_public.Semantics.Ledger.{
  Breach, report, passes, count_if, if_any, arange, equal_lists,
}

pub count_if-none {ℓ} :
    {A : Type ℓ} (p : A → Bool) (xs : List A) → count_if p xs ≡ 0 → All (λ x. p x ≡ false) xs
count_if-none p [] h = tt
count_if-none p (x ∷ xs) h = elim (Bool-cases (p x)) [
  | inl holds ↦ absurd (ground (arith, holds, h))
  | inr fails ↦ (fails, count_if-none p xs (rw fails at h))
]

pub count_if-zero {ℓ} :
    {A : Type ℓ} (p : A → Bool) (xs : List A) → All (λ x. p x ≡ false) xs → count_if p xs ≡ 0
count_if-zero p [] h = refl
count_if-zero p (x ∷ xs) h = rw (h.0) (count_if-zero p xs h.1)

pub if_any-none : (n : ℕ) (b : Breach) → if_any n b ≡ [] → n ≡ 0
if_any-none zero b h = refl
if_any-none (suc n) b h = cc

pub if_any-zero : (n : ℕ) (b : Breach) → n ≡ 0 → if_any n b ≡ []
if_any-zero zero b h = refl
if_any-zero (suc n) b h = cc

pub append-empty {ℓ} : {A : Type ℓ} (xs ys : List A) → xs ++ ys ≡ [] → (xs ≡ []) × (ys ≡ [])
append-empty [] ys h = (refl, h)
append-empty (x ∷ xs) ys h = cc

pub passes-empty : (bs : List Breach) → passes (report bs) ≡ true → bs ≡ []
passes-empty [] h = refl
passes-empty (b ∷ bs) h = cc

-- In ascending order.
abbrev pub IsSorted : List ℤ → Type 0
IsSorted [] = Unit
IsSorted (x ∷ xs) = All (λ y. ltb_ℤ y x ≡ false) xs × IsSorted xs

-- How often a value occurs.
abbrev pub occurrences : ℤ → List ℤ → ℕ
occurrences z xs = count_if (eqb_ℤ z) xs

occurrence-later :
    (x z : ℤ) (xs : List ℤ)
    → All (λ y. ltb_ℤ y x ≡ false) xs
    → 0 < occurrences z xs
    → ltb_ℤ z x ≡ false
occurrence-later x z [] h some_z = absurd (omega arith)
occurrence-later x z (y ∷ xs) h some_z = elim (Bool-cases (eqb_ℤ z y)) [
  | inl same ↦ subst (λ w. ltb_ℤ w x ≡ false) (sym (eqb_ℤ→eq z y same)) h.0
  | inr other ↦ occurrence-later x z xs h.1 (rw other at some_z)
]

occurrence-head :
    (x z : ℤ) (xs : List ℤ) → IsSorted (x ∷ xs) → 0 < occurrences z (x ∷ xs) → ltb_ℤ z x ≡ false
occurrence-head x z xs h some_z = occurrence-later x z (x ∷ xs) (ltb_ℤ_irrefl x, h.0) some_z

occurrences_self : (x : ℤ) (xs : List ℤ) → 0 < occurrences x (x ∷ xs)
occurrences_self x xs = rw (eqb_ℤ_refl x) (omega arith)

occurrences-cancel :
    (x z : ℤ) (xs ys : List ℤ)
    → occurrences z (x ∷ xs) ≡ occurrences z (x ∷ ys)
    → occurrences z xs ≡ occurrences z ys
occurrences-cancel x z xs ys h = ground arith

-- A sorted list is settled by how often each value occurs.
pub sorted_unique :
    (xs ys : List ℤ)
    → IsSorted xs
    → IsSorted ys
    → ((z : ℤ) → occurrences z xs ≡ occurrences z ys)
    → xs ≡ ys
sorted_unique [] [] h k same = refl
sorted_unique [] (y ∷ ys) h k same = absurd (omega (arith, same y, occurrences_self y ys))
sorted_unique (x ∷ xs) [] h k same = absurd (omega (arith, same x, occurrences_self x xs))
sorted_unique (x ∷ xs) (y ∷ ys) h k same =
    subst (λ w. x ∷ xs ≡ w ∷ ys) head
      (ap (◌∷◌ x) (
        sorted_unique xs ys h.1 k.1 (λ z.
          occurrences-cancel x z xs ys
            (subst (λ w. occurrences z (x ∷ xs) ≡ occurrences z (w ∷ ys)) (sym head) (same z)))))
  where
    head : x ≡ y
    head =
        ltb_ℤ_antisym x y
          (occurrence-head y x ys k (subst (λ n. 0 < n) (same x) (occurrences_self x xs)))
          (occurrence-head x y xs h (subst (λ n. 0 < n) (sym (same y)) (occurrences_self y ys)))

arange-from : (j k n : ℕ) → j ≤ k → All (λ y. ltb_ℤ y (pos j) ≡ false) (arange k n)
unfolding arange
arange-from j k zero h = tt
arange-from j k (suc n) h = (ground arith, arange-from j (suc k) n (omega arith))

pub arange-IsSorted : (k n : ℕ) → IsSorted (arange k n)
unfolding arange
arange-IsSorted k zero = tt
arange-IsSorted k (suc n) = (arange-from k (suc k) n (omega arith), arange-IsSorted (suc k) n)

pub equal_lists→eq : (xs ys : List ℤ) → equal_lists xs ys ≡ true → xs ≡ ys
equal_lists→eq [] [] h = refl
equal_lists→eq [] (y ∷ ys) h = cc
equal_lists→eq (x ∷ xs) [] h = cc
equal_lists→eq (x ∷ xs) (y ∷ ys) h = elim (Bool-cases (eqb_ℤ x y)) [
  | inl same ↦
      subst (λ w. x ∷ xs ≡ w ∷ ys) (eqb_ℤ→eq x y same)
        (ap (◌∷◌ x) (equal_lists→eq xs ys (rw same at h)))
  | inr other ↦ absurd (ground (arith, other, h))
]

pub equal_lists_refl : (xs : List ℤ) → equal_lists xs xs ≡ true
equal_lists_refl [] = refl
equal_lists_refl (x ∷ xs) = rw (eqb_ℤ_refl x) (equal_lists_refl xs)

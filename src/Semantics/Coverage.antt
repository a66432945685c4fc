-- ===== src/Semantics/Coverage.antt =====
-- `_file_order_positions` and the test of coverage: no breach is reported exactly if each event occurs
-- in both traces the same number of times.
use track3_simulation_public.Common.{
  ℕ, suc, ◌+◌, ◌≤◌, ◌≡◌, refl, sym, ap, subst, ◌∙◌, ◌↔◌, inl, inr, Bool, true, false, not, ◌&&◌,
  List, [], ◌∷◌, map, All, leb, ltb, ◌==◌, if◌then◌else◌, arith, Bool-cases,
}
use track3_simulation_public.Semantics.Values.{eqb_ℤ→eq, eqb_ℤ_refl}
use track3_simulation_public.Semantics.Counting.{count_if-none, count_if-zero}
use track3_simulation_public.Semantics.Trace.{
  Text, decimal, repr_text, nan_text, inf_text, plain_text, same_sign, same_text, same_key, Event,
  key_of, times_seen, positions_from, file_order_positions, position_of, is_in, TraceBreach,
  coverage_breaches,
}

same_sign→eq : (s t : Bool) → same_sign s t ≡ true → s ≡ t
same_sign→eq true true h = refl
same_sign→eq false false h = refl
same_sign→eq true false h = cc
same_sign→eq false true h = cc

pub same_text→eq : (x y : Text) → same_text x y ≡ true → x ≡ y
same_text→eq (decimal m) (decimal n) h = ap decimal (eqb_ℤ→eq m n h)
same_text→eq (decimal m) (repr_text n) h = cc
same_text→eq (decimal m) nan_text h = cc
same_text→eq (decimal m) (inf_text n) h = cc
same_text→eq (decimal m) (plain_text n) h = cc
same_text→eq (repr_text m) (decimal n) h = cc
same_text→eq (repr_text m) (repr_text n) h = ap repr_text (ground (arith, h))
same_text→eq (repr_text m) nan_text h = cc
same_text→eq (repr_text m) (inf_text n) h = cc
same_text→eq (repr_text m) (plain_text n) h = cc
same_text→eq nan_text (decimal n) h = cc
same_text→eq nan_text (repr_text n) h = cc
same_text→eq nan_text nan_text h = refl
same_text→eq nan_text (inf_text n) h = cc
same_text→eq nan_text (plain_text n) h = cc
same_text→eq (inf_text m) (decimal n) h = cc
same_text→eq (inf_text m) (repr_text n) h = cc
same_text→eq (inf_text m) nan_text h = cc
same_text→eq (inf_text m) (inf_text n) h = ap inf_text (same_sign→eq m n h)
same_text→eq (inf_text m) (plain_text n) h = cc
same_text→eq (plain_text m) (decimal n) h = cc
same_text→eq (plain_text m) (repr_text n) h = cc
same_text→eq (plain_text m) nan_text h = cc
same_text→eq (plain_text m) (inf_text n) h = cc
same_text→eq (plain_text m) (plain_text n) h = ap plain_text (ground (arith, h))

pub same_text_refl : (x : Text) → same_text x x ≡ true
same_text_refl (decimal n) = eqb_ℤ_refl n
same_text_refl (repr_text c) = ground arith
same_text_refl nan_text = refl
same_text_refl (inf_text true) = refl
same_text_refl (inf_text false) = refl
same_text_refl (plain_text c) = ground arith

pub same_key→eq : (k l : List Text) → same_key k l ≡ true → k ≡ l
same_key→eq [] [] h = refl
same_key→eq [] (y ∷ ys) h = cc
same_key→eq (x ∷ xs) [] h = cc
same_key→eq (x ∷ xs) (y ∷ ys) h = elim (Bool-cases (same_text x y)) [
  | inl same ↦
      subst (λ w. x ∷ xs ≡ w ∷ ys) (same_text→eq x y same)
        (ap (◌∷◌ x) (same_key→eq xs ys (rw same at h)))
  | inr other ↦ absurd (ground (arith, other, h))
]

pub same_key_refl : (k : List Text) → same_key k k ≡ true
same_key_refl [] = refl
same_key_refl (x ∷ xs) = rw (same_text_refl x) (same_key_refl xs)

-- The occurrences that a trace has of a key are numbered from 0 upwards.
is_in-positions :
    (k : List Text) (c i at : ℕ) (seen ks : List (List Text))
    → is_in (positions_from seen at ks) ((k, c), i)
      ≡ leb (times_seen k seen) c && ltb c (times_seen k seen + times_seen k ks)
unfolding positions_from position_of
is_in-positions k c i at seen [] = ground arith
is_in-positions k c i at seen (l ∷ ks) = elim (Bool-cases (same_key k l)) [
  | inl same ↦
      let e : times_seen l seen ≡ times_seen k seen =
        ap (λ w. times_seen w seen) (sym (same_key→eq k l same)) in
      ground (arith, same, e, is_in-positions k c i (suc at) (l ∷ seen) ks)
  | inr other ↦ ground (arith, other, is_in-positions k c i (suc at) (l ∷ seen) ks)
]

module _ (ls : List (List Text)) where
  is_in-all :
      (k : List Text) (c i : ℕ)
      → is_in (positions_from [] 0 ls) ((k, c), i) ≡ ltb c (times_seen k ls)
  is_in-all k c i = is_in-positions k c i 0 [] ls ∙ ground arith

  -- If the occurrences of a trace are all in `ls`, it has no key more often than `ls`.
  covered-bound :
      (seen ks : List (List Text)) (at : ℕ)
      → All (λ e. not (is_in (positions_from [] 0 ls) e) ≡ false) (positions_from seen at ks)
      → (k : List Text) → times_seen k seen ≤ times_seen k ls
      → times_seen k seen + times_seen k ks ≤ times_seen k ls
  unfolding positions_from
  covered-bound seen [] at h k le = omega (arith, le)
  covered-bound seen (l ∷ ks) at h k le = elim (Bool-cases (same_key k l)) [
    | inl same ↦
        let e : k ≡ l = same_key→eq k l same in
        let inside : ltb (times_seen l seen) (times_seen l ls) ≡ true =
          sym (is_in-all l (times_seen l seen) at) ∙ twice _ h.0 in
        let inside_k : ltb (times_seen k seen) (times_seen k ls) ≡ true =
          subst (λ w. ltb (times_seen w seen) (times_seen w ls) ≡ true) (sym e) inside in
        ground (
          arith,
          same,
          inside_k,
          covered-bound (l ∷ seen) ks (suc at) h.1 k (ground (arith, same, inside_k)),
        )
    | inr other ↦
        ground
          (arith, other, covered-bound (l ∷ seen) ks (suc at) h.1 k (ground (arith, other, le)))
  ]
    where
      twice : (b : Bool) → not b ≡ false → b ≡ true
      twice true h = refl
      twice false h = sym h

  bound-covered :
      (seen ks : List (List Text)) (at : ℕ)
      → ((k : List Text) → times_seen k seen + times_seen k ks ≤ times_seen k ls)
      → All (λ e. not (is_in (positions_from [] 0 ls) e) ≡ false) (positions_from seen at ks)
  unfolding positions_from
  bound-covered seen [] at h = tt
  bound-covered seen (l ∷ ks) at h = (
    rw (is_in-all l (times_seen l seen) at) (ground (arith, h l, same_key_refl l)),
    bound-covered (l ∷ seen) ks (suc at) (λ k. ground (arith, h k)),
  )

-- Coverage is exact if and only if each key occurs in both traces the same number of times.
pub coverage_breaches-exact :
    (rs cs : List Event)
    → (coverage_breaches (file_order_positions rs) (file_order_positions cs) ≡ [])
      ↔ ((k : List Text) → times_seen k (map key_of rs) ≡ times_seen k (map key_of cs))
unfolding coverage_breaches
coverage_breaches-exact rs cs = (
  λ h k.
      let (missing, extra) = both_zero _ _ _ h in
      omega (
        arith,
        covered-bound (map key_of cs) [] (map key_of rs) 0 (count_if-none _ _ missing) k
            (omega arith),
        covered-bound (map key_of rs) [] (map key_of cs) 0 (count_if-none _ _ extra) k
            (omega arith),
      ),
  λ h.
      rw
        (
          count_if-zero _ _
              (bound-covered (map key_of cs) [] (map key_of rs) 0 (λ k. omega (arith, h k))),
          count_if-zero _ _
              (bound-covered (map key_of rs) [] (map key_of cs) 0 (λ k. omega (arith, h k))),
        )
        refl,
)
  where
    both_zero :
        (m n : ℕ) (b : TraceBreach)
        → (if (m == 0) && (n == 0) then [] else b ∷ []) ≡ []
        → (m ≡ 0) × (n ≡ 0)
    both_zero m n b h = ground (arith, h)

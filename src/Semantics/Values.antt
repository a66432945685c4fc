-- ===== src/Semantics/Values.antt =====
-- The integers of a trace: Boolean tests, and the 64-bit arithmetic of its columns.
use track3_simulation_public.Common.{
  ℕ, suc, ◌^◌, ◌≡◌, refl, ap, Bool, true, false, ltb, ◌==◌, if◌then◌else◌, arith,
}
use track3_simulation_public.Common.Int.{ℤ, pos, negsuc, sub_ℕ}

abbrev pub eqb_ℤ : ℤ → ℤ → Bool
eqb_ℤ (pos m) (pos n) = m == n
eqb_ℤ (negsuc m) (negsuc n) = m == n
eqb_ℤ (pos m) (negsuc n) = false
eqb_ℤ (negsuc m) (pos n) = false

abbrev pub ltb_ℤ : ℤ → ℤ → Bool
ltb_ℤ (pos m) (pos n) = ltb m n
ltb_ℤ (negsuc m) (negsuc n) = ltb n m
ltb_ℤ (pos m) (negsuc n) = false
ltb_ℤ (negsuc m) (pos n) = true

abbrev pub is_negative : ℤ → Bool
is_negative (pos n) = false
is_negative (negsuc n) = true

same : (m n : ℕ) → (m == n) ≡ true → m ≡ n
same m n h = ground arith

itself : (n : ℕ) → (n == n) ≡ true
itself n = ground arith

pub eqb_ℤ→eq : (a b : ℤ) → eqb_ℤ a b ≡ true → a ≡ b
eqb_ℤ→eq (pos m) (pos n) h = ap pos (same m n h)
eqb_ℤ→eq (negsuc m) (negsuc n) h = ap negsuc (same m n h)
eqb_ℤ→eq (pos m) (negsuc n) h = cc
eqb_ℤ→eq (negsuc m) (pos n) h = cc

pub eqb_ℤ_refl : (a : ℤ) → eqb_ℤ a a ≡ true
eqb_ℤ_refl (pos n) = itself n
eqb_ℤ_refl (negsuc n) = itself n

-- Neither is below the other only if they are equal.
pub ltb_ℤ_antisym : (a b : ℤ) → ltb_ℤ a b ≡ false → ltb_ℤ b a ≡ false → a ≡ b
ltb_ℤ_antisym (pos m) (pos n) h k = ap pos (ground arith)
ltb_ℤ_antisym (negsuc m) (negsuc n) h k = ap negsuc (ground arith)
ltb_ℤ_antisym (pos m) (negsuc n) h k = cc
ltb_ℤ_antisym (negsuc m) (pos n) h k = cc

pub ltb_ℤ_irrefl : (a : ℤ) → ltb_ℤ a a ≡ false
ltb_ℤ_irrefl (pos m) = ground arith
ltb_ℤ_irrefl (negsuc m) = ground arith

-- Not below is transitive.
pub ltb_ℤ_trans : (a b c : ℤ) → ltb_ℤ b a ≡ false → ltb_ℤ c b ≡ false → ltb_ℤ c a ≡ false
ltb_ℤ_trans (pos a) (pos b) (pos c) h k = ground arith
ltb_ℤ_trans (pos a) (pos b) (negsuc c) h k = cc
ltb_ℤ_trans (pos a) (negsuc b) c h k = cc
ltb_ℤ_trans (negsuc a) (pos b) (pos c) h k = refl
ltb_ℤ_trans (negsuc a) (pos b) (negsuc c) h k = cc
ltb_ℤ_trans (negsuc a) (negsuc b) (pos c) h k = refl
ltb_ℤ_trans (negsuc a) (negsuc b) (negsuc c) h k = ground arith

-- One is not below the other.
pub ltb_ℤ_asym : (a b : ℤ) → ltb_ℤ a b ≡ true → ltb_ℤ b a ≡ false
ltb_ℤ_asym (pos m) (pos n) h = ground arith
ltb_ℤ_asym (negsuc m) (negsuc n) h = ground arith
ltb_ℤ_asym (pos m) (negsuc n) h = cc
ltb_ℤ_asym (negsuc m) (pos n) h = refl

-- The values of a numpy `int64`: a result out of range wraps around. What comes in is the exact
-- sum or difference of two such values, so one turn is enough.
abbrev half_range : ℕ
half_range = 2 ^ 63

abbrev full_range : ℕ
full_range = 2 ^ 64

unfoldable pub wrap_int64 : ℤ → ℤ
wrap_int64 (pos n) = if ltb n half_range then pos n else sub_ℕ n full_range
wrap_int64 (negsuc n) = if ltb n half_range then negsuc n else sub_ℕ full_range (suc n)

-- ===== src/Common/Result.antt =====
-- A result or an error, and texts as lists of code points.
use Prim.Native.Nat.{ℕ}
use mathlib.Core.Path.{◌≡◌, refl, ap}
use mathlib.Core.Bool.{Bool, true, false, ◌&&◌, ◌||◌}
use mathlib.Core.List.{List, [], ◌∷◌}
use native.Mathlib.Omega.{arith}
use track3_simulation_public.Common.Tests.{◌==◌}

pub data Result {ℓ κ} (E : Type ℓ) (A : Type κ) : Type (ℓ ⊔ κ) where
  error : E → Result E A
  ok : A → Result E A

infixl 5 ◌>>=◌
abbrev pub ◌>>=◌ {ℓ κ μ} :
    {E : Type ℓ} {A : Type κ} {B : Type μ} → Result E A → (A → Result E B) → Result E B
error e >>= f = error e
ok a >>= f = f a

abbrev pub check {ℓ} : {E : Type ℓ} → Bool → E → Result E (Unit {0})
check true e = ok tt
check false e = error e

abbrev value_or {ℓ κ} : {E : Type ℓ} {A : Type κ} → A → Result E A → A
value_or d (error e) = d
value_or d (ok a) = a

module _ {ℓ κ} {E : Type ℓ} where
  pub ok_injective : {A : Type κ} (a b : A) → ◌≡◌ {A = Result E A} (ok a) (ok b) → a ≡ b
  ok_injective a b h = ap (value_or a) h

  pub bind-ok {μ} :
      {A : Type κ} {B : Type μ} (r : Result E A) (f : A → Result E B) (b : B)
      → (r >>= f) ≡ ok b
      → (a : A) × (r ≡ ok a) × (f a ≡ ok b)
  bind-ok (error e) f b h = cc
  bind-ok (ok a) f b h = (a, refl, h)

pub check-holds {ℓ} : {E : Type ℓ} (b : Bool) (e : E) (u : Unit {0}) → check b e ≡ ok u → b ≡ true
check-holds true e u h = refl
check-holds false e u h = cc

-- A text by its code points.
abbrev pub Text : Type 0
Text = List ℕ

abbrev pub eq_text : Text → Text → Bool
eq_text [] [] = true
eq_text [] (d ∷ ds) = false
eq_text (c ∷ cs) [] = false
eq_text (c ∷ cs) (d ∷ ds) = (c == d) && eq_text cs ds

abbrev pub is_member : Text → List Text → Bool
is_member t [] = false
is_member t (u ∷ us) = eq_text t u || is_member t us

pub eq_text_refl : (t : Text) → eq_text t t ≡ true
eq_text_refl [] = refl
eq_text_refl (c ∷ cs) = ground (arith, eq_text_refl cs)

cons_same : (c d : ℕ) (cs ds : Text) → c ≡ d → cs ≡ ds → ◌≡◌ {A = Text} (c ∷ cs) (d ∷ ds)
cons_same c d cs ds h g = rw (h, g) refl

pub eq_text→eq : (t u : Text) → eq_text t u ≡ true → t ≡ u
eq_text→eq [] [] h = refl
eq_text→eq [] (d ∷ ds) h = cc
eq_text→eq (c ∷ cs) [] h = cc
eq_text→eq (c ∷ cs) (d ∷ ds) h =
    cons_same c d cs ds (ground (arith, h)) (eq_text→eq cs ds (ground (arith, h)))

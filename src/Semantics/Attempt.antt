-- ===== src/Semantics/Attempt.antt =====
-- The exceptions of qfbench2_track_simulation/semantics.py and of the libraries that it calls.
use track3_simulation_public.Common.{◌≡◌, refl, ap, List, [], ◌∷◌, Bool, true, false}

-- `ReferenceIncomplete`, `NonfiniteStatistic`, and any other exception, as the `ValueError` of pandas on
-- labels that occur twice.
pub data Raise : Type 0 where
  reference_incomplete nonfinite_statistic other_error : Raise

pub data Attempt {ℓ} (A : Type ℓ) : Type ℓ where
  raises : Raise → Attempt A
  returns : A → Attempt A

infixl 5 ◌>>=◌
abbrev pub ◌>>=◌ {ℓ κ} : {A : Type ℓ} {B : Type κ} → Attempt A → (A → Attempt B) → Attempt B
raises e >>= f = raises e
returns a >>= f = f a

-- Goes on if the test holds.
abbrev pub unless : Bool → Raise → Attempt (Unit {0})
unless true e = returns tt
unless false e = raises e

module _ {ℓ κ} {A : Type ℓ} {B : Type κ} where
  pub bind-returns :
      (r : Attempt A) (f : A → Attempt B) (b : B)
      → (r >>= f) ≡ returns b
      → (a : A) × (r ≡ returns a) × (f a ≡ returns b)
  bind-returns (raises e) f b h = cc
  bind-returns (returns a) f b h = (a, refl, h)

pub unless-holds : (b : Bool) (e : Raise) (u : Unit {0}) → unless b e ≡ returns u → b ≡ true
unless-holds true e u h = refl
unless-holds false e u h = cc

-- It raised `ReferenceIncomplete`.
abbrev pub is_reference_fault {ℓ} : {A : Type ℓ} → Attempt A → Bool
is_reference_fault (raises reference_incomplete) = true
is_reference_fault (raises nonfinite_statistic) = false
is_reference_fault (raises other_error) = false
is_reference_fault (returns a) = false

-- A step that never raises it has returned if the chain raises it.
pub past_attempt {ℓ κ} :
    {A : Type ℓ} {B : Type κ} (r : Attempt A) (f : A → Attempt B)
    → is_reference_fault r ≡ false
    → is_reference_fault (r >>= f) ≡ true
    → (a : A) × (r ≡ returns a) × (is_reference_fault (f a) ≡ true)
past_attempt (raises reference_incomplete) f n h = cc
past_attempt (raises nonfinite_statistic) f n h = cc
past_attempt (raises other_error) f n h = cc
past_attempt (returns a) f n h = (a, refl, h)

-- The value of an attempt, or a default.
abbrev returned {ℓ} : {A : Type ℓ} → A → Attempt A → A
returned d (raises e) = d
returned d (returns a) = a

pub returns_injective {ℓ} :
    {A : Type ℓ} (a b : A) → ◌≡◌ {A = Attempt A} (returns a) (returns b) → a ≡ b
returns_injective a b h = ap (returned a) h

cons_some {ℓ} : {A : Type ℓ} (x : A) (xs : List A) → x ∷ xs ≡ [] → ⊥
cons_some x xs h = cc

pub returns-cons {ℓ} :
    {A : Type ℓ} (x : A) (xs : List A)
    → ◌≡◌ {A = Attempt (List A)} (returns (x ∷ xs)) (returns [])
    → ⊥
returns-cons x xs h = cons_some x xs (returns_injective _ _ h)

-- ===== src/Telemetry/Verdict.antt =====
-- Results that name whose fault a refusal is: `OrganizerFault` and `ParticipantFailure`.
use track3_simulation_public.Common.{◌≡◌, refl, ap, ◌⊎◌, inl, inr, Bool, true, false}

pub data Verdict {ℓ κ} (E : Type ℓ) (A : Type κ) : Type (ℓ ⊔ κ) where
  accepted : A → Verdict E A
  organizer_fault : E → Verdict E A
  participant_failure : E → Verdict E A

infixl 5 ◌>>=◌
abbrev pub ◌>>=◌ {ℓ κ μ} :
    {E : Type ℓ} {A : Type κ} {B : Type μ} → Verdict E A → (A → Verdict E B) → Verdict E B
accepted a >>= f = f a
organizer_fault e >>= f = organizer_fault e
participant_failure e >>= f = participant_failure e

abbrev pub is_participants {ℓ κ} : {E : Type ℓ} {A : Type κ} → Verdict E A → Bool
is_participants (accepted a) = false
is_participants (organizer_fault e) = false
is_participants (participant_failure e) = true

-- Goes on if the test holds.
abbrev pub require {ℓ} : {E : Type ℓ} → Bool → E → Verdict E (Unit {0})
require true e = accepted tt
require false e = organizer_fault e

abbrev pub require_of_participant {ℓ} : {E : Type ℓ} → Bool → E → Verdict E (Unit {0})
require_of_participant true e = accepted tt
require_of_participant false e = participant_failure e

module _ {ℓ κ μ} {E : Type ℓ} {A : Type κ} {B : Type μ} where
  pub bind-accepted :
      (r : Verdict E A) (f : A → Verdict E B) (b : B)
      → (r >>= f) ≡ accepted b
      → (a : A) × (r ≡ accepted a) × (f a ≡ accepted b)
  bind-accepted (accepted a) f b h = (a, refl, h)
  bind-accepted (organizer_fault e) f b h = cc
  bind-accepted (participant_failure e) f b h = cc

  -- A failure of the participant in a chain is one of the first step, or one after its success.
  pub bind-is_participants :
      (r : Verdict E A) (f : A → Verdict E B)
      → is_participants (r >>= f) ≡ true
      → (is_participants r ≡ true) ⊎ ((a : A) × (r ≡ accepted a) × (is_participants (f a) ≡ true))
  bind-is_participants (accepted a) f h = inr (a, refl, h)
  bind-is_participants (organizer_fault d) f h = cc
  bind-is_participants (participant_failure d) f h = inl refl

  -- A step that never fails the participant has succeeded if the chain fails them.
  pub past_step :
      (r : Verdict E A) (f : A → Verdict E B)
      → is_participants r ≡ false
      → is_participants (r >>= f) ≡ true
      → (a : A) × (r ≡ accepted a) × (is_participants (f a) ≡ true)
  past_step (accepted a) f n h = (a, refl, h)
  past_step (organizer_fault d) f n h = cc
  past_step (participant_failure d) f n h = cc

module _ {ℓ} {E : Type ℓ} where
  pub require-holds : (b : Bool) (e : E) (u : Unit {0}) → require b e ≡ accepted u → b ≡ true
  require-holds true e u h = refl
  require-holds false e u h = cc

  pub require-is_participants : (b : Bool) (e : E) → is_participants (require b e) ≡ false
  require-is_participants true e = refl
  require-is_participants false e = refl

  pub require_of_participant-holds :
      (b : Bool) (e : E) (u : Unit {0}) → require_of_participant b e ≡ accepted u → b ≡ true
  require_of_participant-holds true e u h = refl
  require_of_participant-holds false e u h = cc

abbrev value_or {ℓ κ} : {E : Type ℓ} {A : Type κ} → A → Verdict E A → A
value_or d (accepted a) = a
value_or d (organizer_fault e) = d
value_or d (participant_failure e) = d

pub accepted_injective {ℓ κ} :
    {E : Type ℓ} {A : Type κ} (a b : A) → ◌≡◌ {A = Verdict E A} (accepted a) (accepted b) → a ≡ b
accepted_injective a b h = ap (value_or a) h

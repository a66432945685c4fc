-- ===== src/Kernel/Queue.antt =====
-- `EventQueue` of baselines/fast_sim/hotpath.py: the heap as the ascending list of its items.
use track3_simulation_public.Common.{
  ℕ, ◌≡◌, inl, inr, Bool, true, false, ◌&&◌, ◌||◌, Option, none, some, List, [], ◌∷◌, All, ltb,
  ◌==◌, if◌then◌else◌, arith, Bool-cases,
}
use track3_simulation_public.Semantics.Ledger.{MessageType}

-- A message: its id, whether it is a wakeup, and the messages that it stands for, itself or those of
-- the batch that it is.
pub record Message : Type 0 where
  pub message_id : ℕ
  pub is_wakeup : Bool
  pub messages : List (ℕ × MessageType)

pub record Item : Type 0 where
  pub deliver_at : ℕ
  pub sender_id : ℕ
  pub recipient_id : ℕ
  pub message : Message

-- The comparison of two keys `(deliver_at, (sender_id, recipient_id, message))`, messages by id.
unfoldable pub before : Item → Item → Bool
before i j =
    ltb i.deliver_at j.deliver_at
    || ((i.deliver_at == j.deliver_at)
        && (ltb i.sender_id j.sender_id
            || ((i.sender_id == j.sender_id)
                && (ltb i.recipient_id j.recipient_id
                    || ((i.recipient_id == j.recipient_id)
                        && ltb i.message.message_id j.message.message_id)))))

-- `push`
unfoldable pub push : Item → List Item → List Item
push i [] = i ∷ []
push i (j ∷ js) = if before i j then i ∷ j ∷ js else j ∷ push i js

-- `pop`
abbrev pub pop : List Item → Option (Item × List Item)
pop [] = none
pop (i ∷ is) = some (i, is)

-- No item is before the one in front of it.
abbrev pub InOrder : List Item → Type 0
InOrder [] = Unit
InOrder (i ∷ is) = All (λ j. before j i ≡ false) is × InOrder is

before_asym : (i j : Item) → before i j ≡ true → before j i ≡ false
unfolding before
before_asym i j h = ground (arith, h)

before_trans : (i j k : Item) → before j i ≡ false → before k j ≡ false → before k i ≡ false
unfolding before
before_trans i j k h l = ground (arith, h, l)

push-All : (P : Item → Type 0) (i : Item) (js : List Item) → P i → All P js → All P (push i js)
unfolding push
push-All P i [] h hs = (h, tt)
push-All P i (j ∷ js) h hs = elim (Bool-cases (before i j)) [
  | inl sooner ↦ rw (sooner, push) (h, hs)
  | inr later ↦ rw (later, push) (hs.0, push-All P i js h hs.1)
]

not_before-All :
    (i j : Item) (js : List Item)
    → before j i ≡ false
    → All (λ k. before k j ≡ false) js
    → All (λ k. before k i ≡ false) js
not_before-All i j [] h hs = tt
not_before-All i j (k ∷ js) h hs = (before_trans i j k h hs.0, not_before-All i j js h hs.1)

pub push-InOrder : (i : Item) (js : List Item) → InOrder js → InOrder (push i js)
unfolding push
push-InOrder i [] h = (tt, tt)
push-InOrder i (j ∷ js) h = elim (Bool-cases (before i j)) [
  | inl sooner ↦
      rw (sooner, push)
        ((before_asym i j sooner, not_before-All i j js (before_asym i j sooner) h.0), h)
  | inr later ↦
      rw (later, push) (push-All (λ k. before k j ≡ false) i js later h.0, push-InOrder i js h.1)
]

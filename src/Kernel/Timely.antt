-- ===== src/Kernel/Timely.antt =====
-- What every run of the kernel loop keeps: the queue in order and a timely ledger.
use track3_simulation_public.Common.{
  ℕ, ◌+◌, ◌≡◌, refl, subst, inl, inr, ◌&&◌, Option, none, some, List, [], ◌∷◌, All, All-append, ltb,
  Bool-cases,
}
use mathlib.Core.Option.{some-injective}
use mathlib.Core.Logic.{◌⊎◌}
use track3_simulation_public.Common.Int.{pos}
use track3_simulation_public.Semantics.Ledger.{MessageType, Row}
use track3_simulation_public.Kernel.Queue.{Message, InOrder, push-InOrder}
use track3_simulation_public.Kernel.State.{
  Pending, Kernel, pending_of, send_message, set_wakeup, requested_or_next,
}

-- A sent row arrives its latency after it was sent; a row that was not sent is a self-message of
-- latency 0.
abbrev pub TimelyRow : Row → Type 0
TimelyRow r =
    ((s l : ℕ) × (r.t_send ≡ some (pos s)) × (r.t_recv ≡ pos (s + l)) × (r.latency ≡ pos l))
    ⊎ ((r.t_send ≡ none) × (r.src ≡ r.dst) × (r.latency ≡ pos 0))

abbrev pub TimelyPending : Pending → Type 0
TimelyPending p = p.deliver_at ≡ p.sent_time + p.latency

pub record Timely (k : Kernel) : Type 0 where
  pub queue : InOrder k.messages
  pub waiting : All TimelyPending k.pending
  pub ledger : All TimelyRow k.delivered

-- What an agent does to the kernel: it sends messages, asks for wakeups, and delays itself.
pub data Acts : Kernel → Kernel → Type 0 where
  rests : {k : Kernel} → Acts k k
  sends :
      {k k' : Kernel} (sender recipient : ℕ) (m : Message) (delay latency : ℕ)
      → Acts (send_message sender recipient m delay latency k) k'
      → Acts k k'
  wakes :
      {k k' k'' : Kernel} (sender : ℕ) (requested : Option ℕ)
      → set_wakeup sender requested k ≡ some k'
      → Acts k' k''
      → Acts k k''
  delays : {k k' : Kernel} (d : ℕ) → Acts (record k { additional_delay = d }) k' → Acts k k'

pending_of-Timely :
    (k : Kernel) (s r at l : ℕ) (ms : List (ℕ × MessageType))
    → All TimelyPending (pending_of k s r at l ms)
pending_of-Timely k s r at l [] = tt
pending_of-Timely k s r at l ((id, type) ∷ ms) = (refl, pending_of-Timely k s r at l ms)

send_message-Timely :
    (s r : ℕ) (m : Message) (d l : ℕ) (k : Kernel) → Timely k → Timely (send_message s r m d l k)
unfolding send_message
send_message-Timely s r m d l k h = record {
  queue = push-InOrder _ k.messages h.queue;
  waiting = All-append TimelyPending _ k.pending (pending_of-Timely k s r _ l m.messages) h.waiting;
  ledger = h.ledger;
}

set_wakeup-Timely :
    (s : ℕ) (t : Option ℕ) (k k' : Kernel) → set_wakeup s t k ≡ some k' → Timely k → Timely k'
unfolding set_wakeup
set_wakeup-Timely s t k k' e h =
    elim (Bool-cases (ltb 0 k.current_time && ltb (requested_or_next k t) k.current_time)) [
      | inl past ↦ absurd (no_kernel (rw past at e))
      | inr later ↦ subst Timely (some-injective _ _ (rw later at e)) (record {
        queue = push-InOrder _ k.messages h.queue;
        waiting = h.waiting;
        ledger = h.ledger;
      })
    ]
  where
    no_kernel : {k : Kernel} → ◌≡◌ {A = Option Kernel} none (some k) → ⊥
    no_kernel e = cc

pub Acts-Timely : {k k' : Kernel} → Acts k k' → Timely k → Timely k'
Acts-Timely rests h = h
Acts-Timely (sends s r m d l a) h = Acts-Timely a (send_message-Timely s r m d l _ h)
Acts-Timely (wakes s t e a) h = Acts-Timely a (set_wakeup-Timely s t _ _ e h)
Acts-Timely (delays d a) h =
    Acts-Timely a (record { queue = h.queue; waiting = h.waiting; ledger = h.ledger })

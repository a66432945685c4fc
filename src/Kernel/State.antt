-- ===== src/Kernel/State.antt =====
-- `send_message`, `set_wakeup` and `kernel_runner` of baselines/fast_sim/hotpath.py. What the agents
-- do on an event is a parameter of the loop.
use track3_simulation_public.Common.{
  ℕ, zero, suc, ◌+◌, Bool, true, false, ◌&&◌, Option, none, some, List, [], ◌∷◌, ◌++◌, ltb, leb,
  ◌==◌, if◌then◌else◌,
}
use track3_simulation_public.Common.Int.{pos}
use track3_simulation_public.Semantics.Ledger.{MessageType, agent_wakeup, Row}
use track3_simulation_public.Kernel.Queue.{Message, Item, push, pop}

-- A row of the ledger that waits for its delivery.
pub record Pending : Type 0 where
  pub message_id : ℕ
  pub sender : ℕ
  pub recipient : ℕ
  pub sent_time : ℕ
  pub deliver_at : ℕ
  pub latency : ℕ
  pub msg_type : MessageType
  pub parent : Option ℕ

-- The kernel; `delivered` is newest first, `pending` keeps the newest entry of a key first.
pub record Kernel : Type 0 where
  pub current_time : ℕ
  pub stop_time : ℕ
  pub additional_delay : ℕ
  pub causal_uid : Option ℕ
  pub deliver_seq : ℕ
  pub ttl_messages : ℕ
  pub next_message_id : ℕ
  pub agent_times : ℕ → ℕ
  pub computation_delays : ℕ → ℕ
  pub messages : List Item
  pub pending : List Pending
  pub delivered : List Row

abbrev pub pending_of : Kernel → ℕ → ℕ → ℕ → ℕ → List (ℕ × MessageType) → List Pending
pending_of k sender recipient at latency [] = []
pending_of k sender recipient at latency ((id, type) ∷ ms) =
    record {
      message_id = id;
      sender = sender;
      recipient = recipient;
      sent_time = at;
      deliver_at = at + latency;
      latency = latency;
      msg_type = type;
      parent = k.causal_uid;
    }
    ∷ pending_of k sender recipient at latency ms

-- `send_message`; `latency` is the draw of the latency model.
unfoldable pub send_message : ℕ → ℕ → Message → ℕ → ℕ → Kernel → Kernel
send_message sender recipient message delay latency k =
    let at = k.current_time + k.computation_delays sender + k.additional_delay + delay in
    record k {
      messages =
          push
            (record {
              deliver_at = at + latency;
              sender_id = sender;
              recipient_id = recipient;
              message = message;
            })
            k.messages;
      pending = pending_of k sender recipient at latency message.messages ++ k.pending;
    }

abbrev pub requested_or_next : Kernel → Option ℕ → ℕ
requested_or_next k none = suc k.current_time
requested_or_next k (some t) = t

-- `set_wakeup`; `none` where it raises.
unfoldable pub set_wakeup : ℕ → Option ℕ → Kernel → Option Kernel
set_wakeup sender requested k =
    let at = requested_or_next k requested in
    if ltb 0 k.current_time && ltb at k.current_time
    then none
    else some (record k {
      messages =
          push
            (record {
              deliver_at = at;
              sender_id = sender;
              recipient_id = sender;
              message = record { message_id = k.next_message_id; is_wakeup = true; messages = [] };
            })
            k.messages;
      next_message_id = suc k.next_message_id;
    })

-- `agent_times[a] = t`
abbrev pub set_time : ℕ → ℕ → Kernel → Kernel
set_time a t k = record k { agent_times = λ b. if b == a then t else k.agent_times b }

-- `agent_times[a] += delays[a] + self.current_agent_additional_delay`
abbrev pub spend : ℕ → Kernel → Kernel
spend a k = set_time a (k.agent_times a + (k.computation_delays a + k.additional_delay)) k

-- `pending.pop((message_id, recipient), None)`
abbrev pub is_key : ℕ → ℕ → Pending → Bool
is_key id recipient p = (p.message_id == id) && (p.recipient == recipient)

unfoldable pub find_pending : ℕ → ℕ → List Pending → Option Pending
find_pending id recipient [] = none
find_pending id recipient (p ∷ ps) =
    if is_key id recipient p then some p else find_pending id recipient ps

unfoldable pub drop_pending : ℕ → ℕ → List Pending → List Pending
drop_pending id recipient [] = []
drop_pending id recipient (p ∷ ps) =
    if is_key id recipient p then drop_pending id recipient ps else p ∷ drop_pending id recipient ps

abbrev pub row_of : Pending → ℕ → Row
row_of p seq = record {
  seq = pos seq;
  t_recv = pos p.deliver_at;
  t_send = some (pos p.sent_time);
  latency = pos p.latency;
  src = p.sender;
  dst = p.recipient;
  message_id = p.message_id;
  msg_type = p.msg_type;
  causal_parent = p.parent;
}

abbrev pub append_delivered : Option Pending → ℕ → List Row → List Row
append_delivered none seq rs = rs
append_delivered (some p) seq rs = row_of p seq ∷ rs

-- The bookkeeping of a wakeup before the agent is called.
unfoldable pub note_wakeup : ℕ → Message → Kernel → Kernel
note_wakeup recipient m k = record (set_time recipient k.current_time k) {
  causal_uid = some m.message_id;
  deliver_seq = suc k.deliver_seq;
  delivered =
      record {
        seq = pos k.deliver_seq;
        t_recv = pos k.current_time;
        t_send = none;
        latency = pos 0;
        src = recipient;
        dst = recipient;
        message_id = m.message_id;
        msg_type = agent_wakeup;
        causal_parent = none;
      }
      ∷ k.delivered;
}

-- That of one message of a batch.
unfoldable pub note_message : ℕ → ℕ → Kernel → Kernel
note_message recipient id k = record (spend recipient k) {
  causal_uid = some id;
  deliver_seq = suc k.deliver_seq;
  pending = drop_pending id recipient k.pending;
  delivered = append_delivered (find_pending id recipient k.pending) k.deliver_seq k.delivered;
}

-- `wakeup` and `receive_message` of the agents: the kernel after the calls that they make on it, and
-- for a wakeup whether a result comes back.
module _ (wakeup : ℕ → Kernel → Bool × Kernel) (receive : ℕ → ℕ → ℕ → Kernel → Kernel) where
  unfoldable pub deliver_batch : ℕ → ℕ → List (ℕ × MessageType) → Kernel → Kernel
  deliver_batch sender recipient [] k = k
  deliver_batch sender recipient ((id, type) ∷ ms) k =
      deliver_batch sender recipient ms (receive recipient sender id (note_message recipient id k))

  abbrev pub call_agent : Bool → Item → Kernel → Bool × Kernel
  call_agent true i k =
      let (done, k') = wakeup i.recipient_id (note_wakeup i.recipient_id i.message k) in
      (done, spend i.recipient_id k')
  call_agent false i k = (
    false,
    deliver_batch i.sender_id i.recipient_id i.message.messages
        (set_time i.recipient_id k.current_time k),
  )

  -- One round of the loop: whether it ends with a result, and the kernel.
  abbrev pub deliver_if_free : Bool → Item → Kernel → Bool × Kernel
  deliver_if_free true i k = (
    false,
    record k {
      messages = push (record i { deliver_at = k.agent_times i.recipient_id }) k.messages;
    },
  )
  deliver_if_free false i k = call_agent i.message.is_wakeup i k

  unfoldable pub deliver : Item → Kernel → Bool × Kernel
  deliver i k = deliver_if_free (ltb k.current_time (k.agent_times i.recipient_id)) i k

  abbrev pub popped : Item → List Item → Kernel → Kernel
  popped i is k = record k {
    current_time = i.deliver_at;
    messages = is;
    ttl_messages = suc k.ttl_messages;
    additional_delay = 0;
  }

  abbrev pub go_on : (Kernel → Kernel) → Bool × Kernel → Kernel
  go_on next (true, k) = k
  go_on next (false, k) = next k

  abbrev pub after_pop : (Kernel → Kernel) → Option (Item × List Item) → Kernel → Kernel
  after_pop next none k = k
  after_pop next (some (i, is)) k = go_on next (deliver i (popped i is k))

  abbrev pub round_if : Bool → (Kernel → Kernel) → Kernel → Kernel
  round_if true next k = after_pop next (pop k.messages) k
  round_if false next k = k

  -- The loop of `kernel_runner` for `n` rounds at most; `pop` gives it the four parts of an item.
  unfoldable pub run : ℕ → Kernel → Kernel
  run zero k = k
  run (suc n) k =
      round_if (ltb 0 k.current_time && leb k.current_time k.stop_time) (λ k'. run n k') k

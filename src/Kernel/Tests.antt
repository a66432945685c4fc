-- ===== src/Kernel/Tests.antt =====
-- The kernel loop with two agents: agent 1 sends a message to agent 0 at each wakeup.
use track3_simulation_public.Common.{ℕ, Bool, true, false, none, [], ◌∷◌}
use track3_simulation_public.Semantics.Ledger.{other_type}
use track3_simulation_public.Kernel.Queue.{Message, Item}
use track3_simulation_public.Kernel.State.{Kernel, send_message}
use track3_simulation_public.Kernel.Timely.{Timely}

abbrev order_message : Message
order_message = record { message_id = 20; is_wakeup = false; messages = (20, other_type 0) ∷ [] }

abbrev wakeup_item : Item
wakeup_item = record {
  deliver_at = 5;
  sender_id = 1;
  recipient_id = 1;
  message = record { message_id = 3; is_wakeup = true; messages = [] };
}

abbrev start : Kernel
start = record {
  current_time = 1;
  stop_time = 100;
  additional_delay = 0;
  causal_uid = none;
  deliver_seq = 0;
  ttl_messages = 0;
  next_message_id = 4;
  agent_times = λ a. 0;
  computation_delays = λ a. 2;
  messages = wakeup_item ∷ [];
  pending = [];
  delivered = [];
}

abbrev wakeup : ℕ → Kernel → Bool × Kernel
wakeup a k = (false, send_message a 0 order_message 0 7 k)

abbrev receive : ℕ → ℕ → ℕ → Kernel → Kernel
receive a sender id k = k

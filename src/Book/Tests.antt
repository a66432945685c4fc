-- ===== src/Book/Tests.antt =====
-- The order book on small inputs: a book, orders that meet it, and what the code makes of them.
use track3_simulation_public.Common.{
  ◌+◌, ℕ, ◌<◌, ◌≡◌, refl, true, false, none, List, [], ◌∷◌, ◌/◌, arith,
}
use track3_simulation_public.Common.Int.{pos, negsuc}
use track3_simulation_public.Book.Order.{Side, bid, ask, Order, Kind, Tag, Entry, plain}
use track3_simulation_public.Book.Level.{Level, add, is_empty, none_left}
use track3_simulation_public.Book.Exchange.{Exchange, no_policy, entries}
use track3_simulation_public.Book.Execute.{shrink, take_first, is_preprocess}
use track3_simulation_public.Book.Enter.{insert_entry}
use track3_simulation_public.Book.Handle.{
  Submission, whole, positive_integer, natural_price, limit_loop, handle_limit_order,
}
use track3_simulation_public.Book.Valid.{Fits, IsLevel, IsBook}
use track3_simulation_public.Book.Sorted.{insert_entry-IsBook}
use track3_simulation_public.Book.Precedence.{insert_priority}
use track3_simulation_public.Book.Priority.{entries-insert_entry}
use track3_simulation_public.Book.Fill.{Fills, take_first-Fills}
use track3_simulation_public.Book.Matching.{IsIncoming}
use track3_simulation_public.Book.Loop.{Runs}
use track3_simulation_public.Book.Refinement.{limit_loop-Runs}
use track3_simulation_public.Book.Conservation.{total}
use track3_simulation_public.Book.Cached.{Cached, add-Cached, shrink-Cached, shrink_hidden}
use track3_simulation_public.Book.Conserved.{Conserves, limit_loop-Conserves}
use track3_simulation_public.Book.Limit.{IsExchange}
use track3_simulation_public.Book.Handled.{
  Handles, IsOrdinary, validated, handle_limit_order-Handles,
}

abbrev pub order_of : ℕ → Side → ℕ → ℕ → ℕ → Order
order_of agent s id q p = record {
  kind = Kind.limit;
  agent_id = agent;
  time_placed = 0;
  symbol = 0;
  quantity = q;
  side = s;
  order_id = id;
  fill_price = none;
  tag = Tag.no_tag;
  limit_price = p;
  is_hidden = false;
  is_price_to_comply = false;
  insert_by_id = false;
  is_post_only = false;
}

abbrev pub submit : Order → Submission
submit o = record {
  order = o;
  quantity = whole (pos o.quantity);
  limit_price = whole (pos o.limit_price);
}

abbrev pub level_with : Side → ℕ → List Entry → ℕ → Level
level_with s p es n = record {
  price = p;
  side = s;
  visible_orders = es;
  hidden_orders = [];
  visible_qty = pos n;
}

abbrev pub entry_of : ℕ → Order → Entry
entry_of n o = record { ref = n; order = o; meta = plain }

abbrev pub ask_100 : Level
ask_100 =
    level_with ask 100
      (entry_of 0 (order_of 1 ask 1 10 100) ∷ entry_of 1 (order_of 2 ask 2 7 100) ∷ []) 17

abbrev pub ask_101 : Level
ask_101 = level_with ask 101 (entry_of 2 (order_of 3 ask 3 10 101) ∷ []) 10

abbrev pub bid_99 : Level
bid_99 = level_with bid 99 (entry_of 3 (order_of 4 bid 4 5 99) ∷ []) 5

abbrev pub sample : Exchange
sample = record {
  symbol = 0;
  current_time = 5;
  stp_policy = no_policy;
  bids = bid_99 ∷ [];
  asks = ask_100 ∷ ask_101 ∷ [];
  last_trade = none;
  last_update_ts = none;
  next_ref = 4;
  next_message_id = 0;
  sent = [];
  history = [];
  log = [];
  posted = [];
}

Fits-of :
    (agent : ℕ) (s : Side) (n id q p : ℕ)
    → 0 < q
    → Fits s p false (entry_of n (order_of agent s id q p))
Fits-of agent s n id q p h = record {
  price = refl;
  side = refl;
  whole = refl;
  shown = refl;
  positive = h;
}

ask_100-IsLevel : IsLevel ask ask_100
unfolding is_empty none_left
ask_100-IsLevel = record {
  side = refl;
  visible = (Fits-of 1 ask 0 1 10 100 (omega arith), (Fits-of 2 ask 1 2 7 100 (omega arith), tt));
  hidden = tt;
  inhabited = refl;
}

ask_101-IsLevel : IsLevel ask ask_101
unfolding is_empty none_left
ask_101-IsLevel = record {
  side = refl;
  visible = (Fits-of 3 ask 2 3 10 101 (omega arith), tt);
  hidden = tt;
  inhabited = refl;
}

bid_99-IsLevel : IsLevel bid bid_99
unfolding is_empty none_left
bid_99-IsLevel = record {
  side = refl;
  visible = (Fits-of 4 bid 3 4 5 99 (omega arith), tt);
  hidden = tt;
  inhabited = refl;
}

abbrev asks-IsBook : IsBook ask (ask_100 ∷ ask_101 ∷ [])
asks-IsBook = (ask_100-IsLevel, refl, (ask_101-IsLevel, tt, tt))

sample-IsExchange : IsExchange sample
sample-IsExchange = record {
  bids = (bid_99-IsLevel, tt, tt);
  asks = asks-IsBook;
  uncrossed = ((refl, (refl, (refl, tt))), tt);
}

order-IsOrdinary : (agent : ℕ) (s : Side) (id q p : ℕ) → IsOrdinary (order_of agent s id q p)
unfolding is_preprocess
order-IsOrdinary agent s id q p = record {
  kind = refl;
  whole = refl;
  open_to_take = refl;
  by_arrival = refl;
  ordinary = refl;
}

order-IsIncoming :
    (agent : ℕ) (s : Side) (id q p : ℕ) → 0 < q → IsIncoming (order_of agent s id q p)
unfolding is_preprocess
order-IsIncoming agent s id q p h = record {
  kind = refl;
  whole = refl;
  open_to_take = refl;
  ordinary = refl;
  positive = h;
}

handle_limit_order-Handles_example :
    Handles ◌/◌ sample
      (validated (submit (order_of 9 bid 9 40 101)) 40 101)
      (handle_limit_order ◌/◌ sample (submit (order_of 9 bid 9 40 101)) false)
unfolding positive_integer natural_price
handle_limit_order-Handles_example =
    handle_limit_order-Handles ◌/◌ sample (submit (order_of 9 bid 9 40 101)) false sample-IsExchange
      refl (order-IsOrdinary 9 bid 9 40 101) refl refl refl

limit_loop-Runs_example :
    Runs sample (order_of 9 bid 9 12 101) [] (limit_loop 4 sample (order_of 9 bid 9 12 101) true [])
limit_loop-Runs_example =
    limit_loop-Runs 4 sample (order_of 9 bid 9 12 101) true []
      (order-IsIncoming 9 bid 9 12 101 (omega arith)) refl asks-IsBook (omega arith)

take_first-Fills_example :
    Fills ask 12
      (ask_100 ∷ ask_101 ∷ [])
      (take_first (order_of 9 bid 9 12 101) ask_100 (ask_101 ∷ []))
take_first-Fills_example =
    take_first-Fills ask (order_of 9 bid 9 12 101) ask_100 (ask_101 ∷ []) asks-IsBook

insert_entry-IsBook_example :
    IsBook ask (insert_entry ask (entry_of 7 (order_of 9 ask 9 3 100)) (ask_100 ∷ ask_101 ∷ []))
insert_entry-IsBook_example =
    insert_entry-IsBook ask (entry_of 7 (order_of 9 ask 9 3 100)) (ask_100 ∷ ask_101 ∷ [])
      (refl, omega arith) refl asks-IsBook

entries-insert_entry_example :
    entries (insert_entry ask (entry_of 7 (order_of 9 ask 9 3 100)) (ask_100 ∷ ask_101 ∷ []))
    ≡ insert_priority ask (entry_of 7 (order_of 9 ask 9 3 100)) (entries (ask_100 ∷ ask_101 ∷ []))
entries-insert_entry_example =
    entries-insert_entry ask (entry_of 7 (order_of 9 ask 9 3 100)) (ask_100 ∷ ask_101 ∷ []) refl
      asks-IsBook

limit_loop-Conserves_example :
    Conserves sample
      (order_of 9 bid 9 40 101)
      (limit_loop 4 sample (order_of 9 bid 9 40 101) false [])
limit_loop-Conserves_example =
    limit_loop-Conserves 4 sample (order_of 9 bid 9 40 101) false
      (order-IsIncoming 9 bid 9 40 101 (omega arith)) refl refl (bid_99-IsLevel, tt, tt) asks-IsBook
      (omega arith)

abbrev hidden_100 : Level
hidden_100 = record {
  price = 100;
  side = ask;
  visible_orders = [];
  hidden_orders =
      record (entry_of 8 (order_of 1 ask 8 10 100)) {
        order = record (order_of 1 ask 8 10 100) { is_hidden = true };
      }
      ∷ [];
  visible_qty = pos 0;
}

add-Cached_example : Cached (add ask_100 (entry_of 7 (order_of 9 ask 9 3 100)))
unfolding total
add-Cached_example = add-Cached ask_100 (entry_of 7 (order_of 9 ask 9 3 100)) refl

shrink-Cached_example : Cached (shrink ask_100 4)
unfolding total
shrink-Cached_example =
    shrink-Cached ask_100 4 (entry_of 0 (order_of 1 ask 1 10 100))
      (entry_of 1 (order_of 2 ask 2 7 100) ∷ []) refl (omega arith) refl

shrink_hidden_example : (shrink hidden_100 (3 + 1)).visible_qty ≡ negsuc 3
unfolding total
shrink_hidden_example =
    shrink_hidden hidden_100 3
      (record (entry_of 8 (order_of 1 ask 8 10 100)) {
        order = record (order_of 1 ask 8 10 100) { is_hidden = true };
      })
      [] refl refl refl

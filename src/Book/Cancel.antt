-- ===== src/Book/Cancel.antt =====
-- `cancel_order` of baselines/fast_sim/hotpath.py.
use track3_simulation_public.Common.{
  ℕ, zero, suc, Bool, true, false, Option, none, some, List, [], ◌∷◌, ◌==◌, if◌then◌else◌,
}
use track3_simulation_public.Book.Order.{
  Side, Order, Entry, Meta, plain, half, Result, ok, err, ◌>>=◌, missing_key, out_of_fuel,
}
use track3_simulation_public.Book.Level.{Level, remove}
use track3_simulation_public.Book.Execute.{drop_empty}
use track3_simulation_public.Book.Exchange.{
  Exchange, CancelTag, no_tag, auction_fill, other_tag, cancelled, book, set_book, send, count,
}

-- What `cancel_order` reads of the order that it is given.
pub record Request : Type 0 where
  pub side : Side
  pub limit_price : ℕ
  pub order_id : ℕ
  pub agent_id : ℕ

abbrev pub request : Order → Request
request o = record {
  side = o.side;
  limit_price = o.limit_price;
  order_id = o.order_id;
  agent_id = o.agent_id;
}

keep_level : Level → Option (Entry × List Level) → Option (Entry × List Level)
keep_level l none = none
keep_level l (some (e, ls)) = some (e, l ∷ ls)

-- The loop over the levels: the order with the id at the price, and the side without it.
unfoldable pub remove_at : ℕ → ℕ → List Level → Option (Entry × List Level)
unfolding drop_empty keep_level
remove_at px id [] = none
remove_at px id (l ∷ ls) =
    let later = keep_level l (remove_at px id ls) in
    if l.price == px
    then elim (remove l id) [ none ↦ later | some (e, l') ↦ some (e, drop_empty l' ls) ]
    else later

kept_metadata : CancelTag → Option ℕ → Option ℕ
kept_metadata auction_fill m = m
kept_metadata no_tag m = none
kept_metadata (other_tag t) m = none

-- `history.append` and the message to the agent that asked.
unfoldable pub announce : Request → CancelTag → Option ℕ → Order → Exchange → Exchange
unfolding kept_metadata
announce r t m o x = send cancelled r.agent_id o (record x {
  history =
      record { time = x.current_time; order_id = o.order_id; tag = t; metadata = kept_metadata t m }
      ∷ x.history;
})

touch : Exchange → Exchange
touch x = record x { last_update_ts = some x.current_time }

-- The order to cancel along with one half of a price-to-comply order.
other_request : Request → Meta → Result Request
other_request r plain = err missing_key
other_request r (half h ref p i) = ok (record r { limit_price = p; order_id = i })

unfoldable pub cancel_loop :
    ℕ → Exchange → Request → CancelTag → Option ℕ → Bool → Result (Bool × Exchange)
unfolding announce touch other_request
cancel_loop zero x r t m quiet = err out_of_fuel
cancel_loop (suc f) x r t m quiet = elim (remove_at r.limit_price r.order_id (book r.side x)) [
  | none ↦ ok (false, x)
  | some (e, levels) ↦
      let x1 : Exchange = set_book r.side levels x in
      do
        x2 ← (elim e.order.is_price_to_comply [
          | true ↦ do
            r' ← other_request r e.meta
            (done, x') ← cancel_loop f x1 r' no_tag none true
            ok x'
          | false ↦ ok x1
        ])
        ok (true, touch (if quiet then x2 else announce r t m e.order x2))
]

-- `cancel_order`. Each round of the recursion takes one order from the side, so one more round than
-- the side has orders is enough.
unfoldable pub cancel_order :
    Exchange → Request → CancelTag → Option ℕ → Bool → Result (Bool × Exchange)
unfolding cancel_loop
cancel_order x r t m quiet = cancel_loop (suc (count (book r.side x))) x r t m quiet

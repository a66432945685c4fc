-- ===== src/Book/Handle.antt =====
-- `handle_limit_order` and `handle_market_order` of baselines/fast_sim/hotpath.py, with the self-trade
-- prevention of both.
use track3_simulation_public.Common.{
  ℕ, zero, suc, ◌+◌, ◌*◌, Bool, true, false, Option, none, some, List, [], ◌∷◌, ◌==◌, if◌then◌else◌,
}
use track3_simulation_public.Common.Int.{ℤ, pos, negsuc}
use track3_simulation_public.Book.Order.{
  Side, opposite, Order, Result, ok, err, ◌>>=◌, or_raise, empty_level, out_of_fuel, zero_division,
  cheap_clone,
}
use track3_simulation_public.Book.Level.{Level, peek, is_match}
use track3_simulation_public.Book.Exchange.{
  Exchange, StpPolicy, no_policy, cancel_oldest, cancel_newest, no_tag, accepted, cancelled, book,
  send, count,
}
use track3_simulation_public.Book.Execute.{execute_order}
use track3_simulation_public.Book.Enter.{enter_order}
use track3_simulation_public.Book.Cancel.{request, cancel_order}

-- A Python number as the order came with it: an integer, or one with a fraction above its floor.
pub data Number : Type 0 where
  whole fractional : ℤ → Number

-- An order as submitted; `order` holds all its fields but the two numbers that are validated.
pub record Submission : Type 0 where
  pub order : Order
  pub quantity : Number
  pub limit_price : Number

-- Why `warnings.warn` was called.
pub data Reason : Type 0 where
  wrong_symbol bad_quantity bad_price : Reason

pub data Verdict : Type 0 where
  discarded : Reason → Verdict
  handled : Verdict

-- Not `(qty <= 0) or (int(qty) != qty)`.
unfoldable pub positive_integer : Number → Option ℕ
positive_integer (whole (pos zero)) = none
positive_integer (whole (pos (suc n))) = some (suc n)
positive_integer (whole (negsuc n)) = none
positive_integer (fractional n) = none

-- Not `(px < 0) or (int(px) != px)`.
unfoldable pub natural_price : Number → Option ℕ
natural_price (whole (pos n)) = some n
natural_price (whole (negsuc n)) = none
natural_price (fractional n) = none

pub data Action : Type 0 where
  proceed drop_incoming : Action
  drop_resting : Order → Action

unfoldable pub stp_choice : StpPolicy → Order → Action
stp_choice no_policy resting = proceed
stp_choice cancel_oldest resting = drop_resting resting
stp_choice cancel_newest resting = drop_incoming

-- The order at the front of the opposite side is the same agent's.
unfoldable pub stp_front : StpPolicy → Order → Level → Result Action
unfolding stp_choice
stp_front p o l = do
  e ← or_raise (peek l) empty_level
  ok (if e.order.agent_id == o.agent_id then stp_choice p e.order else proceed)

-- The self-trade test of a limit order, on the levels of the opposite side; it looks at the front
-- order only if that order's level is a match.
unfoldable pub stp_limit : StpPolicy → Order → List Level → Result Action
unfolding stp_front
stp_limit no_policy o ls = ok proceed
stp_limit p o [] = ok proceed
stp_limit p o (l ∷ ls) = if is_match l o then stp_front p o l else ok proceed

-- That of a market order.
unfoldable pub stp_market : StpPolicy → Order → List Level → Result Action
unfolding stp_front
stp_market no_policy o ls = ok proceed
stp_market p o [] = ok proceed
stp_market p o (l ∷ ls) = stp_front p o l

-- Where the loop stopped: the trades in order, and the state.
pub record Matched : Type 0 where
  pub trades : List (ℕ × ℕ)
  pub exchange : Exchange

-- What one round of the loop does: it stops, or goes on with an order, a state and trades.
pub data Round : Type 0 where
  stop : Matched → Round
  again : Order → Exchange → List (ℕ × ℕ) → Round

abbrev pub append_trade : List (ℕ × ℕ) → ℕ × ℕ → List (ℕ × ℕ)
append_trade [] t = t ∷ []
append_trade (s ∷ ts) t = s ∷ append_trade ts t

unfoldable pub fill_price_of : Order → ℕ
fill_price_of m = elim m.fill_price [ none ↦ 0 | some p ↦ p ]

-- `execute_order`, and what follows it in the loop of a limit order.
unfoldable pub trade_limit : Exchange → Order → Bool → List (ℕ × ℕ) → Result Round
unfolding fill_price_of
trade_limit x o quiet ts = do
  (m, o', x') ← execute_order x o
  (elim m [
    | none ↦ do
      x'' ← enter_order x' (cheap_clone o')
      ok (
          stop (record {
            trades = ts;
            exchange = if quiet then x'' else send accepted o'.agent_id o' x'';
          }))
    | some t ↦
        let ts' = append_trade ts (t.quantity, fill_price_of t) in
        ok (
          if o'.quantity == 0
          then stop (record { trades = ts'; exchange = x' })
          else again o' x' ts')
  ])

-- One round of `while True` in `handle_limit_order`.
unfoldable pub limit_round : Exchange → Order → Bool → List (ℕ × ℕ) → Result Round
unfolding stp_limit trade_limit
limit_round x o quiet ts = do
  a ← stp_limit x.stp_policy o (book (opposite o.side) x)
  (elim a [
    | proceed ↦ trade_limit x o quiet ts
    | drop_incoming ↦ ok (
        stop (record {
          trades = ts;
          exchange = if quiet then x else send cancelled o.agent_id (cheap_clone o) x;
        }))
    | drop_resting r ↦ do
      (done, x') ← cancel_order x (request r) no_tag none quiet
      (if done then ok (again o x' ts) else trade_limit x' o quiet ts)
  ])

unfoldable pub limit_loop : ℕ → Exchange → Order → Bool → List (ℕ × ℕ) → Result Matched
limit_loop zero x o quiet ts = err out_of_fuel
limit_loop (suc f) x o quiet ts = elim (limit_round x o quiet ts) [
  | err e ↦ err e
  | ok (stop m) ↦ ok m
  | ok (again o' x' ts') ↦ limit_loop f x' o' quiet ts'
]

-- `owner.log.append((now, "BEST_BID", b0.price, b0._visible_qty))` for a side that is not empty.
unfoldable pub log_best : Side → List Level → Exchange → Exchange
log_best s [] x = x
log_best s (l ∷ ls) x = record x {
  log = record { time = x.current_time; side = s; price = l.price; size = l.visible_qty } ∷ x.log;
}

unfoldable pub trade_quantity : List (ℕ × ℕ) → ℕ
trade_quantity [] = 0
trade_quantity ((q, p) ∷ ts) = q + trade_quantity ts

unfoldable pub trade_value : List (ℕ × ℕ) → ℕ
trade_value [] = 0
trade_value ((q, p) ∷ ts) = p * q + trade_value ts

-- `round_div a b` is Python's `int(round(a / b))`, a quotient of floats.
module _ (round_div : ℕ → ℕ → ℕ) where
  unfoldable pub set_last_trade : List (ℕ × ℕ) → Exchange → Result Exchange
  set_last_trade [] x = ok x
  set_last_trade (t ∷ ts) x =
      if trade_quantity (t ∷ ts) == 0
      then err zero_division
      else ok (record x {
        last_trade = some (round_div (trade_value (t ∷ ts)) (trade_quantity (t ∷ ts)));
      })

  -- After the loop: the two best quotes, bid first, and the last trade.
  unfoldable pub finish : Matched → Result Exchange
  unfolding log_best set_last_trade
  finish m =
      let x1 = log_best Side.bid m.exchange.bids m.exchange in
      set_last_trade m.trades (log_best Side.ask x1.asks x1)

  -- `handle_limit_order`. Each round but the last takes an order from the opposite side, so one more
  -- round than that side has orders is enough.
  unfoldable pub handle_limit_order : Exchange → Submission → Bool → Result (Verdict × Exchange)
  handle_limit_order x s quiet =
      if s.order.symbol == x.symbol
      then elim (positive_integer s.quantity) [
        | none ↦ ok (discarded bad_quantity, x)
        | some q ↦ elim (natural_price s.limit_price) [
          | none ↦ ok (discarded bad_price, x)
          | some p ↦
              let o : Order = record s.order { quantity = q; limit_price = p } in
              do
                m ← limit_loop (suc (count (book (opposite o.side) x))) x o quiet []
                x' ← finish m
                ok (handled, x')
        ]
      ]
      else ok (discarded wrong_symbol, x)

unfoldable pub trade_market : Exchange → Order → Result Round
trade_market x o = do
  (m, o', x') ← execute_order x o
  ok (elim m [ none ↦ stop (record { trades = []; exchange = x' }) | some t ↦ again o' x' [] ])

-- One round of the loop of a market order that still wants something.
unfoldable pub market_round : Exchange → Order → Result Round
unfolding stp_market trade_market
market_round x o = do
  a ← stp_market x.stp_policy o (book (opposite o.side) x)
  (elim a [
    | proceed ↦ trade_market x o
    | drop_incoming ↦
        ok (stop (record { trades = []; exchange = send cancelled o.agent_id (cheap_clone o) x }))
    | drop_resting r ↦ do
      (done, x') ← cancel_order x (request r) no_tag none false
      (if done then ok (again o x' []) else trade_market x' o)
  ])

unfoldable pub market_loop : ℕ → Exchange → Order → Result Exchange
market_loop zero x o = err out_of_fuel
market_loop (suc f) x o = elim (o.quantity == 0) [
  | true ↦ ok x
  | false ↦ elim (market_round x o) [
    | err e ↦ err e
    | ok (stop m) ↦ ok m.exchange
    | ok (again o' x' ts) ↦ market_loop f x' o'
  ]
]

-- `handle_market_order`, on the same fuel. What is left of the order is dropped.
unfoldable pub handle_market_order : Exchange → Submission → Result (Verdict × Exchange)
handle_market_order x s =
    if s.order.symbol == x.symbol
    then elim (positive_integer s.quantity) [
      | none ↦ ok (discarded bad_quantity, x)
      | some q ↦
          let o : Order = record (cheap_clone s.order) { quantity = q } in
          do x' ← market_loop (suc (count (book (opposite o.side) x))) x o; ok (handled, x')
    ]
    else ok (discarded wrong_symbol, x)

-- ===== src/Book/Matching.antt =====
-- The matching loop of `handle_limit_order` against a matching of the flat view, with no self-trade
-- prevention and no price-to-comply or post-only order.
use track3_simulation_public.Common.{
  ℕ, ◌-◌, ◌<◌, ◌≡◌, Bool, true, false, none, List, [], ◌∷◌, ◌==◌, if◌then◌else◌, arith,
}
use track3_simulation_public.Book.Order.{opposite, Kind, Order, ok, cheap_clone}
use track3_simulation_public.Book.Level.{Level, is_match, crosses}
use track3_simulation_public.Book.Exchange.{Exchange, no_policy, book, accepted, send}
use track3_simulation_public.Book.Execute.{
  is_preprocess, is_limit, take_first, settle, execute_at, execute_order,
}
use track3_simulation_public.Book.Enter.{enter_whole, enter_order}
use track3_simulation_public.Book.Handle.{stop, again, append_trade, limit_round}

-- A limit order as the loop gets it.
pub record IsIncoming (o : Order) : Type 0 where
  pub kind : o.kind ≡ Kind.limit
  pub whole : o.is_price_to_comply ≡ false
  pub open_to_take : o.is_post_only ≡ false
  pub ordinary : is_preprocess o.tag ≡ false
  pub positive : 0 < o.quantity

pub execute-none :
    (x : Exchange) (o : Order) → book (opposite o.side) x ≡ [] → execute_order x o ≡ ok (none, o, x)
unfolding execute_order execute_at
execute-none x o e = rw e

pub execute-no_match :
    (x : Exchange) (o : Order) (l : Level) (ls : List Level)
    → IsIncoming o
    → book (opposite o.side) x ≡ l ∷ ls
    → is_match l o ≡ false
    → execute_order x o ≡ ok (none, o, x)
unfolding execute_order execute_at is_limit
execute-no_match x o l ls v e m = rw e (ground arith)

pub execute-trade :
    (x : Exchange) (o t : Order) (l : Level) (ls after : List Level)
    → IsIncoming o
    → book (opposite o.side) x ≡ l ∷ ls
    → is_match l o ≡ true
    → take_first o l ls ≡ ok (t, after)
    → execute_order x o ≡ ok (settle o x (t, after))
unfolding execute_order execute_at
execute-trade x o t l ls after v e m r = rw e (ground arith)

pub is_match-crosses :
    (l : Level) (o : Order)
    → o.is_post_only ≡ false
    → is_match l o ≡ crosses o.side o.limit_price l.price
unfolding is_match
is_match-crosses l o h = ground arith

-- The exchange after a trade.
abbrev pub after_trade : Exchange → Order → Order → List Level → Exchange
after_trade x o t after = (settle o x (t, after)).2

-- The exchange after what is left of the order has been entered and acknowledged.
abbrev pub rested : Exchange → Order → Bool → Exchange
rested x o quiet = let x' = enter_whole x o in if quiet then x' else send accepted o.agent_id o x'

pub round-rest :
    (x : Exchange) (o : Order) (quiet : Bool) (ts : List (ℕ × ℕ))
    → IsIncoming o
    → x.stp_policy ≡ no_policy
    → execute_order x o ≡ ok (none, o, x)
    → limit_round x o quiet ts ≡ ok (stop (record { trades = ts; exchange = rested x o quiet }))
unfolding limit_round enter_order cheap_clone
round-rest x o quiet ts v p e = ground arith

pub round-trade :
    (x : Exchange) (o t : Order) (after : List Level) (quiet : Bool) (ts : List (ℕ × ℕ))
    → x.stp_policy ≡ no_policy
    → execute_order x o ≡ ok (settle o x (t, after))
    → limit_round x o quiet ts
      ≡ ok (
          if o.quantity - t.quantity == 0
          then stop (record {
            trades = append_trade ts (t.quantity, t.limit_price);
            exchange = after_trade x o t after;
          })
          else again
              (record o { quantity = o.quantity - t.quantity })
              (after_trade x o t after)
              (append_trade ts (t.quantity, t.limit_price)))
unfolding limit_round settle
round-trade x o t after quiet ts p e = ground arith

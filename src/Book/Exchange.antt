-- ===== src/Book/Exchange.antt =====
-- The state that the book methods read and write: the two sides, the exchange agent that owns the
-- book, and the messages and log rows that it emits. `make_order_msg`, `_exch_kernel_send`.
use track3_simulation_public.Common.{
  ℕ, suc, ◌+◌, Option, List, [], ◌∷◌, ◌++◌, length, length-append, ◌≡◌, refl, arith,
}
use track3_simulation_public.Common.Int.{ℤ}
use track3_simulation_public.Book.Order.{Side, opposite, Order, Entry}
use track3_simulation_public.Book.Level.{Level}

-- `owner.stp_policy`: absent or empty, "cancel_oldest", or any other text.
pub data StpPolicy : Type 0 where
  no_policy cancel_oldest cancel_newest : StpPolicy

pub data MessageKind : Type 0 where
  executed accepted cancelled : MessageKind

-- A message handed to `kernel.send_message` with the exchange's `pipeline_delay`.
pub record Message : Type 0 where
  pub message_id : ℕ
  pub recipient : ℕ
  pub kind : MessageKind
  pub order : Order

-- `(now, "BEST_BID" | "BEST_ASK", price, _visible_qty)`
pub record Quote : Type 0 where
  pub time : ℕ
  pub side : Side
  pub price : ℕ
  pub size : ℤ

-- The `tag` argument of `cancel_order`.
pub data CancelTag : Type 0 where
  no_tag auction_fill : CancelTag
  other_tag : ℕ → CancelTag

-- A row of `book.history`.
pub record Cancellation : Type 0 where
  pub time : ℕ
  pub order_id : ℕ
  pub tag : CancelTag
  pub metadata : Option ℕ

-- `log`, `history` and `sent` are newest first. `next_ref` names the next order object that the
-- book stores, `next_message_id` is `Message._Message__message_id_counter`, and `posted` holds the
-- ids logged with a `_POST_ONLY` event.
pub record Exchange : Type 0 where
  pub symbol : ℕ
  pub current_time : ℕ
  pub stp_policy : StpPolicy
  pub bids : List Level
  pub asks : List Level
  pub last_trade : Option ℕ
  pub last_update_ts : Option ℕ
  pub next_ref : ℕ
  pub next_message_id : ℕ
  pub sent : List Message
  pub history : List Cancellation
  pub log : List Quote
  pub posted : List ℕ

-- `self.bids if side is BID else self.asks`
abbrev pub book : Side → Exchange → List Level
book Side.bid x = x.bids
book Side.ask x = x.asks

abbrev pub set_book : Side → List Level → Exchange → Exchange
set_book Side.bid ls x = record x { bids = ls }
set_book Side.ask ls x = record x { asks = ls }

-- `make_order_msg` and `_exch_kernel_send`: a message takes the next id of the one counter.
unfoldable pub send : MessageKind → ℕ → Order → Exchange → Exchange
send k recipient o x = record x {
  sent =
      record { message_id = x.next_message_id; recipient = recipient; kind = k; order = o }
      ∷ x.sent;
  next_message_id = suc x.next_message_id;
}

-- The orders of a side in priority order: visible before hidden at each price.
abbrev pub entries : List Level → List Entry
entries [] = []
entries (l ∷ ls) = (l.visible_orders ++ l.hidden_orders) ++ entries ls

abbrev pub count : List Level → ℕ
count [] = 0
count (l ∷ ls) = length l.visible_orders + length l.hidden_orders + count ls

pub book-set_book : (s : Side) (ls : List Level) (x : Exchange) → book s (set_book s ls x) ≡ ls
book-set_book Side.bid ls x = refl
book-set_book Side.ask ls x = refl

pub book-set_opposite :
    (s : Side) (ls : List Level) (x : Exchange) → book s (set_book (opposite s) ls x) ≡ book s x
book-set_opposite Side.bid ls x = refl
book-set_opposite Side.ask ls x = refl

pub book-opposite-set_book :
    (s : Side) (ls : List Level) (x : Exchange)
    → book (opposite s) (set_book s ls x) ≡ book (opposite s) x
book-opposite-set_book Side.bid ls x = refl
book-opposite-set_book Side.ask ls x = refl

pub book-next_ref :
    (s : Side) (n : ℕ) (x : Exchange) → book s (record x { next_ref = n }) ≡ book s x
book-next_ref Side.bid n x = refl
book-next_ref Side.ask n x = refl

pub book-send :
    (s : Side) (k : MessageKind) (n : ℕ) (o : Order) (x : Exchange)
    → book s (send k n o x) ≡ book s x
unfolding send
book-send Side.bid k n o x = refl
book-send Side.ask k n o x = refl

-- What no trade and no message changes.
pub record SameRest (x y : Exchange) : Type 0 where
  pub symbol : y.symbol ≡ x.symbol
  pub current_time : y.current_time ≡ x.current_time
  pub stp_policy : y.stp_policy ≡ x.stp_policy
  pub next_ref : y.next_ref ≡ x.next_ref
  pub last_trade : y.last_trade ≡ x.last_trade

pub set_book-SameRest : (s : Side) (ls : List Level) (x : Exchange) → SameRest x (set_book s ls x)
set_book-SameRest Side.bid ls x = record {
  symbol = refl;
  current_time = refl;
  stp_policy = refl;
  next_ref = refl;
  last_trade = refl;
}
set_book-SameRest Side.ask ls x = record {
  symbol = refl;
  current_time = refl;
  stp_policy = refl;
  next_ref = refl;
  last_trade = refl;
}

pub count-entries : (ls : List Level) → count ls ≡ length (entries ls)
count-entries [] = refl
count-entries (l ∷ ls) = omega (
  arith,
  count-entries ls,
  length-append (l.visible_orders ++ l.hidden_orders) (entries ls),
  length-append l.visible_orders l.hidden_orders,
)

-- ===== src/Book/Order.antt =====
-- Orders, their place in a book, and the faults of the order book code
-- (baselines/fast_sim/hotpath.py; the order classes themselves are ABIDES').
use track3_simulation_public.Common.{ℕ, Bool, true, false, Option, none, some}

pub data Side : Type 0 where
  bid ask : Side

abbrev pub is_bid : Side → Bool
is_bid bid = true
is_bid ask = false

abbrev pub opposite : Side → Side
opposite bid = ask
opposite ask = bid

-- `type(order)`: a limit order or a market order.
pub data Kind : Type 0 where
  limit market : Kind

-- `order.tag`: the two tags that the matching code tests, and any other.
pub data Tag : Type 0 where
  no_tag preprocess_add preprocess_replace : Tag
  other_tag : ℕ → Tag

-- A validated order. Of a market order the fields below `tag` are not read.
pub record Order : Type 0 where
  pub kind : Kind
  pub agent_id : ℕ
  pub time_placed : ℕ
  pub symbol : ℕ
  pub quantity : ℕ
  pub side : Side
  pub order_id : ℕ
  pub fill_price : Option ℕ
  pub tag : Tag
  pub limit_price : ℕ
  pub is_hidden : Bool
  pub is_price_to_comply : Bool
  pub insert_by_id : Bool
  pub is_post_only : Bool

-- `metadata`: empty, or that of one half of a price-to-comply order. `ref` is the identity of the
-- other half's object; its price and id never change.
pub data Meta : Type 0 where
  plain : Meta
  half : (ptc_hidden : Bool) (ref other_price other_id : ℕ) → Meta

-- `(order, metadata)` in a price level; `ref` is the identity of the order object.
pub record Entry : Type 0 where
  pub ref : ℕ
  pub order : Order
  pub meta : Meta

-- What the code raises, and two limits of the model: a price or quantity below zero, and fuel.
pub data Fault : Type 0 where
  empty_level visible_half missing_key index_error assertion_error zero_division : Fault
  out_of_range out_of_fuel : Fault

pub data Result {ℓ} (A : Type ℓ) : Type ℓ where
  ok : A → Result A
  err : Fault → Result A

infixl 5 ◌>>=◌
abbrev pub ◌>>=◌ {ℓ κ} : {A : Type ℓ} {B : Type κ} → Result A → (A → Result B) → Result B
ok a >>= f = f a
err e >>= f = err e

abbrev pub or_raise {ℓ} : {A : Type ℓ} → Option A → Fault → Result A
or_raise none e = err e
or_raise (some a) e = ok a

-- `cheap_clone`: a snapshot field by field, which keeps `order_id`.
unfoldable pub cheap_clone : Order → Order
cheap_clone o = record {
  kind = o.kind;
  agent_id = o.agent_id;
  time_placed = o.time_placed;
  symbol = o.symbol;
  quantity = o.quantity;
  side = o.side;
  order_id = o.order_id;
  fill_price = o.fill_price;
  tag = o.tag;
  limit_price = o.limit_price;
  is_hidden = o.is_hidden;
  is_price_to_comply = o.is_price_to_comply;
  insert_by_id = o.insert_by_id;
  is_post_only = o.is_post_only;
}

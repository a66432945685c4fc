-- ===== src/Book/Level.antt =====
-- Price levels: `_pl_peek`, `_pl_pop`, `_pl_add`, `_pl_remove`, `_pl_is_match`, `_new_level` and
-- `pl_update_order_quantity` of baselines/fast_sim/hotpath.py.
use track3_simulation_public.Common.{
  ℕ, Bool, true, false, ◌&&◌, Option, none, some, List, [], ◌∷◌, ◌++◌, ltb, leb, ◌==◌,
  if◌then◌else◌,
}
use track3_simulation_public.Common.Int.{ℤ, pos, negsuc, ◌+ℤ◌, ◌-ℤ◌}
use track3_simulation_public.Book.Order.{Side, Order, Entry}

pub record Level : Type 0 where
  pub price : ℕ
  pub side : Side
  pub visible_orders : List Entry
  pub hidden_orders : List Entry
  pub visible_qty : ℤ

-- `_pl_peek`; `none` where it raises.
peek_list : List Entry → List Entry → Option Entry
peek_list (e ∷ vis) hid = some e
peek_list [] (e ∷ hid) = some e
peek_list [] [] = none

unfoldable pub peek : Level → Option Entry
unfolding peek_list
peek l = peek_list l.visible_orders l.hidden_orders

-- `_pl_pop`; `none` where it raises.
pop_list : Level → List Entry → List Entry → Option (Entry × Level)
pop_list l (e ∷ vis) hid =
    some (e, record l { visible_orders = vis; visible_qty = l.visible_qty -ℤ pos e.order.quantity })
pop_list l [] (e ∷ hid) = some (e, record l { hidden_orders = hid })
pop_list l [] [] = none

unfoldable pub pop : Level → Option (Entry × Level)
unfolding pop_list
pop l = pop_list l l.visible_orders l.hidden_orders

-- Before the first order with a larger id.
unfoldable pub insert_by_id : Entry → List Entry → List Entry
insert_by_id e [] = e ∷ []
insert_by_id e (f ∷ vis) =
    if ltb e.order.order_id f.order.order_id then e ∷ f ∷ vis else f ∷ insert_by_id e vis

unfoldable pub place : Bool → Entry → List Entry → List Entry
place true e vis = insert_by_id e vis
place false e vis = vis ++ e ∷ []

unfoldable pub add_as : Bool → Level → Entry → Level
unfolding place
add_as true l e = record l { hidden_orders = l.hidden_orders ++ e ∷ [] }
add_as false l e = record l {
  visible_orders = place e.order.insert_by_id e l.visible_orders;
  visible_qty = l.visible_qty +ℤ pos e.order.quantity;
}

-- `_pl_add`
unfoldable pub add : Level → Entry → Level
unfolding add_as
add l e = add_as e.order.is_hidden l e

-- The first order of a list with the id, and the list without it.
unfoldable pub remove_first : ℕ → List Entry → Option (Entry × List Entry)
remove_first id [] = none
remove_first id (e ∷ es) =
    if e.order.order_id == id
    then some (e, es)
    else elim (remove_first id es) [ none ↦ none | some (f, rest) ↦ some (f, e ∷ rest) ]

remove_hidden : Level → Option (Entry × List Entry) → Option (Entry × Level)
remove_hidden l none = none
remove_hidden l (some (e, rest)) = some (e, record l { hidden_orders = rest })

remove_visible :
    Level → Option (Entry × List Entry) → Option (Entry × List Entry) → Option (Entry × Level)
unfolding remove_hidden
remove_visible l (some (e, rest)) hid =
    some
      (e, record l { visible_orders = rest; visible_qty = l.visible_qty -ℤ pos e.order.quantity })
remove_visible l none hid = remove_hidden l hid

-- `_pl_remove`
unfoldable pub remove : Level → ℕ → Option (Entry × Level)
unfolding remove_visible
remove l id = remove_visible l (remove_first id l.visible_orders) (remove_first id l.hidden_orders)

is_zero : ℤ → Bool
is_zero (pos n) = n == 0
is_zero (negsuc n) = false

-- The limit price `limit` of an order on side `s` reaches the resting price.
abbrev pub crosses : Side → ℕ → ℕ → Bool
crosses Side.bid limit price = leb price limit
crosses Side.ask limit price = leb limit price

-- `_pl_is_match`
unfoldable pub is_match : Level → Order → Bool
unfolding is_zero
is_match l o =
    if crosses o.side o.limit_price l.price
    then (if o.is_post_only && is_zero l.visible_qty then false else true)
    else false

unfoldable pub level_as : Bool → Entry → Level
level_as true e = record {
  price = e.order.limit_price;
  side = e.order.side;
  visible_orders = [];
  hidden_orders = e ∷ [];
  visible_qty = pos 0;
}
level_as false e = record {
  price = e.order.limit_price;
  side = e.order.side;
  visible_orders = e ∷ [];
  hidden_orders = [];
  visible_qty = pos e.order.quantity;
}

-- `_new_level`
unfoldable pub new_level : Entry → Level
unfolding level_as
new_level e = level_as e.order.is_hidden e

-- The orders after the first, under `pl_init`.
add_all : Level → List Entry → Level
add_all l [] = l
add_all l (e ∷ es) = add_all (add l e) es

-- `pl_init`; `none` where it raises.
unfoldable pub pl_init : List Entry → Option Level
unfolding add_all
pl_init [] = none
pl_init (e ∷ []) = some (new_level e)
pl_init (e ∷ f ∷ es) = some (
    add_all
      (record {
        price = e.order.limit_price;
        side = e.order.side;
        visible_orders = [];
        hidden_orders = [];
        visible_qty = pos 0;
      })
      (e ∷ f ∷ es))

-- `not level.visible_orders and not level.hidden_orders`
unfoldable pub none_left : List Entry → List Entry → Bool
none_left [] [] = true
none_left [] (e ∷ es) = false
none_left (e ∷ es) hid = false

unfoldable pub is_empty : Level → Bool
unfolding none_left
is_empty l = none_left l.visible_orders l.hidden_orders

with_quantity : Entry → ℕ → Entry
with_quantity e q = record e { order = record e.order { quantity = q } }

-- One list of `pl_update_order_quantity`: a smaller quantity keeps the order's place, a larger one
-- sends it to the back. With the list comes the old quantity.
unfoldable pub update_first : ℕ → ℕ → List Entry → Option (ℕ × List Entry)
unfolding with_quantity
update_first id q [] = none
update_first id q (e ∷ es) =
    if e.order.order_id == id
    then (if leb q e.order.quantity
        then some (e.order.quantity, with_quantity e q ∷ es)
        else some (e.order.quantity, es ++ with_quantity e q ∷ []))
    else elim (update_first id q es) [ none ↦ none | some (old, rest) ↦ some (old, e ∷ rest) ]

update_lists : Level → ℕ → Option (ℕ × List Entry) → Option (ℕ × List Entry) → Bool × Level
update_lists l q (some (old, vis)) hid =
    (true, record l { visible_orders = vis; visible_qty = l.visible_qty +ℤ (pos q -ℤ pos old) })
update_lists l q none (some (old, hid)) = (true, record l { hidden_orders = hid })
update_lists l q none none = (false, l)

-- `pl_update_order_quantity`
unfoldable pub update_order_quantity : Level → ℕ → ℕ → Bool × Level
unfolding update_lists
update_order_quantity l id q =
    if q == 0
    then (false, l)
    else update_lists l q (update_first id q l.visible_orders) (update_first id q l.hidden_orders)

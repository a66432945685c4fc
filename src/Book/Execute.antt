-- ===== src/Book/Execute.antt =====
-- `execute_order` of baselines/fast_sim/hotpath.py.
use track3_simulation_public.Common.{
  ℕ, ◌-◌, Bool, true, false, ◌&&◌, not, Option, none, some, List, [], ◌∷◌, leb, ◌==◌, if◌then◌else◌,
}
use track3_simulation_public.Common.Int.{pos, ◌-ℤ◌}
use track3_simulation_public.Book.Order.{
  opposite, Kind, Tag, Order, Entry, Meta, plain, half, Result, ok, err, ◌>>=◌, or_raise,
  empty_level, visible_half, missing_key, index_error, assertion_error, out_of_range, cheap_clone,
}
use track3_simulation_public.Book.Level.{Level, peek, pop, remove, is_match, is_empty}
use track3_simulation_public.Book.Exchange.{Exchange, executed, book, set_book, send}

-- `del book[i]` for a level that has become empty.
unfoldable pub drop_empty : Level → List Level → List Level
drop_empty l ls = if is_empty l then ls else l ∷ ls

-- `_pl_remove(book[1], order_id)`, which must find the order.
remove_second : ℕ → List Level → Result (List Level)
unfolding drop_empty
remove_second id [] = err index_error
remove_second id (l ∷ ls) = do
  (e, l') ← or_raise (remove l id) assertion_error
  ok (drop_empty l' ls)

-- What the full execution of a price-to-comply order does to the levels behind the first.
drop_half : Entry → Meta → List Level → Result (List Level)
unfolding remove_second
drop_half e plain ls = err missing_key
drop_half e (half false r p i) ls = err visible_half
drop_half e (half true r p i) ls = remove_second e.order.order_id ls

-- The first order leaves the book whole.
unfoldable pub take_whole : Level → List Level → Result (Order × List Level)
unfolding drop_half drop_empty
take_whole l ls = do
  (e, l') ← or_raise (pop l) empty_level
  ls' ← (if e.order.is_price_to_comply then drop_half e e.meta ls else ok ls)
  ok (e.order, drop_empty l' ls')

-- `book_order.quantity -= matched_order.quantity`
unfoldable pub reduce : Entry → ℕ → Entry
reduce e q = record e { order = record e.order { quantity = e.order.quantity - q } }

-- The object named `ref` loses `q` wherever the book holds it.
reduce_in : ℕ → ℕ → List Entry → Result (List Entry)
unfolding reduce
reduce_in ref q [] = ok []
reduce_in ref q (e ∷ es) = do
  rest ← reduce_in ref q es
  (if e.ref == ref
      then (if leb q e.order.quantity then ok (reduce e q ∷ rest) else err out_of_range)
      else ok (e ∷ rest))

reduce_half : ℕ → ℕ → List Level → Result (List Level)
unfolding reduce_in
reduce_half ref q [] = ok []
reduce_half ref q (l ∷ ls) = do
  vis ← reduce_in ref q l.visible_orders
  hid ← reduce_in ref q l.hidden_orders
  rest ← reduce_half ref q ls
  ok (record l { visible_orders = vis; hidden_orders = hid } ∷ rest)

-- `metadata["ptc_other_half"].quantity -= q`; the other half's level keeps its `_visible_qty`.
shrink_half : Meta → ℕ → List Level → Result (List Level)
unfolding reduce_half
shrink_half plain q ls = err missing_key
shrink_half (half false r p i) q ls = err visible_half
shrink_half (half true r p i) q ls = reduce_half r q ls

-- The level after its first order has lost `q`. `_visible_qty` falls by `q`, whether the order is
-- visible or hidden.
unfoldable pub shrink_list : Level → ℕ → List Entry → List Entry → Level
unfolding reduce
shrink_list l q (e ∷ vis) hid = record l {
  visible_orders = reduce e q ∷ vis;
  visible_qty = l.visible_qty -ℤ pos q;
}
shrink_list l q [] (e ∷ hid) = record l {
  hidden_orders = reduce e q ∷ hid;
  visible_qty = l.visible_qty -ℤ pos q;
}
shrink_list l q [] [] = l

unfoldable pub shrink : Level → ℕ → Level
unfolding shrink_list
shrink l q = shrink_list l q l.visible_orders l.hidden_orders

-- The first order stays, reduced.
unfoldable pub take_part : Entry → ℕ → Level → List Level → Result (Order × List Level)
unfolding shrink shrink_half
take_part e q l ls =
    let matched : Order = record (cheap_clone e.order) { quantity = q } in
    let levels : List Level = shrink l q ∷ ls in
    do
      levels' ← (if e.order.is_price_to_comply then shrink_half e.meta q levels else ok levels)
      ok (matched, levels')

-- The match itself: the resting order (part) that trades, and the opposite side after it.
unfoldable pub take_first : Order → Level → List Level → Result (Order × List Level)
unfolding take_whole take_part
take_first o l ls = do
  e ← or_raise (peek l) empty_level
  (if leb e.order.quantity o.quantity then take_whole l ls else take_part e o.quantity l ls)

unfoldable pub is_preprocess : Tag → Bool
is_preprocess Tag.preprocess_add = true
is_preprocess Tag.preprocess_replace = true
is_preprocess Tag.no_tag = false
is_preprocess (Tag.other_tag t) = false

unfoldable pub is_limit : Kind → Bool
is_limit Kind.limit = true
is_limit Kind.market = false

-- The matched order, the incoming order after the trade, and the exchange.
abbrev pub Trade : Type 0
Trade = Option Order × Order × Exchange

-- Both parties are told: the resting side first.
unfoldable pub settle : Order → Exchange → Order × List Level → Trade
settle o x (m, levels) =
    let matched : Order = record m { fill_price = some m.limit_price } in
    let filled : Order = record (cheap_clone o) {
      quantity = matched.quantity;
      fill_price = matched.fill_price;
    } in
    let o' : Order = record o { quantity = o.quantity - filled.quantity } in
    let x' : Exchange = set_book (opposite o.side) levels x in
    (some matched, o', send executed o.agent_id filled (send executed matched.agent_id matched x'))

unfoldable pub execute_at : Order → Exchange → List Level → Result Trade
unfolding take_first settle is_preprocess is_limit
execute_at o x [] = ok (none, o, x)
execute_at o x (l ∷ ls) =
    if is_limit o.kind && not (is_match l o)
    then ok (none, o, x)
    else if is_preprocess o.tag
    then ok (none, o, record x { posted = o.order_id ∷ x.posted })
    else (do m ← take_first o l ls; ok (settle o x m))

-- `execute_order`
unfoldable pub execute_order : Exchange → Order → Result Trade
unfolding execute_at
execute_order x o = execute_at o x (book (opposite o.side) x)

-- ===== src/Book/Enter.antt =====
-- `enter_order` of baselines/fast_sim/hotpath.py.
use track3_simulation_public.Common.{
  ℕ, suc, ◌+◌, ◌-◌, Bool, true, false, Option, none, some, List, [], ◌∷◌, ◌++◌, ltb, ◌==◌,
  if◌then◌else◌,
}
use track3_simulation_public.Book.Order.{
  Side, Order, Entry, plain, half, Result, ok, err, ◌>>=◌, out_of_range, cheap_clone,
}
use track3_simulation_public.Book.Level.{Level, add, new_level}
use track3_simulation_public.Book.Exchange.{Exchange, book, set_book}

-- Price `p` is worse, and better, than `q` on a side.
abbrev pub is_worse : Side → ℕ → ℕ → Bool
is_worse Side.bid p q = ltb p q
is_worse Side.ask p q = ltb q p

abbrev pub is_better : Side → ℕ → ℕ → Bool
is_better s p q = is_worse s q p

-- `book[-1].price`
unfoldable pub last_price : List Level → Option ℕ
last_price [] = none
last_price (l ∷ []) = some l.price
last_price (l ∷ m ∷ ls) = last_price (m ∷ ls)

-- The loop over the levels. Past the last one nothing is inserted.
unfoldable pub insert_scan : Side → Entry → List Level → List Level
insert_scan s e [] = []
insert_scan s e (l ∷ ls) =
    if e.order.limit_price == l.price
    then add l e ∷ ls
    else if is_better s e.order.limit_price l.price
    then new_level e ∷ l ∷ ls
    else l ∷ insert_scan s e ls

unfoldable pub insert_after : Side → Entry → List Level → Option ℕ → List Level
insert_after s e ls none = new_level e ∷ []
insert_after s e ls (some lp) =
    if is_worse s e.order.limit_price lp then ls ++ new_level e ∷ [] else insert_scan s e ls

-- The insertion of an order object with its metadata.
unfoldable pub insert_entry : Side → Entry → List Level → List Level
unfolding insert_after
insert_entry s e ls = insert_after s e ls (last_price ls)

-- The new object takes the next identity.
unfoldable pub enter_whole : Exchange → Order → Exchange
enter_whole x o =
    let e : Entry = record { ref = x.next_ref; order = o; meta = plain } in
    set_book o.side (insert_entry o.side e (book o.side x)) (record x { next_ref = suc x.next_ref })

-- The price of the hidden half: one tick better.
hidden_price : Side → ℕ → Result ℕ
hidden_price Side.bid p = ok (p + 1)
hidden_price Side.ask p = if p == 0 then err out_of_range else ok (p - 1)

-- The two halves of a price-to-comply order, each with the other in its metadata.
enter_halves : Exchange → Order → ℕ → Exchange
enter_halves x o hp =
    let hidden_order : Order = record (cheap_clone o) { is_hidden = true; limit_price = hp } in
    let visible_order : Order = cheap_clone o in
    let hidden_entry : Entry = record {
      ref = x.next_ref;
      order = hidden_order;
      meta = half true (suc x.next_ref) o.limit_price o.order_id;
    } in
    let visible_entry : Entry = record {
      ref = suc x.next_ref;
      order = visible_order;
      meta = half false x.next_ref hp o.order_id;
    } in
    let levels = insert_entry o.side hidden_entry (book o.side x) in
    set_book o.side (insert_entry o.side visible_entry levels)
      (record x { next_ref = suc (suc x.next_ref) })

-- `enter_order` with no metadata, as the matching code calls it.
unfoldable pub enter_order : Exchange → Order → Result Exchange
unfolding enter_whole enter_halves hidden_price
enter_order x o =
    if o.is_price_to_comply
    then (do hp ← hidden_price o.side o.limit_price; ok (enter_halves x o hp))
    else ok (enter_whole x o)

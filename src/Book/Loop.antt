-- ===== src/Book/Loop.antt =====
-- The matching loop of `handle_limit_order` implements the matching of the flat view.
use track3_simulation_public.Common.{
  ℕ, suc, ◌<◌, ◌≤◌, ◌≡◌, refl, sym, ap, subst, ◌∙◌, Bool, true, false, none, some, List, [], ◌∷◌,
  ◌++◌, ◌==◌, if◌then◌else◌, arith, append-nil, All,
}
use track3_simulation_public.Book.Order.{Side, opposite, Order, Entry, plain, Result, ok}
use track3_simulation_public.Book.Level.{Level, is_empty, none_left}
use track3_simulation_public.Book.Exchange.{
  Exchange, no_policy, book, entries, accepted, send, book-set_book, book-set_opposite,
  book-opposite-set_book, book-next_ref, book-send, SameRest, set_book-SameRest,
}
use track3_simulation_public.Book.Execute.{settle, execute_order, reduce}
use track3_simulation_public.Book.Enter.{insert_entry, enter_whole}
use track3_simulation_public.Book.Handle.{
  stop, again, Matched, append_trade, limit_round, limit_loop,
}
use track3_simulation_public.Book.Valid.{Fits, IsBook}
use track3_simulation_public.Book.Fill.{fill_front}
use track3_simulation_public.Book.Flat.{Outcome, match_flat}
use track3_simulation_public.Book.Matching.{
  IsIncoming, after_trade, rested, round-rest, round-trade,
}

-- The first order of a well-formed side.
pub record Front (s : Side) (l : Level) (ls : List Level) : Type 0 where
  pub entry : Entry
  pub behind : List Entry
  pub flat : entries (l ∷ ls) ≡ entry ∷ behind
  pub at : entry.order.limit_price ≡ l.price
  pub positive : 0 < entry.order.quantity

Front-of :
    (s : Side) (l : Level) (ls : List Level) (vis hid : List Entry)
    → l.visible_orders ≡ vis
    → l.hidden_orders ≡ hid
    → All (Fits s l.price false) vis
    → All (Fits s l.price true) hid
    → none_left vis hid ≡ false
    → Front s l ls
unfolding none_left
Front-of s l ls (e ∷ vis) hid v h fv fh some_left = record {
  entry = e;
  behind = (vis ++ hid) ++ entries ls;
  flat = rw (v, h);
  at = fv.0.price;
  positive = fv.0.positive;
}
Front-of s l ls [] (e ∷ hid) v h fv fh some_left = record {
  entry = e;
  behind = hid ++ entries ls;
  flat = rw (v, h);
  at = fh.0.price;
  positive = fh.0.positive;
}
Front-of s l ls [] [] v h fv fh some_left = cc

pub IsBook-Front : (s : Side) (l : Level) (ls : List Level) → IsBook s (l ∷ ls) → Front s l ls
unfolding is_empty
IsBook-Front s l ls b =
    Front-of s l ls l.visible_orders l.hidden_orders refl refl b.0.visible b.0.hidden b.0.inhabited

-- The exchange after a trade: the opposite side is new, all else that the loop reads is the same.
pub after_trade-opposite :
    (x : Exchange) (o t : Order) (after : List Level)
    → book (opposite o.side) (after_trade x o t after) ≡ after
unfolding settle
after_trade-opposite x o t after = simp (book-send, book-set_book)

pub after_trade-own :
    (x : Exchange) (o t : Order) (after : List Level)
    → book o.side (after_trade x o t after) ≡ book o.side x
unfolding settle
after_trade-own x o t after = simp (book-send, book-set_opposite)

pub after_trade-SameRest :
    (x : Exchange) (o t : Order) (after : List Level) → SameRest x (after_trade x o t after)
unfolding settle send
after_trade-SameRest x o t after =
    let r = set_book-SameRest (opposite o.side) after x in
    record {
      symbol = r.symbol;
      current_time = r.current_time;
      stp_policy = r.stp_policy;
      next_ref = r.next_ref;
      last_trade = r.last_trade;
    }

-- The order object that the book stores for a residual quantity.
abbrev pub residual : Exchange → Order → ℕ → Entry
residual x o q = record { ref = x.next_ref; order = record o { quantity = q }; meta = plain }

-- The matching of the flat view that the loop has to carry out.
abbrev pub outcome : Exchange → Order → Outcome
outcome x o = match_flat o.side o.limit_price o.quantity (entries (book (opposite o.side) x))

-- The order's own side, once `q` of the order is left.
abbrev pub own_after : Exchange → Order → ℕ → List Level
own_after x o q =
    if q == 0 then book o.side x else insert_entry o.side (residual x o q) (book o.side x)

pub own_after-pos :
    (x : Exchange) (o : Order) (q : ℕ)
    → 0 < q
    → own_after x o q ≡ insert_entry o.side (residual x o q) (book o.side x)
own_after-pos x o q h = ground arith

-- What a run of the loop comes to: it returns, with the trades, the opposite side and the residual of
-- the flat matching; the residual, if any, has been entered on the order's own side.
pub record Runs (x : Exchange) (o : Order) (ts : List (ℕ × ℕ)) (r : Result Matched) : Type 0 where
  pub final : Matched
  pub returns : r ≡ ok final
  pub trades : final.trades ≡ ts ++ (outcome x o).trades
  pub rest : entries (book (opposite o.side) final.exchange) ≡ (outcome x o).rest
  pub valid : IsBook (opposite o.side) (book (opposite o.side) final.exchange)
  pub own : book o.side final.exchange ≡ own_after x o (outcome x o).left
  pub same_time : final.exchange.current_time ≡ x.current_time
  pub same_last : final.exchange.last_trade ≡ x.last_trade

pub append_trade-append :
    (ts : List (ℕ × ℕ)) (t : ℕ × ℕ) (us : List (ℕ × ℕ)) → append_trade ts t ++ us ≡ ts ++ t ∷ us
append_trade-append [] t us = refl
append_trade-append (s ∷ ts) t us = ap (◌∷◌ s) (append_trade-append ts t us)

enter_whole-own :
    (x : Exchange) (o : Order)
    → book o.side (enter_whole x o) ≡ insert_entry o.side (residual x o o.quantity) (book o.side x)
unfolding enter_whole
enter_whole-own x o = book-set_book o.side _ (record x { next_ref = suc x.next_ref })

enter_whole-opposite :
    (x : Exchange) (o : Order) → book (opposite o.side) (enter_whole x o) ≡ book (opposite o.side) x
unfolding enter_whole
enter_whole-opposite x o =
    book-opposite-set_book o.side _ (record x { next_ref = suc x.next_ref })
    ∙ book-next_ref (opposite o.side) (suc x.next_ref) x

rested-own :
    (x : Exchange) (o : Order) (quiet : Bool)
    → book o.side (rested x o quiet) ≡ insert_entry o.side (residual x o o.quantity) (book o.side x)
rested-own x o true = enter_whole-own x o
rested-own x o false =
    book-send o.side accepted o.agent_id o (enter_whole x o) ∙ enter_whole-own x o

rested-opposite :
    (x : Exchange) (o : Order) (quiet : Bool)
    → book (opposite o.side) (rested x o quiet) ≡ book (opposite o.side) x
rested-opposite x o true = enter_whole-opposite x o
rested-opposite x o false =
    book-send (opposite o.side) accepted o.agent_id o (enter_whole x o) ∙ enter_whole-opposite x o

enter_whole-time : (x : Exchange) (o : Order) → (enter_whole x o).current_time ≡ x.current_time
unfolding enter_whole
enter_whole-time x o =
    (set_book-SameRest o.side _ (record x { next_ref = suc x.next_ref })).current_time

rested-time :
    (x : Exchange) (o : Order) (quiet : Bool) → (rested x o quiet).current_time ≡ x.current_time
unfolding send
rested-time x o true = enter_whole-time x o
rested-time x o false = enter_whole-time x o

enter_whole-last : (x : Exchange) (o : Order) → (enter_whole x o).last_trade ≡ x.last_trade
unfolding enter_whole
enter_whole-last x o =
    (set_book-SameRest o.side _ (record x { next_ref = suc x.next_ref })).last_trade

rested-last :
    (x : Exchange) (o : Order) (quiet : Bool) → (rested x o quiet).last_trade ≡ x.last_trade
unfolding send
rested-last x o true = enter_whole-last x o
rested-last x o false = enter_whole-last x o

loop-stop :
    (f : ℕ) (x : Exchange) (o : Order) (quiet : Bool) (ts : List (ℕ × ℕ)) {m : Matched}
    → limit_round x o quiet ts ≡ ok (stop m)
    → limit_loop (suc f) x o quiet ts ≡ ok m
unfolding limit_loop
loop-stop f x o quiet ts e = ground arith

pub loop-again :
    (f : ℕ) (x : Exchange) (o : Order) (quiet : Bool) (ts : List (ℕ × ℕ)) {o' : Order}
    {x' : Exchange} {ts' : List (ℕ × ℕ)}
    → limit_round x o quiet ts ≡ ok (again o' x' ts')
    → limit_loop (suc f) x o quiet ts ≡ limit_loop f x' o' quiet ts'
unfolding limit_loop
loop-again f x o quiet ts e = ground arith

-- The loop stops at once if nothing trades.
pub rest-Runs :
    (f : ℕ) (x : Exchange) (o : Order) (quiet : Bool) (ts : List (ℕ × ℕ))
    → IsIncoming o
    → x.stp_policy ≡ no_policy
    → IsBook (opposite o.side) (book (opposite o.side) x)
    → execute_order x o ≡ ok (none, o, x)
    → outcome x o
      ≡ record { trades = []; left = o.quantity; rest = entries (book (opposite o.side) x) }
    → Runs x o ts (limit_loop (suc f) x o quiet ts)
rest-Runs f x o quiet ts v p b e out = record {
  final = record { trades = ts; exchange = rested x o quiet };
  returns = loop-stop f x o quiet ts (round-rest x o quiet ts v p e);
  trades = sym (ap (λ (u : Outcome). ts ++ u.trades) out ∙ append-nil ts);
  rest = ap entries (rested-opposite x o quiet) ∙ sym (ap (λ (u : Outcome). u.rest) out);
  valid = subst (IsBook (opposite o.side)) (sym (rested-opposite x o quiet)) b;
  own =
      rested-own x o quiet
      ∙ sym (own_after-pos x o o.quantity v.positive)
      ∙ sym (ap (λ (u : Outcome). own_after x o u.left) out);
  same_time = rested-time x o quiet;
  same_last = rested-last x o quiet;
}

pub fill_front-whole_inv :
    (q : ℕ) (e : Entry) (es : List Entry) {t : Order} {after : List Entry}
    → fill_front q (e ∷ es) ≡ some (t, after)
    → e.order.quantity ≤ q
    → (t ≡ e.order) × (after ≡ es)
unfolding fill_front
fill_front-whole_inv q e es h le = ground arith

pub fill_front-part_inv :
    (q : ℕ) (e : Entry) (es : List Entry) {t : Order} {after : List Entry}
    → fill_front q (e ∷ es) ≡ some (t, after)
    → q < e.order.quantity
    → (t ≡ record e.order { quantity = q }) × (after ≡ reduce e q ∷ es)
unfolding fill_front
fill_front-part_inv q e es h lt = ground arith

-- A trade that uses the order up ends the loop.
pub last-Runs :
    (f : ℕ) (x : Exchange) (o t : Order) (after : List Level) (quiet : Bool) (ts : List (ℕ × ℕ))
    → x.stp_policy ≡ no_policy
    → execute_order x o ≡ ok (settle o x (t, after))
    → o.quantity ≤ t.quantity
    → IsBook (opposite o.side) after
    → outcome x o
      ≡ record { trades = (t.quantity, t.limit_price) ∷ []; left = 0; rest = entries after }
    → Runs x o ts (limit_loop (suc f) x o quiet ts)
last-Runs f x o t after quiet ts p e used b out = record {
  final = record {
    trades = append_trade ts (t.quantity, t.limit_price);
    exchange = after_trade x o t after;
  };
  returns = loop-stop f x o quiet ts (round-trade x o t after quiet ts p e ∙ ground arith);
  trades =
      sym (append-nil _)
      ∙ append_trade-append ts (t.quantity, t.limit_price) []
      ∙ sym (ap (λ (u : Outcome). ts ++ u.trades) out);
  rest = ap entries (after_trade-opposite x o t after) ∙ sym (ap (λ (u : Outcome). u.rest) out);
  valid = subst (IsBook (opposite o.side)) (sym (after_trade-opposite x o t after)) b;
  own = after_trade-own x o t after ∙ sym (ap (λ (u : Outcome). own_after x o u.left) out);
  same_time = (after_trade-SameRest x o t after).current_time;
  same_last = (after_trade-SameRest x o t after).last_trade;
}

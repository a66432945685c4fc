-- ===== src/Book/Flat.antt =====
-- The matching of the flat view of a side, an independent description of what the loop of
-- `handle_limit_order` has to do.
use track3_simulation_public.Common.{
  ℕ, ◌-◌, ◌<◌, ◌≡◌, true, false, List, [], ◌∷◌, ltb, ◌==◌, if◌then◌else◌, arith, lt→ltb,
}
use track3_simulation_public.Book.Order.{Side, Entry}
use track3_simulation_public.Book.Level.{crosses}
use track3_simulation_public.Book.Execute.{reduce}

-- What a matching yields: the trades in order, as quantity and price, what is left of the incoming
-- order, and the orders that stay.
pub record Outcome : Type 0 where
  pub trades : List (ℕ × ℕ)
  pub left : ℕ
  pub rest : List Entry

abbrev pub prepend : ℕ × ℕ → Outcome → Outcome
prepend t u = record u { trades = t ∷ u.trades }

-- The specification: orders in priority order trade with the incoming quantity at their own prices,
-- each whole but the last, for as long as the incoming limit reaches their price.
unfoldable pub match_flat : Side → ℕ → ℕ → List Entry → Outcome
unfolding reduce
match_flat s limit q [] = record { trades = []; left = q; rest = [] }
match_flat s limit q (e ∷ es) =
    let later = match_flat s limit (q - e.order.quantity) es in
    if crosses s limit e.order.limit_price
    then (if ltb e.order.quantity q
        then prepend (e.order.quantity, e.order.limit_price) later
        else record {
          trades = (q, e.order.limit_price) ∷ [];
          left = 0;
          rest = if e.order.quantity == q then es else reduce e q ∷ es;
        })
    else record { trades = []; left = q; rest = e ∷ es }

pub match-stop :
    (s : Side) (limit q : ℕ) (e : Entry) (es : List Entry)
    → crosses s limit e.order.limit_price ≡ false
    → match_flat s limit q (e ∷ es) ≡ record { trades = []; left = q; rest = e ∷ es }
unfolding match_flat
match-stop s limit q e es h = rw h

pub match-less :
    (s : Side) (limit q : ℕ) (e : Entry) (es : List Entry)
    → crosses s limit e.order.limit_price ≡ true
    → e.order.quantity < q
    → match_flat s limit q (e ∷ es)
      ≡ prepend
          (e.order.quantity, e.order.limit_price)
          (match_flat s limit (q - e.order.quantity) es)
unfolding match_flat
match-less s limit q e es h lt = rw (h, lt→ltb e.order.quantity q lt)

pub match-equal :
    (s : Side) (limit q : ℕ) (e : Entry) (es : List Entry)
    → crosses s limit e.order.limit_price ≡ true
    → e.order.quantity ≡ q
    → match_flat s limit q (e ∷ es)
      ≡ record { trades = (e.order.quantity, e.order.limit_price) ∷ []; left = 0; rest = es }
unfolding match_flat
match-equal s limit q e es h eq = rw h (ground arith)

pub match-more :
    (s : Side) (limit q : ℕ) (e : Entry) (es : List Entry)
    → crosses s limit e.order.limit_price ≡ true
    → q < e.order.quantity
    → match_flat s limit q (e ∷ es)
      ≡ record { trades = (q, e.order.limit_price) ∷ []; left = 0; rest = reduce e q ∷ es }
unfolding match_flat
match-more s limit q e es h gt = rw h (ground arith)

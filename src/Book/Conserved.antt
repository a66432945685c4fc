-- ===== src/Book/Conserved.antt =====
-- What the matching loop of `handle_limit_order` conserves, and the prices of its trades.
use track3_simulation_public.Common.{
  ℕ, ◌+◌, ◌*◌, ◌<◌, ◌≡◌, refl, sym, ap, subst, ◌∙◌, inl, inr, Bool, true, false, List, [], ◌∷◌,
  length, All, arith, Bool-cases, ◌==◌,
}
use track3_simulation_public.Book.Order.{Side, opposite, Order, Entry, Result, ok}
use track3_simulation_public.Book.Level.{crosses}
use track3_simulation_public.Book.Exchange.{Exchange, no_policy, book, entries}
use track3_simulation_public.Book.Handle.{Matched, trade_quantity, limit_loop}
use track3_simulation_public.Book.Valid.{IsBook}
use track3_simulation_public.Book.Precedence.{insert_priority}
use track3_simulation_public.Book.Priority.{entries-insert_entry}
use track3_simulation_public.Book.Matching.{IsIncoming}
use track3_simulation_public.Book.Loop.{outcome, residual, own_after, Runs}
use track3_simulation_public.Book.Refinement.{limit_loop-Runs}
use track3_simulation_public.Book.Conservation.{total, match_flat-total, match_flat-limit}

-- The loop returns. The quantity that rests on both sides afterwards, and twice what traded, make up
-- what rested before and the order; every trade is at a price that the order's limit reaches.
pub record Conserves (x : Exchange) (o : Order) (r : Result Matched) : Type 0 where
  pub final : Matched
  pub returns : r ≡ ok final
  pub volume :
      total (entries (book o.side final.exchange))
        + total (entries (book (opposite o.side) final.exchange))
        + 2 * trade_quantity final.trades
      ≡ total (entries (book o.side x)) + total (entries (book (opposite o.side) x)) + o.quantity
  pub within : All (λ (t : ℕ × ℕ). crosses o.side o.limit_price t.1 ≡ true) final.trades

total-insert_priority :
    (s : Side) (e : Entry) (es : List Entry)
    → total (insert_priority s e es) ≡ e.order.quantity + total es
unfolding total insert_priority
total-insert_priority s e [] = refl
total-insert_priority s e (f ∷ es) = ground (arith, total-insert_priority s e es)

total-own_after :
    (x : Exchange) (o : Order) (q : ℕ)
    → o.insert_by_id ≡ false
    → IsBook o.side (book o.side x)
    → total (entries (own_after x o q)) ≡ q + total (entries (book o.side x))
total-own_after x o q by_id b = elim (Bool-cases (q == 0)) [
  | inl none_left ↦ rw none_left (ground (arith, none_left))
  | inr some_left ↦
      rw
        (
          some_left,
          entries-insert_entry o.side (residual x o q) (book o.side x) by_id b,
          total-insert_priority o.side (residual x o q) (entries (book o.side x)),
        )
        refl
]

Runs-Conserves :
    (x : Exchange) (o : Order) {r : Result Matched}
    → o.insert_by_id ≡ false
    → IsBook o.side (book o.side x)
    → Runs x o [] r
    → Conserves x o r
Runs-Conserves x o by_id b run =
    let (taken, stays) =
      match_flat-total o.side o.limit_price o.quantity (entries (book (opposite o.side) x)) in
    let own =
      ap (λ ls. total (entries ls)) run.own ∙ total-own_after x o (outcome x o).left by_id b in
    record {
      final = run.final;
      returns = run.returns;
      volume = omega (arith, own, ap total run.rest, ap trade_quantity run.trades, taken, stays);
      within =
          subst (All (λ (t : ℕ × ℕ). crosses o.side o.limit_price t.1 ≡ true)) (sym run.trades)
            (match_flat-limit o.side o.limit_price o.quantity (entries (book (opposite o.side) x)));
    }

-- On a book with both sides well formed and without self-trade prevention, the loop on an order that
-- is not inserted by id returns within the fuel, conserves quantity, and trades at prices that the
-- limit reaches only.
pub limit_loop-Conserves :
    (f : ℕ) (x : Exchange) (o : Order) (quiet : Bool)
    → IsIncoming o
    → o.insert_by_id ≡ false
    → x.stp_policy ≡ no_policy
    → IsBook o.side (book o.side x)
    → IsBook (opposite o.side) (book (opposite o.side) x)
    → length (entries (book (opposite o.side) x)) < f
    → Conserves x o (limit_loop f x o quiet [])
limit_loop-Conserves f x o quiet v by_id p own other h =
    Runs-Conserves x o by_id own (limit_loop-Runs f x o quiet [] v p other h)

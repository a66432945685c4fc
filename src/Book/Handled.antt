-- ===== src/Book/Handled.antt =====
-- `handle_limit_order` as a whole, on a valid submission of an ordinary limit order.
use track3_simulation_public.Common.{
  ℕ, zero, suc, ◌<◌, ◌≡◌, refl, sym, ap, subst, ◌∙◌, inl, inr, Bool, false, Option, some, List, [],
  ◌∷◌, All, ◌==◌, if◌then◌else◌, arith, Bool-cases,
}
use track3_simulation_public.Common.Int.{pos, negsuc}
use track3_simulation_public.Book.Order.{Side, bid, ask, opposite, Kind, Order, Result, ok}
use track3_simulation_public.Book.Level.{Level}
use track3_simulation_public.Book.Exchange.{
  Exchange, no_policy, book, entries, count, count-entries,
}
use track3_simulation_public.Book.Execute.{is_preprocess}
use track3_simulation_public.Book.Handle.{
  Matched, Number, whole, fractional, Submission, Verdict, handled, positive_integer, natural_price,
  limit_loop, log_best, trade_quantity, set_last_trade, trade_value, finish, handle_limit_order,
}
use track3_simulation_public.Book.Valid.{IsBook}
use track3_simulation_public.Book.Precedence.{insert_priority}
use track3_simulation_public.Book.Priority.{entries-insert_entry}
use track3_simulation_public.Book.Matching.{IsIncoming}
use track3_simulation_public.Book.Loop.{outcome, residual, own_after, Runs}
use track3_simulation_public.Book.Refinement.{limit_loop-Runs}
use track3_simulation_public.Book.Conservation.{match_flat-positive, trade_quantity-pos}
use track3_simulation_public.Book.Uncrossed.{Apart}
use track3_simulation_public.Book.Limit.{
  IsExchange, IsExchange-Sides, Sides-IsExchange, positive_orders, loop-Sides,
}

-- The trade-weighted price, if there was a trade.
abbrev pub last_after : (ℕ → ℕ → ℕ) → Option ℕ → List (ℕ × ℕ) → Option ℕ
last_after round_div old [] = old
last_after round_div old (t ∷ ts) =
    some (round_div (trade_value (t ∷ ts)) (trade_quantity (t ∷ ts)))

-- An order as validated.
abbrev pub validated : Submission → ℕ → ℕ → Order
validated s q p = record s.order { quantity = q; limit_price = p }

-- What becomes of a submission that is not discarded.
pub record Handles (round_div : ℕ → ℕ → ℕ) (x : Exchange) (o : Order)
    (r : Result (Verdict × Exchange)) : Type 0 where
  pub exchange : Exchange
  pub returns : r ≡ ok (handled, exchange)
  pub valid : IsExchange exchange
  pub filled : entries (book (opposite o.side) exchange) ≡ (outcome x o).rest
  pub resting : entries (book o.side exchange) ≡ (
      if (outcome x o).left == 0
      then entries (book o.side x)
      else insert_priority o.side (residual x o (outcome x o).left) (entries (book o.side x)))
  pub last_trade : exchange.last_trade ≡ last_after round_div x.last_trade (outcome x o).trades

module _ (round_div : ℕ → ℕ → ℕ) where
  set_last_trade-ok :
      (ts : List (ℕ × ℕ)) (x : Exchange)
      → All (λ (t : ℕ × ℕ). 0 < t.0) ts
      → set_last_trade round_div ts x
        ≡ ok (record x { last_trade = last_after round_div x.last_trade ts })
  unfolding set_last_trade
  set_last_trade-ok [] x h = refl
  set_last_trade-ok (t ∷ ts) x h = ground (arith, trade_quantity-pos t ts h.0)

-- Logging the best quotes changes nothing else.
record SameBook (x y : Exchange) : Type 0 where
  same_bids : y.bids ≡ x.bids
  same_asks : y.asks ≡ x.asks
  same_last : y.last_trade ≡ x.last_trade

log_best-SameBook : (s : Side) (ls : List Level) (x : Exchange) → SameBook x (log_best s ls x)
unfolding log_best
log_best-SameBook s [] x = record { same_bids = refl; same_asks = refl; same_last = refl }
log_best-SameBook s (l ∷ ls) x = record { same_bids = refl; same_asks = refl; same_last = refl }

-- The exchange with both quotes logged.
logged : Exchange → Exchange
logged x = let x1 = log_best bid x.bids x in log_best ask x1.asks x1

logged-SameBook : (x : Exchange) → SameBook x (logged x)
unfolding logged
logged-SameBook x =
    let x1 = log_best bid x.bids x in
    let a = log_best-SameBook bid x.bids x in
    let b = log_best-SameBook ask x1.asks x1 in
    record {
      same_bids = b.same_bids ∙ a.same_bids;
      same_asks = b.same_asks ∙ a.same_asks;
      same_last = b.same_last ∙ a.same_last;
    }

SameSides-book :
    (s : Side) (x y : Exchange) → y.bids ≡ x.bids → y.asks ≡ x.asks → book s y ≡ book s x
SameSides-book bid x y b a = b
SameSides-book ask x y b a = a

SameSides-IsExchange :
    (x y : Exchange) → y.bids ≡ x.bids → y.asks ≡ x.asks → IsExchange x → IsExchange y
SameSides-IsExchange x y b a v = record {
  bids = subst (IsBook bid) (sym b) v.bids;
  asks = subst (IsBook ask) (sym a) v.asks;
  uncrossed =
      subst (λ ls. Apart bid (entries ls) (entries y.asks)) (sym b)
        (subst (λ ls. Apart bid (entries x.bids) (entries ls)) (sym a) v.uncrossed);
}

entries-own_after :
    (x : Exchange) (o : Order) (q : ℕ)
    → o.insert_by_id ≡ false
    → IsBook o.side (book o.side x)
    → entries (own_after x o q) ≡ (
        if q == 0
        then entries (book o.side x)
        else insert_priority o.side (residual x o q) (entries (book o.side x)))
entries-own_after x o q by_id b = elim (Bool-cases (q == 0)) [
  | inl h ↦ rw h refl
  | inr h ↦ rw h (entries-insert_entry o.side (residual x o q) (book o.side x) by_id b)
]

positive_integer-pos : (n : Number) {q : ℕ} → positive_integer n ≡ some q → 0 < q
unfolding positive_integer
positive_integer-pos (whole (pos zero)) h = cc
positive_integer-pos (whole (pos (suc n))) h = ground arith
positive_integer-pos (whole (negsuc n)) h = cc
positive_integer-pos (fractional n) h = cc

-- An order of the kind that the refinement is about: a limit order, neither price-to-comply nor
-- post-only, placed by arrival, with none of the two tags that stop a match.
pub record IsOrdinary (o : Order) : Type 0 where
  pub kind : o.kind ≡ Kind.limit
  pub whole : o.is_price_to_comply ≡ false
  pub open_to_take : o.is_post_only ≡ false
  pub by_arrival : o.insert_by_id ≡ false
  pub ordinary : is_preprocess o.tag ≡ false

validated-IsIncoming :
    (s : Submission) (q p : ℕ) → IsOrdinary s.order → 0 < q → IsIncoming (validated s q p)
validated-IsIncoming s q p v h = record {
  kind = v.kind;
  whole = v.whole;
  open_to_take = v.open_to_take;
  ordinary = v.ordinary;
  positive = h;
}

module _ (round_div : ℕ → ℕ → ℕ) where
  -- `handle_limit_order` past its checks.
  handle-run :
      (x : Exchange) (s : Submission) (quiet : Bool) {q p : ℕ} {m : Matched} {x' : Exchange}
      → s.order.symbol ≡ x.symbol
      → positive_integer s.quantity ≡ some q
      → natural_price s.limit_price ≡ some p
      → limit_loop (suc (count (book (opposite s.order.side) x))) x (validated s q p) quiet []
        ≡ ok m
      → finish round_div m ≡ ok x'
      → handle_limit_order round_div x s quiet ≡ ok (handled, x')
  unfolding handle_limit_order
  handle-run x s quiet {q} {p} {m} {x'} sym_ok q_ok p_ok run fin = ground arith

  finish-run :
      (m : Matched)
      → All (λ (t : ℕ × ℕ). 0 < t.0) m.trades
      → finish round_div m
        ≡ ok (record (logged m.exchange) {
          last_trade = last_after round_div m.exchange.last_trade m.trades;
        })
  unfolding finish logged
  finish-run m h =
      set_last_trade-ok round_div m.trades (logged m.exchange) h
      ∙ ap (λ o. ok (record (logged m.exchange) { last_trade = last_after round_div o m.trades }))
          (logged-SameBook m.exchange).same_last

  run-Handles :
      (x : Exchange) (o : Order) {r : Result Matched} {v : Result (Verdict × Exchange)}
      → IsIncoming o
      → o.insert_by_id ≡ false
      → IsExchange x
      → (run : Runs x o [] r)
      → v
        ≡ ok (
          handled,
          record (logged run.final.exchange) {
            last_trade = last_after round_div run.final.exchange.last_trade run.final.trades;
          },
        )
      → Handles round_div x o v
  run-Handles x o incoming by_id v run e = record {
    exchange = record (logged run.final.exchange) {
      last_trade = last_after round_div run.final.exchange.last_trade run.final.trades;
    };
    returns = e;
    valid = SameSides-IsExchange run.final.exchange _ same.same_bids same.same_asks valid;
    filled =
        ap entries
          (SameSides-book (opposite o.side) run.final.exchange _ same.same_bids same.same_asks)
        ∙ run.rest;
    resting =
        ap entries (SameSides-book o.side run.final.exchange _ same.same_bids same.same_asks)
        ∙ ap entries run.own
        ∙ entries-own_after x o (outcome x o).left by_id (IsExchange-Sides o.side x v).own;
    last_trade = rw (run.same_last, run.trades) refl;
  }
    where
      same : SameBook run.final.exchange (logged run.final.exchange)
      same = logged-SameBook run.final.exchange

      valid : IsExchange run.final.exchange
      valid =
          Sides-IsExchange o.side run.final.exchange
            (loop-Sides x o [] incoming by_id (IsExchange-Sides o.side x v) run)

  -- A valid submission of an ordinary limit order is always handled: no fault, and no end of the fuel,
  -- whatever the book. Afterwards the opposite side and the residual are those of the flat matching,
  -- the residual stands in price-time priority, the book is well formed and not crossed, and the last
  -- trade is the rounded trade-weighted price if there was a trade.
  pub handle_limit_order-Handles :
      (x : Exchange) (s : Submission) (quiet : Bool) {q p : ℕ}
      → IsExchange x
      → x.stp_policy ≡ no_policy
      → IsOrdinary s.order
      → s.order.symbol ≡ x.symbol
      → positive_integer s.quantity ≡ some q
      → natural_price s.limit_price ≡ some p
      → Handles round_div x (validated s q p) (handle_limit_order round_div x s quiet)
  handle_limit_order-Handles x s quiet {q} {p} v policy ordinary same q_ok p_ok =
      run-Handles x (validated s q p) incoming ordinary.by_arrival v run
        (handle-run x s quiet same q_ok p_ok run.returns (finish-run run.final positive))
    where
      incoming : IsIncoming (validated s q p)
      incoming = validated-IsIncoming s q p ordinary (positive_integer-pos s.quantity q_ok)

      other : IsBook (opposite s.order.side) (book (opposite s.order.side) x)
      other = (IsExchange-Sides s.order.side x v).other

      run :
          Runs x
            (validated s q p)
            []
            (limit_loop (suc (count (book (opposite s.order.side) x))) x (validated s q p) quiet [])
      run =
          limit_loop-Runs _ x (validated s q p) quiet [] incoming policy other
            (omega (arith, count-entries (book (opposite s.order.side) x)))

      positive : All (λ (t : ℕ × ℕ). 0 < t.0) run.final.trades
      positive = rw run.trades (
          match_flat-positive s.order.side p q _ incoming.positive
            (positive_orders (opposite s.order.side) (book (opposite s.order.side) x) other))

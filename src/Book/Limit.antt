-- ===== src/Book/Limit.antt =====
-- A well-formed book that is not crossed, and what the loop of `handle_limit_order` makes of one.
use track3_simulation_public.Common.{
  ℕ, ◌<◌, ◌≡◌, refl, sym, subst, ◌⊎◌, inl, inr, false, List, [], ◌∷◌, ◌++◌, All, All-append, arith,
}
use track3_simulation_public.Book.Order.{Side, bid, ask, opposite, Order, Entry, Result}
use track3_simulation_public.Book.Level.{Level}
use track3_simulation_public.Book.Exchange.{Exchange, book, entries}
use track3_simulation_public.Book.Handle.{Matched}
use track3_simulation_public.Book.Valid.{IsBook}
use track3_simulation_public.Book.Sorted.{insert_entry-IsBook}
use track3_simulation_public.Book.Precedence.{level_orders}
use track3_simulation_public.Book.Priority.{entries-insert_entry}
use track3_simulation_public.Book.Matching.{IsIncoming}
use track3_simulation_public.Book.Loop.{outcome, residual, own_after, own_after-pos, Runs}
use track3_simulation_public.Book.Conservation.{match_flat-Blocked}
use track3_simulation_public.Book.Uncrossed.{Apart, Apart-opposite, rest-Apart, insert-Apart}

-- Both sides well formed, and every bid below every ask.
pub record IsExchange (x : Exchange) : Type 0 where
  pub bids : IsBook bid x.bids
  pub asks : IsBook ask x.asks
  pub uncrossed : Apart bid (entries x.bids) (entries x.asks)

-- The same seen from one side.
pub record Sides (s : Side) (x : Exchange) : Type 0 where
  pub own : IsBook s (book s x)
  pub other : IsBook (opposite s) (book (opposite s) x)
  pub apart : Apart s (entries (book s x)) (entries (book (opposite s) x))

pub IsExchange-Sides : (s : Side) (x : Exchange) → IsExchange x → Sides s x
IsExchange-Sides bid x v = record { own = v.bids; other = v.asks; apart = v.uncrossed }
IsExchange-Sides ask x v = record {
  own = v.asks;
  other = v.bids;
  apart = Apart-opposite bid _ _ v.uncrossed;
}

pub Sides-IsExchange : (s : Side) (x : Exchange) → Sides s x → IsExchange x
Sides-IsExchange bid x v = record { bids = v.own; asks = v.other; uncrossed = v.apart }
Sides-IsExchange ask x v = record {
  bids = v.other;
  asks = v.own;
  uncrossed = Apart-opposite ask _ _ v.apart;
}

pub positive_orders :
    (s : Side) (ls : List Level)
    → IsBook s ls
    → All (λ (e : Entry). 0 < e.order.quantity) (entries ls)
positive_orders s [] b = tt
positive_orders s (l ∷ ls) b =
    All-append _ (l.visible_orders ++ l.hidden_orders) (entries ls)
      (level_orders s l (λ h f fits. fits.positive) b.0) (positive_orders s ls b.2)

zero_or_pos : (n : ℕ) → (n ≡ 0) ⊎ (0 < n)
zero_or_pos n = omega arith

-- The own side after the loop, by what is left of the order.
pub own_after-Sides :
    (x : Exchange) (o : Order) (opp : List Level)
    → IsIncoming o
    → o.insert_by_id ≡ false
    → Sides o.side x
    → IsBook (opposite o.side) opp
    → entries opp ≡ (outcome x o).rest
    → IsBook o.side (own_after x o (outcome x o).left)
      × Apart o.side (entries (own_after x o (outcome x o).left)) (entries opp)
own_after-Sides x o opp v by_id s b rest = elim (zero_or_pos (outcome x o).left) [
  | inl done ↦ rw done (s.own, kept)
  | inr some_left ↦ rw (own_after-pos x o (outcome x o).left some_left) (
    insert_entry-IsBook o.side (residual x o (outcome x o).left) (book o.side x)
        (v.whole, some_left) refl s.own,
    rw (entries-insert_entry o.side (residual x o (outcome x o).left) (book o.side x) by_id s.own) (
        insert-Apart o.side (residual x o (outcome x o).left) (entries (book o.side x)) opp b
          (rw rest (match_flat-Blocked o.side o.limit_price o.quantity _ some_left)) kept),
  )
]
  where
    kept : Apart o.side (entries (book o.side x)) (entries opp)
    kept = rw rest (rest-Apart o.side o.limit_price o.quantity _ _ s.apart)

pub loop-Sides :
    (x : Exchange) (o : Order) (ts : List (ℕ × ℕ)) {r : Result Matched}
    → IsIncoming o
    → o.insert_by_id ≡ false
    → Sides o.side x
    → (run : Runs x o ts r) → Sides o.side run.final.exchange
loop-Sides x o ts v by_id s run =
    let (own, apart) = own_after-Sides x o _ v by_id s run.valid run.rest in
    record {
      own = subst (IsBook o.side) (sym run.own) own;
      other = run.valid;
      apart =
          subst
            (λ ls. Apart o.side (entries ls) (entries (book (opposite o.side) run.final.exchange)))
            (sym run.own) apart;
    }

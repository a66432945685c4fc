-- ===== src/Book/Conservation.antt =====
-- What the matching of the flat view conserves and guarantees.
use track3_simulation_public.Common.{
  ℕ, ◌+◌, ◌-◌, ◌<◌, ◌≡◌, inl, inr, true, false, List, [], ◌∷◌, All, ltb, arith, Bool-cases, ltb→lt,
}
use track3_simulation_public.Book.Order.{Side, Entry}
use track3_simulation_public.Book.Level.{crosses}
use track3_simulation_public.Book.Handle.{trade_quantity}
use track3_simulation_public.Book.Execute.{reduce}
use track3_simulation_public.Book.Flat.{match_flat, match-stop, match-less}

-- The quantity that rests in a list of orders.
unfoldable pub total : List Entry → ℕ
total [] = 0
total (e ∷ es) = e.order.quantity + total es

-- Nothing is lost: what trades and what is left make up the incoming quantity, and what trades and
-- what stays make up the resting quantity.
pub match_flat-total :
    (s : Side) (limit q : ℕ) (es : List Entry)
    → let u = match_flat s limit q es in
      (trade_quantity u.trades + u.left ≡ q) × (trade_quantity u.trades + total u.rest ≡ total es)
unfolding match_flat trade_quantity total reduce
match_flat-total s limit q [] = (omega arith, omega arith)
match_flat-total s limit q (e ∷ es) =
    ground (arith, match_flat-total s limit (q - e.order.quantity) es)

-- No trade is at a price beyond the limit.
pub match_flat-limit :
    (s : Side) (limit q : ℕ) (es : List Entry)
    → All (λ (t : ℕ × ℕ). crosses s limit t.1 ≡ true) (match_flat s limit q es).trades
unfolding match_flat
match_flat-limit s limit q [] = tt
match_flat-limit s limit q (e ∷ es) =
    ground (arith, match_flat-limit s limit (q - e.order.quantity) es)

-- What holds of the prices of the resting orders holds of the prices that trade and of those that stay.
pub match_flat-All :
    (P : ℕ → Type 0) (s : Side) (limit q : ℕ) (es : List Entry)
    → All (λ (e : Entry). P e.order.limit_price) es
    → let u = match_flat s limit q es in
      All (λ (t : ℕ × ℕ). P t.1) u.trades × All (λ (e : Entry). P e.order.limit_price) u.rest
unfolding match_flat reduce
match_flat-All P s limit q [] h = (tt, tt)
match_flat-All P s limit q (e ∷ es) h =
    ground (arith, match_flat-All P s limit (q - e.order.quantity) es h.1)

-- The limit does not reach the first order.
abbrev pub Blocked : Side → ℕ → List Entry → Type 0
Blocked s limit [] = Unit
Blocked s limit (e ∷ es) = crosses s limit e.order.limit_price ≡ false

pub match_flat-Blocked :
    (s : Side) (limit q : ℕ) (es : List Entry)
    → 0 < (match_flat s limit q es).left
    → Blocked s limit (match_flat s limit q es).rest
unfolding match_flat
match_flat-Blocked s limit q [] h = tt
match_flat-Blocked s limit q (e ∷ es) h = elim (Bool-cases (crosses s limit e.order.limit_price)) [
  | inr stop ↦ rw (match-stop s limit q e es stop) stop
  | inl reach ↦ elim (Bool-cases (ltb e.order.quantity q)) [
    | inl lt ↦ rw (match-less s limit q e es reach (ltb→lt e.order.quantity q lt)) (
        match_flat-Blocked s limit (q - e.order.quantity) es
          (rw (match-less s limit q e es reach (ltb→lt e.order.quantity q lt)) at h))
    | inr ge ↦ absurd (ground (arith, reach, ge, h))
  ]
]

-- Every trade is of a positive quantity.
pub match_flat-positive :
    (s : Side) (limit q : ℕ) (es : List Entry)
    → 0 < q
    → All (λ (e : Entry). 0 < e.order.quantity) es
    → All (λ (t : ℕ × ℕ). 0 < t.0) (match_flat s limit q es).trades
unfolding match_flat
match_flat-positive s limit q [] h hs = tt
match_flat-positive s limit q (e ∷ es) h hs = ground (
  arith,
  λ (p : 0 < q - e.order.quantity). match_flat-positive s limit (q - e.order.quantity) es p hs.1,
)

pub trade_quantity-pos : (t : ℕ × ℕ) (ts : List (ℕ × ℕ)) → 0 < t.0 → 0 < trade_quantity (t ∷ ts)
unfolding trade_quantity
trade_quantity-pos t ts h = omega arith

-- ===== src/Book/Uncrossed.antt =====
-- The book is never crossed: every resting bid is below every resting ask.
use track3_simulation_public.Common.{
  ℕ, ◌≡◌, subst, inl, inr, true, false, List, [], ◌∷◌, ◌++◌, All, All-append, arith, Bool-cases,
}
use track3_simulation_public.Book.Order.{Side, bid, ask, opposite, Entry}
use track3_simulation_public.Book.Level.{Level, crosses}
use track3_simulation_public.Book.Exchange.{entries}
use track3_simulation_public.Book.Enter.{is_better}
use track3_simulation_public.Book.Valid.{IsBook}
use track3_simulation_public.Book.Precedence.{
  All-map, level_orders, Ahead-All, goes_before, insert_priority,
}
use track3_simulation_public.Book.Conservation.{Blocked, match_flat-All}
use track3_simulation_public.Book.Flat.{match_flat}
use track3_simulation_public.Book.Loop.{Front, IsBook-Front}

-- No order of the first list, which is of side `s`, reaches the price of one of the second.
abbrev pub Apart : Side → List Entry → List Entry → Type 0
Apart s own other =
    All
      (λ (e : Entry).
        All (λ (f : Entry). crosses s e.order.limit_price f.order.limit_price ≡ false) other)
      own

All-swap {ℓ κ μ} :
    {A : Type ℓ} {B : Type κ} (R : A → B → Type μ) (xs : List A) (ys : List B)
    → All (λ x. All (λ y. R x y) ys) xs
    → All (λ y. All (λ x. R x y) xs) ys
All-swap R xs [] h = tt
All-swap R xs (y ∷ ys) h = (All-map (λ x r. r.0) xs h, All-swap R xs ys (All-map (λ x r. r.1) xs h))

pub Apart-opposite :
    (s : Side) (own other : List Entry) → Apart s own other → Apart (opposite s) other own
Apart-opposite bid own other h = All-swap _ own other h
Apart-opposite ask own other h = All-swap _ own other h

insert_priority-All :
    (P : Entry → Type 0) (s : Side) (e : Entry) (es : List Entry)
    → P e
    → All P es
    → All P (insert_priority s e es)
unfolding insert_priority
insert_priority-All P s e [] h hs = (h, tt)
insert_priority-All P s e (f ∷ es) h hs = elim (Bool-cases (goes_before s e f)) [
  | inl before ↦ rw (before, insert_priority) (h, hs)
  | inr after ↦ rw (after, insert_priority) (hs.0, insert_priority-All P s e es h hs.1)
]

worse-crosses :
    (s : Side) (limit p q : ℕ)
    → crosses s limit p ≡ false
    → is_better (opposite s) p q ≡ true
    → crosses s limit q ≡ false
worse-crosses bid limit p q h b = ground arith
worse-crosses ask limit p q h b = ground arith

-- A limit that does not reach the first order of a well-formed side reaches none of it.
Blocked-All :
    (s : Side) (limit : ℕ) (ls : List Level)
    → IsBook (opposite s) ls
    → Blocked s limit (entries ls)
    → All (λ (f : Entry). crosses s limit f.order.limit_price ≡ false) (entries ls)
Blocked-All s limit [] b h = tt
Blocked-All s limit (l ∷ ls) b h =
    All-append _ (l.visible_orders ++ l.hidden_orders) (entries ls)
      (level_orders (opposite s) l (λ hid f fits. rw fits.price stop) b.0)
      (All-map (λ f better. worse-crosses s limit l.price f.order.limit_price stop better)
        (entries ls) (Ahead-All (opposite s) l.price ls b.1 b.2))
  where
    front : Front (opposite s) l ls
    front = IsBook-Front (opposite s) l ls b

    stop : crosses s limit l.price ≡ false
    stop = rw (← front.at) (subst (Blocked s limit) front.flat h)

-- A matching and what it leaves keep the sides apart.
pub rest-Apart :
    (s : Side) (limit q : ℕ) (own other : List Entry)
    → Apart s own other
    → Apart s own (match_flat s limit q other).rest
rest-Apart s limit q own other h =
    All-map
      (λ e reach.
        (match_flat-All (λ p. crosses s e.order.limit_price p ≡ false) s limit q other reach).1)
      own h

pub insert-Apart :
    (s : Side) (e : Entry) (own : List Entry) (ls : List Level)
    → IsBook (opposite s) ls
    → Blocked s e.order.limit_price (entries ls)
    → Apart s own (entries ls)
    → Apart s (insert_priority s e own) (entries ls)
insert-Apart s e own ls b stop h =
    insert_priority-All _ s e own (Blocked-All s e.order.limit_price ls b stop) h

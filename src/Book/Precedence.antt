-- ===== src/Book/Precedence.antt =====
-- Price-time priority: which order goes before which, on a side seen as the flat list of its orders.
use track3_simulation_public.Common.{
  ℕ, ◌≡◌, refl, sym, ap, subst, Bool, true, false, ◌&&◌, ◌||◌, not, some, List, [], ◌∷◌, ◌++◌, All,
  All-append, ◌==◌, if◌then◌else◌, arith,
}
use track3_simulation_public.Book.Order.{Side, bid, ask, Entry}
use track3_simulation_public.Book.Level.{Level}
use track3_simulation_public.Book.Exchange.{entries}
use track3_simulation_public.Book.Enter.{is_better, last_price}
use track3_simulation_public.Book.Valid.{Fits, IsLevel, Ahead, IsBook}

-- A better price, or at the same price a visible order before a hidden one. Between equals the
-- order that came first has priority.
abbrev pub goes_before : Side → Entry → Entry → Bool
goes_before s e f =
    is_better s e.order.limit_price f.order.limit_price
    || ((e.order.limit_price == f.order.limit_price)
        && (not e.order.is_hidden && f.order.is_hidden))

unfoldable pub insert_priority : Side → Entry → List Entry → List Entry
insert_priority s e [] = e ∷ []
insert_priority s e (f ∷ fs) = if goes_before s e f then e ∷ f ∷ fs else f ∷ insert_priority s e fs

pub skip-priority :
    (s : Side) (e : Entry) (xs ys : List Entry)
    → All (λ f. goes_before s e f ≡ false) xs
    → insert_priority s e (xs ++ ys) ≡ xs ++ insert_priority s e ys
unfolding insert_priority
skip-priority s e [] ys h = refl
skip-priority s e (x ∷ xs) ys h =
    rw (h.0, insert_priority) (ap (◌∷◌ x) (skip-priority s e xs ys h.1))

pub front-priority :
    (s : Side) (e : Entry) (ys : List Entry)
    → All (λ f. goes_before s e f ≡ true) ys
    → insert_priority s e ys ≡ e ∷ ys
unfolding insert_priority
front-priority s e [] h = refl
front-priority s e (y ∷ ys) h = rw (h.0, insert_priority)

pub All-map {ℓ κ μ} :
    {A : Type ℓ} {P : A → Type κ} {Q : A → Type μ}
    → ((a : A) → P a → Q a)
    → (xs : List A) → All P xs
    → All Q xs
All-map f [] h = tt
All-map f (x ∷ xs) h = (f x h.0, All-map f xs h.1)

better_trans :
    (s : Side) (p q r : ℕ)
    → is_better s p q ≡ true
    → is_better s q r ≡ true
    → is_better s p r ≡ true
better_trans bid p q r h k = ground arith
better_trans ask p q r h k = ground arith

pub level_orders :
    {P : Entry → Type 0} (s : Side) (l : Level)
    → ((h : Bool) (f : Entry) → Fits s l.price h f → P f)
    → IsLevel s l
    → All P (l.visible_orders ++ l.hidden_orders)
level_orders s l f v =
    All-append _ l.visible_orders l.hidden_orders (All-map (f false) l.visible_orders v.visible)
      (All-map (f true) l.hidden_orders v.hidden)

Ahead-trans :
    (s : Side) (p q : ℕ) (ls : List Level) → is_better s p q ≡ true → Ahead s q ls → Ahead s p ls
Ahead-trans s p q [] h a = tt
Ahead-trans s p q (l ∷ ls) h a = better_trans s p q l.price h a

-- The orders behind a price that is ahead of the first level are all worse.
pub Ahead-All :
    (s : Side) (p : ℕ) (ls : List Level)
    → Ahead s p ls
    → IsBook s ls
    → All (λ (f : Entry). is_better s p f.order.limit_price ≡ true) (entries ls)
Ahead-All s p [] a b = tt
Ahead-All s p (l ∷ ls) a b =
    All-append _ (l.visible_orders ++ l.hidden_orders) (entries ls)
      (level_orders s l (λ h f fits. rw fits.price a) b.0)
      (Ahead-All s p ls (Ahead-trans s p l.price ls a b.1) b.2)

-- Every order is better than a price that the last level is better than.
pub last-All :
    (s : Side) (p : ℕ) (ls : List Level) {lp : ℕ}
    → last_price ls ≡ some lp
    → is_better s lp p ≡ true
    → IsBook s ls
    → All (λ (l : Level). is_better s l.price p ≡ true) ls
unfolding last_price
last-All s p [] e h b = tt
last-All s p (l ∷ []) {lp} e h b = (subst (λ q. is_better s q p ≡ true) (cc) h, tt)
last-All s p (l ∷ m ∷ ls) e h b =
    let later = last-All s p (m ∷ ls) e h b.2 in
    (better_trans s l.price m.price p b.1 later.0, later)

pub entries-All :
    (s : Side) (p : ℕ) (ls : List Level)
    → All (λ (l : Level). is_better s l.price p ≡ true) ls
    → IsBook s ls
    → All (λ (f : Entry). is_better s f.order.limit_price p ≡ true) (entries ls)
entries-All s p [] h b = tt
entries-All s p (l ∷ ls) h b =
    All-append _ (l.visible_orders ++ l.hidden_orders) (entries ls)
      (level_orders s l (λ hid f fits. rw fits.price h.0) b.0) (entries-All s p ls h.1 b.2)

pub better-goes_before :
    (s : Side) (e f : Entry)
    → is_better s e.order.limit_price f.order.limit_price ≡ true
    → goes_before s e f ≡ true
better-goes_before bid e f h = ground arith
better-goes_before ask e f h = ground arith

pub worse-goes_before :
    (s : Side) (e f : Entry)
    → is_better s f.order.limit_price e.order.limit_price ≡ true
    → goes_before s e f ≡ false
worse-goes_before bid e f h = ground arith
worse-goes_before ask e f h = ground arith

-- At one price only a visible order goes before a hidden one.
pub equal-goes_before :
    (s : Side) (e f : Entry) {h k : Bool}
    → e.order.limit_price ≡ f.order.limit_price
    → e.order.is_hidden ≡ h
    → f.order.is_hidden ≡ k
    → goes_before s e f ≡ (not h && k)
equal-goes_before bid e f at hid shown = ground arith
equal-goes_before ask e f at hid shown = ground arith

-- An order at the price of the first level goes before all orders behind that level.
pub rest-goes_before :
    (s : Side) (e : Entry) (l : Level) (ls : List Level)
    → e.order.limit_price ≡ l.price
    → IsBook s (l ∷ ls)
    → All (λ f. goes_before s e f ≡ true) (entries ls)
rest-goes_before s e l ls at b =
    All-map
      (λ f better.
        better-goes_before s e f
          (subst (λ p. is_better s p f.order.limit_price ≡ true) (sym at) better))
      (entries ls) (Ahead-All s l.price ls b.1 b.2)

-- ===== src/Book/Valid.antt =====
-- Well-formed sides of the book, for books without price-to-comply orders: the levels from the best
-- price to the worst, each with its own orders only.
use track3_simulation_public.Common.{
  ℕ, ◌<◌, ◌≡◌, refl, Bool, true, false, inl, inr, List, [], ◌∷◌, ◌++◌, All, All-append, ltb, arith,
  Bool-cases,
}
use track3_simulation_public.Book.Order.{Side, Entry}
use track3_simulation_public.Book.Level.{
  Level, add_as, add, level_as, new_level, place, none_left, is_empty, insert_by_id,
}
use track3_simulation_public.Book.Enter.{is_better, insert_scan}

-- An order that belongs in a level of side `s` at price `p`, among the hidden orders or not.
pub record Fits (s : Side) (p : ℕ) (hidden : Bool) (e : Entry) : Type 0 where
  pub price : e.order.limit_price ≡ p
  pub side : e.order.side ≡ s
  pub whole : e.order.is_price_to_comply ≡ false
  pub shown : e.order.is_hidden ≡ hidden
  pub positive : 0 < e.order.quantity

pub record IsLevel (s : Side) (l : Level) : Type 0 where
  pub side : l.side ≡ s
  pub visible : All (Fits s l.price false) l.visible_orders
  pub hidden : All (Fits s l.price true) l.hidden_orders
  pub inhabited : is_empty l ≡ false

-- The price `p` is better than that of the first level.
abbrev pub Ahead : Side → ℕ → List Level → Type 0
Ahead s p [] = Unit
Ahead s p (l ∷ ls) = is_better s p l.price ≡ true

abbrev pub IsBook : Side → List Level → Type 0
IsBook s [] = Unit
IsBook s (l ∷ ls) = IsLevel s l × Ahead s l.price ls × IsBook s ls

-- An order that may be entered: positive, and not price-to-comply.
abbrev pub IsPlain : Entry → Type 0
IsPlain e = (e.order.is_price_to_comply ≡ false) × (0 < e.order.quantity)

Fits-self :
    (e : Entry) (h : Bool)
    → IsPlain e
    → e.order.is_hidden ≡ h
    → Fits e.order.side e.order.limit_price h e
Fits-self e h plain shown = record {
  price = refl;
  side = refl;
  whole = plain.0;
  shown = shown;
  positive = plain.1;
}

insert_by_id-All :
    (P : Entry → Type 0) (e : Entry) (es : List Entry) → P e → All P es → All P (insert_by_id e es)
unfolding insert_by_id
insert_by_id-All P e [] h hs = (h, tt)
insert_by_id-All P e (f ∷ es) h hs = elim (Bool-cases (ltb e.order.order_id f.order.order_id)) [
  | inl lt ↦ rw lt (h, hs)
  | inr ge ↦ rw ge (hs.0, insert_by_id-All P e es h hs.1)
]

level_as-IsLevel :
    (h : Bool) (e : Entry) → IsPlain e → e.order.is_hidden ≡ h → IsLevel e.order.side (level_as h e)
unfolding level_as is_empty
level_as-IsLevel true e plain shown = record {
  side = refl;
  visible = tt;
  hidden = (Fits-self e true plain shown, tt);
  inhabited = refl;
}
level_as-IsLevel false e plain shown = record {
  side = refl;
  visible = (Fits-self e false plain shown, tt);
  hidden = tt;
  inhabited = refl;
}

pub new_level-IsLevel : (e : Entry) → IsPlain e → IsLevel e.order.side (new_level e)
unfolding new_level
new_level-IsLevel e h = level_as-IsLevel e.order.is_hidden e h refl

pub new_level-price : (e : Entry) → (new_level e).price ≡ e.order.limit_price
unfolding new_level
new_level-price e = as_either e.order.is_hidden
  where
    as_either : (h : Bool) → (level_as h e).price ≡ e.order.limit_price
    as_either true = refl
    as_either false = refl

place-All :
    (b : Bool) (P : Entry → Type 0) (e : Entry) (es : List Entry)
    → P e
    → All P es
    → All P (place b e es)
unfolding place
place-All true P e es h hs = insert_by_id-All P e es h hs
place-All false P e es h hs = All-append P es (e ∷ []) hs (h, tt)

none_left-append :
    (es : List Entry) (hs : List Entry) (e : Entry) → none_left es (hs ++ e ∷ []) ≡ false
unfolding none_left
none_left-append [] [] e = refl
none_left-append [] (h ∷ hs) e = refl
none_left-append (f ∷ es) hs e = refl

insert_by_id-none_left : (e : Entry) (es hs : List Entry) → none_left (insert_by_id e es) hs ≡ false
unfolding insert_by_id none_left
insert_by_id-none_left e [] hs = refl
insert_by_id-none_left e (f ∷ es) hs = ground arith

place-none_left : (b : Bool) (e : Entry) (es hs : List Entry) → none_left (place b e es) hs ≡ false
unfolding place none_left
place-none_left true e es hs = insert_by_id-none_left e es hs
place-none_left false e [] hs = refl
place-none_left false e (f ∷ es) hs = refl

add_as-IsLevel :
    (h : Bool) (s : Side) (l : Level) (e : Entry)
    → IsLevel s l
    → Fits s l.price h e
    → IsLevel s (add_as h l e)
unfolding add_as is_empty
add_as-IsLevel true s l e v fits = record {
  side = v.side;
  visible = v.visible;
  hidden = All-append (Fits s l.price true) l.hidden_orders (e ∷ []) v.hidden (fits, tt);
  inhabited = none_left-append l.visible_orders l.hidden_orders e;
}
add_as-IsLevel false s l e v fits = record {
  side = v.side;
  visible = place-All e.order.insert_by_id (Fits s l.price false) e l.visible_orders fits v.visible;
  hidden = v.hidden;
  inhabited = place-none_left e.order.insert_by_id e l.visible_orders l.hidden_orders;
}

pub add-IsLevel :
    (s : Side) (l : Level) (e : Entry)
    → IsLevel s l
    → Fits s l.price e.order.is_hidden e
    → IsLevel s (add l e)
unfolding add
add-IsLevel s l e v fits = add_as-IsLevel e.order.is_hidden s l e v fits

pub add-price : (l : Level) (e : Entry) → (add l e).price ≡ l.price
unfolding add
add-price l e = as_either e.order.is_hidden
  where
    as_either : (h : Bool) → (add_as h l e).price ≡ l.price
    as_either true = refl
    as_either false = refl

-- What an insertion puts in front stays behind a price that was ahead of both.
pub Ahead-scan :
    (s : Side) (p : ℕ) (e : Entry) (ls : List Level)
    → Ahead s p ls
    → is_better s p e.order.limit_price ≡ true
    → Ahead s p (insert_scan s e ls)
unfolding insert_scan
Ahead-scan s p e [] a b = tt
Ahead-scan s p e (l ∷ ls) a b = grind (arith, add-price l e, new_level-price e)

pub Ahead-append :
    (s : Side) (p : ℕ) (l : Level) (ls : List Level)
    → Ahead s p ls
    → is_better s p l.price ≡ true
    → Ahead s p (ls ++ l ∷ [])
Ahead-append s p l [] a b = b
Ahead-append s p l (m ∷ ls) a b = a

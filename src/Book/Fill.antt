-- ===== src/Book/Fill.antt =====
-- The trade at the front of a side: `execute_order` takes the first order of the flat view, whole or
-- in part, and keeps the side well formed.
use track3_simulation_public.Common.{
  ℕ, ◌≡◌, refl, sym, ap, ◌∙◌, inl, inr, Bool, true, false, Option, none, some, List, [], ◌∷◌, ◌++◌,
  All, leb, if◌then◌else◌, arith, Bool-cases,
}
use track3_simulation_public.Common.Int.{ℤ, pos, ◌-ℤ◌}
use mathlib.Core.Bool.{false≢true}
use track3_simulation_public.Book.Order.{Side, Order, Entry, Result, ok, cheap_clone}
use track3_simulation_public.Book.Level.{Level, peek, pop, none_left, is_empty}
use track3_simulation_public.Book.Exchange.{entries}
use track3_simulation_public.Book.Execute.{drop_empty, take_part, reduce, shrink, take_first}
use track3_simulation_public.Book.Valid.{Fits, Ahead, IsBook}

-- The trade on the flat view: an order of quantity `q` meets the first order. What trades is that
-- order, or its part `q`, and what is left of it keeps its place.
unfoldable pub fill_front : ℕ → List Entry → Option (Order × List Entry)
fill_front q [] = none
fill_front q (e ∷ es) = some (
    if leb e.order.quantity q
    then (e.order, es)
    else (record e.order { quantity = q }, reduce e q ∷ es))

none_left-nil : (vis hid : List Entry) → none_left vis hid ≡ true → vis ++ hid ≡ []
unfolding none_left
none_left-nil [] [] h = refl
none_left-nil [] (e ∷ hid) h = cc
none_left-nil (e ∷ vis) hid h = cc

pub entries-drop_empty :
    (l : Level) (ls : List Level) → entries (drop_empty l ls) ≡ entries (l ∷ ls)
unfolding drop_empty is_empty
entries-drop_empty l ls = elim (Bool-cases (none_left l.visible_orders l.hidden_orders)) [
  | inl gone ↦
      rw (gone, drop_empty)
        (ap (λ es. es ++ entries ls) (sym (none_left-nil l.visible_orders l.hidden_orders gone)))
  | inr some_left ↦ rw (some_left, drop_empty)
]

pub drop_empty-IsBook :
    (s : Side) (l : Level) (ls : List Level)
    → l.side ≡ s
    → All (Fits s l.price false) l.visible_orders
    → All (Fits s l.price true) l.hidden_orders
    → Ahead s l.price ls
    → IsBook s ls
    → IsBook s (drop_empty l ls)
unfolding drop_empty
drop_empty-IsBook s l ls side vis hid a b = elim (Bool-cases (is_empty l)) [
  | inl gone ↦ rw (gone, drop_empty) b
  | inr some_left ↦
      rw (some_left, drop_empty)
        (record { side = side; visible = vis; hidden = hid; inhabited = some_left }, a, b)
]

-- The outcome of a trade on a well-formed side.
pub record Fills (s : Side) (q : ℕ) (before : List Level) (r : Result (Order × List Level))
    : Type 0 where
  pub traded : Order
  pub after : List Level
  pub returns : r ≡ ok (traded, after)
  pub valid : IsBook s after
  pub flat : fill_front q (entries before) ≡ some (traded, entries after)

abbrev level_of : ℕ → Side → ℤ → List Entry → List Entry → Level
level_of p s c vis hid = record {
  price = p;
  side = s;
  visible_orders = vis;
  hidden_orders = hid;
  visible_qty = c;
}

take_first-whole :
    (o : Order) (l l' : Level) (ls : List Level) (e : Entry)
    → peek l ≡ some e
    → pop l ≡ some (e, l')
    → e.order.is_price_to_comply ≡ false
    → leb e.order.quantity o.quantity ≡ true
    → take_first o l ls ≡ ok (e.order, drop_empty l' ls)
unfolding take_first
take_first-whole o l l' ls e at out plain whole = ground arith

take_first-part :
    (o : Order) (l : Level) (ls : List Level) (e : Entry)
    → peek l ≡ some e
    → e.order.is_price_to_comply ≡ false
    → leb e.order.quantity o.quantity ≡ false
    → take_first o l ls ≡ ok (record e.order { quantity = o.quantity }, shrink l o.quantity ∷ ls)
unfolding take_first take_part cheap_clone
take_first-part o l ls e at plain part = ground arith

fill_front-whole :
    (q : ℕ) (e : Entry) (es : List Entry)
    → leb e.order.quantity q ≡ true
    → fill_front q (e ∷ es) ≡ some (e.order, es)
unfolding fill_front
fill_front-whole q e es h = rw h

fill_front-part :
    (q : ℕ) (e : Entry) (es : List Entry)
    → leb e.order.quantity q ≡ false
    → fill_front q (e ∷ es) ≡ some (record e.order { quantity = q }, reduce e q ∷ es)
unfolding fill_front
fill_front-part q e es h = rw h

reduce-Fits :
    (s : Side) (p : ℕ) (h : Bool) (e : Entry) (q : ℕ)
    → Fits s p h e
    → leb e.order.quantity q ≡ false
    → Fits s p h (reduce e q)
unfolding reduce
reduce-Fits s p h e q fits part = record {
  price = fits.price;
  side = fits.side;
  whole = fits.whole;
  shown = fits.shown;
  positive = ground arith;
}

take_visible :
    (s s' : Side) (o : Order) (p : ℕ) (c : ℤ) (e : Entry) (vis hid : List Entry) (ls : List Level)
    → IsBook s (level_of p s' c (e ∷ vis) hid ∷ ls)
    → Fills s o.quantity
        (level_of p s' c (e ∷ vis) hid ∷ ls)
        (take_first o (level_of p s' c (e ∷ vis) hid) ls)
unfolding peek pop shrink is_empty
take_visible s s' o p c e vis hid ls b =
    let l = level_of p s' c (e ∷ vis) hid in
    elim (Bool-cases (leb e.order.quantity o.quantity)) [
      | inl whole ↦
          let l' = level_of p s' (c -ℤ pos e.order.quantity) vis hid in
          record {
            traded = e.order;
            after = drop_empty l' ls;
            returns = take_first-whole o l l' ls e refl refl b.0.visible.0.whole whole;
            valid = drop_empty-IsBook s l' ls b.0.side b.0.visible.1 b.0.hidden b.1 b.2;
            flat =
                fill_front-whole o.quantity e _ whole
                ∙ ap (λ es. some (e.order, es)) (sym (entries-drop_empty l' ls));
          }
      | inr part ↦ record {
        traded = record e.order { quantity = o.quantity };
        after = shrink l o.quantity ∷ ls;
        returns = take_first-part o l ls e refl b.0.visible.0.whole part;
        valid = (
          record {
            side = b.0.side;
            visible = (reduce-Fits s p false e o.quantity b.0.visible.0 part, b.0.visible.1);
            hidden = b.0.hidden;
            inhabited = refl;
          },
          b.1,
          b.2,
        );
        flat = fill_front-part o.quantity e _ part;
      }
    ]

take_hidden :
    (s s' : Side) (o : Order) (p : ℕ) (c : ℤ) (e : Entry) (hid : List Entry) (ls : List Level)
    → IsBook s (level_of p s' c [] (e ∷ hid) ∷ ls)
    → Fills s o.quantity
        (level_of p s' c [] (e ∷ hid) ∷ ls)
        (take_first o (level_of p s' c [] (e ∷ hid)) ls)
unfolding peek pop shrink is_empty
take_hidden s s' o p c e hid ls b =
    let l = level_of p s' c [] (e ∷ hid) in
    elim (Bool-cases (leb e.order.quantity o.quantity)) [
      | inl whole ↦
          let l' = level_of p s' c [] hid in
          record {
            traded = e.order;
            after = drop_empty l' ls;
            returns = take_first-whole o l l' ls e refl refl b.0.hidden.0.whole whole;
            valid = drop_empty-IsBook s l' ls b.0.side tt b.0.hidden.1 b.1 b.2;
            flat =
                fill_front-whole o.quantity e _ whole
                ∙ ap (λ es. some (e.order, es)) (sym (entries-drop_empty l' ls));
          }
      | inr part ↦ record {
        traded = record e.order { quantity = o.quantity };
        after = shrink l o.quantity ∷ ls;
        returns = take_first-part o l ls e refl b.0.hidden.0.whole part;
        valid = (
          record {
            side = b.0.side;
            visible = tt;
            hidden = (reduce-Fits s p true e o.quantity b.0.hidden.0 part, b.0.hidden.1);
            inhabited = refl;
          },
          b.1,
          b.2,
        );
        flat = fill_front-part o.quantity e _ part;
      }
    ]

take_either :
    (s s' : Side) (o : Order) (p : ℕ) (c : ℤ) (vis hid : List Entry) (ls : List Level)
    → IsBook s (level_of p s' c vis hid ∷ ls)
    → Fills s o.quantity (level_of p s' c vis hid ∷ ls) (take_first o (level_of p s' c vis hid) ls)
unfolding is_empty
take_either s s' o p c (e ∷ vis) hid ls b = take_visible s s' o p c e vis hid ls b
take_either s s' o p c [] (e ∷ hid) ls b = take_hidden s s' o p c e hid ls b
take_either s s' o p c [] [] ls b = absurd (false≢true (sym b.0.inhabited))

-- On a well-formed side with an order in it a trade always succeeds. It takes the first order of the
-- flat view, whole if the incoming order is large enough and otherwise in part, leaves all others as
-- they are, and keeps the side well formed.
pub take_first-Fills :
    (s : Side) (o : Order) (l : Level) (ls : List Level)
    → IsBook s (l ∷ ls)
    → Fills s o.quantity (l ∷ ls) (take_first o l ls)
take_first-Fills s o l ls b =
    take_either s l.side o l.price l.visible_qty l.visible_orders l.hidden_orders ls b

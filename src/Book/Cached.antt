-- ===== src/Book/Cached.antt =====
-- The cached visible quantity of a price level.
use track3_simulation_public.Common.{
  ℕ, ◌+◌, ◌≤◌, ◌≡◌, refl, sym, ap, subst, ◌∙◌, Bool, true, false, List, [], ◌∷◌, ◌++◌, arith,
}
use track3_simulation_public.Common.Int.{pos, negsuc, ◌+ℤ◌, ◌-ℤ◌}
use track3_simulation_public.Book.Order.{Entry}
use track3_simulation_public.Book.Level.{Level, insert_by_id, place, add_as, add}
use track3_simulation_public.Book.Execute.{reduce, shrink_list, shrink}
use track3_simulation_public.Book.Conservation.{total}

-- The cache is the quantity of the visible orders.
abbrev pub Cached : Level → Type 0
Cached l = l.visible_qty ≡ pos (total l.visible_orders)

total-append : (es fs : List Entry) → total (es ++ fs) ≡ total es + total fs
unfolding total
total-append [] fs = omega arith
total-append (e ∷ es) fs = omega (arith, total-append es fs)

total-insert_by_id :
    (e : Entry) (es : List Entry) → total (insert_by_id e es) ≡ e.order.quantity + total es
unfolding total insert_by_id
total-insert_by_id e [] = refl
total-insert_by_id e (f ∷ es) = ground (arith, total-insert_by_id e es)

total-place :
    (b : Bool) (e : Entry) (es : List Entry) → total (place b e es) ≡ total es + e.order.quantity
unfolding total place
total-place true e es = omega (arith, total-insert_by_id e es)
total-place false e es = omega (arith, total-append es (e ∷ []))

pos-sum : (m n : ℕ) → pos m +ℤ pos n ≡ pos (m + n)
unfolding ◌+ℤ◌
pos-sum m n = ground arith

pos-difference : (m n k : ℕ) → k + n ≡ m → pos m -ℤ pos n ≡ pos k
unfolding ◌-ℤ◌
pos-difference m n k h = ground (arith, h)

add_as-Cached : (b : Bool) (l : Level) (e : Entry) → Cached l → Cached (add_as b l e)
unfolding add_as
add_as-Cached true l e h = h
add_as-Cached false l e h =
    ap (λ z. z +ℤ pos e.order.quantity) h
    ∙ pos-sum (total l.visible_orders) e.order.quantity
    ∙ ap pos (sym (total-place e.order.insert_by_id e l.visible_orders))

-- Adding an order to a level, visible or hidden, at the back or by id, keeps the cache exact.
pub add-Cached : (l : Level) (e : Entry) → Cached l → Cached (add l e)
unfolding add
add-Cached l e h = add_as-Cached e.order.is_hidden l e h

shrink_list-Cached :
    (l : Level) (q : ℕ) (e : Entry) (vis hid : List Entry)
    → q ≤ e.order.quantity
    → l.visible_qty ≡ pos (total (e ∷ vis))
    → Cached (shrink_list l q (e ∷ vis) hid)
unfolding shrink_list total reduce
shrink_list-Cached l q e vis hid le h =
    ap (λ z. z -ℤ pos q) h ∙ pos-difference _ q _ (omega (arith, le))

shrink_list_hidden :
    (l : Level) (q : ℕ) (e : Entry) (hid : List Entry)
    → l.visible_qty ≡ pos 0
    → (shrink_list l (q + 1) [] (e ∷ hid)).visible_qty ≡ negsuc q
unfolding shrink_list ◌-ℤ◌
shrink_list_hidden l q e hid h = rw h (ground arith)

-- A partial fill of a visible order by no more than its quantity keeps the cache exact.
pub shrink-Cached :
    (l : Level) (q : ℕ) (e : Entry) (vis : List Entry)
    → l.visible_orders ≡ e ∷ vis
    → q ≤ e.order.quantity
    → Cached l
    → Cached (shrink l q)
unfolding shrink
shrink-Cached l q e vis v le h =
    subst (λ vs. Cached (shrink_list l q vs l.hidden_orders)) (sym v)
      (shrink_list-Cached l q e vis l.hidden_orders le (h ∙ ap (λ vs. pos (total vs)) v))

-- A partial fill by `k + 1` in a level of hidden orders only, whose cache is exact, leaves the cache at
-- minus `k + 1`.
pub shrink_hidden :
    (l : Level) (k : ℕ) (e : Entry) (hid : List Entry)
    → l.visible_orders ≡ []
    → l.hidden_orders ≡ e ∷ hid
    → Cached l
    → (shrink l (k + 1)).visible_qty ≡ negsuc k
unfolding shrink total
shrink_hidden l k e hid v w h =
    subst (λ vs. (shrink_list l (k + 1) vs l.hidden_orders).visible_qty ≡ negsuc k) (sym v)
      (subst (λ hs. (shrink_list l (k + 1) [] hs).visible_qty ≡ negsuc k) (sym w)
        (shrink_list_hidden l k e hid (h ∙ ap (λ vs. pos (total vs)) v)))

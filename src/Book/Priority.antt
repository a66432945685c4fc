-- ===== src/Book/Priority.antt =====
-- `enter_order` as the insertion of an order behind every order that has priority over it.
use track3_simulation_public.Common.{
  ℕ, ◌≡◌, ◌≢◌, refl, sym, ap, subst, ◌∙◌, ◌≡⟨◌⟩◌, ◌∎, ==_iff, inl, inr, Bool, true, false, Option,
  none, some, List, [], ◌∷◌, ◌++◌, All-append, ◌==◌, Bool-cases, append_assoc, append-nil,
}
use track3_simulation_public.Book.Order.{Side, Entry}
use track3_simulation_public.Book.Level.{Level, add_as, add, place, level_as, new_level}
use track3_simulation_public.Book.Exchange.{entries}
use track3_simulation_public.Book.Enter.{
  is_worse, is_better, last_price, insert_scan, insert_after, insert_entry,
}
use track3_simulation_public.Book.Valid.{IsLevel, Ahead, IsBook}
use track3_simulation_public.Book.Sorted.{price_cases}
use track3_simulation_public.Book.Precedence.{
  All-map, insert_priority, skip-priority, front-priority, level_orders, Ahead-All, last-All,
  entries-All, better-goes_before, worse-goes_before, equal-goes_before, rest-goes_before,
}

entries-level_as :
    (h : Bool) (e : Entry) (ls : List Level) → entries (level_as h e ∷ ls) ≡ e ∷ entries ls
unfolding level_as
entries-level_as true e ls = refl
entries-level_as false e ls = refl

pub entries-new_level : (e : Entry) (ls : List Level) → entries (new_level e ∷ ls) ≡ e ∷ entries ls
unfolding new_level
entries-new_level e ls = entries-level_as e.order.is_hidden e ls

-- An order added at its own price.
entries-add_as :
    (h : Bool) (s : Side) (l : Level) (e : Entry) (ls : List Level)
    → e.order.is_hidden ≡ h
    → e.order.insert_by_id ≡ false
    → e.order.limit_price ≡ l.price
    → IsBook s (l ∷ ls)
    → entries (add_as h l e ∷ ls) ≡ insert_priority s e (entries (l ∷ ls))
unfolding add_as place
entries-add_as true s l e ls hid by_id at b =
    entries (add_as true l e ∷ ls)
    ≡⟨ (simp append_assoc) ⟩ (l.visible_orders ++ l.hidden_orders) ++ e ∷ entries ls
    ≡⟨ ap (◌++◌ (l.visible_orders ++ l.hidden_orders))
        (sym (front-priority s e (entries ls) (rest-goes_before s e l ls at b))) ⟩
      (l.visible_orders ++ l.hidden_orders) ++ insert_priority s e (entries ls)
    ≡⟨ sym (
        skip-priority s e (l.visible_orders ++ l.hidden_orders) (entries ls) (
          level_orders s l
            (λ h f fits. equal-goes_before s e f (at ∙ sym fits.price) hid fits.shown) b.0)) ⟩
      insert_priority s e (entries (l ∷ ls)) ∎
entries-add_as false s l e ls hid by_id at b =
    entries (add_as false l e ∷ ls)
    ≡⟨ ap (λ c. (place c e l.visible_orders ++ l.hidden_orders) ++ entries ls) by_id ⟩
      ((l.visible_orders ++ e ∷ []) ++ l.hidden_orders) ++ entries ls
    ≡⟨ (simp append_assoc) ⟩ l.visible_orders ++ e ∷ (l.hidden_orders ++ entries ls)
    ≡⟨ ap (◌++◌ l.visible_orders) (
        sym (
          front-priority s e (l.hidden_orders ++ entries ls) (
            All-append _ l.hidden_orders (entries ls)
              (All-map (λ f fits. equal-goes_before s e f (at ∙ sym fits.price) hid fits.shown)
                l.hidden_orders b.0.hidden)
              (rest-goes_before s e l ls at b)))) ⟩
      l.visible_orders ++ insert_priority s e (l.hidden_orders ++ entries ls)
    ≡⟨ sym (
        skip-priority s e l.visible_orders (l.hidden_orders ++ entries ls) (
          All-map (λ f fits. equal-goes_before s e f (at ∙ sym fits.price) hid fits.shown)
            l.visible_orders b.0.visible)) ⟩
      insert_priority s e (l.visible_orders ++ (l.hidden_orders ++ entries ls))
    ≡⟨ ap (insert_priority s e) (sym (append_assoc l.visible_orders l.hidden_orders (entries ls))) ⟩
      insert_priority s e (entries (l ∷ ls)) ∎

entries-add :
    (s : Side) (l : Level) (e : Entry) (ls : List Level)
    → e.order.insert_by_id ≡ false
    → (e.order.limit_price == l.price) ≡ true
    → IsBook s (l ∷ ls)
    → entries (add l e ∷ ls) ≡ insert_priority s e (entries (l ∷ ls))
unfolding add
entries-add s l e ls by_id at b =
    entries-add_as e.order.is_hidden s l e ls refl by_id ((==_iff _ _).0 at) b

front-book :
    (s : Side) (e : Entry) (ls : List Level)
    → Ahead s e.order.limit_price ls
    → IsBook s ls
    → entries (new_level e ∷ ls) ≡ insert_priority s e (entries ls)
front-book s e ls a b =
    entries-new_level e ls
    ∙ sym (
        front-priority s e (entries ls) (
          All-map (λ f. better-goes_before s e f) (entries ls)
            (Ahead-All s e.order.limit_price ls a b)))

-- Behind a level with a better price the insertion goes on in the next levels.
behind-level :
    (s : Side) (e : Entry) (l : Level) (ls ls' : List Level)
    → is_better s l.price e.order.limit_price ≡ true
    → IsLevel s l
    → entries ls' ≡ insert_priority s e (entries ls)
    → entries (l ∷ ls') ≡ insert_priority s e (entries (l ∷ ls))
behind-level s e l ls ls' behind v later =
    ap (◌++◌ (l.visible_orders ++ l.hidden_orders)) later
    ∙ sym (
        skip-priority s e (l.visible_orders ++ l.hidden_orders) (entries ls) (
          level_orders s l
            (λ h f fits.
              worse-goes_before s e f
                (subst (λ p. is_better s p e.order.limit_price ≡ true) (sym fits.price) behind))
            v))

-- The last level of a side that has one, against a price.
scan_end :
    (s : Side) (l : Level) (p : ℕ) {lp : ℕ}
    → last_price (l ∷ []) ≡ some lp
    → is_better s lp p ≡ false
    → is_better s l.price p ≡ false
unfolding last_price
scan_end s l p last stop = subst (λ q. is_better s q p ≡ false) (cc) stop

-- The scan, where the last level is not better than the order's price.
entries-scan :
    (s : Side) (e : Entry) (ls : List Level) {lp : ℕ}
    → e.order.insert_by_id ≡ false
    → last_price ls ≡ some lp
    → is_better s lp e.order.limit_price ≡ false
    → IsBook s ls
    → entries (insert_scan s e ls) ≡ insert_priority s e (entries ls)
unfolding insert_scan last_price
entries-scan s e [] by_id last stop b = cc
entries-scan s e (l ∷ []) by_id last stop b = elim (price_cases s e.order.limit_price l.price) [
  | inl same ↦ rw (same, insert_scan) (entries-add s l e [] by_id same b)
  | inr (inl (differ, better)) ↦ rw (differ, better, insert_scan) (front-book s e (l ∷ []) better b)
  | inr (inr (differ, not_better, behind)) ↦ cc (behind, scan_end s l _ last stop)
]
entries-scan s e (l ∷ m ∷ ls) by_id last stop b = elim (price_cases s e.order.limit_price l.price) [
  | inl same ↦ rw (same, insert_scan) (entries-add s l e (m ∷ ls) by_id same b)
  | inr (inl (differ, better)) ↦
      rw (differ, better, insert_scan) (front-book s e (l ∷ m ∷ ls) better b)
  | inr (inr (differ, not_better, behind)) ↦
      rw (differ, not_better, insert_scan)
        (behind-level s e l (m ∷ ls) (insert_scan s e (m ∷ ls)) behind b.0
          (entries-scan s e (m ∷ ls) by_id last stop b.2))
]

entries-append : (ls ms : List Level) → entries (ls ++ ms) ≡ entries ls ++ entries ms
entries-append [] ms = refl
entries-append (l ∷ ls) ms =
    ap (◌++◌ (l.visible_orders ++ l.hidden_orders)) (entries-append ls ms)
    ∙ sym (append_assoc (l.visible_orders ++ l.hidden_orders) (entries ls) (entries ms))

entries-at_end :
    (s : Side) (e : Entry) (ls : List Level) {lp : ℕ}
    → last_price ls ≡ some lp
    → is_worse s e.order.limit_price lp ≡ true
    → IsBook s ls
    → entries (ls ++ new_level e ∷ []) ≡ insert_priority s e (entries ls)
unfolding insert_priority
entries-at_end s e ls last worse b =
    entries (ls ++ new_level e ∷ [])
    ≡⟨ entries-append ls (new_level e ∷ []) ⟩ entries ls ++ entries (new_level e ∷ [])
    ≡⟨ ap (◌++◌ (entries ls)) (entries-new_level e []) ⟩ entries ls ++ e ∷ []
    ≡⟨ sym (
        skip-priority s e (entries ls) [] (
          All-map (λ f. worse-goes_before s e f) (entries ls)
            (entries-All s e.order.limit_price ls (last-All s _ ls last worse b) b))) ⟩
      insert_priority s e (entries ls ++ [])
    ≡⟨ ap (insert_priority s e) (append-nil (entries ls)) ⟩ insert_priority s e (entries ls) ∎

last_price-ne-none : (l : Level) (ls : List Level) → last_price (l ∷ ls) ≢ none
unfolding last_price
last_price-ne-none l [] e = cc
last_price-ne-none l (m ∷ ls) e = last_price-ne-none m ls e

entries-insert_after :
    (s : Side) (e : Entry) (ls : List Level) (o : Option ℕ)
    → e.order.insert_by_id ≡ false
    → last_price ls ≡ o
    → IsBook s ls
    → entries (insert_after s e ls o) ≡ insert_priority s e (entries ls)
unfolding insert_after
entries-insert_after s e [] none by_id last b = front-book s e [] tt tt
entries-insert_after s e (l ∷ ls) none by_id last b = absurd (last_price-ne-none l ls last)
entries-insert_after s e ls (some lp) by_id last b =
    elim (Bool-cases (is_worse s e.order.limit_price lp)) [
      | inl worse ↦ rw (worse, insert_after) (entries-at_end s e ls last worse b)
      | inr not_worse ↦ rw (not_worse, insert_after) (entries-scan s e ls by_id last not_worse b)
    ]

-- Entering an order with no `insert_by_id` puts it, in the flat view of its side, behind every order
-- that has a better or equal claim to priority and before all others; nothing else moves.
pub entries-insert_entry :
    (s : Side) (e : Entry) (ls : List Level)
    → e.order.insert_by_id ≡ false
    → IsBook s ls
    → entries (insert_entry s e ls) ≡ insert_priority s e (entries ls)
unfolding insert_entry
entries-insert_entry s e ls by_id b = entries-insert_after s e ls (last_price ls) by_id refl b

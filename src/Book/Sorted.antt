-- ===== src/Book/Sorted.antt =====
-- `enter_order` keeps a side well formed: levels in strict price order, each with its own orders.
use track3_simulation_public.Common.{
  ℕ, ◌≡◌, refl, sym, subst, ◌⊎◌, inl, inr, true, false, Option, none, some, List, [], ◌∷◌, ◌++◌,
  ◌==◌, arith, Bool-cases, ==_iff,
}
use track3_simulation_public.Book.Order.{Side, bid, ask, Entry}
use track3_simulation_public.Book.Level.{Level, add, new_level}
use track3_simulation_public.Book.Enter.{
  is_worse, is_better, last_price, insert_scan, insert_after, insert_entry,
}
use track3_simulation_public.Book.Valid.{
  Fits, IsLevel, Ahead, IsBook, IsPlain, new_level-IsLevel, new_level-price, add-IsLevel, add-price,
  Ahead-scan,
}

-- Two prices are equal, or one of them is better.
pub price_cases :
    (s : Side) (p q : ℕ)
    → ((p == q) ≡ true)
      ⊎ (((p == q) ≡ false) × (is_better s p q ≡ true))
      ⊎ (((p == q) ≡ false) × (is_better s p q ≡ false) × (is_better s q p ≡ true))
price_cases bid p q = ground arith
price_cases ask p q = ground arith

Fits-at :
    (s : Side) (p : ℕ) (e : Entry)
    → IsPlain e
    → e.order.side ≡ s
    → (e.order.limit_price == p) ≡ true
    → Fits s p e.order.is_hidden e
Fits-at s p e plain side same = record {
  price = (==_iff e.order.limit_price p).0 same;
  side = side;
  whole = plain.0;
  shown = refl;
  positive = plain.1;
}

new_level-at : (s : Side) (e : Entry) → IsPlain e → e.order.side ≡ s → IsLevel s (new_level e)
new_level-at s e plain side = subst (λ t. IsLevel t (new_level e)) side (new_level-IsLevel e plain)

Ahead-price : (s : Side) (p q : ℕ) (ls : List Level) → p ≡ q → Ahead s q ls → Ahead s p ls
Ahead-price s p q [] e a = tt
Ahead-price s p q (l ∷ ls) e a = rw e a

insert_scan-IsBook :
    (s : Side) (e : Entry) (ls : List Level)
    → IsPlain e
    → e.order.side ≡ s
    → IsBook s ls
    → IsBook s (insert_scan s e ls)
unfolding insert_scan
insert_scan-IsBook s e [] plain side b = tt
insert_scan-IsBook s e (l ∷ ls) plain side b = elim (price_cases s e.order.limit_price l.price) [
  | inl same ↦
      rw (same, insert_scan)
        (
          add-IsLevel s l e b.0 (Fits-at s l.price e plain side same),
          Ahead-price s (add l e).price l.price ls (add-price l e) b.1,
          b.2,
        )
  | inr (inl (differ, better)) ↦
      rw (differ, better, insert_scan)
        (
          new_level-at s e plain side,
          subst (λ p. is_better s p l.price ≡ true) (sym (new_level-price e)) better,
          b,
        )
  | inr (inr (differ, not_better, behind)) ↦
      rw (differ, not_better, insert_scan)
        (b.0, Ahead-scan s l.price e ls b.1 behind, insert_scan-IsBook s e ls plain side b.2)
]

append-IsBook :
    (s : Side) (e : Entry) (ls : List Level) (lp : ℕ)
    → IsPlain e
    → e.order.side ≡ s
    → last_price ls ≡ some lp
    → is_worse s e.order.limit_price lp ≡ true
    → IsBook s ls
    → IsBook s (ls ++ new_level e ∷ [])
unfolding last_price
append-IsBook s e [] lp plain side last worse b = cc
append-IsBook s e (l ∷ []) lp plain side last worse b = (
  b.0,
  subst (λ p. is_better s l.price p ≡ true) (sym (new_level-price e))
      (subst (λ p. is_worse s e.order.limit_price p ≡ true) (cc) worse),
  (new_level-at s e plain side, tt, tt),
)
append-IsBook s e (l ∷ m ∷ ls) lp plain side last worse b =
    (b.0, b.1, append-IsBook s e (m ∷ ls) lp plain side last worse b.2)

insert_after-IsBook :
    (s : Side) (e : Entry) (ls : List Level) (o : Option ℕ)
    → IsPlain e
    → e.order.side ≡ s
    → last_price ls ≡ o
    → IsBook s ls
    → IsBook s (insert_after s e ls o)
unfolding insert_after
insert_after-IsBook s e ls none plain side last b = (new_level-at s e plain side, tt, tt)
insert_after-IsBook s e ls (some lp) plain side last b =
    elim (Bool-cases (is_worse s e.order.limit_price lp)) [
      | inl worse ↦ rw (worse, insert_after) (append-IsBook s e ls lp plain side last worse b)
      | inr not_worse ↦ rw (not_worse, insert_after) (insert_scan-IsBook s e ls plain side b)
    ]

-- Entering an order that is positive and not price-to-comply keeps its side well formed: strictly
-- sorted levels, none of them empty, every order in the level of its own price and side.
pub insert_entry-IsBook :
    (s : Side) (e : Entry) (ls : List Level)
    → IsPlain e
    → e.order.side ≡ s
    → IsBook s ls
    → IsBook s (insert_entry s e ls)
unfolding insert_entry
insert_entry-IsBook s e ls plain side b =
    insert_after-IsBook s e ls (last_price ls) plain side refl b

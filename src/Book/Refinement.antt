-- ===== src/Book/Refinement.antt =====
-- The refinement theorem: on enough fuel the loop of `handle_limit_order` always returns, with exactly
-- what the matching of the flat view prescribes.
use track3_simulation_public.Common.{
  ℕ, zero, suc, ◌-◌, ◌<◌, ◌≡◌, refl, sym, ap, subst, ◌∙◌, ◌⊎◌, inl, inr, Bool, true, some, List, [],
  ◌∷◌, ◌++◌, length, arith, Bool-cases,
}
use track3_simulation_public.Book.Order.{opposite, Order, Entry, ok}
use track3_simulation_public.Book.Level.{Level, is_match, crosses}
use track3_simulation_public.Book.Exchange.{Exchange, no_policy, book, entries}
use track3_simulation_public.Book.Execute.{settle, execute_order, take_first}
use track3_simulation_public.Book.Handle.{append_trade, limit_loop}
use track3_simulation_public.Book.Valid.{IsBook}
use track3_simulation_public.Book.Fill.{Fills, fill_front, take_first-Fills}
use track3_simulation_public.Book.Flat.{
  Outcome, prepend, match_flat, match-stop, match-less, match-equal, match-more,
}
use track3_simulation_public.Book.Matching.{
  IsIncoming, execute-none, execute-no_match, execute-trade, is_match-crosses, after_trade,
  round-trade,
}
use track3_simulation_public.Book.Loop.{
  Front, IsBook-Front, after_trade-opposite, after_trade-own, after_trade-SameRest,
  append_trade-append, outcome, own_after, Runs, loop-again, rest-Runs, fill_front-whole_inv,
  fill_front-part_inv, last-Runs,
}

-- The order with what a trade of `t` leaves of it.
abbrev less : Order → Order → Order
less o t = record o { quantity = o.quantity - t.quantity }

own_after-again :
    (x : Exchange) (o t : Order) (after : List Level) (k : ℕ)
    → own_after (after_trade x o t after) (less o t) k ≡ own_after x o k
own_after-again x o t after k =
    rw (after_trade-own x o t after, (after_trade-SameRest x o t after).next_ref)

-- A trade that leaves some of the order makes the loop go on.
again-Runs :
    (f : ℕ) (x : Exchange) (o t : Order) (after : List Level) (quiet : Bool) (ts : List (ℕ × ℕ))
    → x.stp_policy ≡ no_policy
    → execute_order x o ≡ ok (settle o x (t, after))
    → t.quantity < o.quantity
    → let x' = after_trade x o t after in
      let o' = less o t in
      let ts' = append_trade ts (t.quantity, t.limit_price) in
      Runs x' o' ts' (limit_loop f x' o' quiet ts')
      → outcome x o ≡ prepend (t.quantity, t.limit_price) (outcome x' o')
      → Runs x o ts (limit_loop (suc f) x o quiet ts)
again-Runs f x o t after quiet ts p e some_left r out = record {
  final = r.final;
  returns =
      loop-again f x o quiet ts (round-trade x o t after quiet ts p e ∙ ground arith) ∙ r.returns;
  trades =
      r.trades
      ∙ append_trade-append ts (t.quantity, t.limit_price) _
      ∙ sym (ap (λ (u : Outcome). ts ++ u.trades) out);
  rest = r.rest ∙ sym (ap (λ (u : Outcome). u.rest) out);
  valid = r.valid;
  own =
      r.own ∙ own_after-again x o t after _ ∙ sym (ap (λ (u : Outcome). own_after x o u.left) out);
  same_time = r.same_time ∙ (after_trade-SameRest x o t after).current_time;
  same_last = r.same_last ∙ (after_trade-SameRest x o t after).last_trade;
}

less-IsIncoming : (o t : Order) → IsIncoming o → t.quantity < o.quantity → IsIncoming (less o t)
less-IsIncoming o t v h = record {
  kind = v.kind;
  whole = v.whole;
  open_to_take = v.open_to_take;
  ordinary = v.ordinary;
  positive = omega arith;
}

-- Two quantities compared.
lt_cases : (a b : ℕ) → (a < b) ⊎ (a ≡ b) ⊎ (b < a)
lt_cases a b = omega arith

outcome-front :
    (x : Exchange) (o : Order) (e : Entry) (es : List Entry)
    → entries (book (opposite o.side) x) ≡ e ∷ es
    → outcome x o ≡ match_flat o.side o.limit_price o.quantity (e ∷ es)
outcome-front x o e es flat = ap (match_flat o.side o.limit_price o.quantity) flat

-- The flat matching takes the same step as the loop, where the order wants more than the first order.
outcome-again :
    (x : Exchange) (o t : Order) (e : Entry) (es : List Entry) (after : List Level)
    → entries (book (opposite o.side) x) ≡ e ∷ es
    → crosses o.side o.limit_price e.order.limit_price ≡ true
    → e.order.quantity < o.quantity
    → t ≡ e.order
    → entries after ≡ es
    → outcome x o
      ≡ prepend (t.quantity, t.limit_price) (outcome (after_trade x o t after) (less o t))
outcome-again x o t e es after flat reach lt whole others =
    outcome-front x o e es flat
    ∙ match-less o.side o.limit_price o.quantity e es reach lt
    ∙ rw (after_trade-opposite x o t after, whole, others)

-- One step of the loop, with the rest of it as an argument.
step-Runs :
    (f : ℕ) (x : Exchange) (o : Order) (quiet : Bool) (ts : List (ℕ × ℕ)) (ls : List Level)
    → IsIncoming o
    → x.stp_policy ≡ no_policy
    → book (opposite o.side) x ≡ ls
    → IsBook (opposite o.side) ls
    → length (entries ls) < suc f
    → ((x' : Exchange) (o' : Order) (ts' : List (ℕ × ℕ))
        → IsIncoming o'
        → x'.stp_policy ≡ no_policy
        → IsBook (opposite o'.side) (book (opposite o'.side) x')
        → length (entries (book (opposite o'.side) x')) < f
        → Runs x' o' ts' (limit_loop f x' o' quiet ts'))
    → Runs x o ts (limit_loop (suc f) x o quiet ts)
unfolding match_flat
step-Runs f x o quiet ts [] v p at b h next =
    rest-Runs f x o quiet ts v p (subst (IsBook (opposite o.side)) (sym at) b) (execute-none x o at)
      (rw at)
step-Runs f x o quiet ts (l ∷ ls) v p at b h next = elim (Bool-cases (is_match l o)) [
  | inl match ↦ traded match
  | inr no_match ↦
      rest-Runs f x o quiet ts v p (subst (IsBook (opposite o.side)) (sym at) b)
        (execute-no_match x o l ls v at no_match)
        (outcome-front x o front.entry front.behind flat
          ∙ match-stop o.side o.limit_price o.quantity front.entry front.behind
              (sym reach ∙ no_match)
          ∙ ap (λ es. record { trades = []; left = o.quantity; rest = es }) (sym flat))
]
  where
    front : Front (opposite o.side) l ls
    front = IsBook-Front (opposite o.side) l ls b

    flat : entries (book (opposite o.side) x) ≡ front.entry ∷ front.behind
    flat = ap entries at ∙ front.flat

    reach : is_match l o ≡ crosses o.side o.limit_price front.entry.order.limit_price
    reach = is_match-crosses l o v.open_to_take ∙ ap (crosses o.side o.limit_price) (sym front.at)

    fills : Fills (opposite o.side) o.quantity (l ∷ ls) (take_first o l ls)
    fills = take_first-Fills (opposite o.side) o l ls b

    cut :
        fill_front o.quantity (front.entry ∷ front.behind)
        ≡ some (fills.traded, entries fills.after)
    cut = ap (fill_front o.quantity) (sym front.flat) ∙ fills.flat

    traded : is_match l o ≡ true → Runs x o ts (limit_loop (suc f) x o quiet ts)
    traded match =
        let t = fills.traded in
        let after = fills.after in
        let exec = execute-trade x o t l ls after v at match fills.returns in
        let reached = sym reach ∙ match in
        elim (lt_cases front.entry.order.quantity o.quantity) [
          | inl lt ↦
              let (whole, others) =
                fill_front-whole_inv o.quantity front.entry front.behind cut (omega arith) in
              let smaller : t.quantity < o.quantity = rw whole lt in
              again-Runs f x o t after quiet ts p exec smaller
                (next (after_trade x o t after) (less o t)
                  (append_trade ts (t.quantity, t.limit_price)) (less-IsIncoming o t v smaller)
                  ((after_trade-SameRest x o t after).stp_policy ∙ p)
                  (subst (IsBook (opposite o.side)) (sym (after_trade-opposite x o t after))
                    fills.valid)
                  (rw (after_trade-opposite x o t after, others)
                    (omega (arith, ap (length {A = Entry}) front.flat))))
                (outcome-again x o t front.entry front.behind after flat reached lt whole others)
          | inr (inl eq) ↦
              let (whole, others) =
                fill_front-whole_inv o.quantity front.entry front.behind cut (omega arith) in
              last-Runs f x o t after quiet ts p exec (rw whole (omega arith)) fills.valid (
                outcome-front x o front.entry front.behind flat
                ∙ match-equal o.side o.limit_price o.quantity front.entry front.behind reached eq
                ∙ rw (whole, others))
          | inr (inr gt) ↦
              let (part, others) = fill_front-part_inv o.quantity front.entry front.behind cut gt in
              last-Runs f x o t after quiet ts p exec (rw part (omega arith)) fills.valid (
                outcome-front x o front.entry front.behind flat
                ∙ match-more o.side o.limit_price o.quantity front.entry front.behind reached gt
                ∙ rw (part, others))
        ]

-- With as many rounds as the opposite side has orders, and one more, the loop returns: it raises
-- nothing and does not run out of fuel. Its trades, in order, the orders left on the opposite side and
-- the quantity that is entered on the order's own side are those of the flat matching.
pub limit_loop-Runs :
    (f : ℕ) (x : Exchange) (o : Order) (quiet : Bool) (ts : List (ℕ × ℕ))
    → IsIncoming o
    → x.stp_policy ≡ no_policy
    → IsBook (opposite o.side) (book (opposite o.side) x)
    → length (entries (book (opposite o.side) x)) < f
    → Runs x o ts (limit_loop f x o quiet ts)
limit_loop-Runs zero x o quiet ts v p b h = absurd (omega arith)
limit_loop-Runs (suc f) x o quiet ts v p b h =
    step-Runs f x o quiet ts (book (opposite o.side) x) v p refl b h
      (λ x' o' ts' v' p' b' h'. limit_loop-Runs f x' o' quiet ts' v' p' b' h')

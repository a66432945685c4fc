-- ===== src/Semantics/Causal.antt =====
-- The causal rule of a ledger: every child delivery and the lookup of its parent.
use track3_simulation_public.Common.{
  ℕ, ◌≡◌, refl, sym, subst, ◌∙◌, inl, inr, ◌↔◌, false, not, ◌&&◌, Option, none, some, List, [], ◌∷◌,
  All, arith, Bool-cases, ◌==◌, Option-cases,
}
use mathlib.Core.Option.{some-injective}
use track3_simulation_public.Common.Int.{ℤ, negsuc}
use track3_simulation_public.Semantics.Values.{ltb_ℤ, is_negative}
use track3_simulation_public.Semantics.Ledger.{
  Row, same_delivery, recv_by_key, get_or, Child, child_of, sent_child, add_child, children,
  is_dangling, is_acausal, causal_breaches,
}
use track3_simulation_public.Semantics.Counting.{
  count_if-none, count_if-zero, if_any-none, append-empty,
}
use track3_simulation_public.Semantics.Faithful.{Distinct, Delivers, Any, Caused}

-- A key that is found was delivered.
recv_by_key-found :
    (m d : ℕ) (rs : List Row) (v t : ℤ)
    → recv_by_key m d rs ≡ some v
    → is_negative v ≡ false
    → ltb_ℤ t v ≡ false
    → Any (Delivers m d t) rs
unfolding recv_by_key
recv_by_key-found m d [] v t h k l = cc
recv_by_key-found m d (r ∷ rs) v t h k l = elim (Option-cases (recv_by_key m d rs)) [
  | inr (w, later) ↦ inr (recv_by_key-found m d rs v t (later ∙ ground (arith, h, later)) k l)
  | inl none_later ↦ elim (Bool-cases ((r.message_id == m) && (r.dst == d))) [
    | inl here ↦
        let e : r.t_recv ≡ v = ground (arith, h, none_later, here) in
        inl (
          ground (arith, here),
          ground (arith, here),
          subst (λ x. is_negative x ≡ false) (sym e) k,
          subst (λ x. ltb_ℤ t x ≡ false) (sym e) l,
        )
    | inr other ↦ absurd (ground (arith, h, none_later, other))
  ]
]

recv_by_key-others :
    (r : Row) (rs : List Row)
    → All (λ r'. same_delivery r r' ≡ false) rs
    → recv_by_key r.message_id r.dst rs ≡ none
unfolding recv_by_key
recv_by_key-others r [] h = refl
recv_by_key-others r (r' ∷ rs) h = rw (recv_by_key-others r rs h.1) (ground (arith, h.0))

-- In a ledger with no duplicates the lookup finds the delivery.
recv_by_key-Any :
    (m d : ℕ) (t : ℤ) (rs : List Row)
    → Distinct rs
    → Any (Delivers m d t) rs
    → (v : ℤ) × (recv_by_key m d rs ≡ some v) × (is_negative v ≡ false) × (ltb_ℤ t v ≡ false)
unfolding recv_by_key
recv_by_key-Any m d t [] u h = absurd h
recv_by_key-Any m d t (r ∷ rs) u (inl h) =
    (r.t_recv, ground (arith, recv_by_key-others r rs u.0, h.0, h.1), h.2, h.3)
recv_by_key-Any m d t (r ∷ rs) u (inr h) =
    let (v, e, k, l) = recv_by_key-Any m d t rs u.1 h in (v, rw e refl, k, l)

abbrev pub Good : List Child → Type 0
Good cs = All (λ c. is_dangling c ≡ false) cs × All (λ c. is_acausal c ≡ false) cs

-- Both tests on a child are about the lookup of its parent.
child-found :
    (t : ℤ) (o : Option ℤ)
    → is_negative (get_or (negsuc 0) o) ≡ false
    → not (is_negative (get_or (negsuc 0) o)) && ltb_ℤ t (get_or (negsuc 0) o) ≡ false
    → (v : ℤ) × (o ≡ some v) × (is_negative v ≡ false) × (ltb_ℤ t v ≡ false)
unfolding get_or
child-found t none h k = cc
child-found t (some v) h k = (v, refl, h, (rw h at k))

child-Delivers :
    (all : List Row) (r : Row) (p : ℕ) (t : ℤ)
    → is_dangling (child_of all r p t) ≡ false
    → is_acausal (child_of all r p t) ≡ false
    → Any (Delivers p r.src t) all
child-Delivers all r p t h k =
    let (v, e, n, l) = child-found t (recv_by_key p r.src all) h k in
    recv_by_key-found p r.src all v t e n l

Delivers-child :
    (all : List Row) (r : Row) (p : ℕ) (t : ℤ)
    → Distinct all
    → Any (Delivers p r.src t) all
    → (is_dangling (child_of all r p t) ≡ false) × (is_acausal (child_of all r p t) ≡ false)
unfolding get_or
Delivers-child all r p t u h =
    let (v, e, n, l) = recv_by_key-Any p r.src t all u h in (rw e n, rw (e, n) l)

abbrev pub GoodIfSome : Option (List Child) → Type 0
GoodIfSome none = ⊥
GoodIfSome (some cs) = Good cs

sent_child-Caused :
    (all : List Row) (r : Row) (p : ℕ) (send : Option ℤ) (cs : List Child)
    → r.t_send ≡ send
    → GoodIfSome (sent_child all r p send cs)
    → Caused all r (some p) × Good cs
sent_child-Caused all r p none cs e g = absurd g
sent_child-Caused all r p (some t) cs e g =
    ((t, e, child-Delivers all r p t g.0.0 g.1.0), (g.0.1, g.1.1))

add_child-Caused :
    (all : List Row) (r : Row) (parent : Option ℕ) (cs : Option (List Child))
    → GoodIfSome (add_child all r parent cs)
    → Caused all r parent × GoodIfSome cs
add_child-Caused all r none cs g = (tt, g)
add_child-Caused all r (some p) none g = absurd g
add_child-Caused all r (some p) (some cs) g = sent_child-Caused all r p r.t_send cs refl g

Caused-sent_child :
    (all : List Row) (r : Row) (p : ℕ) (send : Option ℤ) (cs : List Child)
    → Distinct all
    → r.t_send ≡ send
    → Caused all r (some p)
    → Good cs
    → GoodIfSome (sent_child all r p send cs)
Caused-sent_child all r p none cs u e (t, e', h) g = absurd (cc)
Caused-sent_child all r p (some t) cs u e (t', e', h) g =
    let (a, b) =
      Delivers-child all r p t u
        (subst (λ w. Any (Delivers p r.src w) all) (some-injective _ _ (sym e' ∙ e)) h) in
    ((a, g.0), (b, g.1))

Caused-add_child :
    (all : List Row) (r : Row) (parent : Option ℕ) (cs : Option (List Child))
    → Distinct all
    → Caused all r parent
    → GoodIfSome cs
    → GoodIfSome (add_child all r parent cs)
Caused-add_child all r none cs u c g = g
Caused-add_child all r (some p) none u c g = absurd g
Caused-add_child all r (some p) (some cs) u c g = Caused-sent_child all r p r.t_send cs u refl c g

pub children-Caused :
    (all rs : List Row) → GoodIfSome (children all rs) → All (λ r. Caused all r r.causal_parent) rs
unfolding children
children-Caused all [] g = tt
children-Caused all (r ∷ rs) g =
    let (c, g') = add_child-Caused all r r.causal_parent (children all rs) g in
    (c, children-Caused all rs g')

pub Caused-children :
    (all rs : List Row)
    → Distinct all
    → All (λ r. Caused all r r.causal_parent) rs
    → GoodIfSome (children all rs)
unfolding children
Caused-children all [] u h = (tt, tt)
Caused-children all (r ∷ rs) u h =
    Caused-add_child all r r.causal_parent (children all rs) u h.0 (Caused-children all rs u h.1)

pub causal_breaches_iff : (cs : List Child) → (causal_breaches cs ≡ []) ↔ Good cs
unfolding causal_breaches
causal_breaches_iff cs = (
  λ h.
      let (a, b) = append-empty _ _ h in
      (count_if-none _ _ (if_any-none _ _ a), count_if-none _ _ (if_any-none _ _ b)),
  λ g. rw (count_if-zero _ _ g.0, count_if-zero _ _ g.1) refl,
)

-- ===== src/Semantics/Trace.antt =====
-- `check_tier_a` of qfbench2_track_simulation/semantics.py: a trace against the reference by event
-- count, fills, coverage of events and their order.
use track3_simulation_public.Common.{
  ℕ, zero, suc, ◌^◌, Bool, true, false, not, ◌&&◌, ◌||◌, Option, none, some, List, [], ◌∷◌, ◌++◌,
  map, length, ltb, ◌==◌, if◌then◌else◌,
}
use track3_simulation_public.Common.Int.{ℤ, pos, negsuc, ◌-ℤ◌}
use track3_simulation_public.Semantics.Values.{eqb_ℤ, ltb_ℤ, wrap_int64}
use track3_simulation_public.Semantics.Ledger.{count_if}

-- A value of a float column; a fraction by the code of its `repr`, which is never that of an integer.
pub data FloatValue : Type 0 where
  integral : ℤ → FloatValue
  fractional : ℕ → FloatValue
  nan : FloatValue
  infinite : Bool → FloatValue

-- A value of a column by its type; a text by its code.
pub data Cell : Type 0 where
  int_cell : ℤ → Cell
  float_cell : FloatValue → Cell
  text_cell : ℕ → Cell

-- A rendered value.
pub data Text : Type 0 where
  decimal : ℤ → Text
  repr_text : ℕ → Text
  nan_text : Text
  inf_text : Bool → Text
  plain_text : ℕ → Text

-- A row of a canonical trace.
pub record Event : Type 0 where
  pub t_ns : ℤ
  pub order_id : Cell
  pub msg_type : Cell
  pub agent_id : Cell
  pub side : Cell
  pub price : Cell
  pub size : Cell

abbrev pub render : Cell → Text
render (int_cell n) = decimal n
render (float_cell (integral n)) = decimal n
render (float_cell (fractional c)) = repr_text c
render (float_cell nan) = nan_text
render (float_cell (infinite s)) = inf_text s
render (text_cell c) = plain_text c

-- A row of `_canonical_key_matrix`.
abbrev pub key_of : Event → List Text
key_of e =
    render e.order_id
    ∷ render e.msg_type
    ∷ render e.agent_id
    ∷ render e.side
    ∷ render e.price
    ∷ render e.size
    ∷ []

abbrev pub same_sign : Bool → Bool → Bool
same_sign true b = b
same_sign false b = not b

abbrev pub same_text : Text → Text → Bool
same_text (decimal m) (decimal n) = eqb_ℤ m n
same_text (repr_text m) (repr_text n) = m == n
same_text nan_text nan_text = true
same_text (inf_text s) (inf_text t) = same_sign s t
same_text (plain_text m) (plain_text n) = m == n
same_text _ _ = false

abbrev pub same_key : List Text → List Text → Bool
same_key [] [] = true
same_key (x ∷ xs) (y ∷ ys) = same_text x y && same_key xs ys
same_key [] (y ∷ ys) = false
same_key (x ∷ xs) [] = false

-- numpy's `!=` on two values: NaN differs from all.
abbrev pub is_nan : Text → Bool
is_nan nan_text = true
is_nan (decimal n) = false
is_nan (repr_text n) = false
is_nan (inf_text s) = false
is_nan (plain_text n) = false

abbrev pub differs : Cell → Cell → Bool
differs a b = is_nan (render a) || not (same_text (render a) (render b))

-- The codes of "ORDER_FILLED" and "PARTIAL_FILL".
abbrev pub order_filled : ℕ
order_filled = 0

abbrev pub partial_fill : ℕ
partial_fill = 1

-- `msg_type` is in `FILL_MSG_TYPES`.
abbrev pub is_fill_type : Cell → Bool
is_fill_type (text_cell c) = (c == order_filled) || (c == partial_fill)
is_fill_type (int_cell n) = false
is_fill_type (float_cell v) = false

unfoldable pub fills : List Event → List Event
fills [] = []
fills (e ∷ es) = if is_fill_type e.msg_type then e ∷ fills es else fills es

-- The rows of both at the same positions, up to the shorter length.
unfoldable pub paired : List Event → List Event → List (Event × Event)
paired [] rs = []
paired (c ∷ cs) [] = []
paired (c ∷ cs) (r ∷ rs) = (c, r) ∷ paired cs rs

-- `np.abs`, which leaves the least value as it is.
abbrev pub abs_int64 : ℤ → ℤ
abs_int64 (pos n) = pos n
abs_int64 (negsuc n) = if suc n == 2 ^ 63 then negsuc n else pos (suc n)

abbrev pub is_late : ℤ → Event × Event → Bool
is_late tolerance (c, r) = ltb_ℤ tolerance (abs_int64 (wrap_int64 (c.t_ns -ℤ r.t_ns)))

pub data TraceBreach : Type 0 where
  event_count fill_count : ℕ → ℕ → TraceBreach
  order_id_mismatch price_mismatch size_mismatch late_fills : ℕ → TraceBreach
  coverage : (missing extra : ℕ) → TraceBreach
  order_of_events : TraceBreach

abbrev pub if_some : ℕ → TraceBreach → List TraceBreach
if_some zero b = []
if_some (suc n) b = b ∷ []

unfoldable pub count_breaches : (ℕ → ℕ → TraceBreach) → ℕ → ℕ → List TraceBreach
count_breaches b m n = if m == n then [] else b m n ∷ []

unfoldable pub fill_breaches : ℤ → List (Event × Event) → List TraceBreach
fill_breaches tolerance ps =
    let ids = count_if (λ (p : Event × Event). differs p.0.order_id p.1.order_id) ps in
    let prices = count_if (λ (p : Event × Event). differs p.0.price p.1.price) ps in
    let sizes = count_if (λ (p : Event × Event). differs p.0.size p.1.size) ps in
    let late = count_if (is_late tolerance) ps in
    if_some ids (order_id_mismatch ids)
    ++ (if_some prices (price_mismatch prices)
        ++ (if_some sizes (size_mismatch sizes) ++ if_some late (late_fills late)))

-- An event by its key and the number of earlier events with that key.
abbrev pub Occurrence : Type 0
Occurrence = List Text × ℕ

abbrev pub times_seen : List Text → List (List Text) → ℕ
times_seen k ks = count_if (same_key k) ks

-- `_file_order_positions`, after the keys `seen`.
unfoldable pub positions_from : List (List Text) → ℕ → List (List Text) → List (Occurrence × ℕ)
positions_from seen at [] = []
positions_from seen at (k ∷ ks) =
    ((k, times_seen k seen), at) ∷ positions_from (k ∷ seen) (suc at) ks

abbrev pub file_order_positions : List Event → List (Occurrence × ℕ)
file_order_positions es = positions_from [] 0 (map key_of es)

abbrev pub same_occurrence : Occurrence → Occurrence → Bool
same_occurrence (k, c) (l, d) = same_key k l && (c == d)

-- `positions.get(k)`
unfoldable pub position_of : Occurrence → List (Occurrence × ℕ) → Option ℕ
position_of q [] = none
position_of q ((o, p) ∷ ps) = if same_occurrence q o then some p else position_of q ps

abbrev pub is_in : List (Occurrence × ℕ) → Occurrence × ℕ → Bool
is_in ps (o, p) = elim (position_of o ps) [ none ↦ false | some i ↦ true ]

-- The positions of the events that both traces have, in the first and in the second.
unfoldable pub common_positions : List (Occurrence × ℕ) → List (Occurrence × ℕ) → List (ℕ × ℕ)
common_positions [] cp = []
common_positions ((o, p) ∷ rp) cp = elim (position_of o cp) [
  | none ↦ common_positions rp cp
  | some i ↦ (p, i) ∷ common_positions rp cp
]

unfoldable pub coverage_breaches : List (Occurrence × ℕ) → List (Occurrence × ℕ) → List TraceBreach
coverage_breaches rp cp =
    let missing = count_if (λ e. not (is_in cp e)) rp in
    let extra = count_if (λ e. not (is_in rp e)) cp in
    if (missing == 0) && (extra == 0) then [] else coverage missing extra ∷ []

-- A verdict, or `NonfiniteStatistic`.
pub data TraceChecked : Type 0 where
  nonfinite_statistic : TraceChecked
  trace_report : List TraceBreach → TraceChecked

abbrev pub trace_passes : TraceChecked → Bool
trace_passes nonfinite_statistic = false
trace_passes (trace_report []) = true
trace_passes (trace_report (b ∷ bs)) = false

-- What is left to report once the earlier breaches are known.
abbrev pub then_report : List TraceBreach → TraceChecked → TraceChecked
then_report bs nonfinite_statistic = nonfinite_statistic
then_report bs (trace_report cs) = trace_report (bs ++ cs)

-- `F` is the type of floats, `kendalltau` SciPy's statistic on two lists of positions.
module _ {F : Type 0} (is_finite : F → Bool) (less : F → F → Bool)
    (kendalltau : List ℕ → List ℕ → F) (floor : F) where
  unfoldable pub order_check : List (ℕ × ℕ) → TraceChecked
  order_check common =
      if ltb 1 (length common)
      then (let tau = kendalltau (map (λ p. p.0) common) (map (λ p. p.1) common) in
          if is_finite tau
          then trace_report (if less tau floor then order_of_events ∷ [] else [])
          else nonfinite_statistic)
      else trace_report []

  unfoldable pub sequence_check : List Event → List Event → TraceChecked
  sequence_check cs rs =
      if ltb 1 (length cs) && ltb 1 (length rs)
      then (let rp = file_order_positions rs in
          let cp = file_order_positions cs in
          then_report (coverage_breaches rp cp) (order_check (common_positions rp cp)))
      else trace_report []

  -- `check_tier_a`, the candidate first.
  unfoldable pub check_tier_a : ℤ → List Event → List Event → TraceChecked
  check_tier_a tolerance cs rs = then_report (count_breaches event_count (length cs) (length rs)) (
      then_report (count_breaches fill_count (length (fills cs)) (length (fills rs))) (
        then_report (fill_breaches tolerance (paired (fills cs) (fills rs)))
          (sequence_check cs rs)))

-- ===== src/Semantics/Ledger.antt =====
-- `check_message_semantics` of qfbench2_track_simulation/semantics.py: the message ledger of a run,
-- one row per delivery, and the breaches that the check reports.
use track3_simulation_public.Common.{
  ℕ, zero, suc, ◌-◌, Bool, true, false, not, ◌&&◌, Option, none, some, List, [], ◌∷◌, ◌++◌, map,
  length, ◌==◌, if◌then◌else◌,
}
use track3_simulation_public.Common.Int.{ℤ, pos, negsuc, ◌-ℤ◌}
use track3_simulation_public.Semantics.Values.{eqb_ℤ, ltb_ℤ, is_negative, wrap_int64}

-- `MESSAGE_TRACE_COLUMNS`
pub data Column : Type 0 where
  seq t_recv_ns t_send_ns latency_ns src_id dst_id message_id msg_type order_id causal_parent :
      Column

-- `msg_type`: a wakeup, or one of the names of `_EXEC_REPORT_TYPES`, or any other name.
pub data MessageType : Type 0 where
  agent_wakeup : MessageType
  order_accepted order_executed order_cancelled order_partial_cancelled : MessageType
  order_modified order_replaced order_rejected : MessageType
  other_type : ℕ → MessageType

-- A row. A column that may be NaN is an option; the other columns hold integers. `order_id` is not
-- read.
pub record Row : Type 0 where
  pub seq : ℤ
  pub t_recv : ℤ
  pub t_send : Option ℤ
  pub latency : ℤ
  pub src : ℕ
  pub dst : ℕ
  pub message_id : ℕ
  pub msg_type : MessageType
  pub causal_parent : Option ℕ

-- A message frame: the columns that it has, and its rows.
pub record Frame : Type 0 where
  pub has_column : Column → Bool
  pub rows : List Row

pub data Breach : Type 0 where
  missing_columns : List Column → Breach
  no_rows bad_seq bad_wakeup : Breach
  duplicate_rows bad_latency negative_latency dangling_parent acausal : ℕ → Breach

-- A report is the list of breaches; `raised` is the exception of `astype("int64")` on a NaN.
pub data Checked : Type 0 where
  raised : Checked
  report : List Breach → Checked

-- `len(breaches) == 0`
abbrev pub passes : Checked → Bool
passes raised = false
passes (report []) = true
passes (report (b ∷ bs)) = false

abbrev pub message_trace_columns : List Column
message_trace_columns =
    seq ∷ t_recv_ns ∷ t_send_ns ∷ latency_ns ∷ src_id ∷ dst_id ∷ message_id ∷ msg_type ∷ order_id
    ∷ causal_parent ∷ []

unfoldable pub missing_from : (Column → Bool) → List Column → List Column
missing_from has [] = []
missing_from has (c ∷ cs) = if has c then missing_from has cs else c ∷ missing_from has cs

abbrev pub count_if {ℓ} : {A : Type ℓ} → (A → Bool) → List A → ℕ
count_if p [] = 0
count_if p (x ∷ xs) = if p x then suc (count_if p xs) else count_if p xs

-- `if n: breaches.append(...)`
abbrev pub if_any : ℕ → Breach → List Breach
if_any zero b = []
if_any (suc n) b = b ∷ []

-- The same message to the same recipient.
abbrev pub same_delivery : Row → Row → Bool
same_delivery r r' = (r.message_id == r'.message_id) && (r.dst == r'.dst)

abbrev pub is_wakeup : MessageType → Bool
is_wakeup agent_wakeup = true
is_wakeup order_accepted = false
is_wakeup order_executed = false
is_wakeup order_cancelled = false
is_wakeup order_partial_cancelled = false
is_wakeup order_modified = false
is_wakeup order_replaced = false
is_wakeup order_rejected = false
is_wakeup (other_type n) = false

-- `msg_df[msg_df["t_send_ns"].notna()]`, each row with its send time.
abbrev pub with_send : Row → Option ℤ → List (ℤ × Row) → List (ℤ × Row)
with_send r none us = us
with_send r (some t) us = (t, r) ∷ us

unfoldable pub sent : List Row → List (ℤ × Row)
sent [] = []
sent (r ∷ rs) = with_send r r.t_send (sent rs)

-- `trecv - tsend != lat`
abbrev pub breaks_identity : ℤ × Row → Bool
breaks_identity (t, r) = not (eqb_ℤ (wrap_int64 (r.t_recv -ℤ t)) r.latency)

abbrev pub is_before_send : ℤ × Row → Bool
is_before_send (t, r) = is_negative r.latency

unfoldable pub latency_breaches : List Row → List Breach
latency_breaches rs =
    let bad = count_if breaks_identity (sent rs) in
    let negative = count_if is_before_send (sent rs) in
    if_any bad (bad_latency bad) ++ if_any negative (negative_latency negative)

-- `np.arange(n)`, from `k`.
unfoldable pub arange : ℕ → ℕ → List ℤ
arange k zero = []
arange k (suc n) = pos k ∷ arange (suc k) n

abbrev pub equal_lists : List ℤ → List ℤ → Bool
equal_lists [] [] = true
equal_lists [] (y ∷ ys) = false
equal_lists (x ∷ xs) [] = false
equal_lists (x ∷ xs) (y ∷ ys) = eqb_ℤ x y && equal_lists xs ys

-- `recv_by_key.get((message_id, dst))`: of two rows with one key the later one counts.
unfoldable pub recv_by_key : ℕ → ℕ → List Row → Option ℤ
recv_by_key m d [] = none
recv_by_key m d (r ∷ rs) = elim (recv_by_key m d rs) [
  | some t ↦ some t
  | none ↦ if (r.message_id == m) && (r.dst == d) then some r.t_recv else none
]

unfoldable pub get_or : ℤ → Option ℤ → ℤ
get_or d none = d
get_or d (some t) = t

-- A row with a causal parent: when the parent reached its sender, or -1, and its send time.
pub record Child : Type 0 where
  pub parent_recv : ℤ
  pub send_time : ℤ

abbrev pub child_of : List Row → Row → ℕ → ℤ → Child
child_of all r p t = record {
  parent_recv = get_or (negsuc 0) (recv_by_key p r.src all);
  send_time = t;
}

abbrev pub sent_child : List Row → Row → ℕ → Option ℤ → List Child → Option (List Child)
sent_child all r p none cs = none
sent_child all r p (some t) cs = some (child_of all r p t ∷ cs)

abbrev pub add_child : List Row → Row → Option ℕ → Option (List Child) → Option (List Child)
add_child all r none cs = cs
add_child all r (some p) none = none
add_child all r (some p) (some cs) = sent_child all r p r.t_send cs

-- `children`, with the two columns computed from it; `none` if a child has no send time.
unfoldable pub children : List Row → List Row → Option (List Child)
children all [] = some []
children all (r ∷ rs) = add_child all r r.causal_parent (children all rs)

abbrev pub is_dangling : Child → Bool
is_dangling c = is_negative c.parent_recv

abbrev pub is_acausal : Child → Bool
is_acausal c = not (is_dangling c) && ltb_ℤ c.send_time c.parent_recv

unfoldable pub causal_breaches : List Child → List Breach
causal_breaches cs =
    let dangling = count_if is_dangling cs in
    let before = count_if is_acausal cs in
    if_any dangling (dangling_parent dangling) ++ if_any before (acausal before)

abbrev pub has_value : Option ℤ → Bool
has_value none = false
has_value (some t) = true

-- A wakeup that is not a self-message of latency 0 with no send time.
abbrev pub is_bad_wakeup : Row → Bool
is_bad_wakeup r =
    is_wakeup r.msg_type
    && not ((r.src == r.dst) && (eqb_ℤ r.latency (pos 0) && not (has_value r.t_send)))

unfoldable pub wakeup_breaches : List Row → List Breach
wakeup_breaches rs = if_any (count_if is_bad_wakeup rs) bad_wakeup

abbrev pub seqs : List Row → List ℤ
seqs rs = map (λ r. r.seq) rs

-- `drop_duplicates` is pandas' on the key `["message_id", "dst_id"]`.
unfoldable pub duplicate_breaches : (List Row → List Row) → List Row → List Breach
duplicate_breaches drop_duplicates rs =
    let n = length rs - length (drop_duplicates rs) in if_any n (duplicate_rows n)

-- `sort` is `np.sort`.
unfoldable pub seq_breaches : (List ℤ → List ℤ) → List Row → List Breach
seq_breaches sort rs =
    if equal_lists (sort (seqs rs)) (arange 0 (length rs)) then [] else bad_seq ∷ []

module _ (drop_duplicates : List Row → List Row) (sort : List ℤ → List ℤ) where
  abbrev pub report_rows : List Row → Option (List Child) → Checked
  report_rows rs none = raised
  report_rows rs (some cs) = report (
      duplicate_breaches drop_duplicates rs
      ++ (latency_breaches rs
          ++ (seq_breaches sort rs ++ (causal_breaches cs ++ wakeup_breaches rs))))

  -- The checks on a frame that has its columns and rows.
  unfoldable pub check_rows : List Row → Checked
  check_rows rs = report_rows rs (children rs rs)

  -- `check_message_semantics`
  unfoldable pub check_message_semantics : Frame → Checked
  unfolding missing_from
  check_message_semantics f = elim (missing_from f.has_column message_trace_columns) [
    | c ∷ cs ↦ report (missing_columns (c ∷ cs) ∷ [])
    | [] ↦ elim f.rows [ [] ↦ report (no_rows ∷ []) | r ∷ rs ↦ check_rows (r ∷ rs) ]
  ]

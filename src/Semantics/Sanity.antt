-- ===== src/Semantics/Sanity.antt =====
-- `check_numeric_sanity` of qfbench2_track_simulation/semantics.py: finite and physical numbers in
-- a trace, before any statistic reads it.
use track3_simulation_public.Common.{
  ℕ, zero, suc, ◌≡◌, ◌≢◌, Bool, true, false, not, ◌&&◌, List, [], ◌∷◌, ◌++◌, All, if◌then◌else◌,
}
use track3_simulation_public.Semantics.Ledger.{count_if}
use track3_simulation_public.Semantics.Trace.{Cell, int_cell, Event}

-- `_NUMERIC_TRACE_COLUMNS`
pub data NumericColumn : Type 0 where
  t_ns_column price_column size_column : NumericColumn

-- A trace as read: the numeric columns that it has, and its rows. The other columns of
-- `KENDALL_KEY_COLUMNS` are there.
pub record Table : Type 0 where
  pub has_column : NumericColumn → Bool
  pub rows : List Event

pub data SanityBreach : Type 0 where
  missing_numeric : List NumericColumn → SanityBreach
  no_trace_rows : SanityBreach
  nonfinite nonpositive : NumericColumn → ℕ → SanityBreach

abbrev pub numeric_columns : List NumericColumn
numeric_columns = t_ns_column ∷ price_column ∷ size_column ∷ []

unfoldable pub missing_numeric_from :
    (NumericColumn → Bool) → List NumericColumn → List NumericColumn
missing_numeric_from has [] = []
missing_numeric_from has (c ∷ cs) =
    if has c then missing_numeric_from has cs else c ∷ missing_numeric_from has cs

abbrev pub cell_of : NumericColumn → Event → Cell
cell_of t_ns_column e = int_cell e.t_ns
cell_of price_column e = e.price
cell_of size_column e = e.size

-- `if n: breaches.append(...)`
abbrev pub sanity_if : ℕ → SanityBreach → List SanityBreach
sanity_if zero b = []
sanity_if (suc n) b = b ∷ []

-- `to_float` is `pd.to_numeric` with coercion to NaN, and `is_nonpositive` the test `<= 0`.
module _ {F : Type 0} (to_float : Cell → F) (is_finite is_nonpositive : F → Bool) where
  abbrev pub value_of : NumericColumn → Event → F
  value_of c e = to_float (cell_of c e)

  abbrev pub is_nonfinite : NumericColumn → Event → Bool
  is_nonfinite c e = not (is_finite (value_of c e))

  abbrev pub is_nonphysical : NumericColumn → Event → Bool
  is_nonphysical c e = is_finite (value_of c e) && is_nonpositive (value_of c e)

  unfoldable pub nonfinite_breaches : NumericColumn → List Event → List SanityBreach
  nonfinite_breaches c es = let n = count_if (is_nonfinite c) es in sanity_if n (nonfinite c n)

  unfoldable pub nonpositive_breaches : NumericColumn → List Event → List SanityBreach
  nonpositive_breaches c es =
      let n = count_if (is_nonphysical c) es in sanity_if n (nonpositive c n)

  unfoldable pub value_breaches : List Event → List SanityBreach
  value_breaches es =
      nonfinite_breaches t_ns_column es
      ++ (nonfinite_breaches price_column es
          ++ (nonfinite_breaches size_column es
              ++ (nonpositive_breaches price_column es ++ nonpositive_breaches size_column es)))

  abbrev pub sanity_of_rows : List Event → List SanityBreach
  sanity_of_rows [] = no_trace_rows ∷ []
  sanity_of_rows (e ∷ es) = value_breaches (e ∷ es)

  abbrev pub sanity_of : List NumericColumn → List Event → List SanityBreach
  sanity_of [] es = sanity_of_rows es
  sanity_of (c ∷ cs) es = missing_numeric (c ∷ cs) ∷ []

  -- `check_numeric_sanity`; a trace passes if there is no breach.
  unfoldable pub check_numeric_sanity : Table → List SanityBreach
  check_numeric_sanity t = sanity_of (missing_numeric_from t.has_column numeric_columns) t.rows

  -- The value is finite; the value is finite and above 0.
  abbrev pub Finite : NumericColumn → Event → Type 0
  Finite c e = is_finite (value_of c e) ≡ true

  abbrev pub Physical : NumericColumn → Event → Type 0
  Physical c e = Finite c e × (is_nonpositive (value_of c e) ≡ false)

  -- A row is physical.
  pub record SaneRow (e : Event) : Type 0 where
    pub time : Finite t_ns_column e
    pub price : Physical price_column e
    pub size : Physical size_column e

  -- A trace has its numeric columns and a row, and its rows are physical.
  pub record Sane (t : Table) : Type 0 where
    pub all_columns : (c : NumericColumn) → t.has_column c ≡ true
    pub some_row : t.rows ≢ []
    pub all_rows : All SaneRow t.rows

-- ===== src/Scoring/Contract.antt =====
-- What the gates of qfbench2_track_simulation/scoring.py call that is not of the package: floats,
-- Python's conversions, pandas, numpy, SciPy and the shared toolkit.
use track3_simulation_public.Common.{ℕ, Bool, true, false, Option, List, ◌==◌}
use track3_simulation_public.Common.Int.{ℤ, pos}
use track3_simulation_public.Common.Result.{Text, eq_text}
use track3_simulation_public.Common.Json.{Json, null, boolean, integer, real, text, array, object}
use track3_simulation_public.Semantics.Values.{eqb_ℤ}
use track3_simulation_public.Semantics.Ledger.{Row}
use track3_simulation_public.Semantics.Proximity.{Numerics}
use track3_simulation_public.Telemetry.Timing.{RunRecord}

-- `float(v)`: a float, or `TypeError` or `ValueError`, or `OverflowError`.
pub data Converted (F : Type 0) : Type 0 where
  converted : F → Converted F
  not_a_number overflow : Converted F

-- `decimal n k` is a literal, `to_number` is `float`, `truncate` is `int` on a float, `relative_gap` is
-- the absolute difference by the second, `lower` and `strip_lower` are `str` methods, `below` and
-- `at_most` compare, `per_market` is the ceiling of a market times a number; `admissible`, `is_timed`,
-- `rate` and `median` are of the ranked timing; `drop_duplicates` to `deviates` of the ledger checks;
-- `positive_totals` to `truncate_total` of the aggregate check; `stylized` is the shared report of
-- stylized facts, by a code, and whether it is admissible.
pub record Contract (F : Type 0) : Type 0 where
  pub num : Numerics F
  pub decimal : ℕ → ℕ → F
  pub of_integer : ℤ → F
  pub to_number : Json F → Converted F
  pub truncate : F → Option ℤ
  pub is_zero : F → Bool
  pub is_negative : F → Bool
  pub divide : F → F → F
  pub relative_gap : F → F → F
  pub equal : F → F → Bool
  pub equal_integer : F → ℤ → Bool
  pub lower : Text → Text
  pub strip_lower : Text → Text
  pub below : F → ℕ → Bool
  pub at_most : F → F → Bool
  pub per_market : ℕ → F
  pub admissible : RunRecord F → Bool
  pub is_timed : F → Bool
  pub rate : ℕ → F → F
  pub median : List F → F
  pub drop_duplicates : List Row → List Row
  pub sort : List ℤ → List ℤ
  pub required : ℕ → ℕ
  pub ledger_ks : List ℤ → List ℤ → F
  pub exceeds : F → Bool
  pub deviates : ℕ → ℕ → Bool
  pub positive_totals : F → F → F → Bool
  pub close_totals : F → F → F → Bool
  pub truncate_total : F → ℕ
  pub stylized : List F → List F → Option (List F) → Option (List F) → List (Text × F) → Bool × ℕ

abbrev pub bit : Bool → ℤ
bit true = pos 1
bit false = pos 0

-- A number as an integer or a float; a Boolean is 0 or 1.
pub data Numeral (F : Type 0) : Type 0 where
  whole : ℤ → Numeral F
  float : F → Numeral F
  no_numeral : Numeral F

abbrev pub numeral_of : {F : Type 0} → Json F → Numeral F
numeral_of null = no_numeral
numeral_of (boolean b) = whole (bit b)
numeral_of (integer z) = whole z
numeral_of (real x) = float x
numeral_of (text t) = no_numeral
numeral_of (array c) = no_numeral
numeral_of (object c) = no_numeral

module _ {F : Type 0} (con : Contract F) where
  abbrev pub same_numeral : Numeral F → Numeral F → Bool
  same_numeral (whole y) (whole z) = eqb_ℤ y z
  same_numeral (whole y) (float x) = con.equal_integer x y
  same_numeral (whole y) no_numeral = false
  same_numeral (float x) (whole z) = con.equal_integer x z
  same_numeral (float x) (float y) = con.equal x y
  same_numeral (float x) no_numeral = false
  same_numeral no_numeral n = false

  -- `==` on two values.
  abbrev pub same_json : Json F → Json F → Bool
  same_json null null = true
  same_json (text t) (text u) = eq_text t u
  same_json (array c) (array d) = c == d
  same_json (object c) (object d) = c == d
  same_json v w = same_numeral (numeral_of v) (numeral_of w)

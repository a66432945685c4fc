-- ===== src/Semantics/Cases.antt =====
-- Numeric sanity, Tier B and the selected comparison on small traces, with concrete floats.
use track3_simulation_public.Common.{
  ℕ, zero, suc, ◌+◌, ◌-◌, ◌/◌, ◌≡◌, refl, ◌↔◌, ◌⊎◌, Bool, true, false, Option, none, some, List, [],
  ◌∷◌, ltb,
}
use track3_simulation_public.Common.Int.{ℤ, pos, negsuc}
use track3_simulation_public.Semantics.Trace.{
  Cell, int_cell, float_cell, text_cell, integral, fractional, nan, infinite, Event,
}
use track3_simulation_public.Semantics.Sanity.{
  Table, check_numeric_sanity, Sane, missing_numeric_from, nonfinite_breaches, nonpositive_breaches,
  value_breaches,
}
use track3_simulation_public.Semantics.Sane.{check_numeric_sanity-Sane}
use track3_simulation_public.Semantics.Attempt.{returns}
use track3_simulation_public.Semantics.Proximity.{
  Numerics, paired_quotes, mid_price_series, spread_series, check_tier_b, quote_update, bid_side,
  ask_side, compare_series, deviation_check, distribution_check, guarded, select,
}
use track3_simulation_public.Semantics.Proximate.{Proximate, check_tier_b-Proximate}
use track3_simulation_public.Semantics.Regression.{
  Settings, semantic_regression_pass, compare_traces,
}
use track3_simulation_public.Semantics.Dispatch.{
  SaneTrace, Regresses, semantic_regression_pass-Regresses,
}
use track3_simulation_public.Semantics.Faults.{BadMids, semantic_regression_pass-reference_fault}

-- Numbers with a NaN.
abbrev pub Value : Type 0
Value = Option ℕ

abbrev pub of_integer : ℤ → Value
of_integer (pos n) = some n
of_integer (negsuc n) = some 0

abbrev of_cell : Cell → Value
of_cell (int_cell z) = of_integer z
of_cell (float_cell (integral z)) = of_integer z
of_cell (float_cell (fractional c)) = none
of_cell (float_cell nan) = none
of_cell (float_cell (infinite s)) = none
of_cell (text_cell c) = none

abbrev pub is_value : Value → Bool
is_value none = false
is_value (some n) = true

abbrev pub is_none : Value → Bool
is_none none = true
is_none (some n) = false

abbrev pub below : Value → Value → Bool
below none v = false
below (some m) none = false
below (some m) (some n) = ltb m n

abbrev pub combine : (ℕ → ℕ → ℕ) → Value → Value → Value
combine f none v = none
combine f (some m) none = none
combine f (some m) (some n) = some (f m n)

abbrev total : List Value → Value
total [] = some 0
total (v ∷ vs) = combine (λ m n. m + n) v (total vs)

abbrev mean_of : List Value → Value
mean_of [] = none
mean_of (v ∷ vs) = total (v ∷ vs)

abbrev zip_prices : List (ℤ × Value) → List (ℤ × Value) → List (Value × Value)
zip_prices [] as_ = []
zip_prices (b ∷ bs) [] = []
zip_prices (b ∷ bs) (a ∷ rest) = (b.1, a.1) ∷ zip_prices bs rest

abbrev pub numbers : Numerics Value
numbers = record {
  to_float = of_cell;
  is_nan = is_none;
  is_finite = is_value;
  is_nonpositive = λ v. below v (some 1);
  is_positive = λ v. below (some 0) v;
  less = below;
  pair = λ bs rest. some (zip_prices bs rest);
  middle = combine (λ m n. (m + n) / 2);
  spread = combine (λ m n. m - n);
  log_returns = λ vs. vs;
  ks_2samp = λ vs ws. some 0;
  mean = mean_of;
  basis_points = λ v w. v;
  distance = combine (λ m n. (m - n) + (n - m));
  kendalltau = λ xs ys. some 1000;
  default_ks_ceiling = some 80;
  histogram = λ vs. [];
  ratio = λ m n. some (m / n);
}

abbrev row : ℕ → ℕ → ℕ → ℕ → Event
row t kind s p = record {
  t_ns = pos t;
  order_id = int_cell (pos 1);
  msg_type = text_cell kind;
  agent_id = int_cell (pos 1);
  side = text_cell s;
  price = int_cell (pos p);
  size = int_cell (pos 10);
}

-- Quotes on both sides; bids and fills only.
abbrev pub two_sided : ℕ → List Event
two_sided zero = []
two_sided (suc n) = row n quote_update bid_side 100 ∷ row n quote_update ask_side 102 ∷ two_sided n

abbrev bids_only : ℕ → List Event
bids_only zero = []
bids_only (suc n) = row n quote_update bid_side 100 ∷ row n 0 bid_side 101 ∷ bids_only n

abbrev pub table : List Event → Table
table es = record { has_column = λ c. true; rows = es }

abbrev pub settings : ℕ → Settings Value
settings n = record {
  family = n;
  tier = none;
  ks = some (some 80);
  spread_tolerance = some 10;
  timestamp_tolerance = pos 1000;
  kendall_tau_floor = some 999;
}

abbrev repeated : ℕ → Value → List Value
repeated zero v = []
repeated (suc n) v = v ∷ repeated n v

check_numeric_sanity-Sane_example :
    (check_numeric_sanity of_cell is_value (λ v. below v (some 1)) (table (two_sided 2)) ≡ [])
    ↔ Sane of_cell is_value (λ v. below v (some 1)) (table (two_sided 2))
check_numeric_sanity-Sane_example =
    check_numeric_sanity-Sane of_cell is_value (λ v. below v (some 1)) (table (two_sided 2))

check_tier_b-Proximate_example :
    (check_tier_b numbers (some 80) (some 10) (two_sided 10) (two_sided 10) ≡ returns [])
    ↔ Proximate numbers (some 80) (some 10) (two_sided 10) (two_sided 10)
check_tier_b-Proximate_example =
    check_tier_b-Proximate numbers (some 80) (some 10) (two_sided 10) (two_sided 10)

semantic_regression_pass-Regresses_example :
    (semantic_regression_pass numbers (settings 2) (table (two_sided 10)) (table (two_sided 10))
      ≡ returns [])
    ↔ Regresses numbers (settings 2) (table (two_sided 10)) (table (two_sided 10))
semantic_regression_pass-Regresses_example =
    semantic_regression_pass-Regresses numbers (settings 2) (table (two_sided 10))
      (table (two_sided 10))

-- A run that passes Tier B.
two_sided-passes :
    semantic_regression_pass numbers (settings 2) (table (two_sided 10)) (table (two_sided 10))
    ≡ returns []
unfolding semantic_regression_pass check_numeric_sanity missing_numeric_from value_breaches
    nonfinite_breaches nonpositive_breaches compare_traces check_tier_b mid_price_series select
    paired_quotes guarded compare_series distribution_check spread_series deviation_check
two_sided-passes = refl

-- A reference with no rows.
semantic_regression_pass-reference_fault_example :
    (SaneTrace numbers (table []) → ⊥) ⊎ BadMids numbers []
unfolding semantic_regression_pass check_numeric_sanity missing_numeric_from
semantic_regression_pass-reference_fault_example =
    semantic_regression_pass-reference_fault numbers (settings 2) (table (two_sided 10)) (table [])
      refl

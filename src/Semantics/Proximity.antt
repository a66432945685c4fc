-- ===== src/Semantics/Proximity.antt =====
-- The series of a trace and `check_tier_b` of qfbench2_track_simulation/semantics.py: statistical
-- closeness to the reference.
use track3_simulation_public.Common.{
  ℕ, ◌+◌, Bool, true, false, not, ◌&&◌, Option, none, some, List, [], ◌∷◌, ◌++◌, map, length, ltb,
  leb, ◌==◌, ◌||◌, if◌then◌else◌,
}
use track3_simulation_public.Common.Int.{ℤ}
use track3_simulation_public.Semantics.Trace.{Cell, int_cell, float_cell, text_cell, Event, fills}
use track3_simulation_public.Semantics.Attempt.{
  reference_incomplete, nonfinite_statistic, other_error, Attempt, raises, returns, ◌>>=◌,
}

-- The codes of "QUOTE_UPDATE", "BID" and "ASK".
abbrev pub quote_update : ℕ
quote_update = 2

abbrev pub bid_side : ℕ
bid_side = 3

abbrev pub ask_side : ℕ
ask_side = 4

abbrev pub is_text : ℕ → Cell → Bool
is_text n (text_cell c) = c == n
is_text n (int_cell z) = false
is_text n (float_cell v) = false

-- Floats, and what the code takes of numpy, pandas and SciPy. `to_float` is a numeric conversion,
-- `pair` the bids and asks put on one time index, filled forward and without missing values (`none` is
-- its `ValueError`), `middle` half the sum, `log_returns` the differences of the logarithms,
-- `basis_points` a spread by a level, `distance` the absolute difference, `kendalltau` a statistic on
-- two lists of positions, and `histogram` the counts in twenty bins.
pub record Numerics (F : Type 0) : Type 0 where
  pub to_float : Cell → F
  pub is_nan : F → Bool
  pub is_finite : F → Bool
  pub is_nonpositive : F → Bool
  pub is_positive : F → Bool
  pub less : F → F → Bool
  pub pair : List (ℤ × F) → List (ℤ × F) → Option (List (F × F))
  pub middle : F → F → F
  pub spread : F → F → F
  pub log_returns : List F → List F
  pub ks_2samp : List F → List F → F
  pub mean : List F → F
  pub basis_points : F → F → F
  pub distance : F → F → F
  pub kendalltau : List ℕ → List ℕ → F
  pub default_ks_ceiling : F
  pub histogram : List F → List ℕ
  pub ratio : ℕ → ℕ → F

unfoldable pub select {ℓ} : {A : Type ℓ} → (A → Bool) → List A → List A
select p [] = []
select p (x ∷ xs) = if p x then x ∷ select p xs else select p xs

abbrev pub is_quote : Event → Bool
is_quote e = is_text quote_update e.msg_type

abbrev pub quotes : List Event → List Event
quotes es = select is_quote es

abbrev pub all_of {ℓ} : {A : Type ℓ} → (A → Bool) → List A → Bool
all_of p [] = true
all_of p (x ∷ xs) = p x && all_of p xs

abbrev pub sum : List ℕ → ℕ
sum [] = 0
sum (n ∷ ns) = n + sum ns

pub data ProximityBreach : Type 0 where
  insufficient_prices : (candidate reference : ℕ) → ProximityBreach
  bad_prices return_distribution spread_mean : ProximityBreach

module _ {F : Type 0} (num : Numerics F) where
  -- The prices of the quotes of a side, by their times.
  abbrev pub side_prices : ℕ → List Event → List (ℤ × F)
  side_prices side es =
      map (λ (e : Event). (e.t_ns, num.to_float e.price))
        (select (λ (e : Event). is_text side e.side) (quotes es))

  -- `combined`
  unfoldable pub paired_quotes : List Event → Option (List (F × F))
  paired_quotes es = num.pair (side_prices bid_side es) (side_prices ask_side es)

  -- The prices of the fills.
  unfoldable pub fill_prices : List Event → List F
  fill_prices es =
      select (λ v. not (num.is_nan v)) (map (λ (e : Event). num.to_float e.price) (fills es))

  abbrev pub mids_or_fills : List F → Option (List (F × F)) → Attempt (List F)
  mids_or_fills prices none = raises other_error
  mids_or_fills prices (some ps) =
      returns (if leb 2 (length ps) then map (λ p. num.middle p.0 p.1) ps else prices)

  unfoldable pub mid_price_series : List Event → Attempt (List F)
  mid_price_series es =
      if leb 2 (length (quotes es))
      then mids_or_fills (fill_prices es) (paired_quotes es)
      else returns (fill_prices es)

  abbrev pub spreads_of : Option (List (F × F)) → Attempt (Option (List F))
  spreads_of none = raises other_error
  spreads_of (some ps) = returns (some (map (λ p. num.spread p.1 p.0) ps))

  -- `_spread_series`
  unfoldable pub spread_series : List Event → Attempt (Option (List F))
  spread_series es =
      if ltb (length (quotes es)) 2 then returns none else spreads_of (paired_quotes es)

  abbrev pub normalised : List ℕ → Option (List F)
  normalised counts =
      if sum counts == 0 then none else some (map (λ n. num.ratio n (sum counts)) counts)

  unfoldable pub depth_histogram : List Event → Option (List F)
  depth_histogram es =
      let sizes =
        select (λ v. not (num.is_nan v)) (map (λ (e : Event). num.to_float e.size) (quotes es)) in
      if ltb (length sizes) 10 then none else normalised (num.histogram sizes)

  -- A series on which the logarithm is defined.
  abbrev pub is_price_series : List F → Bool
  is_price_series vs = all_of num.is_finite vs && all_of (λ v. not (num.is_nonpositive v)) vs

  -- The deviation of the mean spreads in basis points of the mean price.
  abbrev pub deviation : List F → List F → List F → F
  deviation mids cs rs =
      num.distance (num.basis_points (num.mean cs) (num.mean mids))
        (num.basis_points (num.mean rs) (num.mean mids))

  unfoldable pub deviation_check : F → F → Attempt (List ProximityBreach)
  deviation_check tolerance d =
      if num.is_finite d
      then returns (if num.less tolerance d then spread_mean ∷ [] else [])
      else raises nonfinite_statistic

  -- The comparison of the spreads, where both have one and the reference has a level.
  abbrev pub spread_check :
      F → List F → Option (List F) → Option (List F) → Attempt (List ProximityBreach)
  spread_check tolerance mids none cs = returns []
  spread_check tolerance mids (some rs) none = returns []
  spread_check tolerance mids (some []) (some cs) = returns []
  spread_check tolerance mids (some (r ∷ rs)) (some cs) =
      if num.is_positive (num.mean mids)
      then deviation_check tolerance (deviation mids cs (r ∷ rs))
      else returns []

  -- The KS statistic of the log returns.
  abbrev pub return_ks : List F → List F → F
  return_ks cs rs = num.ks_2samp (num.log_returns cs) (num.log_returns rs)

  unfoldable pub distribution_check : F → F → Attempt (List ProximityBreach)
  distribution_check ceiling ks =
      if num.is_finite ks
      then returns (if num.less ceiling ks then return_distribution ∷ [] else [])
      else raises nonfinite_statistic

  unfoldable pub compare_series :
      F → F → List Event → List Event → List F → List F → Attempt (List ProximityBreach)
  compare_series ceiling tolerance cs rs cand_mid ref_mid = do
    ks ← distribution_check ceiling (return_ks cand_mid ref_mid)
    rspr ← spread_series rs
    cspr ← spread_series cs
    dev ← spread_check tolerance ref_mid rspr cspr
    returns (ks ++ dev)

  -- The guards on the two series; the candidate's is looked at first.
  unfoldable pub guarded :
      List F → List F → Attempt (List ProximityBreach) → Attempt (List ProximityBreach)
  guarded cand_mid ref_mid rest =
      if ltb (length ref_mid) 10 || ltb (length cand_mid) 10
      then returns (insufficient_prices (length cand_mid) (length ref_mid) ∷ [])
      else (if is_price_series cand_mid
          then (if is_price_series ref_mid then rest else raises reference_incomplete)
          else returns (bad_prices ∷ []))

  -- `check_tier_b`, the candidate first.
  unfoldable pub check_tier_b : F → F → List Event → List Event → Attempt (List ProximityBreach)
  check_tier_b ceiling tolerance cs rs = do
    ref_mid ← mid_price_series rs
    cand_mid ← mid_price_series cs
    guarded cand_mid ref_mid (compare_series ceiling tolerance cs rs cand_mid ref_mid)

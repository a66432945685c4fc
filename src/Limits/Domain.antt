-- ===== src/Limits/Domain.antt =====
-- qfbench2_track_simulation/domain.py: how wide the units of a roster are, and the ceiling that a
-- plan must allow.
use track3_simulation_public.Common.{
  ℕ, ◌*◌, ◌^◌, Bool, not, List, [], ◌∷◌, length, ltb, if◌then◌else◌,
}
use track3_simulation_public.Common.Result.{Result, error, ok, ◌>>=◌, check, Text}

-- The exceptions of reading a document.
pub data Failure : Type 0 where
  value_error os_error type_error key_error : Failure

-- `batch.json` of a unit: not there, not readable, not JSON, not an object, without a list of "subs",
-- or with one; each entry has its "sub".
pub data BatchDocument : Type 0 where
  no_batch unreadable malformed not_an_object no_subs bad_subs : BatchDocument
  subs_of : List Text → BatchDocument

-- `MAX_PER_MARKET_EVENTS_PER_SEC`
abbrev pub max_per_market : ℕ
max_per_market = 10 ^ 7

abbrev pub maximum : ℕ → ℕ → ℕ
maximum m n = if ltb m n then n else m

unfoldable pub batch_width : BatchDocument → Result Failure ℕ
batch_width no_batch = ok 1
batch_width unreadable = error os_error
batch_width malformed = error value_error
batch_width not_an_object = error value_error
batch_width no_subs = error value_error
batch_width bad_subs = error value_error
batch_width (subs_of []) = error value_error
batch_width (subs_of (s ∷ ss)) = ok (length (s ∷ ss))

-- The reference root is the document of each handle.
module _ (root : Text → BatchDocument) where
  -- The loop of `_widest_batch`, from the widest so far.
  unfoldable pub widest_from : ℕ → List Text → Result Failure ℕ
  widest_from widest [] = ok widest
  widest_from widest (h ∷ hs) = do
    width ← batch_width (root h)
    widest_from (maximum widest width) hs

  abbrev pub widest_batch : List Text → Result Failure ℕ
  widest_batch hs = widest_from 1 hs

  -- The product is an integer that a float holds exactly below 2 ^ 53.
  unfoldable pub required_domain_max : List Text → Result Failure ℕ
  required_domain_max hs = do width ← widest_batch hs; ok (max_per_market * width)

  -- `below` compares the ceiling of the plan, a float, with an integer.
  unfoldable pub assert_domain_max_covers_roster :
      {F : Type 0} → (F → ℕ → Bool) → F → List Text → Result Failure (Unit {0})
  assert_domain_max_covers_roster below domain_max hs = do
    required ← required_domain_max hs
    check (not (below domain_max required)) value_error

-- ===== src/Limits/Host.antt =====
-- qfbench2_track_simulation/host_metrics.py: the local measurements of a developer's run, which never
-- rank.
use track3_simulation_public.Common.{
  ℕ, ◌≡◌, refl, ◌↔◌, inl, inr, Bool, true, false, Option, none, some, List, [], ◌∷◌, if◌then◌else◌,
  arith, Bool-cases,
}
use track3_simulation_public.Common.Int.{ℤ}
use track3_simulation_public.Common.Result.{Result, error, ok, Text, eq_text}
use track3_simulation_public.Common.Json.{Json, number_of}
use track3_simulation_public.Limits.Domain.{maximum}

-- What the map has for a unit: a value that is not an object, or the three fields that are read, a
-- field that is not there being null.
pub data HostEntry (F : Type 0) : Type 0 where
  not_a_dict : HostEntry F
  fields : (host_events_per_sec host_n_events host_wall_clock_sec : Json F) → HostEntry F

abbrev pub HostMap : Type 0 → Type 0
HostMap F = List (Text × HostEntry F)

-- `host_metrics.json`
pub data HostFile (F : Type 0) : Type 0 where
  no_file broken_file not_a_map : HostFile F
  host_map : HostMap F → HostFile F

pub data HostFault : Type 0 where
  corrupt_handoff : HostFault

pub data Source : Type 0 where
  host_measured self_reported : Source

-- `load`
unfoldable pub load : {F : Type 0} → HostFile F → Result HostFault (Option (HostMap F))
load no_file = ok none
load broken_file = error corrupt_handoff
load not_a_map = error corrupt_handoff
load (host_map m) = ok (some m)

-- `(host_map or {}).get(unit)`
unfoldable pub entry_of : {F : Type 0} → Text → HostMap F → Option (HostEntry F)
entry_of unit [] = none
entry_of unit ((name, e) ∷ m) = if eq_text unit name then some e else entry_of unit m

abbrev pub get_entry : {F : Type 0} → Text → Option (HostMap F) → Option (HostEntry F)
get_entry unit none = none
get_entry unit (some m) = entry_of unit m

-- `of_integer` is the conversion of an integer, and `per_market` the ceiling of one market times an
-- integer.
module _ {F : Type 0} (of_integer : ℤ → F) (is_positive : F → Bool) (divide : F → F → F) where
  -- A number above 0.
  abbrev pub positive_or_none : Option F → Option F
  positive_or_none none = none
  positive_or_none (some x) = if is_positive x then some x else none

  abbrev pub quotient_of : Option F → Option F → Option F
  quotient_of none wall = none
  quotient_of (some n) none = none
  quotient_of (some n) (some wall) = some (divide n wall)

  abbrev pub positive_number : Json F → Option F
  positive_number v = positive_or_none (number_of of_integer v)

  abbrev pub direct_or : Option F → Option F → Option F
  direct_or (some rate) later = some rate
  direct_or none later = later

  unfoldable pub entry_events_per_sec : Option (HostEntry F) → Option F
  entry_events_per_sec none = none
  entry_events_per_sec (some not_a_dict) = none
  entry_events_per_sec (some (fields direct n wall)) =
      direct_or (positive_number direct) (quotient_of (positive_number n) (positive_number wall))

  abbrev pub with_source : F → Option F → F × Source
  with_source reported none = (reported, self_reported)
  with_source reported (some measured) = (measured, host_measured)

  unfoldable pub developer_events_per_sec : Option (HostMap F) → Text → F → F × Source
  developer_events_per_sec hosts unit reported =
      with_source reported (entry_events_per_sec (get_entry unit hosts))

  -- Whether a rate that was not measured is refused.
  abbrev pub refuses : (F → F → Bool) → (ℕ → F) → F → ℕ → Option F → Bool
  refuses at_most per_market reported n_markets (some measured) = false
  refuses at_most per_market reported n_markets none =
      if at_most reported (per_market (maximum 1 n_markets)) then false else true

  -- `implausible_self_report`, whether there is a message.
  unfoldable pub implausible_self_report :
      (F → F → Bool) → (ℕ → F) → Option (HostMap F) → Text → F → ℕ → Bool
  implausible_self_report at_most per_market hosts unit reported n_markets =
      refuses at_most per_market reported n_markets (entry_events_per_sec (get_entry unit hosts))

  refuses-Source :
      (at_most : F → F → Bool) (per_market : ℕ → F) (reported : F) (n : ℕ) (measured : Option F)
      → (refuses at_most per_market reported n measured ≡ true) ↔ (
          ((with_source reported measured).1 ≡ self_reported)
          × (at_most reported (per_market (maximum 1 n)) ≡ false))
  refuses-Source at_most per_market reported n (some m) = (λ h. cc, λ h. cc)
  refuses-Source at_most per_market reported n none =
      elim (Bool-cases (at_most reported (per_market (maximum 1 n)))) [
        | inl fits ↦ (λ h. absurd (ground (arith, fits, h)), λ h. cc)
        | inr exceeds ↦ (λ h. (refl, exceeds), λ h. rw exceeds refl)
      ]

  -- A self-report is refused exactly if it is the rate that the developer's score would take and it is
  -- not at most the ceiling of one market times the number of markets, counted as one if it is 0.
  pub implausible_self_report_iff :
      (at_most : F → F → Bool) (per_market : ℕ → F) (hosts : Option (HostMap F)) (unit : Text)
      (reported : F) (n : ℕ)
      → (implausible_self_report at_most per_market hosts unit reported n ≡ true) ↔ (
          ((developer_events_per_sec hosts unit reported).1 ≡ self_reported)
          × (at_most reported (per_market (maximum 1 n)) ≡ false))
  unfolding implausible_self_report developer_events_per_sec
  implausible_self_report_iff at_most per_market hosts unit reported n =
      refuses-Source at_most per_market reported n (entry_events_per_sec (get_entry unit hosts))

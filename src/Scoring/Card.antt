-- ===== src/Scoring/Card.antt =====
-- What the organizer's card says of a unit: `_CardPolicy` and `cluster_key` of
-- qfbench2_track_simulation/scoring.py.
use track3_simulation_public.Common.{
  ℕ, Bool, not, Option, none, some, List, [], ◌∷◌, ◌++◌, ◌==◌, if◌then◌else◌,
}
use track3_simulation_public.Common.Int.{ℤ, pos}
use track3_simulation_public.Common.Result.{Text, eq_text}
use track3_simulation_public.Common.Json.{Json, null, boolean, integer, real, text, array, object}
use track3_simulation_public.Semantics.Regression.{Settings}
use track3_simulation_public.Semantics.Attempt.{other_error}
use track3_simulation_public.Scoring.Files.{
  File, not_there, broken, contents, Outcome, passed, raising, Parameters, Card,
}

-- "matching-engine-semantics"
abbrev pub matching_engine_semantics : Text
matching_engine_semantics =
    109 ∷ 97 ∷ 116 ∷ 99 ∷ 104 ∷ 105 ∷ 110 ∷ 103 ∷ 45 ∷ 101 ∷ 110 ∷ 103 ∷ 105 ∷ 110 ∷ 101 ∷ 45 ∷ 115
    ∷ 101 ∷ 109 ∷ 97 ∷ 110 ∷ 116 ∷ 105 ∷ 99 ∷ 115 ∷ []

-- "agent-mix"
abbrev pub agent_mix : Text
agent_mix = 97 ∷ 103 ∷ 101 ∷ 110 ∷ 116 ∷ 45 ∷ 109 ∷ 105 ∷ 120 ∷ []

-- "latency-profile"
abbrev pub latency_profile : Text
latency_profile =
    108 ∷ 97 ∷ 116 ∷ 101 ∷ 110 ∷ 99 ∷ 121 ∷ 45 ∷ 112 ∷ 114 ∷ 111 ∷ 102 ∷ 105 ∷ 108 ∷ 101 ∷ []

-- "oracle-noise"
abbrev pub oracle_noise : Text
oracle_noise = 111 ∷ 114 ∷ 97 ∷ 99 ∷ 108 ∷ 101 ∷ 45 ∷ 110 ∷ 111 ∷ 105 ∷ 115 ∷ 101 ∷ []

-- "calibration-stylized-facts"
abbrev pub calibration_stylized_facts : Text
calibration_stylized_facts =
    99 ∷ 97 ∷ 108 ∷ 105 ∷ 98 ∷ 114 ∷ 97 ∷ 116 ∷ 105 ∷ 111 ∷ 110 ∷ 45 ∷ 115 ∷ 116 ∷ 121 ∷ 108 ∷ 105
    ∷ 122 ∷ 101 ∷ 100 ∷ 45 ∷ 102 ∷ 97 ∷ 99 ∷ 116 ∷ 115 ∷ []

-- "throughput-scale"
abbrev pub throughput_scale : Text
throughput_scale =
    116 ∷ 104 ∷ 114 ∷ 111 ∷ 117 ∷ 103 ∷ 104 ∷ 112 ∷ 117 ∷ 116 ∷ 45 ∷ 115 ∷ 99 ∷ 97 ∷ 108 ∷ 101 ∷ []

-- "exchange-protocol"
abbrev pub exchange_protocol : Text
exchange_protocol =
    101 ∷ 120 ∷ 99 ∷ 104 ∷ 97 ∷ 110 ∷ 103 ∷ 101 ∷ 45 ∷ 112 ∷ 114 ∷ 111 ∷ 116 ∷ 111 ∷ 99 ∷ 111 ∷ 108
    ∷ []

-- "reactive-agent"
abbrev pub reactive_agent : Text
reactive_agent = 114 ∷ 101 ∷ 97 ∷ 99 ∷ 116 ∷ 105 ∷ 118 ∷ 101 ∷ 45 ∷ 97 ∷ 103 ∷ 101 ∷ 110 ∷ 116 ∷ []

-- "ks"
abbrev pub ks_key : Text
ks_key = 107 ∷ 115 ∷ []

-- "acf_abs_l2"
abbrev pub acf_key : Text
acf_key = 97 ∷ 99 ∷ 102 ∷ 95 ∷ 97 ∷ 98 ∷ 115 ∷ 95 ∷ 108 ∷ 50 ∷ []

-- "hill_abs"
abbrev pub hill_key : Text
hill_key = 104 ∷ 105 ∷ 108 ∷ 108 ∷ 95 ∷ 97 ∷ 98 ∷ 115 ∷ []

-- "depth_js"
abbrev pub depth_key : Text
depth_key = 100 ∷ 101 ∷ 112 ∷ 116 ∷ 104 ∷ 95 ∷ 106 ∷ 115 ∷ []

-- `dict.get` on a list of items, the first of which counts.
unfoldable pub lookup {ℓ} : {A : Type ℓ} → Text → List (Text × A) → Option A
lookup k [] = none
lookup k ((name, a) ∷ items) = if eq_text k name then some a else lookup k items

-- `_FAMILY_NUM`
abbrev pub family_numbers : List (Text × ℕ)
family_numbers =
    (matching_engine_semantics, 1)
    ∷ (agent_mix, 2)
    ∷ (latency_profile, 3)
    ∷ (oracle_noise, 4)
    ∷ (calibration_stylized_facts, 5)
    ∷ (throughput_scale, 6)
    ∷ (exchange_protocol, 7)
    ∷ (reactive_agent, 8)
    ∷ []

abbrev pub value_or {ℓ} : {A : Type ℓ} → A → Option A → A
value_or d none = d
value_or d (some a) = a

unfoldable pub family_number : Option Text → ℕ
family_number family = value_or 0 (lookup (value_or [] family) family_numbers)

-- The policy of a unit.
pub record Policy (F : Type 0) : Type 0 where
  pub family : ℕ
  pub tier : Option Text
  pub ceilings : List (Text × F)
  pub timestamp_tolerance : ℤ
  pub kendall_tau_floor : F
  pub spread_tolerance : F
  pub requires_message_ledger : Bool

-- A declared Boolean counts; else the families of `_LEDGER_OPTIONAL_FAMILIES` need no ledger.
abbrev pub ledger_required : {F : Type 0} → ℕ → Option (Json F) → Bool
ledger_required family (some (boolean b)) = b
ledger_required family (some null) = not (family == 6)
ledger_required family (some (integer z)) = not (family == 6)
ledger_required family (some (real x)) = not (family == 6)
ledger_required family (some (text t)) = not (family == 6)
ledger_required family (some (array c)) = not (family == 6)
ledger_required family (some (object c)) = not (family == 6)
ledger_required family none = not (family == 6)

-- No card is as an empty one.
abbrev pub empty_parameters : {F : Type 0} → Parameters F
empty_parameters = record {
  semantic_tier = none;
  stylized_fact_ceilings = [];
  timestamp_tolerance_ns = none;
  kendall_tau_floor = none;
  spread_bps_tolerance = none;
  requires_message_ledger = none;
}

-- `cluster_key`: a family that is a text and not empty.
abbrev pub some_family : Option Text → Option Text
some_family none = none
some_family (some []) = none
some_family (some (c ∷ cs)) = some (c ∷ cs)

unfoldable pub cluster_key : {F : Type 0} → File (Card F) → Option Text
cluster_key not_there = none
cluster_key broken = none
cluster_key (contents c) = some_family c.scenario_family

-- `decimal n k` is the float literal n / 10 ^ k.
module _ {F : Type 0} (decimal : ℕ → ℕ → F) where
  -- `_DEFAULT_CEILINGS`
  abbrev pub default_ceilings : List (Text × F)
  default_ceilings =
      (ks_key, decimal 8 2)
      ∷ (acf_key, decimal 12 2)
      ∷ (hill_key, decimal 15 1)
      ∷ (depth_key, decimal 10 2)
      ∷ []

  unfoldable pub policy_of : Option Text → Parameters F → Policy F
  policy_of family p = record {
    family = family_number family;
    tier = p.semantic_tier;
    ceilings = p.stylized_fact_ceilings ++ default_ceilings;
    timestamp_tolerance = value_or (pos 1000) p.timestamp_tolerance_ns;
    kendall_tau_floor = value_or (decimal 999 3) p.kendall_tau_floor;
    spread_tolerance = value_or (decimal 100 1) p.spread_bps_tolerance;
    requires_message_ledger = ledger_required (family_number family) p.requires_message_ledger;
  }

  abbrev pub policy_or_raise : Option Text → Option (Parameters F) → Outcome (Policy F)
  policy_or_raise family none = raising other_error
  policy_or_raise family (some p) = passed (policy_of family p)

  -- `_card_policy`
  unfoldable pub card_policy : File (Card F) → Outcome (Policy F)
  card_policy not_there = passed (policy_of none empty_parameters)
  card_policy broken = raising other_error
  card_policy (contents c) = policy_or_raise c.scenario_family c.parameters

-- The settings of the semantic regression.
abbrev pub settings_of : {F : Type 0} → Policy F → Settings F
settings_of p = record {
  family = p.family;
  tier = p.tier;
  ks = lookup ks_key p.ceilings;
  spread_tolerance = p.spread_tolerance;
  timestamp_tolerance = p.timestamp_tolerance;
  kendall_tau_floor = p.kendall_tau_floor;
}

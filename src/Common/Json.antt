-- ===== src/Common/Json.antt =====
-- Values of a JSON document as Python reads them; `F` is the type of floats.
use Prim.Native.Nat.{ℕ}
use mathlib.Core.Bool.{Bool}
use mathlib.Core.Option.{Option, none, some}
use track3_simulation_public.Common.Int.{ℤ}
use track3_simulation_public.Common.Result.{Text}

-- A list or an object by a code.
pub data Json (F : Type 0) : Type 0 where
  null : Json F
  boolean : Bool → Json F
  integer : ℤ → Json F
  real : F → Json F
  text : Text → Json F
  array object : ℕ → Json F

-- `isinstance(v, (int, float)) and not isinstance(v, bool)`, with the value as a float.
abbrev pub number_of : {F : Type 0} → (ℤ → F) → Json F → Option F
number_of of_integer null = none
number_of of_integer (boolean b) = none
number_of of_integer (integer z) = some (of_integer z)
number_of of_integer (real x) = some x
number_of of_integer (text t) = none
number_of of_integer (array c) = none
number_of of_integer (object c) = none

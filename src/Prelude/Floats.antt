-- ===== src/Prelude/Floats.antt =====
-- The machine's floating-point numbers, which the program only stores, converts, adds, divides
-- and tests: the types and the operations are abstract, with no law assumed of them.
use mathlib.Core.Bool.{Bool}
use falcon_instrument_hub.Prelude.Int.{ℤ}

pub record Floats : Type 1 where
  pub Float32 : Type 0
  pub Float64 : Type 0
  -- float64(x) at a float32 and at an integer of any width
  pub widen : Float32 → Float64
  pub of_int : ℤ → Float64
  pub add : Float64 → Float64 → Float64
  pub div : Float64 → Float64 → Float64
  pub is_nan : Float64 → Bool
  pub is_inf : Float64 → Bool

-- ===== src/Values/Examples.antt =====
-- The value theorems at concrete values, over the integers of the buffer examples.
use falcon_instrument_hub.Prelude.{
  ◌-◌, ◌^◌, ◌≡◌, refl, ◌≢◌, false, none, arith, comparable_nat, comparable_string, ok, err,
}
use falcon_instrument_hub.Prelude.Int.{ℤ, pos, negsuc}
use falcon_instrument_hub.Prelude.Floats.{Floats}
use falcon_instrument_hub.Values.{
  Value, Fields, Wire, WireFields, to_grpc, from_grpc, lua_type, int8, uint, uint64, mixed_map,
  m_map, i, s, overflows_int64, call_stack,
}
use falcon_instrument_hub.Values.RoundTrip.{
  to_grpc-from_grpc, from_grpc-to_grpc, normal, settled, uint_wraps,
}

abbrev integer_floats : Floats
integer_floats = record {
  Float32 = ℤ;
  Float64 = ℤ;
  widen = λ x. x;
  of_int = λ x. x;
  add = λ x y. x;
  div = λ x y. x;
  is_nan = λ x. false;
  is_inf = λ x. false;
}

abbrev settings : Value integer_floats
settings =
    mixed_map
      (Fields.field "n" (int8 (pos 4)) (Fields.field "stack" (call_stack "main") Fields.end))

abbrev settings_wire : Wire integer_floats
settings_wire =
    m_map (WireFields.field "n" (i (pos 4)) (WireFields.field "stack" (s "main") WireFields.end))

to_grpc-from_grpc_example :
    (to_grpc (from_grpc settings_wire) ≡ ok (settled settings_wire))
    × (lua_type integer_floats (from_grpc settings_wire) ≢ none)
to_grpc-from_grpc_example = to_grpc-from_grpc settings_wire

from_grpc-to_grpc_example : from_grpc settings_wire ≡ normal settings
unfolding to_grpc
from_grpc-to_grpc_example = from_grpc-to_grpc settings settings_wire refl

uint_wraps_example :
    (to_grpc {F = integer_floats} (uint (2 ^ 64 - 1)) ≡ ok (i (negsuc 0)))
    × (to_grpc {F = integer_floats} (uint64 (2 ^ 64 - 1)) ≡ err (overflows_int64 (2 ^ 64 - 1)))
uint_wraps_example = uint_wraps {F = integer_floats} (2 ^ 64 - 1) (omega arith) (omega arith)

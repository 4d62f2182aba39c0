-- ===== src/Values.antt =====
-- runtime/internal/instrumentserver/client.go: the dynamically typed values that go to the script
-- server and come back, and their wire form (the oneof of daemonv1.VariableValue).
-- A map is its entries in the order in which `range` meets them.
pub mod RoundTrip
pub mod Examples
use falcon_instrument_hub.Prelude.{
  ℕ, zero, suc, ◌+◌, ◌-◌, ◌*◌, ◌/◌, ◌%◌, ◌^◌, ◌≤◌, ◌<◌, String, ◌≡◌, refl, sym, ap, subst, fun_ext,
  ◌∙◌, ◌≢◌, ◌↔◌, ◌⊎◌, inl, inr, Bool, true, false, not, ◌&&◌, ◌||◌, Option, none, some, List, [],
  ◌∷◌, ◌++◌, map, append_assoc, append-nil, arith, ltb, leb, if◌then◌else◌, ltb→lt, leb→le,
  Bool-cases, Option-cases, Comparable, ◌==◌, comparable_nat, comparable_string, ==_iff, ==_refl,
  length, get_elem?, set, replicate, length-append, length-map, All, sum, product, Result, ok, err,
  ◌>>=◌, ◌>>◌, wrap, guard, is_ok, Result-cases,
}
use falcon_instrument_hub.Prelude.Int.{ℤ, pos, negsuc}
use falcon_instrument_hub.Prelude.Floats.{Floats}

-- What went wrong in toGrpcVariableValue.
pub data EncodeError : Type 0 where
  overflows_int64 : ℕ → EncodeError
  at_key : String → EncodeError → EncodeError
  unsupported_value : EncodeError

-- daemonv1.LuaTypes, as far as VariableValue.LuaType names them.
pub data LuaType : Type 0 where
  unspecified int64_type double_type bool_type string_type : LuaType
  data_buffer_type call_stack_type domain_type target_type : LuaType
  int64_array_type double_array_type bool_array_type string_array_type : LuaType
  data_buffer_array_type call_stack_array_type domain_array_type target_array_type : LuaType

module _ (F : Floats) where
  open F use {Float32, Float64, widen}

  mutual
    -- VariableValue: the dynamic types that the switches name, and `other` for any further one.
    pub data Value : Type 0 where
      nil : Value
      bool : Bool → Value
      int : ℤ → Value
      int8 : ℤ → Value
      int16 : ℤ → Value
      int32 : ℤ → Value
      int64 : ℤ → Value
      uint : ℕ → Value
      uint8 : ℕ → Value
      uint16 : ℕ → Value
      uint32 : ℕ → Value
      uint64 : ℕ → Value
      float32 : Float32 → Value
      float64 : Float64 → Value
      string : String → Value
      data_buffer : String → Value
      call_stack : String → Value
      instrument_target : String → Value
      instrument_domain : String → Value
      int64_array : List ℤ → Value
      double_array : List Float64 → Value
      bool_array : List Bool → Value
      string_array : List String → Value
      data_buffer_array : List String → Value
      call_stack_array : List String → Value
      instrument_target_array : List String → Value
      instrument_domain_array : List String → Value
      mixed_map : Fields → Value
      other : Value

    pub data Fields : Type 0 where
      end : Fields
      field : String → Value → Fields → Fields

  mutual
    -- The variants of the oneof of a value in which it is set; IsNil carries a bool.
    pub data Wire : Type 0 where
      is_nil : Bool → Wire
      b : Bool → Wire
      i : ℤ → Wire
      d : Float64 → Wire
      s : String → Wire
      i_array : List ℤ → Wire
      d_array : List Float64 → Wire
      b_array : List Bool → Wire
      s_array : List String → Wire
      db_array : List String → Wire
      cs_array : List String → Wire
      t_array : List String → Wire
      dn_array : List String → Wire
      m_map : WireFields → Wire

    pub data WireFields : Type 0 where
      end : WireFields
      field : String → Wire → WireFields → WireFields

  -- `LuaType`; `none` is the panic of the default case.
  unfoldable pub lua_type : Value → Option LuaType
  lua_type nil = some unspecified
  lua_type (int64 n) = some int64_type
  lua_type (float64 x) = some double_type
  lua_type (bool v) = some bool_type
  lua_type (string v) = some string_type
  lua_type (data_buffer v) = some data_buffer_type
  lua_type (call_stack v) = some call_stack_type
  lua_type (instrument_domain v) = some domain_type
  lua_type (instrument_target v) = some target_type
  lua_type (int64_array v) = some int64_array_type
  lua_type (double_array v) = some double_array_type
  lua_type (bool_array v) = some bool_array_type
  lua_type (string_array v) = some string_array_type
  lua_type (data_buffer_array v) = some data_buffer_array_type
  lua_type (call_stack_array v) = some call_stack_array_type
  lua_type (instrument_domain_array v) = some domain_array_type
  lua_type (instrument_target_array v) = some target_array_type
  lua_type (mixed_map v) = some unspecified
  lua_type _ = none

-- int64(x) at a 64-bit unsigned x: the bit pattern is kept.
unfoldable pub int64_of_uint : ℕ → ℤ
int64_of_uint n = if ltb n (2 ^ 63) then pos n else negsuc (2 ^ 64 - n - 1)

module _ {F : Floats} where
  unfoldable mutual
    unfolding int64_of_uint

    pub to_grpc : Value F → Result EncodeError (Wire F)
    to_grpc nil = ok (is_nil true)
    to_grpc (bool v) = ok (b v)
    to_grpc (int v) = ok (i v)
    to_grpc (int8 v) = ok (i v)
    to_grpc (int16 v) = ok (i v)
    to_grpc (int32 v) = ok (i v)
    to_grpc (int64 v) = ok (i v)
    to_grpc (uint v) = ok (i (int64_of_uint v))
    to_grpc (uint8 v) = ok (i (pos v))
    to_grpc (uint16 v) = ok (i (pos v))
    to_grpc (uint32 v) = ok (i (pos v))
    to_grpc (uint64 v) =
        if ltb (2 ^ 63 - 1) v then err (overflows_int64 v) else ok (i (int64_of_uint v))
    to_grpc (float32 v) = ok (d (F.widen v))
    to_grpc (float64 v) = ok (d v)
    to_grpc (string v) = ok (s v)
    to_grpc (call_stack v) = ok (s v)
    to_grpc (instrument_domain v) = ok (s v)
    to_grpc (instrument_target v) = ok (s v)
    to_grpc (int64_array v) = ok (i_array v)
    to_grpc (double_array v) = ok (d_array v)
    to_grpc (string_array v) = ok (s_array v)
    to_grpc (bool_array v) = ok (b_array v)
    to_grpc (data_buffer_array v) = ok (db_array v)
    to_grpc (call_stack_array v) = ok (cs_array v)
    to_grpc (instrument_target_array v) = ok (t_array v)
    to_grpc (instrument_domain_array v) = ok (dn_array v)
    to_grpc (mixed_map v) = to_grpc_fields v >>= λ w. ok (m_map w)
    to_grpc (data_buffer v) = err unsupported_value
    to_grpc other = err unsupported_value

    -- The loop over a MixedMap stops at the first entry that fails.
    pub to_grpc_fields : Fields F → Result EncodeError (WireFields F)
    to_grpc_fields end = ok end
    to_grpc_fields (field k v r) =
        wrap (at_key k) (to_grpc v) >>= λ w. (to_grpc_fields r >>= λ ws. ok (field k w ws))

  unfoldable mutual
    -- fromGrpcVariableValue at a value whose oneof is set.
    pub from_grpc : Wire F → Value F
    from_grpc (is_nil v) = nil
    from_grpc (b v) = bool v
    from_grpc (i v) = int64 v
    from_grpc (d v) = float64 v
    from_grpc (s v) = string v
    from_grpc (i_array v) = int64_array v
    from_grpc (d_array v) = double_array v
    from_grpc (b_array v) = bool_array v
    from_grpc (s_array v) = string_array v
    from_grpc (db_array v) = data_buffer_array v
    from_grpc (cs_array v) = call_stack_array v
    from_grpc (t_array v) = instrument_target_array v
    from_grpc (dn_array v) = instrument_domain_array v
    from_grpc (m_map v) = mixed_map (from_grpc_fields v)

    pub from_grpc_fields : WireFields F → Fields F
    from_grpc_fields end = end
    from_grpc_fields (field k v r) = field k (from_grpc v) (from_grpc_fields r)

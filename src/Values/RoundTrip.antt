-- ===== src/Values/RoundTrip.antt =====
-- Encoding and decoding of values are inverse, as far as the wire form keeps the type.
use falcon_instrument_hub.Prelude.{
  ℕ, ◌-◌, ◌^◌, ◌≤◌, ◌<◌, String, ◌≡◌, refl, ap, ◌≢◌, true, none, arith, ltb, if◌then◌else◌,
  comparable_nat, comparable_string, Result, ok, err, ◌>>=◌, wrap,
}
use falcon_instrument_hub.Prelude.Int.{pos, negsuc}
use falcon_instrument_hub.Prelude.Floats.{Floats}
use mathlib.Core.Path.{ap₂}
use falcon_instrument_hub.Values.{
  at_key, Value, Fields, Wire, WireFields, EncodeError, to_grpc, to_grpc_fields, from_grpc,
  from_grpc_fields, lua_type, int64_of_uint, nil, bool, int, int8, int16, int32, int64, uint, uint8,
  uint16, uint32, uint64, float32, float64, string, data_buffer, call_stack, instrument_target,
  instrument_domain, int64_array, double_array, bool_array, string_array, data_buffer_array,
  call_stack_array, instrument_target_array, instrument_domain_array, mixed_map, other, is_nil, b,
  i, d, s, i_array, d_array, b_array, s_array, db_array, cs_array, t_array, dn_array, m_map,
  overflows_int64,
}

module _ {F : Floats} where
  -- The wire form with IsNil set to true wherever it is there.
  unfoldable mutual
    pub settled : Wire F → Wire F
    settled (is_nil v) = is_nil true
    settled (m_map v) = m_map (settled_fields v)
    settled w = w

    pub settled_fields : WireFields F → WireFields F
    settled_fields WireFields.end = WireFields.end
    settled_fields (WireFields.field k w r) = WireFields.field k (settled w) (settled_fields r)

  mutual
    unfolding to_grpc to_grpc_fields from_grpc from_grpc_fields settled settled_fields

    decode_encode : (w : Wire F) → to_grpc (from_grpc w) ≡ ok (settled w)
    decode_encode (is_nil v) = refl
    decode_encode (b v) = refl
    decode_encode (i v) = refl
    decode_encode (d v) = refl
    decode_encode (s v) = refl
    decode_encode (i_array v) = refl
    decode_encode (d_array v) = refl
    decode_encode (b_array v) = refl
    decode_encode (s_array v) = refl
    decode_encode (db_array v) = refl
    decode_encode (cs_array v) = refl
    decode_encode (t_array v) = refl
    decode_encode (dn_array v) = refl
    decode_encode (m_map v) = rw (decode_encode_fields v)

    decode_encode_fields :
        (ws : WireFields F) → to_grpc_fields (from_grpc_fields ws) ≡ ok (settled_fields ws)
    decode_encode_fields WireFields.end = refl
    decode_encode_fields (WireFields.field k w ws) = rw (decode_encode w, decode_encode_fields ws)

  -- Every value that came from the script server in a oneof that is set can be sent back, and
  -- arrives there as the wire value that it came from, except that an IsNil becomes true; LuaType
  -- does not panic on it, since its type is known.
  pub to_grpc-from_grpc :
      (w : Wire F) → (to_grpc (from_grpc w) ≡ ok (settled w)) × (lua_type F (from_grpc w) ≢ none)
  unfolding from_grpc lua_type
  to_grpc-from_grpc w = (decode_encode w, known w)
    where
      known : (w : Wire F) → lua_type F (from_grpc w) ≢ none
      known (is_nil v) = λ h. cc
      known (b v) = λ h. cc
      known (i v) = λ h. cc
      known (d v) = λ h. cc
      known (s v) = λ h. cc
      known (i_array v) = λ h. cc
      known (d_array v) = λ h. cc
      known (b_array v) = λ h. cc
      known (s_array v) = λ h. cc
      known (db_array v) = λ h. cc
      known (cs_array v) = λ h. cc
      known (t_array v) = λ h. cc
      known (dn_array v) = λ h. cc
      known (m_map v) = λ h. cc

  -- What is left of a value's type once it has been through the server: integers of every width
  -- are int64, floats float64, and a single named string plain text.
  unfoldable mutual
    pub normal : Value F → Value F
    normal (int v) = int64 v
    normal (int8 v) = int64 v
    normal (int16 v) = int64 v
    normal (int32 v) = int64 v
    normal (uint v) = int64 (int64_of_uint v)
    normal (uint8 v) = int64 (pos v)
    normal (uint16 v) = int64 (pos v)
    normal (uint32 v) = int64 (pos v)
    normal (uint64 v) = int64 (pos v)
    normal (float32 v) = float64 (F.widen v)
    normal (call_stack v) = string v
    normal (instrument_domain v) = string v
    normal (instrument_target v) = string v
    normal (mixed_map v) = mixed_map (normal_fields v)
    normal v = v

    pub normal_fields : Fields F → Fields F
    normal_fields Fields.end = Fields.end
    normal_fields (Fields.field k v r) = Fields.field k (normal v) (normal_fields r)

  same :
      (w' w : Wire F)
      → ◌≡◌ {A = Result EncodeError (Wire F)} (ok w') (ok w)
      → from_grpc w ≡ from_grpc w'
  same w' w h = cc

  same_fields :
      (w' w : WireFields F)
      → ◌≡◌ {A = Result EncodeError (WireFields F)} (ok w') (ok w)
      → from_grpc_fields w ≡ from_grpc_fields w'
  same_fields w' w h = cc

  -- Inversion of the two binds of a MixedMap's loop.
  fields_ok :
      (k : String) (rw' : Result EncodeError (Wire F)) (rs : Result EncodeError (WireFields F))
      (ws : WireFields F)
      → (wrap (at_key k) rw' >>= λ w. (rs >>= λ ws. ok (WireFields.field k w ws))) ≡ ok ws
      → (w : Wire F) × (vs : WireFields F) × (rw' ≡ ok w)
        × (rs ≡ ok vs)
        × (ws ≡ WireFields.field k w vs)
  fields_ok k (ok w) (ok vs) ws h = (w, vs, refl, refl, cc)
  fields_ok k (ok w) (err e) ws h = cc
  fields_ok k (err e) rs ws h = cc

  map_ok :
      (rs : Result EncodeError (WireFields F)) (w : Wire F)
      → (rs >>= λ vs. ok (m_map vs)) ≡ ok w
      → (vs : WireFields F) × (rs ≡ ok vs) × (w ≡ m_map vs)
  map_ok (ok vs) w h = (vs, refl, cc)
  map_ok (err e) w h = cc

  uint64_ok :
      (n : ℕ) (w : Wire F)
      → (if ltb (2 ^ 63 - 1) n then err (overflows_int64 n) else ok (i (int64_of_uint n))) ≡ ok w
      → w ≡ i (pos n)
  unfolding int64_of_uint
  uint64_ok n w h = ground arith

  mutual
    unfolding to_grpc to_grpc_fields from_grpc from_grpc_fields normal normal_fields

    encode_decode : (v : Value F) (w : Wire F) → to_grpc v ≡ ok w → from_grpc w ≡ normal v
    encode_decode nil w h = same (is_nil true) w h
    encode_decode (bool v) w h = same (b v) w h
    encode_decode (int v) w h = same (i v) w h
    encode_decode (int8 v) w h = same (i v) w h
    encode_decode (int16 v) w h = same (i v) w h
    encode_decode (int32 v) w h = same (i v) w h
    encode_decode (int64 v) w h = same (i v) w h
    encode_decode (uint v) w h = same (i (int64_of_uint v)) w h
    encode_decode (uint8 v) w h = same (i (pos v)) w h
    encode_decode (uint16 v) w h = same (i (pos v)) w h
    encode_decode (uint32 v) w h = same (i (pos v)) w h
    encode_decode (float32 v) w h = same (d (F.widen v)) w h
    encode_decode (float64 v) w h = same (d v) w h
    encode_decode (string v) w h = same (s v) w h
    encode_decode (call_stack v) w h = same (s v) w h
    encode_decode (instrument_target v) w h = same (s v) w h
    encode_decode (instrument_domain v) w h = same (s v) w h
    encode_decode (int64_array v) w h = same (i_array v) w h
    encode_decode (double_array v) w h = same (d_array v) w h
    encode_decode (bool_array v) w h = same (b_array v) w h
    encode_decode (string_array v) w h = same (s_array v) w h
    encode_decode (data_buffer_array v) w h = same (db_array v) w h
    encode_decode (call_stack_array v) w h = same (cs_array v) w h
    encode_decode (instrument_target_array v) w h = same (t_array v) w h
    encode_decode (instrument_domain_array v) w h = same (dn_array v) w h
    encode_decode (uint64 v) w h = rw (uint64_ok v w h)
    encode_decode (mixed_map v) w h =
        let (vs, e, q) = map_ok (to_grpc_fields v) w h in
        rw q (ap mixed_map (encode_decode_fields v vs e))
    encode_decode (data_buffer v) w h = cc
    encode_decode other w h = cc

    encode_decode_fields :
        (v : Fields F) (w : WireFields F)
        → to_grpc_fields v ≡ ok w
        → from_grpc_fields w ≡ normal_fields v
    encode_decode_fields Fields.end w h = same_fields WireFields.end w h
    encode_decode_fields (Fields.field k v r) ws h =
        let (w, vs, e, f, q) = fields_ok k (to_grpc v) (to_grpc_fields r) ws h in
        rw q (ap₂ (Fields.field k) (encode_decode v w e) (encode_decode_fields r vs f))

  -- A value that can be encoded comes back as its normal form.
  pub from_grpc-to_grpc : (v : Value F) (w : Wire F) → to_grpc v ≡ ok w → from_grpc w ≡ normal v
  from_grpc-to_grpc v w h = encode_decode v w h

  -- A uint of 2 ^ 63 or more is encoded as a negative number, where the same uint64 is refused.
  pub uint_wraps :
      (n : ℕ)
      → 2 ^ 63 ≤ n
      → n < 2 ^ 64
      → (to_grpc {F = F} (uint n) ≡ ok (i (negsuc (2 ^ 64 - n - 1))))
        × (to_grpc {F = F} (uint64 n) ≡ err (overflows_int64 n))
  unfolding to_grpc
  uint_wraps n h k = (ground arith, ground arith)

-- ===== src/Jobs/Panics.antt =====
-- runtime/internal/instrumentserver/client.go, buildMeasureJobRequest: when LuaType panics.
use falcon_instrument_hub.Prelude.{
  ◌^◌, ◌<◌, ◌≡◌, ◌⊎◌, none, some, List, [], ◌∷◌, comparable_nat, comparable_string, ok, err,
}
use falcon_instrument_hub.Prelude.Floats.{Floats}
use falcon_instrument_hub.Values.{Value, Wire, EncodeError, LuaType, to_grpc, lua_type}
use falcon_instrument_hub.Jobs.{MeasureVariable}
use falcon_instrument_hub.Jobs.Requests.{Sendable}

module _ {F : Floats} where
  -- A number of a Go type that the wire form does not keep: an int of another width than 64 bits, an
  -- unsigned one that an int64 holds, or a float32. A uint is encoded whether an int64 holds it or
  -- not.
  pub IsNarrow : Value F → Type 0
  IsNarrow (Value.int v) = Unit
  IsNarrow (Value.int8 v) = Unit
  IsNarrow (Value.int16 v) = Unit
  IsNarrow (Value.int32 v) = Unit
  IsNarrow (Value.uint v) = Unit
  IsNarrow (Value.uint8 v) = Unit
  IsNarrow (Value.uint16 v) = Unit
  IsNarrow (Value.uint32 v) = Unit
  IsNarrow (Value.float32 v) = Unit
  IsNarrow (Value.uint64 v) = v < 2 ^ 63
  IsNarrow _ = ⊥

  -- The variables up to one that is narrow are sent.
  pub MeetsNarrow : List (MeasureVariable F) → Type 0
  unfolding IsNarrow
  MeetsNarrow [] = ⊥
  MeetsNarrow (v ∷ vs) = IsNarrow v.value ⊎ (Sendable v × MeetsNarrow vs)

  -- A value is encoded without a type, encoded with one, or refused.
  Cases : Value F → Type 0
  Cases v =
      (IsNarrow v × (w : Wire F) × (to_grpc v ≡ ok w) × (lua_type F v ≡ none))
      ⊎ ((¬ IsNarrow v
            × (w : Wire F) × (t : LuaType) × (to_grpc v ≡ ok w)
            × (lua_type F v ≡ some t))
          ⊎ (¬ IsNarrow v × (e : EncodeError) × (to_grpc v ≡ err e)))

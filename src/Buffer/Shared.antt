-- ===== src/Buffer/Shared.antt =====
-- What DataBufferManager uses of the shared-memory library (buffer.go and the C code behind it) and
-- of the script server: an abstract world with the calls, and the reference counts that the
-- calls keep.
use falcon_instrument_hub.Prelude.{
  ℕ, ◌+◌, ◌≡◌, ◌<◌, List, String, Result, ok, err, ◌==◌, if◌then◌else◌, comparable_string,
}
use falcon_instrument_hub.Prelude.Int.{ℤ}
use falcon_instrument_hub.Prelude.Floats.{Floats}

-- `ArrayType`: the seven named values of the uint8, and any other one.
pub data ArrayType : Type 0 where
  float32 float64 int32 int64 uint32 uint64 uint8 : ArrayType
  unsupported : ℕ → ArrayType

pub record BufferMetadata : Type 0 where
  pub buffer_id : String
  pub instrument_name : String
  pub command_id : String
  pub type : ArrayType
  pub element_count : ℕ
  pub byte_size : ℕ
  pub timestamp_ms : ℕ
  pub global_ref_count : ℕ

-- `bufferLibrary`, `bufferReleaser` and `readableBuffer` over a world that the calls change.
pub record Library (F : Floats) : Type 1 where
  pub World : Type 0
  pub Handle : Type 0
  pub Failure : Type 0
  pub get_buffer : String → World → Result Failure Handle × World
  pub get_metadata : String → World → Result Failure BufferMetadata × World
  pub release_buffer : String → World → World
  -- the script server's ReleaseBuffer
  pub server_release : String → World → Result Failure (Unit {0}) × World
  pub data_buffer_type : Handle → World → ArrayType
  pub float32_slice : Handle → World → List F.Float32
  pub float64_slice : Handle → World → List F.Float64
  pub int32_slice : Handle → World → List ℤ
  pub int64_slice : Handle → World → List ℤ
  pub uint32_slice : Handle → World → List ℤ
  pub uint64_slice : Handle → World → List ℤ
  pub uint8_slice : Handle → World → List ℤ

-- The documented effect of each call on the references that the hub holds: a successful get_buffer
-- claims one, release_buffer gives one back, and the other calls leave them alone.
pub record Counting {F : Floats} (L : Library F) : Type 1 where
  pub refs : L.World → String → ℕ
  pub get-ok :
      (k j : String) (w : L.World) (h : L.Handle)
      → (L.get_buffer k w).0 ≡ ok h
      → refs (L.get_buffer k w).1 j ≡ refs w j + (if k == j then 1 else 0)
  pub get-err :
      (k j : String) (w : L.World) (e : L.Failure)
      → (L.get_buffer k w).0 ≡ err e
      → refs (L.get_buffer k w).1 j ≡ refs w j
  pub metadata-keeps : (k j : String) (w : L.World) → refs (L.get_metadata k w).1 j ≡ refs w j
  pub server-keeps : (k j : String) (w : L.World) → refs (L.server_release k w).1 j ≡ refs w j
  pub release-drops :
      (k j : String) (w : L.World)
      → 0 < refs w k
      → refs (L.release_buffer k w) j + (if k == j then 1 else 0) ≡ refs w j

-- ===== src/Buffer.antt =====
-- runtime/internal/databuffer/buffer_management.go: the manager that claims the shared-memory
-- buffers of a measurement, hands out their contents, and gives the hub's references back.
-- One function for each method. The state is the manager's map and the library's world; the lock
-- makes each method one step. `ClaimedAt` is an argument, the clock's value. An empty Go slice
-- and a nil one are both `[]`. The C library behind buffer.go and the script server are the
-- parameter `Library`.
pub mod Shared
pub mod Ledger
pub mod Owners
pub mod Consume
pub mod Claims
pub mod Sizes
pub mod Examples
pub mod Histories
use falcon_instrument_hub.Prelude.{
  ℕ, ◌+◌, ◌%◌, ◌^◌, String, true, false, Option, none, some, List, [], ◌∷◌, map, if◌then◌else◌,
  ◌==◌, comparable_nat, comparable_string, length, Result, ok, err, ◌>>=◌,
}
use falcon_instrument_hub.Prelude.Int.{ℤ}
use falcon_instrument_hub.Prelude.Maps.{GoMap, lookup, insert, delete}
use falcon_instrument_hub.Prelude.Floats.{Floats}
use Shared.{
  Library, BufferMetadata, ArrayType, float32, float64, int32, int64, uint32, uint64, uint8,
  unsupported,
}

-- The errors that the methods return; `library` passes one of the library's on.
pub data BufferError (Failure : Type 0) : Type 0 where
  library : Failure → BufferError Failure
  not_found : String → BufferError Failure
  not_owned : String → String → BufferError Failure
  no_samples : BufferError Failure
  unsupported_type : ArrayType → BufferError Failure

pub record ManagerStats : Type 0 where
  pub buffer_count : ℕ
  pub total_bytes : ℕ

module _ {F : Floats} (L : Library F) where
  open F use {Float32, Float64, widen, of_int}
  open L use {World, Handle, Failure}

  pub record TrackedBuffer : Type 0 where
    pub requestor_id : String
    pub buffer_id : String
    pub buffer : Handle
    pub metadata : BufferMetadata
    pub claimed_at : ℕ

  -- `m.buffers` beside the world that the library's calls change.
  pub record Hub : Type 0 where
    pub buffers : GoMap String TrackedBuffer
    pub world : World

  abbrev pub new_data_buffer_manager : World → Hub
  new_data_buffer_manager w = record { buffers = []; world = w }

  pub track : String → String → ℕ → Handle → BufferMetadata → TrackedBuffer
  track requestor id now h meta = record {
    requestor_id = requestor;
    buffer_id = id;
    buffer = h;
    metadata = meta;
    claimed_at = now;
  }

  -- What `RegisterBuffer` does once get_buffer has claimed the buffer: `releaseBuffer` undoes the
  -- claim on each error path.
  register_server :
      String
      → String
      → ℕ
      → Handle
      → BufferMetadata
      → GoMap String TrackedBuffer
      → Result Failure (Unit {0}) × World
      → Result (BufferError Failure) (Unit {0}) × Hub
  unfolding track
  register_server requestor id now h meta buffers (err e, w) =
      (err (library e), record { buffers = buffers; world = L.release_buffer id w })
  register_server requestor id now h meta buffers (ok _, w) =
      (ok tt, record { buffers = insert id (track requestor id now h meta) buffers; world = w })

  register_metadata :
      String
      → String
      → ℕ
      → Handle
      → GoMap String TrackedBuffer
      → Result Failure BufferMetadata × World
      → Result (BufferError Failure) (Unit {0}) × Hub
  unfolding register_server
  register_metadata requestor id now h buffers (err e, w) =
      (err (library e), record { buffers = buffers; world = L.release_buffer id w })
  register_metadata requestor id now h buffers (ok meta, w) =
      register_server requestor id now h meta buffers (L.server_release id w)

  register_claimed :
      String
      → String
      → ℕ
      → GoMap String TrackedBuffer
      → Result Failure Handle × World
      → Result (BufferError Failure) (Unit {0}) × Hub
  unfolding register_metadata
  register_claimed requestor id now buffers (err e, w) =
      (err (library e), record { buffers = buffers; world = w })
  register_claimed requestor id now buffers (ok h, w) =
      register_metadata requestor id now h buffers (L.get_metadata id w)

  unfoldable pub register_buffer :
      String → String → ℕ → Hub → Result (BufferError Failure) (Unit {0}) × Hub
  unfolding register_claimed
  register_buffer requestor id now m =
      register_claimed requestor id now m.buffers (L.get_buffer id m.world)

  pub list_buffers : Hub → List TrackedBuffer
  list_buffers m = map (λ e. e.1) m.buffers

  owned_by : String → GoMap String TrackedBuffer → List TrackedBuffer
  owned_by requestor [] = []
  owned_by requestor ((id, b) ∷ m) =
      let rest = owned_by requestor m in if b.requestor_id == requestor then b ∷ rest else rest

  unfoldable pub buffers_for_requestor : String → Hub → List TrackedBuffer
  unfolding owned_by
  buffers_for_requestor requestor m = owned_by requestor m.buffers

  -- `total += buffer.Metadata.ByteSize` on a uint64.
  add_sizes : ℕ → GoMap String TrackedBuffer → ℕ
  add_sizes total [] = total
  add_sizes total ((id, b) ∷ m) = add_sizes ((total + b.metadata.byte_size) % 2 ^ 64) m

  unfoldable pub total_bytes : Hub → ℕ
  unfolding add_sizes
  total_bytes m = add_sizes 0 m.buffers

  unfoldable pub stats : Hub → ManagerStats
  unfolding add_sizes
  stats m = record { buffer_count = length m.buffers; total_bytes = add_sizes 0 m.buffers }

  unfoldable pub metadata : String → Hub → Option BufferMetadata
  metadata id m = elim (lookup id m.buffers) [ none ↦ none | some b ↦ some b.metadata ]

  -- `BufferContents.Data`, the slice with its dynamic type.
  pub data Samples : Type 0 where
    float32s : List Float32 → Samples
    float64s : List Float64 → Samples
    int32s : List ℤ → Samples
    int64s : List ℤ → Samples
    uint32s : List ℤ → Samples
    uint64s : List ℤ → Samples
    uint8s : List ℤ → Samples

  -- The switch over `dataBufferType()` of ReadBuffer and ConsumeSamples.
  unfoldable pub typed_slice : Handle → World → ArrayType → Result (BufferError Failure) Samples
  typed_slice h w float32 = ok (float32s (L.float32_slice h w))
  typed_slice h w float64 = ok (float64s (L.float64_slice h w))
  typed_slice h w int32 = ok (int32s (L.int32_slice h w))
  typed_slice h w int64 = ok (int64s (L.int64_slice h w))
  typed_slice h w uint32 = ok (uint32s (L.uint32_slice h w))
  typed_slice h w uint64 = ok (uint64s (L.uint64_slice h w))
  typed_slice h w uint8 = ok (uint8s (L.uint8_slice h w))
  typed_slice h w (unsupported t) = err (unsupported_type (unsupported t))

  pub record BufferContents : Type 0 where
    pub metadata : BufferMetadata
    pub samples : Samples

  read_tracked : String → World → Option TrackedBuffer → Result (BufferError Failure) BufferContents
  unfolding typed_slice
  read_tracked id w none = err (not_found id)
  read_tracked id w (some b) = do
    data' ← typed_slice b.buffer w (L.data_buffer_type b.buffer w)
    ok (record { metadata = b.metadata; samples = data' })

  unfoldable pub read_buffer : String → Hub → Result (BufferError Failure) BufferContents
  unfolding read_tracked
  read_buffer id m = read_tracked id m.world (lookup id m.buffers)

  unfoldable pub to_float64s : Samples → List Float64
  to_float64s (float32s xs) = map widen xs
  to_float64s (float64s xs) = xs
  to_float64s (int32s xs) = map of_int xs
  to_float64s (int64s xs) = map of_int xs
  to_float64s (uint32s xs) = map of_int xs
  to_float64s (uint64s xs) = map of_int xs
  to_float64s (uint8s xs) = map of_int xs

  -- Every value of a slice is converted, so the copy is empty exactly if the slice is.
  unfoldable pub copy_samples : Samples → Result (BufferError Failure) (List Float64)
  unfolding to_float64s
  copy_samples xs = elim (to_float64s xs) [ [] ↦ err no_samples | y ∷ ys ↦ ok (y ∷ ys) ]

  -- The deferred `releaseBuffer(id)` and `delete(m.buffers, id)`.
  unfoldable pub drop_buffer : String → Hub → Hub
  drop_buffer id m = record { buffers = delete id m.buffers; world = L.release_buffer id m.world }

  consume_tracked :
      String
      → String
      → Hub
      → Option TrackedBuffer
      → Result (BufferError Failure) (List Float64) × Hub
  unfolding typed_slice copy_samples drop_buffer
  consume_tracked requestor id m none = (err (not_found id), m)
  consume_tracked requestor id m (some b) =
      if b.requestor_id == requestor
      then (
        typed_slice b.buffer m.world (L.data_buffer_type b.buffer m.world) >>= copy_samples,
        drop_buffer id m,
      )
      else (err (not_owned id requestor), m)

  unfoldable pub consume_samples :
      String → String → Hub → Result (BufferError Failure) (List Float64) × Hub
  unfolding consume_tracked
  consume_samples requestor id m = consume_tracked requestor id m (lookup id m.buffers)

  -- The map entry to remove is named by the tracked buffer's own id.
  release_tracked :
      String → Hub → Option TrackedBuffer → Result (BufferError Failure) (Unit {0}) × Hub
  release_tracked id m none = (err (not_found id), m)
  release_tracked id m (some b) = (
    ok tt,
    record { buffers = delete b.buffer_id m.buffers; world = L.release_buffer id m.world },
  )

  unfoldable pub release_buffer : String → Hub → Result (BufferError Failure) (Unit {0}) × Hub
  unfolding release_tracked
  release_buffer id m = release_tracked id m (lookup id m.buffers)

  -- The loop over the map: what it has passed stays, and a deleted entry is not met again.
  unfoldable pub release_owned : String → GoMap String TrackedBuffer → World → Hub
  release_owned requestor [] w = record { buffers = []; world = w }
  release_owned requestor ((id, b) ∷ m) w =
      let owned = b.requestor_id == requestor in
      let rest = release_owned requestor m (if owned then L.release_buffer id w else w) in
      if owned then rest else record rest { buffers = (id, b) ∷ rest.buffers }

  unfoldable pub release_requestor : String → Hub → Result (BufferError Failure) (Unit {0}) × Hub
  unfolding release_owned
  release_requestor requestor m = (ok tt, release_owned requestor m.buffers m.world)

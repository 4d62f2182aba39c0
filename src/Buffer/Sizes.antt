-- ===== src/Buffer/Sizes.antt =====
-- TotalBytes and Stats against the list of tracked buffers.
use falcon_instrument_hub.Prelude.{
  ℕ, ◌+◌, ◌%◌, ◌^◌, ◌<◌, String, ◌≡◌, List, [], ◌∷◌, map, arith, comparable_nat, comparable_string,
  length, length-map, sum,
}
use falcon_instrument_hub.Prelude.Maps.{GoMap}
use falcon_instrument_hub.Prelude.Floats.{Floats}
use falcon_instrument_hub.Buffer.Shared.{Library}
use falcon_instrument_hub.Buffer.{TrackedBuffer, Hub, add_sizes, total_bytes, stats, list_buffers}

module _ {F : Floats} (L : Library F) where
  pub byte_sizes : List (TrackedBuffer L) → List ℕ
  byte_sizes bs = map (λ b. b.metadata.byte_size) bs

  add_sizes_lem :
      (total : ℕ) (m : GoMap String (TrackedBuffer L))
      → total < 2 ^ 64
      → add_sizes L total m ≡ (total + sum (byte_sizes (map (λ e. e.1) m))) % 2 ^ 64
  unfolding add_sizes byte_sizes
  add_sizes_lem total [] h = omega arith
  add_sizes_lem total ((id, b) ∷ m) h =
      omega (arith, add_sizes_lem ((total + b.metadata.byte_size) % 2 ^ 64) m (omega arith))

  -- TotalBytes is the sum of the listed buffers' sizes modulo 2 ^ 64, and Stats reports that total
  -- with the number of listed buffers.
  pub stats-list_buffers :
      (m : Hub L)
      → (total_bytes L m ≡ sum (byte_sizes (list_buffers L m)) % 2 ^ 64)
        × (stats L m
            ≡ record { buffer_count = length (list_buffers L m); total_bytes = total_bytes L m })
  unfolding total_bytes stats list_buffers
  stats-list_buffers m = (
    omega (arith, add_sizes_lem 0 m.buffers (omega arith)),
    cc (length-map (λ (e : String × TrackedBuffer L). e.1) m.buffers),
  )

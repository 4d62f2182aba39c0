-- ===== src/Buffer/Claims.antt =====
-- A registration of a buffer that is already tracked.
use falcon_instrument_hub.Prelude.{
  ℕ, ◌+◌, String, ◌≡◌, refl, sym, ap, ◌∙◌, true, false, some, arith, comparable_nat,
  comparable_string, ==_refl, Result, ok, err,
}
use falcon_instrument_hub.Prelude.Maps.{
  GoMap, lookup, insert, delete, has, has-delete, lookup-insert,
}
use falcon_instrument_hub.Prelude.Floats.{Floats}
use falcon_instrument_hub.Buffer.Shared.{Library, BufferMetadata, Counting}
use falcon_instrument_hub.Buffer.{
  TrackedBuffer, Hub, track, register_buffer, register_claimed, register_metadata, register_server,
  release_buffer, release_tracked,
}
use falcon_instrument_hub.Buffer.Ledger.{Inv}

module _ {F : Floats} {L : Library F} (C : Counting L) where
  module _ (requestor id : String) (now : ℕ) (m : GoMap String (TrackedBuffer L)) (n : Hub L) where
    server_ok :
        (h : L.Handle) (meta : BufferMetadata) (r : Result L.Failure (Unit {0}) × L.World)
        → register_server L requestor id now h meta m r ≡ (ok tt, n)
        → (C.refs n.world id ≡ C.refs r.1 id)
          × (n.buffers ≡ insert id (track L requestor id now h meta) m)
    unfolding register_server
    server_ok h meta (err e, w) q = cc
    server_ok h meta (ok u, w) q =
        (ap (λ p. C.refs p.1.world id) (sym q), ap (λ p. p.1.buffers) (sym q))

    metadata_ok :
        (h : L.Handle) (r : Result L.Failure BufferMetadata × L.World)
        → register_metadata L requestor id now h m r ≡ (ok tt, n)
        → (C.refs n.world id ≡ C.refs r.1 id)
          × (meta : BufferMetadata) × (n.buffers ≡ insert id (track L requestor id now h meta) m)
    unfolding register_metadata
    metadata_ok h (err e, w) q = cc
    metadata_ok h (ok meta, w) q =
        let (refs, buffers) = server_ok h meta (L.server_release id w) q in
        (refs ∙ C.server-keeps id id w, meta, buffers)

    claimed_ok :
        (w : L.World) (r : Result L.Failure L.Handle × L.World)
        → ((h : L.Handle) → r.0 ≡ ok h → C.refs r.1 id ≡ C.refs w id + 1)
        → register_claimed L requestor id now m r ≡ (ok tt, n)
        → (C.refs n.world id ≡ C.refs w id + 1)
          × (h : L.Handle) × (meta : BufferMetadata) × (n.buffers
              ≡ insert id (track L requestor id now h meta) m)
    unfolding register_claimed
    claimed_ok w (err e, w') c q = cc
    claimed_ok w (ok h, w') c q =
        let (refs, meta, buffers) = metadata_ok h (L.get_metadata id w') q in
        (refs ∙ C.metadata-keeps id id w' ∙ c h refl, h, meta, buffers)

  -- A successful RegisterBuffer claims one reference more and records the requestor as the owner,
  -- whoever owned the buffer before.
  pub register_buffer_ok :
      (requestor id : String) (now : ℕ) (m n : Hub L)
      → register_buffer L requestor id now m ≡ (ok tt, n)
      → (C.refs n.world id ≡ C.refs m.world id + 1)
        × (h : L.Handle) × (meta : BufferMetadata) × (n.buffers
            ≡ insert id (track L requestor id now h meta) m.buffers)
  unfolding register_buffer
  register_buffer_ok requestor id now m n q =
      claimed_ok requestor id now m.buffers n m.world (L.get_buffer id m.world)
        (λ h e. C.get-ok id id m.world h e ∙ ground (arith, ==_refl id)) q

  release_tracked_id :
      (requestor id : String) (now : ℕ) (m : Hub L) (h : L.Handle) (meta : BufferMetadata)
      (buffers : GoMap String (TrackedBuffer L))
      → m.buffers ≡ insert id (track L requestor id now h meta) buffers
      → release_buffer L id m
        ≡ (ok tt, record { buffers = delete id m.buffers; world = L.release_buffer id m.world })
  unfolding release_buffer release_tracked track
  release_tracked_id requestor id now m h meta buffers e =
      let found : lookup id m.buffers ≡ some (track L requestor id now h meta) =
        rw e (lookup-insert id id _ buffers ∙ rw (==_refl id)) in
      rw (found, release_tracked)

  -- Register a buffer again while it is tracked. The map keeps one entry and the hub holds two
  -- references, so that after the ReleaseBuffer that removes the entry one reference is left to a
  -- buffer that is no longer tracked.
  pub register_twice_leaks :
      (requestor id : String) (now : ℕ) (m n : Hub L)
      → Inv C m
      → has id m.buffers ≡ true
      → register_buffer L requestor id now m ≡ (ok tt, n)
      → (has id (release_buffer L id n).1.buffers ≡ false)
        × (C.refs (release_buffer L id n).1.world id ≡ 1)
  register_twice_leaks requestor id now m n v held q =
      let (refs, h, meta, buffers) = register_buffer_ok requestor id now m n q in
      rw (release_tracked_id requestor id now n h meta m.buffers buffers) (
        has-delete id id n.buffers ∙ rw (==_refl id),
        ground (arith, refs, v.balanced id, held, ==_refl id, C.release-drops id id n.world),
      )

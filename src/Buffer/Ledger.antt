-- ===== src/Buffer/Ledger.antt =====
-- The manager's map against the library's reference counts, one method at a time.
use falcon_instrument_hub.Prelude.{
  ℕ, ◌+◌, String, ◌≡◌, refl, ◌∙◌, inl, inr, Bool, true, false, arith, if◌then◌else◌, Option-cases,
  ◌==◌, comparable_nat, comparable_string, ==_iff, ==_refl, All, Result, ok, err,
}
use falcon_instrument_hub.Prelude.Maps.{
  GoMap, lookup, has, has_of_lookup, has-insert, has-delete, Distinct, insert-Distinct,
  delete-Distinct, lookup-All, insert-All, delete-All,
}
use falcon_instrument_hub.Prelude.Floats.{Floats}
use falcon_instrument_hub.Buffer.Shared.{Library, BufferMetadata, Counting}
use falcon_instrument_hub.Buffer.{
  List, track, BufferError, TrackedBuffer, Hub, register_server, register_metadata,
  register_claimed, register_buffer, consume_tracked, consume_samples, release_tracked,
  release_buffer, drop_buffer,
}

module _ {F : Floats} (L : Library F) where
  -- An entry stands under its buffer's own id.
  abbrev pub KeyedEntry : String × TrackedBuffer L → Type 0
  KeyedEntry (id, b) = b.buffer_id ≡ id

abbrev pub one_if : Bool → ℕ
one_if b = if b then 1 else 0

module _ {F : Floats} {L : Library F} (C : Counting L) where
  -- The hub holds one reference to each buffer in the map, and no other.
  pub record Inv (m : Hub L) : Type 0 where
    pub distinct : Distinct m.buffers
    pub keyed : All (KeyedEntry L) m.buffers
    pub balanced : (j : String) → C.refs m.world j ≡ one_if (has j m.buffers)

  -- The references while a claim of `id` is under way.
  abbrev Claimed : String → GoMap String (TrackedBuffer L) → L.World → Type 0
  Claimed id m w = (j : String) → C.refs w j ≡ one_if (has j m) + one_if (id == j)

  release-Claimed :
      (id : String) (m : GoMap String (TrackedBuffer L)) (w : L.World)
      → Claimed id m w
      → (j : String) → C.refs (L.release_buffer id w) j ≡ one_if (has j m)
  release-Claimed id m w c j =
      omega (arith, c j, C.release-drops id j w (ground (arith, c id, ==_refl id)))

  module _ (requestor id : String) (now : ℕ) (m : GoMap String (TrackedBuffer L)) (d : Distinct m)
      (k : All (KeyedEntry L) m) where
    undo-Inv :
        (w : L.World) → Claimed id m w → Inv (record { buffers = m; world = L.release_buffer id w })
    undo-Inv w c = record { distinct = d; keyed = k; balanced = release-Claimed id m w c }

    register_server-Inv :
        (h : L.Handle) (meta : BufferMetadata) (r : Result L.Failure (Unit {0}) × L.World)
        → has id m ≡ false
        → Claimed id m r.1
        → Inv (register_server L requestor id now h meta m r).1
    unfolding register_server
    register_server-Inv h meta (err e, w) free c = undo-Inv w c
    register_server-Inv h meta (ok u, w) free c = record {
      distinct = insert-Distinct id _ m d;
      keyed = insert-All (KeyedEntry L) id _ m refl k;
      balanced = λ j.
          ground
            (arith, c j, has-insert id j (track L requestor id now h meta) m, ==_iff id j, free);
    }

    register_metadata-Inv :
        (h : L.Handle) (r : Result L.Failure BufferMetadata × L.World)
        → has id m ≡ false
        → Claimed id m r.1
        → Inv (register_metadata L requestor id now h m r).1
    unfolding register_metadata
    register_metadata-Inv h (err e, w) free c = undo-Inv w c
    register_metadata-Inv h (ok meta, w) free c =
        register_server-Inv h meta (L.server_release id w) free (λ j. C.server-keeps id j w ∙ c j)

  -- A registration of an id that the map does not hold keeps the ledger, on every path.
  pub register_buffer-Inv :
      (requestor id : String) (now : ℕ) (m : Hub L)
      → Inv m
      → has id m.buffers ≡ false
      → Inv (register_buffer L requestor id now m).1
  unfolding register_claimed register_buffer
  register_buffer-Inv requestor id now m v free =
      step (L.get_buffer id m.world) (λ h e j. C.get-ok id j m.world h e)
        (λ x e j. C.get-err id j m.world x e)
    where
      step :
          (r : Result L.Failure L.Handle × L.World)
          → ((h : L.Handle)
              → r.0 ≡ ok h
              → (j : String) → C.refs r.1 j ≡ C.refs m.world j + one_if (id == j))
          → ((e : L.Failure) → r.0 ≡ err e → (j : String) → C.refs r.1 j ≡ C.refs m.world j)
          → Inv (register_claimed L requestor id now m.buffers r).1
      step (err e, w) claimed failed = record {
        distinct = v.distinct;
        keyed = v.keyed;
        balanced = λ j. failed e refl j ∙ v.balanced j;
      }
      step (ok h, w) claimed failed =
          register_metadata-Inv requestor id now m.buffers v.distinct v.keyed h
            (L.get_metadata id w) free
            (λ j. omega (arith, C.metadata-keeps id j w, claimed h refl j, v.balanced j))

  pub drop_buffer-Inv :
      (id : String) (m : Hub L) → Inv m → has id m.buffers ≡ true → Inv (drop_buffer L id m)
  unfolding drop_buffer
  drop_buffer-Inv id m v held = record {
    distinct = delete-Distinct id m.buffers v.distinct;
    keyed = delete-All (KeyedEntry L) id m.buffers v.keyed;
    balanced = λ j. ground (
      arith,
      v.balanced j,
      v.balanced id,
      held,
      has-delete id j m.buffers,
      ==_iff id j,
      C.release-drops id j m.world,
    );
  }

  -- Consuming a buffer keeps the ledger, whether the samples could be read or not.
  pub consume_samples-Inv :
      (requestor id : String) (m : Hub L) → Inv m → Inv (consume_samples L requestor id m).1
  unfolding consume_samples consume_tracked
  consume_samples-Inv requestor id m v = elim (Option-cases (lookup id m.buffers)) [
    | inl e ↦ rw e v
    | inr (b, e) ↦
        rw (e, consume_tracked)
          (keep _ _ (b.requestor_id == requestor)
            (drop_buffer-Inv id m v (has_of_lookup id b m.buffers e)))
  ]
    where
      keep :
          (x y : Result (BufferError L.Failure) (List F.Float64)) (t : Bool)
          → Inv (drop_buffer L id m)
          → Inv
              (if◌then◌else◌ {A = Result (BufferError L.Failure) (List F.Float64) × Hub L} t
                (x, drop_buffer L id m)
                (y, m)).1
      keep x y true h = h
      keep x y false h = v

  -- ReleaseBuffer deletes the entry under the tracked id, which is the key it was found by.
  pub release_buffer-Inv : (id : String) (m : Hub L) → Inv m → Inv (release_buffer L id m).1
  unfolding release_buffer release_tracked drop_buffer
  release_buffer-Inv id m v = elim (Option-cases (lookup id m.buffers)) [
    | inl e ↦ rw e v
    | inr (b, e) ↦
        rw (e, release_tracked)
          (rw (lookup-All (KeyedEntry L) id b m.buffers v.keyed e)
            (drop_buffer-Inv id m v (has_of_lookup id b m.buffers e)))
  ]

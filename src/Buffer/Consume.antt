-- ===== src/Buffer/Consume.antt =====
-- ConsumeSamples and a second registration, seen from outside.
use falcon_instrument_hub.Prelude.{
  ◌<◌, String, ◌≡◌, refl, ap, ◌∙◌, ◌≢◌, inl, inr, Bool, true, false, none, some, List, [], ◌∷◌,
  arith, Bool-cases, Option-cases, ◌==◌, comparable_nat, comparable_string, ==_iff, ==_refl, length,
  Result, ok, err, ◌>>=◌, is_ok,
}
use falcon_instrument_hub.Prelude.Maps.{lookup, has, has_of_lookup, has-delete, lookup-delete}
use falcon_instrument_hub.Prelude.Floats.{Floats}
use falcon_instrument_hub.Buffer.Shared.{Library, Counting}
use falcon_instrument_hub.Buffer.{
  BufferError, no_samples, TrackedBuffer, Hub, Samples, typed_slice, to_float64s, copy_samples,
  drop_buffer, consume_tracked, consume_samples,
}
use falcon_instrument_hub.Buffer.Ledger.{Inv, one_if, drop_buffer-Inv}

module _ {F : Floats} (L : Library F) where
  -- `requestor` owns the buffer that the map tracks under `id`.
  unfoldable pub owns : String → String → Hub L → Bool
  owns requestor id m = elim (lookup id m.buffers) [
    | none ↦ false
    | some b ↦ b.requestor_id == requestor
  ]

  copy_samples-nonempty :
      (xs : Samples L) (ys : List F.Float64) → copy_samples L xs ≡ ok ys → 0 < length ys
  unfolding copy_samples
  copy_samples-nonempty xs ys h = go (to_float64s L xs) ys h
    where
      go :
          (zs ys : List F.Float64)
          → ◌≡◌ {A = Result (BufferError L.Failure) (List F.Float64)}
              (elim zs [ [] ↦ err no_samples | y ∷ ws ↦ ok (y ∷ ws) ])
              (ok ys)
          → 0 < length ys
      go [] ys h = cc
      go (z ∷ zs) [] h = cc
      go (z ∷ zs) (y ∷ ys) h = omega arith

  read-nonempty :
      (r : Result (BufferError L.Failure) (Samples L)) (ys : List F.Float64)
      → (r >>= copy_samples L) ≡ ok ys
      → 0 < length ys
  read-nonempty (ok xs) ys h = copy_samples-nonempty xs ys h
  read-nonempty (err e) ys h = cc

  consume_owned :
      (requestor id : String) (m : Hub L)
      → owns requestor id m ≡ true
      → (b : TrackedBuffer L) × (lookup id m.buffers ≡ some b)
        × (consume_samples L requestor id m ≡ (
          typed_slice L b.buffer m.world (L.data_buffer_type b.buffer m.world) >>= copy_samples L,
          drop_buffer L id m,
        ))
  unfolding owns consume_samples consume_tracked
  consume_owned requestor id m h = elim (Option-cases (lookup id m.buffers)) [
    | inl e ↦ absurd (cc (rw (e, owns) at h))
    | inr (b, e) ↦ (b, e, rw (e, consume_tracked) (rw (rw (e, owns) at h)))
  ]

  -- Without ownership ConsumeSamples fails and changes nothing: neither the map nor the library.
  pub consume_samples_foreign :
      (requestor id : String) (m : Hub L)
      → owns requestor id m ≡ false
      → (is_ok (consume_samples L requestor id m).0 ≡ false)
        × ((consume_samples L requestor id m).1 ≡ m)
  unfolding owns consume_samples consume_tracked
  consume_samples_foreign requestor id m h = elim (Option-cases (lookup id m.buffers)) [
    | inl e ↦ rw (e, consume_tracked) (refl, refl)
    | inr (b, e) ↦ rw (e, consume_tracked) (rw (rw (e, owns) at h) (refl, refl))
  ]

  -- ConsumeSamples succeeds only for the owner, and never with an empty slice.
  pub consume_samples-eq-ok :
      (requestor id : String) (m : Hub L) (ys : List F.Float64)
      → (consume_samples L requestor id m).0 ≡ ok ys
      → (owns requestor id m ≡ true) × (0 < length ys)
  consume_samples-eq-ok requestor id m ys h = elim (Bool-cases (owns requestor id m)) [
    | inl mine ↦
        let (b, found, e) = consume_owned requestor id m mine in
        (
          mine,
          read-nonempty (typed_slice L b.buffer m.world (L.data_buffer_type b.buffer m.world)) ys
              (rw e at h),
        )
    | inr other ↦ absurd (cc ((consume_samples_foreign requestor id m other).0, ap is_ok h))
  ]

module _ {F : Floats} {L : Library F} (C : Counting L) where
  -- An owner's ConsumeSamples, successful or not, ends with the buffer untracked and its reference
  -- given back; every other entry of the map stays as it was.
  pub consume_samples-releases :
      (requestor id : String) (m : Hub L)
      → Inv C m
      → owns L requestor id m ≡ true
      → (has id (consume_samples L requestor id m).1.buffers ≡ false)
        × (C.refs (consume_samples L requestor id m).1.world id ≡ 0)
        × ((j : String)
            → j ≢ id
            → lookup j (consume_samples L requestor id m).1.buffers ≡ lookup j m.buffers)
  consume_samples-releases requestor id m v mine =
      let (b, found, e) = consume_owned L requestor id m mine in
      rw e (
        gone,
        (drop_buffer-Inv C id m v (has_of_lookup id b m.buffers found)).balanced id
            ∙ ap one_if gone,
        λ j ne. others j ne,
      )
    where
      gone : has id (drop_buffer L id m).buffers ≡ false
      gone = unfold drop_buffer in (ground (arith, has-delete id id m.buffers, ==_refl id))

      others : (j : String) → j ≢ id → lookup j (drop_buffer L id m).buffers ≡ lookup j m.buffers
      others j ne =
          unfold drop_buffer in (ground (arith, lookup-delete id j m.buffers, ==_iff id j, ne))

-- ===== src/Buffer/Owners.antt =====
-- ReleaseRequestor against a filter of the map, and its effect on the ledger.
use falcon_instrument_hub.Prelude.{
  ℕ, ◌+◌, String, ◌≡◌, refl, ap, ◌∙◌, inl, inr, false, [], ◌∷◌, arith, if◌then◌else◌, Bool-cases,
  ◌==◌, comparable_nat, comparable_string, ==_iff, ==_refl, All,
}
use falcon_instrument_hub.Prelude.Maps.{GoMap, lookup, has, Distinct}
use falcon_instrument_hub.Prelude.Floats.{Floats}
use falcon_instrument_hub.Buffer.Shared.{Library, Counting}
use falcon_instrument_hub.Buffer.{
  TrackedBuffer, Hub, release_owned, release_requestor, buffers_for_requestor, owned_by,
}
use falcon_instrument_hub.Buffer.Ledger.{Inv, KeyedEntry, one_if}

module _ {F : Floats} (L : Library F) where
  -- The entries of the other requestors, in their order.
  pub unowned : String → GoMap String (TrackedBuffer L) → GoMap String (TrackedBuffer L)
  unowned requestor [] = []
  unowned requestor ((id, b) ∷ m) =
      let rest = unowned requestor m in if b.requestor_id == requestor then rest else (id, b) ∷ rest

  pub release_owned-buffers :
      (requestor : String) (m : GoMap String (TrackedBuffer L)) (w : L.World)
      → (release_owned L requestor m w).buffers ≡ unowned requestor m
  unfolding release_owned unowned
  release_owned-buffers requestor [] w = refl
  release_owned-buffers requestor ((id, b) ∷ m) w =
      elim (Bool-cases (b.requestor_id == requestor)) [
        | inl e ↦ rw e (release_owned-buffers requestor m (L.release_buffer id w))
        | inr e ↦ rw e (ap (◌∷◌ (id, b)) (release_owned-buffers requestor m w))
      ]

  has-unowned :
      (j requestor : String) (m : GoMap String (TrackedBuffer L))
      → has j m ≡ false
      → has j (unowned requestor m) ≡ false
  unfolding unowned has lookup
  has-unowned j requestor [] h = refl
  has-unowned j requestor ((id, b) ∷ m) h = ground (arith, has-unowned j requestor m)

  unowned-Distinct :
      (requestor : String) (m : GoMap String (TrackedBuffer L))
      → Distinct m
      → Distinct (unowned requestor m)
  unfolding unowned
  unowned-Distinct requestor [] d = tt
  unowned-Distinct requestor ((id, b) ∷ m) d =
      ground (arith, unowned-Distinct requestor m d.1, has-unowned id requestor m d.0)

  unowned-All :
      (P : String × TrackedBuffer L → Type 0) (requestor : String)
      (m : GoMap String (TrackedBuffer L))
      → All P m
      → All P (unowned requestor m)
  unfolding unowned
  unowned-All P requestor [] a = tt
  unowned-All P requestor ((id, b) ∷ m) a = elim (Bool-cases (b.requestor_id == requestor)) [
    | inl e ↦ rw e (unowned-All P requestor m a.1)
    | inr e ↦ rw e (a.0, unowned-All P requestor m a.1)
  ]

  owned_by-unowned :
      (r s : String) (m : GoMap String (TrackedBuffer L))
      → owned_by L s (unowned r m) ≡ (if r == s then [] else owned_by L s m)
  unfolding owned_by unowned
  owned_by-unowned r s [] = ground arith
  owned_by-unowned r s ((id, b) ∷ m) =
      ground (
        arith,
        owned_by-unowned r s m,
        ==_iff b.requestor_id r,
        ==_iff b.requestor_id s,
        ==_iff r s,
      )

  -- After ReleaseRequestor the requestor owns no buffer, and every other requestor owns the
  -- buffers that it owned, in the same order.
  pub buffers_for_requestor-release_requestor :
      (r s : String) (m : Hub L)
      → buffers_for_requestor L s (release_requestor L r m).1
        ≡ (if r == s then [] else buffers_for_requestor L s m)
  unfolding buffers_for_requestor release_requestor
  buffers_for_requestor-release_requestor r s m =
      rw (release_owned-buffers r m.buffers m.world) (owned_by-unowned r s m.buffers)

module _ {F : Floats} {L : Library F} (C : Counting L) where
  -- `kept j` counts the references to entries that the loop has passed and kept.
  release_owned-balanced :
      (requestor : String) (m : GoMap String (TrackedBuffer L)) (w : L.World) (kept : String → ℕ)
      → Distinct m
      → ((j : String) → C.refs w j ≡ kept j + one_if (has j m))
      → (j : String)
      → C.refs (release_owned L requestor m w).world j
        ≡ kept j + one_if (has j (unowned L requestor m))
  unfolding release_owned unowned has lookup
  release_owned-balanced requestor [] w kept d h j = h j
  release_owned-balanced requestor ((id, b) ∷ m) w kept d h j =
      elim (Bool-cases (b.requestor_id == requestor)) [
        | inl e ↦ rw e (
            release_owned-balanced requestor m (L.release_buffer id w) kept d.1
              (λ k. ground (arith, h k, h id, ==_iff id k, ==_refl id, d.0, C.release-drops id k w))
              j)
        | inr e ↦ rw e (
            release_owned-balanced requestor m w (λ k. kept k + one_if (id == k)) d.1
              (λ k. ground (arith, h k, ==_iff id k, d.0)) j
            ∙ ground (arith, ==_iff id j, has-unowned L id requestor m d.0))
      ]

  -- ReleaseRequestor keeps the ledger.
  pub release_requestor-Inv :
      (requestor : String) (m : Hub L) → Inv C m → Inv C (release_requestor L requestor m).1
  unfolding release_requestor
  release_requestor-Inv requestor m v = record {
    distinct = rw buffers (unowned-Distinct L requestor m.buffers v.distinct);
    keyed = rw buffers (unowned-All L (KeyedEntry L) requestor m.buffers v.keyed);
    balanced = λ j. rw buffers (
        release_owned-balanced requestor m.buffers m.world (λ _. 0) v.distinct
          (λ k. omega (arith, v.balanced k)) j
        ∙ omega arith);
  }
    where
      buffers :
          (release_owned L requestor m.buffers m.world).buffers ≡ unowned L requestor m.buffers
      buffers = release_owned-buffers L requestor m.buffers m.world

-- ===== src/Decoding/Shapes.antt =====
-- shapeSize against the product of the axes.
use falcon_instrument_hub.Prelude.{
  ℕ, zero, suc, ◌*◌, ◌/◌, ◌≤◌, ◌<◌, ◌≡◌, refl, sym, ap, subst, ◌∙◌, ◌≢◌, ◌↔◌, inl, inr, false, List,
  [], ◌∷◌, map, arith, ltb, Bool-cases, comparable_nat, comparable_string, All, product, ok,
  ok_injective,
}
use native.Mathlib.Nat.{le-div_iff_mul-le, mul_assoc, mul-pos, le-mul_of_pos_right, le_trans}
use falcon_instrument_hub.Prelude.Int.{ℤ, pos, negsuc}
use falcon_instrument_hub.Samples.{DecodeError}
use falcon_instrument_hub.Decoding.{size_from, shape_size, max_int}

-- The axes are these positive lengths, and they make a product that an int holds.
abbrev pub HasSize : List ℤ → ℕ → Type 0
HasSize shape n =
    (lengths : List ℕ) × (shape ≡ map pos lengths)
    × All (λ l. 0 < l) lengths
    × (product lengths ≡ n)
    × (n ≤ max_int)

positive-product : (ls : List ℕ) → All (λ l. 0 < l) ls → 0 < product ls
positive-product [] a = ground arith
positive-product (l ∷ ls) a = mul-pos a.0 (positive-product ls a.1)

fitting : (m n : ℕ) → n ≤ m → ltb m n ≡ false
fitting m n h = ground arith

module _ {E : Type 0} where
  size_from-ok :
      (axis size n : ℕ) (shape : List ℤ)
      → size ≤ max_int
      → size_from {E = E} axis size shape ≡ ok n
      → (lengths : List ℕ) × (shape ≡ map pos lengths)
        × All (λ l. 0 < l) lengths
        × (size * product lengths ≡ n)
        × (n ≤ max_int)
  unfolding size_from
  size_from-ok axis size n [] b h =
      let e = ok_injective {E = DecodeError E} size n h in
      ([], refl, tt, omega (arith, e), omega (arith, e, b))
  size_from-ok axis size n (negsuc k ∷ ls) b h = cc
  size_from-ok axis size n (pos zero ∷ ls) b h = cc
  size_from-ok axis size n (pos (suc k) ∷ ls) b h = elim (Bool-cases (ltb (max_int / suc k) size)) [
    | inl e ↦ cc (rw e at h)
    | inr e ↦
        let fits =
          (le-div_iff_mul-le {k = suc k} {x = size} {y = max_int} (ground arith)).0
            (ground arith) in
        let (lengths, s, a, p, m) = size_from-ok (suc axis) (size * suc k) n ls fits (rw e at h) in
        (
          suc k ∷ lengths,
          ap (λ l. pos (suc k) ∷ l) s,
          (ground arith, a),
          cc (p, mul_assoc size (suc k) (product lengths)),
          m,
        )
  ]

  size_from-product :
      (axis size : ℕ) (lengths : List ℕ)
      → All (λ l. 0 < l) lengths
      → size * product lengths ≤ max_int
      → size_from {E = E} axis size (map pos lengths) ≡ ok (size * product lengths)
  unfolding size_from
  size_from-product axis size [] a b = ap ok (omega arith)
  size_from-product axis size (zero ∷ ls) a b = absurd (ground (arith, a.0))
  size_from-product axis size (suc k ∷ ls) a b =
      let e = mul_assoc size (suc k) (product ls) in
      let whole : size * suc k * product ls ≤ max_int = rw e b in
      let part = le_trans (le-mul_of_pos_right (size * suc k) (positive-product ls a.1)) whole in
      let small = (le-div_iff_mul-le {k = suc k} {x = size} {y = max_int} (ground arith)).1 part in
      rw (fitting (max_int / suc k) size small)
        (size_from-product (suc axis) (size * suc k) ls a.1 whole ∙ ap ok e)

  -- shapeSize returns a size just when the shape is not empty, every axis is positive and the
  -- product of the axes fits in an int; the size is that product.
  pub shape_size-HasSize :
      (shape : List ℤ) (n : ℕ)
      → (shape_size {E = E} shape ≡ ok n) ↔ ((shape ≢ []) × HasSize shape n)
  unfolding shape_size
  shape_size-HasSize [] n = (λ h. cc, λ h. absurd (h.0 refl))
  shape_size-HasSize (l ∷ ls) n = (
    λ h.
        let (lengths, s, a, p, m) = size_from-ok 0 1 n (l ∷ ls) (ground arith) h in
        ((λ q. cc), (lengths, s, a, omega (arith, p), m)),
    λ h.
        let (lengths, s, a, p, m) = h.1 in
        subst (λ z. size_from {E = E} 0 1 z ≡ ok n) (sym s)
          (size_from-product 0 1 lengths a (omega (arith, p, m)) ∙ ap ok (omega (arith, p))),
  )

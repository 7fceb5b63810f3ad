-- ===== src/Kodr/Elimination/Kernel.antt =====
-- Homogeneous equations with more unknowns than equations, as fewer useful pieces than pieces leave
-- them.
use rlnc_streaming.Base.{
  ℕ, zero, suc, ◌-◌, ◌<◌, ◌≡◌, ◌⊎◌, inl, inr, sym, ap, ap₂, ◌∙◌, subst, false, ltb, ◌==◌,
  if◌then◌else◌, Bool-cases, ==_refl, ==_ne, ℕ_discrete, arith,
}
use rlnc_streaming.Field.{Field, is_zero, is_zero→eq, add-zero, zero-mul, mul-zero, add-mul-div}
use rlnc_streaming.Field.Sum.{sum, sum_congr, sum-zero}
use rlnc_streaming.Kodr.Elimination.Equations.{lhs, lhs-add}

-- The row index that stands at place `b` once row `p` is taken out.
abbrev skip : ℕ → ℕ → ℕ
skip p b = if ltb b p then b else suc b

skip_onto : (p a : ℕ) → ¬ (a ≡ p) → skip p (if ltb a p then a else a - 1) ≡ a
skip_onto p a h = ground arith

module _ {F : Type 0} ⦃g : Field F⦄ where
  abbrev pub dot_product : ℕ → (ℕ → F) → (ℕ → F) → F
  dot_product n u y = sum n (λ k. g.mul (u k) (y k))

  -- A vector with a non-zero entry that has product zero with each of the first `r` rows.
  pub record NullVector (r n : ℕ) (rows : ℕ → ℕ → F) : Type 0 where
    pub vector : ℕ → F
    pub null : (a : ℕ) → a < r → dot_product n (rows a) vector ≡ g.zero
    pub place : ℕ
    pub inside : place < n
    pub nonzero : is_zero (vector place) ≡ false

  -- The equation of a row with right side zero.
  pub lhs-homogeneous : (n : ℕ) (u y : ℕ → F) (v : F) → lhs n u v y g.zero ≡ dot_product n u y
  unfolding lhs
  lhs-homogeneous n u y v =
      ap (g.add (dot_product n u y)) (mul-zero v) ∙ add-zero (dot_product n u y)

  find_nonzero :
      (r : ℕ) (f : ℕ → F)
      → ((a : ℕ) → a < r → f a ≡ g.zero) ⊎ ((p : ℕ) × (p < r) × (is_zero (f p) ≡ false))
  find_nonzero zero f = inl (λ a h. absurd (omega arith))
  find_nonzero (suc r) f = elim (Bool-cases (is_zero (f r))) [
    | inr e ↦ inr (r, omega arith, e)
    | inl e ↦ elim (find_nonzero r f) [
      | inr (p, h, e') ↦ inr (p, omega arith, e')
      | inl all ↦ inl (λ a h. elim (ℕ_discrete a r) [
        | yes q ↦ ap f q ∙ is_zero→eq (f r) e
        | no q ↦ all a (omega arith)
      ])
    ]
  ]

  -- `y` below `m`, and `z` at `m`.
  abbrev extend : ℕ → (ℕ → F) → F → ℕ → F
  extend m y z k = if k == m then z else y k

  dot_product-extend :
      (m : ℕ) (u y : ℕ → F) (z : F) → dot_product (suc m) u (extend m y z) ≡ lhs m u (u m) y z
  unfolding sum lhs
  dot_product-extend m u y z =
      ap₂ g.add (sum_congr m _ _ (λ k h. ap (g.mul (u k)) (rw (==_ne k m (omega arith)))))
        (ap (g.mul (u m)) (rw (==_refl m)))

  last_unit :
      (r m : ℕ) (rows : ℕ → ℕ → F)
      → ((a : ℕ) → a < r → rows a m ≡ g.zero)
      → NullVector r (suc m) rows
  unfolding lhs
  last_unit r m rows e = record {
    vector = extend m (λ k. g.zero) g.one;
    null = λ a h.
        dot_product-extend m (rows a) (λ k. g.zero) g.one
        ∙ ap₂ g.add (sum_congr m _ (λ k. g.zero) (λ k l. mul-zero (rows a k)) ∙ sum-zero m)
            (ap (λ x. g.mul x g.one) (e a h) ∙ zero-mul g.one)
        ∙ add-zero g.zero;
    place = m;
    inside = omega arith;
    nonzero = rw (==_refl m) g.nontrivial;
  }

  -- Row `b` once the pivot of row `p` in column `m` has cleared it.
  abbrev cleared : ℕ → ℕ → (ℕ → ℕ → F) → ℕ → ℕ → F
  cleared p m rows b k =
      g.add (rows (skip p b) k) (g.mul (rows p k) (g.div (rows (skip p b) m) (rows p m)))

  module _ (r m p : ℕ) (rows : ℕ → ℕ → F) (hp : p < suc r) (pivot : is_zero (rows p m) ≡ false)
      (v : NullVector r m (cleared p m rows)) where
    -- The entry at the pivot's column that makes the product with the pivot's row zero.
    abbrev last_entry : F
    last_entry = g.div (dot_product m (rows p) v.vector) (rows p m)

    at_pivot : lhs m (rows p) (rows p m) v.vector last_entry ≡ g.zero
    unfolding lhs
    at_pivot = add-mul-div (dot_product m (rows p) v.vector) (rows p m) pivot

    combined :
        (b : ℕ)
        → b < r
        → lhs m
            (cleared p m rows b)
            (g.add (rows (skip p b) m) (g.mul (rows p m) (g.div (rows (skip p b) m) (rows p m))))
            v.vector
            last_entry
          ≡ g.zero
    unfolding lhs
    combined b h =
        ap₂ g.add (v.null b h) (
          ap (λ x. g.mul x last_entry) (add-mul-div (rows (skip p b) m) (rows p m) pivot)
          ∙ zero-mul last_entry)
        ∙ add-zero g.zero

    at_skip :
        (b : ℕ) → b < r → lhs m (rows (skip p b)) (rows (skip p b) m) v.vector last_entry ≡ g.zero
    at_skip b h =
        let q = g.div (rows (skip p b) m) (rows p m) in
        let step =
          lhs-add m (rows (skip p b)) (rows p) (rows (skip p b) m) (rows p m) q v.vector
            last_entry in
        sym (
          ap (g.add _) (ap (λ x. g.mul x q) at_pivot ∙ zero-mul q)
          ∙ add-zero (lhs m (rows (skip p b)) (rows (skip p b) m) v.vector last_entry))
        ∙ sym step
        ∙ combined b h

    extended : NullVector (suc r) (suc m) rows
    extended = record {
      vector = extend m v.vector last_entry;
      null = λ a h. dot_product-extend m (rows a) v.vector last_entry ∙ elim (ℕ_discrete a p) [
        | yes q ↦
            subst (λ t. lhs m (rows t) (rows t m) v.vector last_entry ≡ g.zero) (sym q) at_pivot
        | no q ↦
            subst (λ t. lhs m (rows t) (rows t m) v.vector last_entry ≡ g.zero) (skip_onto p a q)
              (at_skip (if ltb a p then a else a - 1) (ground arith))
      ];
      place = v.place;
      inside = omega (arith, v.inside);
      nonzero = rw (==_ne v.place m (omega (arith, v.inside))) v.nonzero;
    }

  -- Fewer equations than unknowns, all with right side zero, have a solution that is not zero.
  pub null_vector : (r n : ℕ) (rows : ℕ → ℕ → F) → r < n → NullVector r n rows
  null_vector r zero rows h = absurd (omega arith)
  null_vector zero (suc m) rows h = last_unit zero m rows (λ a l. absurd (omega arith))
  null_vector (suc r) (suc m) rows h = elim (find_nonzero (suc r) (λ a. rows a m)) [
    | inl e ↦ last_unit (suc r) m rows e
    | inr (p, hp, pivot) ↦
        extended r m p rows hp pivot (null_vector r m (cleared p m rows) (omega arith))
  ]

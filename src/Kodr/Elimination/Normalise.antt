-- ===== src/Kodr/Elimination/Normalise.antt =====
-- The division of a row by its pivot.
use rlnc_streaming.Base.{
  ℕ, suc, ◌+◌, ◌-◌, ◌<◌, ◌≡◌, refl, sym, ap, ◌∙◌, List, [], true, false, ◌==◌, if◌then◌else◌,
  get_or, set, arith, ==_refl, ==_ne, Bool-cases, inl, inr, dec_lt, ℕ_discrete, length-set,
}
use rlnc_streaming.Run.{Returns, returns, Returns-bind, store-ok}
use rlnc_streaming.Field.{Field, is_zero, zero-mul}
use rlnc_streaming.Kodr.Matrix.Cells.{
  entry, at, load_row, store_row, store-HasShape, cols-ok, at_right, at-set, get_or-set,
}
use rlnc_streaming.Kodr.Elimination.{DecoderState, normalise}
use rlnc_streaming.Kodr.Elimination.RowOps.{Updated, scale-ok}
use rlnc_streaming.Kodr.Elimination.Clear.{Sized}
use rlnc_streaming.Kodr.Elimination.Equations.{row_lhs, lhs_congr, lhs-mul}
use rlnc_streaming.Kodr.Elimination.Keeps.{Keeps}

module _ {F : Type 0} ⦃g : Field F⦄ where
  -- `s'` is `s` with row `i` of both matrices multiplied by `inv`.
  pub record Scaled (r n w i : ℕ) (inv : F) (s s' : DecoderState F) : Type 0 where
    pub sized : Sized s' r n w
    pub same_count : s'.piece_count ≡ s.piece_count
    pub coeffs :
        (a c : ℕ)
        → at s'.coeffs a c ≡ (if i == a then g.mul (at s.coeffs a c) inv else at s.coeffs a c)
    pub coded :
        (a c : ℕ)
        → at s'.coded a c ≡ (if i == a then g.mul (at s.coded a c) inv else at s.coded a c)

  pub scaled_zero : {x : F} (q : F) → x ≡ g.zero → x ≡ g.mul x q
  scaled_zero q e = e ∙ sym (zero-mul q) ∙ ap (λ t. g.mul t q) (sym e)

  -- A product with an inverse is zero only if the other factor is.
  mul-div_cancel : (x y : F) → is_zero y ≡ false → g.mul x (g.div g.one y) ≡ g.zero → x ≡ g.zero
  mul-div_cancel x y h e =
      sym (g.one-mul x)
      ∙ ap (λ t. g.mul t x) (sym (g.mul-div g.one y h))
      ∙ g.mul_assoc y (g.div g.one y) x
      ∙ ap (g.mul y) (g.mul_comm (g.div g.one y) x ∙ e)
      ∙ g.mul_comm y g.zero
      ∙ zero-mul y

  pub Scaled-Keeps :
      (r n w i : ℕ) (y : F) (s s' : DecoderState F)
      → Scaled r n w i (g.div g.one y) s s'
      → is_zero y ≡ false
      → Keeps r n w s s'
  Scaled-Keeps r n w i y s s' u nz = record {
    sized = u.sized;
    same_count = u.same_count;
    same = λ c x z. (
      λ h a. elim (Bool-cases (i == a)) [
        | inl e ↦ scaled c x z a e ∙ ap (λ t. g.mul t (g.div g.one y)) (h a) ∙ zero-mul _
        | inr e ↦ kept c x z a e ∙ h a
      ],
      λ h a. elim (Bool-cases (i == a)) [
        | inl e ↦ mul-div_cancel _ y nz (sym (scaled c x z a e) ∙ h a)
        | inr e ↦ sym (kept c x z a e) ∙ h a
      ],
    );
  }
    where
      scaled :
          (c : ℕ) (x : ℕ → F) (z : F) (a : ℕ)
          → (i == a) ≡ true
          → row_lhs n s' c a x z ≡ g.mul (row_lhs n s c a x z) (g.div g.one y)
      scaled c x z a e =
          lhs_congr n _ _ _ _ x z (λ k. rw e at (u.coeffs a k)) (rw e at (u.coded a c))
          ∙ lhs-mul n _ _ (g.div g.one y) x z

      kept :
          (c : ℕ) (x : ℕ → F) (z : F) (a : ℕ)
          → (i == a) ≡ false
          → row_lhs n s' c a x z ≡ row_lhs n s c a x z
      kept c x z a e = lhs_congr n _ _ _ _ x z (λ k. rw e at (u.coeffs a k)) (rw e at (u.coded a c))

module _ {F : Type 0} ⦃g : Field F⦄ (r n w i : ℕ) (hi : i < r) (hn : i < n) (s : DecoderState F)
    (sized : Sized s r n w) (low : (c : ℕ) → c < i → at s.coeffs i c ≡ g.zero)
    (pivot : is_zero (at s.coeffs i i) ≡ false) where
  -- The coefficients of the row after the division.
  scaled_coefficient :
      (inv : F)
      → g.mul (at s.coeffs i i) inv ≡ g.one
      → (row : List F)
      → let old = get_or s.coeffs i [] in
        Updated
          (suc i)
          (suc i + (n - suc i))
          (λ c. g.mul (entry (set old i g.one) c) inv)
          (set old i g.one)
          row
        → (c : ℕ) → entry row c ≡ g.mul (at s.coeffs i c) inv
  scaled_coefficient inv e row u c =
      let written =
        get_or-set (get_or s.coeffs i []) i c g.one g.zero (rw (sized.coeffs.width i hi) hn) in
      elim (dec_lt i c) [
        | no p ↦ elim (ℕ_discrete i c) [
          | yes q ↦ u.before c (omega arith) ∙ written ∙ rw (sym q, ==_refl i) (sym e)
          | no q ↦
              u.before c (omega arith)
              ∙ written
              ∙ rw (==_ne i c q) (scaled_zero inv (low c (omega arith)))
        ]
        | yes p ↦ elim (dec_lt c n) [
          | yes q ↦
              u.inside c p (omega arith)
              ∙ ap (λ t. g.mul t inv) (written ∙ rw (==_ne i c (omega arith)))
          | no q ↦
              u.after c (omega arith)
              ∙ written
              ∙ rw (==_ne i c (omega arith))
                  (scaled_zero inv (at_right sized.coeffs i c (omega arith)))
        ]
      ]

  scaled_symbol :
      (inv : F) (row : List F)
      → Updated 0 (0 + w) (λ c. g.mul (at s.coded i c) inv) (get_or s.coded i []) row
      → (c : ℕ) → entry row c ≡ g.mul (at s.coded i c) inv
  scaled_symbol inv row u c = elim (dec_lt c w) [
    | yes q ↦ u.inside c (omega arith) (omega arith)
    | no q ↦ u.after c (omega arith) ∙ scaled_zero inv (at_right sized.coded i c (omega arith))
  ]

  pub normalise-ok :
      Returns (Scaled r n w i (g.div g.one (at s.coeffs i i)) s) (normalise n i (at s.coeffs i i) s)
  unfolding normalise
  normalise-ok =
      let row = get_or s.coeffs i [] in
      let crow = get_or s.coded i [] in
      let inv = g.div g.one (at s.coeffs i i) in
      let wide = sized.coeffs.width i hi in
      let cwide = sized.coded.width i hi in
      let fresh = length-set row i g.one in
      rw (load_row sized.coeffs i hi, store-ok row i g.one (omega (arith, wide)))
        (Returns-bind
          (scale-ok true (n - suc i) (suc i) inv (set row i g.one) (omega (arith, wide, fresh)))
          λ row2 u.
            rw
              (
                store_row sized.coeffs i row2 hi,
                cols-ok sized.coded (omega arith),
                load_row sized.coded i hi,
              )
              (Returns-bind (scale-ok false w 0 inv crow (omega (arith, cwide))) λ crow2 v.
                rw (store_row sized.coded i crow2 hi) (
                  returns (record {
                    sized = record {
                      coeffs = store-HasShape sized.coeffs i row2 hi (u.same_length ∙ fresh ∙ wide);
                      coded = store-HasShape sized.coded i crow2 hi (v.same_length ∙ cwide);
                    };
                    same_count = refl;
                    coeffs = λ a c. ground (
                      arith,
                      at-set sized.coeffs i row2 a c hi,
                      scaled_coefficient inv (g.mul-div g.one (at s.coeffs i i) pivot) row2 u c,
                    );
                    coded = λ a c.
                        ground
                          (arith, at-set sized.coded i crow2 a c hi, scaled_symbol inv crow2 v c);
                  }))))

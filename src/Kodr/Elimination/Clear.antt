-- ===== src/Kodr/Elimination/Clear.antt =====
-- One pivot: the rows of a list are cleared in the pivot's column.
use rlnc_streaming.Base.{
  ℕ, ◌+◌, ◌-◌, ◌≤◌, ◌<◌, ◌≡◌, ◌≢◌, refl, sym, ap, ap₂, ◌∙◌, List, [], ◌∷◌, Bool, true, false, ◌||◌,
  ◌==◌, if◌then◌else◌, get_or, arith, dec_lt,
}
use rlnc_streaming.Run.{Returns, returns, Returns-map, Returns-bind, Returns-if}
use rlnc_streaming.Field.{
  Field, is_zero, is_zero→eq, zero-mul, mul-zero, add-zero, div-zero, add-mul-div,
}
use rlnc_streaming.Kodr.Matrix.Cells.{
  entry, at, HasShape, load_row, store_row, store-HasShape, cols-ok, cell-ok, at_right, at-set,
}
use rlnc_streaming.Kodr.Elimination.{DecoderState, clear_row, clear_unless_zero, clear_rows}
use rlnc_streaming.Kodr.Elimination.RowOps.{Updated, add_scaled-ok}

-- The state has `r` rows: `n` coefficients and `w` coded symbols each.
pub record Sized {F : Type 0} (s : DecoderState F) (r n w : ℕ) : Type 0 where
  pub coeffs : HasShape s.coeffs r n
  pub coded : HasShape s.coded r w

abbrev pub contains : ℕ → List ℕ → Bool
contains a [] = false
contains a (j ∷ js) = j == a || contains a js

module _ {F : Type 0} ⦃g : Field F⦄ where
  -- The multiple of row `i` that clears column `i` of row `a`.
  abbrev pub quotient : DecoderState F → ℕ → ℕ → F
  quotient s i a = g.div (at s.coeffs a i) (at s.coeffs i i)

  -- `s'` is `s` with that multiple of row `i` added to each chosen row, in both matrices.
  pub record Cleared (r n w i : ℕ) (chosen : ℕ → Bool) (s s' : DecoderState F) : Type 0 where
    pub sized : Sized s' r n w
    pub same_count : s'.piece_count ≡ s.piece_count
    pub coeffs :
        (a c : ℕ)
        → at s'.coeffs a c ≡ (
            if chosen a
            then g.add (at s.coeffs a c) (g.mul (at s.coeffs i c) (quotient s i a))
            else at s.coeffs a c)
    pub coded :
        (a c : ℕ)
        → at s'.coded a c ≡ (
            if chosen a
            then g.add (at s.coded a c) (g.mul (at s.coded i c) (quotient s i a))
            else at s.coded a c)

  -- A row that was written from column `lo` on, where the source row is zero elsewhere.
  Updated-entry :
      (lo hi : ℕ) (q : F) (src dst row : List F)
      → Updated lo hi (λ c. g.add (entry dst c) (g.mul (entry src c) q)) dst row
      → ((c : ℕ) → c < lo → entry src c ≡ g.zero)
      → ((c : ℕ) → hi ≤ c → entry src c ≡ g.zero)
      → (c : ℕ) → entry row c ≡ g.add (entry dst c) (g.mul (entry src c) q)
  Updated-entry lo hi q src dst row u low high c = elim (dec_lt c lo) [
    | yes p ↦ u.before c p ∙ sym (unchanged (low c p))
    | no p ↦ elim (dec_lt c hi) [
      | yes h ↦ u.inside c (omega arith) h
      | no h ↦ u.after c (omega arith) ∙ sym (unchanged (high c (omega arith)))
    ]
  ]
    where
      unchanged : entry src c ≡ g.zero → g.add (entry dst c) (g.mul (entry src c) q) ≡ entry dst c
      unchanged e = rw (e, zero-mul q) (add-zero (entry dst c))

module _ {F : Type 0} ⦃g : Field F⦄ (r n w i : ℕ) (hi : i < r) (hn : i < n) (s : DecoderState F)
    (sized : Sized s r n w) (low : (c : ℕ) → c < i → at s.coeffs i c ≡ g.zero) where
  clear_row-ok : (j : ℕ) → j < r → Returns (Cleared r n w i (λ a. j == a) s) (clear_row n i j s)
  unfolding clear_row
  clear_row-ok j hj =
      let src = get_or s.coeffs i [] in
      let dst = get_or s.coeffs j [] in
      let csrc = get_or s.coded i [] in
      let cdst = get_or s.coded j [] in
      let q = quotient s i j in
      let wide = sized.coeffs.width in
      let cwide = sized.coded.width in
      rw
        (
          cell-ok sized.coeffs j i hj hn,
          cell-ok sized.coeffs i i hi hn,
          load_row sized.coeffs i hi,
          load_row sized.coeffs j hj,
        )
        (Returns-bind
          (add_scaled-ok (n - i) i q src dst (omega (arith, wide i hi)) (omega (arith, wide j hj)))
          λ row u.
            rw
              (
                store_row sized.coeffs j row hj,
                cols-ok sized.coded (omega arith),
                load_row sized.coded i hi,
                load_row sized.coded j hj,
              )
              (Returns-bind
                (add_scaled-ok w 0 q csrc cdst (omega (arith, cwide i hi))
                  (omega (arith, cwide j hj)))
                λ crow v. rw (store_row sized.coded j crow hj) (
                  returns (record {
                    sized = record {
                      coeffs = store-HasShape sized.coeffs j row hj (u.same_length ∙ wide j hj);
                      coded = store-HasShape sized.coded j crow hj (v.same_length ∙ cwide j hj);
                    };
                    same_count = refl;
                    coeffs = λ a c. ground (
                      arith,
                      at-set sized.coeffs j row a c hj,
                      Updated-entry i (i + (n - i)) q src dst row u low
                          (λ k h. at_right sized.coeffs i k (omega arith)) c,
                    );
                    coded = λ a c. ground (
                      arith,
                      at-set sized.coded j crow a c hj,
                      Updated-entry 0 (0 + w) q csrc cdst crow v (λ k h. absurd (omega arith))
                          (λ k h. at_right sized.coded i k (omega arith)) c,
                    );
                  }))))

module _ {F : Type 0} ⦃g : Field F⦄ (r n w i : ℕ) (hi : i < r) (hn : i < n) (s : DecoderState F)
    (sized : Sized s r n w) (low : (c : ℕ) → c < i → at s.coeffs i c ≡ g.zero)
    (pivot : is_zero (at s.coeffs i i) ≡ false) where
  -- A row whose cell is zero already is as if its multiple were added.
  already_clear :
      (j : ℕ) (x y : F) → is_zero (at s.coeffs j i) ≡ true → g.add x (g.mul y (quotient s i j)) ≡ x
  already_clear j x y e =
      ap (λ z. g.add x (g.mul y (g.div z (at s.coeffs i i)))) (is_zero→eq (at s.coeffs j i) e)
      ∙ rw (div-zero (at s.coeffs i i) pivot, mul-zero y) (add-zero x)

  clear_unless_zero-ok :
      (j : ℕ) → j < r → Returns (Cleared r n w i (λ a. j == a) s) (clear_unless_zero n i j s)
  unfolding clear_unless_zero
  clear_unless_zero-ok j hj = rw (cell-ok sized.coeffs j i hj hn) (
      Returns-if (is_zero (at s.coeffs j i))
        (λ e. returns (record {
          sized = sized;
          same_count = refl;
          coeffs = λ a c. ground (arith, already_clear j (at s.coeffs j c) (at s.coeffs i c) e);
          coded = λ a c. ground (arith, already_clear j (at s.coded j c) (at s.coded i c) e);
        }))
        (λ e. clear_row-ok r n w i hi hn s sized low j hj))

-- Rows in range, other than row `i`.
abbrev pub Others : ℕ → ℕ → List ℕ → Type 0
Others r i [] = Unit {0}
Others r i (j ∷ js) = (j < r) × (j ≢ i) × Others r i js

module _ {F : Type 0} ⦃g : Field F⦄ (r n w i : ℕ) (hi : i < r) (hn : i < n) where
  -- A row that was cleared is not changed by a second round with the same pivot.
  again_clear :
      (s s1 : DecoderState F) (j : ℕ)
      → Cleared r n w i (λ a. j == a) s s1
      → is_zero (at s.coeffs i i) ≡ false
      → j ≢ i
      → (a : ℕ) (x y : F) → (j == a) ≡ true
      → g.add x (g.mul y (quotient s1 i a)) ≡ x
  again_clear s s1 j u pivot ne a x y e =
      let gone : at s1.coeffs a i ≡ g.zero =
        ground (arith, u.coeffs a i, add-mul-div (at s.coeffs a i) (at s.coeffs i i) pivot) in
      let row : at s1.coeffs i i ≡ at s.coeffs i i = ground (arith, u.coeffs i i) in
      ap₂ (λ z p. g.add x (g.mul y (g.div z p))) gone row
      ∙ rw (div-zero (at s.coeffs i i) pivot, mul-zero y) (add-zero x)

  -- The loop over the rows of `js`, none of which is the pivot's. The result does not depend on the
  -- order of the rows, nor on how often a row stands in the list.
  pub clear_rows-ok :
      (js : List ℕ) (s : DecoderState F)
      → Others r i js
      → Sized s r n w
      → ((c : ℕ) → c < i → at s.coeffs i c ≡ g.zero)
      → is_zero (at s.coeffs i i) ≡ false
      → Returns (Cleared r n w i (λ a. contains a js) s) (clear_rows n i js s)
  unfolding clear_rows
  clear_rows-ok [] s others sized low pivot =
      returns
        (record { sized = sized; same_count = refl; coeffs = λ a c. refl; coded = λ a c. refl })
  clear_rows-ok (j ∷ js) s (hj, ne, others) sized low pivot =
      Returns-bind (clear_unless_zero-ok r n w i hi hn s sized low pivot j hj) λ s1 u.
        let row_i : (c : ℕ) → at s1.coeffs i c ≡ at s.coeffs i c =
          λ c. ground (arith, u.coeffs i c) in
        let crow_i : (c : ℕ) → at s1.coded i c ≡ at s.coded i c =
          λ c. ground (arith, u.coded i c) in
        let again : (a : ℕ) (x y : F) → (j == a) ≡ true → g.add x (g.mul y (quotient s1 i a)) ≡ x =
          λ a x y e. again_clear s s1 j u pivot ne a x y e in
        let kept : (a : ℕ) → (j == a) ≡ false → quotient s1 i a ≡ quotient s i a =
          λ a e. ap₂ g.div (ground (arith, u.coeffs a i)) (row_i i) in
        Returns-map
          (clear_rows-ok js s1 others u.sized (λ c h. row_i c ∙ low c h)
            (ap (λ x. is_zero x) (row_i i) ∙ pivot))
          λ s2 v. record {
            sized = v.sized;
            same_count = v.same_count ∙ u.same_count;
            coeffs = λ a c. ground (
              arith,
              v.coeffs a c,
              u.coeffs a c,
              row_i c,
              kept a,
              again a (at s1.coeffs a c) (at s1.coeffs i c),
            );
            coded = λ a c. ground (
              arith,
              v.coded a c,
              u.coded a c,
              crow_i c,
              kept a,
              again a (at s1.coded a c) (at s1.coded i c),
            );
          }

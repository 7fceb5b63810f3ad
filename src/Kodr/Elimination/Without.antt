-- ===== src/Kodr/Elimination/Without.antt =====
-- A state of kodr/matrix/decoder_state.go without one of its rows.
use rlnc_streaming.Base.{
  ℕ, zero, suc, ◌-◌, ◌<◌, ◌≡◌, ap, ◌∙◌, ltb, List, [], ◌∷◌, ◌++◌, if◌then◌else◌, arith, Bool-cases,
  inl, inr, length, length-append, length-take, length-drop, take, drop, get_or, dec_lt, ℕ_discrete,
}
use rlnc_streaming.Field.{mul-zero, Field, is_zero}
use rlnc_streaming.Kodr.Matrix.{Matrix, remove_row}
use rlnc_streaming.Kodr.Matrix.Cells.{at, HasShape}
use rlnc_streaming.Kodr.Elimination.{DecoderState}
use rlnc_streaming.Kodr.Elimination.Clear.{Sized}
use rlnc_streaming.Kodr.Elimination.Weakens.{IsNonZeroRow, Weakens}
use rlnc_streaming.Kodr.Elimination.Equations.{Solves, row_lhs, lhs_congr, lhs_zero}

module _ {A : Type 0} where
  get_or-remove :
      (xs : List A) (i a : ℕ) (d : A)
      → i < length xs
      → get_or (take i xs ++ drop (suc i) xs) a d
        ≡ (if ltb a i then get_or xs a d else get_or xs (suc a) d)
  get_or-remove [] i a d h = absurd (omega arith)
  get_or-remove (x ∷ xs) zero a d h = ground arith
  get_or-remove (x ∷ xs) (suc i) zero d h = ground arith
  get_or-remove (x ∷ xs) (suc i) (suc a) d h = ground (arith, get_or-remove xs i a d)

  length-remove :
      (xs : List A) (i : ℕ) → i < length xs → length (take i xs ++ drop (suc i) xs) ≡ length xs - 1
  length-remove xs i h =
      omega (
        arith,
        length-append (take i xs) (drop (suc i) xs),
        length-take i xs,
        length-drop (suc i) xs,
      )

remove_row-HasShape :
    {F : Type 0} {m : Matrix F} {r c : ℕ} (i : ℕ)
    → HasShape m (suc r) c
    → i < suc r
    → HasShape (remove_row i m) r c
unfolding remove_row
remove_row-HasShape {m} i shape h = record {
  height = omega (arith, shape.height, length-remove m i (rw shape.height h));
  width = λ a l.
      ground
        (arith, get_or-remove m i a [] (rw shape.height h), shape.width a, shape.width (suc a));
}

module _ {F : Type 0} ⦃g : Field F⦄ where
  at-remove_row :
      {m : Matrix F} {r c : ℕ} (i a k : ℕ)
      → HasShape m r c
      → i < r
      → at (remove_row i m) a k ≡ (if ltb a i then at m a k else at m (suc a) k)
  unfolding remove_row
  at-remove_row {m} i a k shape h = ground (arith, get_or-remove m i a [] (rw shape.height h))

-- A state without its row `i`.
abbrev pub without : {F : Type 0} → ℕ → DecoderState F → DecoderState F
without i s = record s { coeffs = remove_row i s.coeffs; coded = remove_row i s.coded }

module _ {F : Type 0} ⦃g : Field F⦄ {r n w : ℕ} (i : ℕ) (s : DecoderState F)
    (sized : Sized s (suc r) n w) (hi : i < suc r) where
  pub without-Sized : Sized (without i s) r n w
  without-Sized = record {
    coeffs = remove_row-HasShape i sized.coeffs hi;
    coded = remove_row-HasShape i sized.coded hi;
  }

  coeffs-without :
      (a k : ℕ)
      → at (without i s).coeffs a k ≡ (if ltb a i then at s.coeffs a k else at s.coeffs (suc a) k)
  coeffs-without a k = at-remove_row i a k sized.coeffs hi

  lhs-without :
      (c : ℕ) (y : ℕ → F) (z : F) (a : ℕ)
      → row_lhs n (without i s) c a y z
        ≡ (if ltb a i then row_lhs n s c a y z else row_lhs n s c (suc a) y z)
  lhs-without c y z a = elim (Bool-cases (ltb a i)) [
    | inl e ↦ rw e (
        lhs_congr n _ _ _ _ y z (λ k. rw e at (coeffs-without a k))
          (rw e at (at-remove_row i a c sized.coded hi)))
    | inr e ↦ rw e (
        lhs_congr n _ _ _ _ y z (λ k. rw e at (coeffs-without a k))
          (rw e at (at-remove_row i a c sized.coded hi)))
  ]

  -- A row without a non-zero coefficient may go.
  pub without-Weakens : ((k : ℕ) → at s.coeffs i k ≡ g.zero) → Weakens n s (without i s)
  without-Weakens e = record {
    solutions = λ c y z h a. ground (arith, lhs-without c y z a, h a, h (suc a));
    orthogonal = λ c y h a. elim (dec_lt a i) [
      | yes l ↦ ground (arith, lhs-without c y g.zero a, h a)
      | no l ↦ elim (ℕ_discrete a i) [
        | yes q ↦
            ap (λ t. row_lhs n s c t y g.zero) q
            ∙ lhs_zero n (λ k. at s.coeffs i k) (at s.coded i c) y g.zero e
                (mul-zero (at s.coded i c))
        | no q ↦ orthogonal_after c y h a (omega arith)
      ]
    ];
  }
    where
      orthogonal_after :
          (c : ℕ) (y : ℕ → F)
          → Solves n (without i s) c y g.zero
          → (a : ℕ) → i < a
          → row_lhs n s c a y g.zero ≡ g.zero
      orthogonal_after c y h zero l = absurd (omega arith)
      orthogonal_after c y h (suc a) l = ground (arith, lhs-without c y g.zero a, h a)

  pub without-nonzero :
      ((a : ℕ) → a < i → IsNonZeroRow s a) → (a : ℕ) → a < i → IsNonZeroRow (without i s) a
  without-nonzero f a h =
      let (c, nz) = f a h in
      (c, ap {A = F} (λ x. is_zero x) (ground (arith, coeffs-without a c)) ∙ nz)

-- ===== src/Kodr/State/Rows.antt =====
-- `AddPiece` of kodr/matrix/decoder_state.go.
use rlnc_streaming.Base.{
  ℕ, zero, suc, ◌≡◌, sym, ap, ◌∙◌, List, [], ◌∷◌, ◌++◌, ◌==◌, if◌then◌else◌, length, length-append,
  get_or, arith, Bool-cases, ==_refl, ==_ne, ℕ_discrete, inl, inr, ◌↔◌,
}
use rlnc_streaming.Field.{Field, zero-mul}
use rlnc_streaming.Kodr.Matrix.{Matrix}
use rlnc_streaming.Kodr.Matrix.Cells.{entry, at, at_below, HasShape}
use rlnc_streaming.Kodr.Elimination.{DecoderState}
use rlnc_streaming.Kodr.Elimination.Clear.{Sized}
use rlnc_streaming.Kodr.Elimination.Equations.{lhs, lhs_congr, lhs_zero, row_lhs, Solves}
use rlnc_streaming.Kodr.Data.{CodedPiece}
use rlnc_streaming.Kodr.State.{add_row}

get_or-append :
    {A : Type 0} (xs : List A) (x : A) (a : ℕ) (d : A)
    → get_or (xs ++ x ∷ []) a d ≡ (if a == length xs then x else get_or xs a d)
get_or-append [] x zero d = ground arith
get_or-append [] x (suc a) d = ground arith
get_or-append (y ∷ xs) x zero d = ground arith
get_or-append (y ∷ xs) x (suc a) d = ground (arith, get_or-append xs x a d)

append-HasShape :
    {F : Type 0} {m : Matrix F} {r c : ℕ} (row : List F)
    → HasShape m r c
    → length row ≡ c
    → HasShape (m ++ row ∷ []) (suc r) c
append-HasShape {m} {r} row shape e = record {
  height = omega (arith, length-append m (row ∷ []), shape.height);
  width = λ a h. ground (arith, get_or-append m row a [], shape.height, shape.width a);
}

module _ {F : Type 0} ⦃g : Field F⦄ {r n w : ℕ} (p : CodedPiece F) (s : DecoderState F)
    (sized : Sized s r n w) where
  pub add_row-Sized : length p.vector ≡ n → length p.piece ≡ w → Sized (add_row p s) (suc r) n w
  unfolding add_row
  add_row-Sized e f = record {
    coeffs = append-HasShape p.vector sized.coeffs e;
    coded = append-HasShape p.piece sized.coded f;
  }

  lhs-add_row :
      (c : ℕ) (y : ℕ → F) (z : F) (a : ℕ)
      → row_lhs n (add_row p s) c a y z ≡ (
          if a == r
          then lhs n (λ k. entry p.vector k) (entry p.piece c) y z
          else row_lhs n s c a y z)
  unfolding add_row
  lhs-add_row c y z a = elim (Bool-cases (a == r)) [
    | inl e ↦
        rw e (lhs_congr n _ _ _ _ y z (λ k. ground (arith, new k, e)) (ground (arith, newc, e)))
    | inr e ↦
        rw e (lhs_congr n _ _ _ _ y z (λ k. ground (arith, new k, e)) (ground (arith, newc, e)))
  ]
    where
      new :
          (k : ℕ)
          → at (add_row p s).coeffs a k ≡ (if a == r then entry p.vector k else at s.coeffs a k)
      new k = ground (arith, get_or-append s.coeffs p.vector a [], sized.coeffs.height)

      newc : at (add_row p s).coded a c ≡ (if a == r then entry p.piece c else at s.coded a c)
      newc = ground (arith, get_or-append s.coded p.piece a [], sized.coded.height)

  -- A new row adds its equation to those of the others.
  pub Solves-add_row :
      (c : ℕ) (y : ℕ → F) (z : F)
      → Solves n (add_row p s) c y z
        ↔ (Solves n s c y z × (lhs n (λ k. entry p.vector k) (entry p.piece c) y z ≡ g.zero))
  Solves-add_row c y z = (
    λ h. (old h, sym (rw (==_refl r) at (lhs-add_row c y z r)) ∙ h r),
    λ (h, e) a. ground (arith, lhs-add_row c y z a, h a, e),
  )
    where
      beyond : row_lhs n s c r y z ≡ g.zero
      beyond =
          lhs_zero n _ _ y z (λ k. at_below sized.coeffs r k (omega arith))
            (ap (λ x. g.mul x z) (at_below sized.coded r c (omega arith)) ∙ zero-mul z)

      old : Solves n (add_row p s) c y z → Solves n s c y z
      old h a = elim (ℕ_discrete a r) [
        | yes q ↦ ap (λ t. row_lhs n s c t y z) q ∙ beyond
        | no q ↦ sym (rw (==_ne a r q) at (lhs-add_row c y z a)) ∙ h a
      ]

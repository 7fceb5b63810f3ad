-- ===== src/Kodr/Elimination/Weakens.antt =====
-- What `Rref` of kodr/matrix/decoder_state.go keeps where rows are taken away: the solutions, and the
-- equations between the coefficients alone.
use rlnc_streaming.Base.{ℕ, ◌≡◌, false}
use rlnc_streaming.Field.{Field, is_zero}
use rlnc_streaming.Kodr.Matrix.Cells.{at}
use rlnc_streaming.Kodr.Elimination.{DecoderState}
use rlnc_streaming.Kodr.Elimination.Equations.{Solves, SameSolutions}

module _ {F : Type 0} ⦃g : Field F⦄ where
  abbrev pub IsNonZeroRow : DecoderState F → ℕ → Type 0
  IsNonZeroRow s a = (c : ℕ) × (is_zero (at s.coeffs a c) ≡ false)

  -- Every solution is kept; of the equations with `z = 0` none is lost.
  pub record Weakens (n : ℕ) (s t : DecoderState F) : Type 0 where
    pub solutions : (c : ℕ) (y : ℕ → F) (z : F) → Solves n s c y z → Solves n t c y z
    pub orthogonal : (c : ℕ) (y : ℕ → F) → Solves n t c y g.zero → Solves n s c y g.zero

module _ {F : Type 0} ⦃g : Field F⦄ (n : ℕ) where
  pub Weakens-refl : (s : DecoderState F) → Weakens n s s
  Weakens-refl s = record { solutions = λ c y z h. h; orthogonal = λ c y h. h }

  pub Weakens-trans : (s t u : DecoderState F) → Weakens n s t → Weakens n t u → Weakens n s u
  Weakens-trans s t u p q = record {
    solutions = λ c y z h. q.solutions c y z (p.solutions c y z h);
    orthogonal = λ c y h. p.orthogonal c y (q.orthogonal c y h);
  }

  pub SameSolutions-Weakens : (s t : DecoderState F) → SameSolutions n s t → Weakens n s t
  SameSolutions-Weakens s t p = record {
    solutions = λ c y z h. (p c y z).0 h;
    orthogonal = λ c y h. (p c y g.zero).1 h;
  }

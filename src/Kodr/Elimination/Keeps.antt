-- ===== src/Kodr/Elimination/Keeps.antt =====
-- What every step of the elimination keeps: the sizes and the solutions.
use rlnc_streaming.Base.{
  ℕ, zero, suc, ◌+◌, ◌≤◌, ◌<◌, ◌≡◌, refl, ◌∙◌, Bool, false, ◌&&◌, ltb, leb, arith, ◌⊎◌,
}
use rlnc_streaming.Field.{Field, zero-mul, add-zero}
use rlnc_streaming.Kodr.Matrix.Cells.{at}
use rlnc_streaming.Kodr.Elimination.{DecoderState, range_from}
use rlnc_streaming.Kodr.Elimination.Clear.{Sized, Cleared, contains, Others}
use rlnc_streaming.Kodr.Elimination.Equations.{
  SameSolutions, SameSolutions-refl, SameSolutions-trans, Cleared-SameSolutions,
}

-- The rows of a range.
pub contains-range_from : (a lo n : ℕ) → contains a (range_from lo n) ≡ (leb lo a && ltb a (lo + n))
unfolding range_from
contains-range_from a lo zero = ground arith
contains-range_from a lo (suc n) = ground (arith, contains-range_from a (suc lo) n)

pub Others-range_from :
    (r i lo n : ℕ) → lo + n ≤ r → (lo + n ≤ i) ⊎ (i < lo) → Others r i (range_from lo n)
unfolding range_from
Others-range_from r i lo zero h k = tt
Others-range_from r i lo (suc n) h k =
    (omega arith, omega arith, Others-range_from r i (suc lo) n (omega arith) (omega arith))

-- What a step keeps.
pub record Keeps {F : Type 0} ⦃g : Field F⦄ (r n w : ℕ) (s s' : DecoderState F) : Type 0 where
  pub sized : Sized s' r n w
  pub same_count : s'.piece_count ≡ s.piece_count
  pub same : SameSolutions n s s'

module _ {F : Type 0} ⦃g : Field F⦄ {r n w : ℕ} where
  pub Keeps-refl : (s : DecoderState F) → Sized s r n w → Keeps r n w s s
  Keeps-refl s sized = record { sized = sized; same_count = refl; same = SameSolutions-refl n s }

  pub Keeps-trans : (s t u : DecoderState F) → Keeps r n w s t → Keeps r n w t u → Keeps r n w s u
  Keeps-trans s t u p q = record {
    sized = q.sized;
    same_count = q.same_count ∙ p.same_count;
    same = SameSolutions-trans n s t u p.same q.same;
  }

  pub Cleared-Keeps :
      (i : ℕ) (chosen : ℕ → Bool) (s s' : DecoderState F)
      → Cleared r n w i chosen s s'
      → chosen i ≡ false
      → Keeps r n w s s'
  Cleared-Keeps i chosen s s' u e = record {
    sized = u.sized;
    same_count = u.same_count;
    same = Cleared-SameSolutions n r w i chosen s s' u e;
  }

module _ {F : Type 0} ⦃g : Field F⦄ where
  -- Below the diagonal the first `i` columns are zero.
  abbrev pub Triangular : ℕ → DecoderState F → Type 0
  Triangular i s = (a c : ℕ) → c < i → c < a → at s.coeffs a c ≡ g.zero

  abbrev pub Upper : DecoderState F → Type 0
  Upper s = (a c : ℕ) → c < a → at s.coeffs a c ≡ g.zero

  pub add-mul_vanish : (x y q : F) → x ≡ g.zero → y ≡ g.zero → g.add x (g.mul y q) ≡ g.zero
  add-mul_vanish x y q e f = rw (e, f, zero-mul q) (add-zero g.zero)

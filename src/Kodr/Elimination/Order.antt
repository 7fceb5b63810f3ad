-- ===== src/Kodr/Elimination/Order.antt =====
-- kodr/matrix/decoder_state.go: the order of the goroutines of one pivot.
use rlnc_streaming.Base.{
  ℕ, ◌<◌, ◌≡◌, sym, ap, ◌∙◌, List, [], Bool, false, if◌then◌else◌, get_or, arith,
}
use rlnc_streaming.Run.{ok, Returns-inv}
use rlnc_streaming.Field.{Field, is_zero}
use rlnc_streaming.Kodr.Matrix.{Matrix}
use rlnc_streaming.Kodr.Matrix.Cells.{at, HasShape, get_or-ext}
use rlnc_streaming.Kodr.Elimination.{DecoderState, clear_rows}
use rlnc_streaming.Kodr.Elimination.Clear.{
  Sized, Cleared, Others, contains, clear_rows-ok, quotient,
}

module _ {F : Type 0} ⦃g : Field F⦄ where
  -- Matrices of one shape with the same cells are equal.
  matrix-ext :
      {m m' : Matrix F} {r c : ℕ}
      → HasShape m r c
      → HasShape m' r c
      → ((i j : ℕ) → at m i j ≡ at m' i j)
      → m ≡ m'
  matrix-ext {m} {m'} s s' e = get_or-ext m m' [] (s.height ∙ sym s'.height) λ i h.
      get_or-ext (get_or m i []) (get_or m' i []) g.zero
        (s.width i (omega (arith, s.height)) ∙ sym (s'.width i (omega (arith, s.height))))
        (λ j k. e i j)

  Cleared-unique :
      {r n w i : ℕ} {p q : ℕ → Bool} {s t u : DecoderState F}
      → ((a : ℕ) → p a ≡ q a)
      → Cleared r n w i p s t
      → Cleared r n w i q s u
      → t ≡ u
  Cleared-unique {i} {s} e x y = λ k. record {
    piece_count = (x.same_count ∙ sym y.same_count) k;
    coeffs =
        matrix-ext x.sized.coeffs y.sized.coeffs
          (λ a c.
            x.coeffs a c
            ∙ ap
                (λ b.
                  if b
                  then g.add (at s.coeffs a c) (g.mul (at s.coeffs i c) (quotient s i a))
                  else at s.coeffs a c)
                (e a)
            ∙ sym (y.coeffs a c))
          k;
    coded =
        matrix-ext x.sized.coded y.sized.coded
          (λ a c.
            x.coded a c
            ∙ ap
                (λ b.
                  if b
                  then g.add (at s.coded a c) (g.mul (at s.coded i c) (quotient s i a))
                  else at s.coded a c)
                (e a)
            ∙ sym (y.coded a c))
          k;
  }

  -- On matrices of one height, with a pivot in row and column i that is not zero and zeros before it in
  -- its row, two lists of the same rows, none of them row i, are cleared without a panic and with the
  -- same result, whatever the order in which the rows stand and however often.
  pub clear_rows_order :
      (r n w i : ℕ) (js ks : List ℕ) (s : DecoderState F)
      → i < r
      → i < n
      → Others r i js
      → Others r i ks
      → ((a : ℕ) → contains a js ≡ contains a ks)
      → Sized s r n w
      → ((c : ℕ) → c < i → at s.coeffs i c ≡ g.zero)
      → is_zero (at s.coeffs i i) ≡ false
      → (t : DecoderState F) × (clear_rows n i js s ≡ ok t) × (clear_rows n i ks s ≡ ok t)
  clear_rows_order r n w i js ks s hi hn oj ok_k same sized low pivot =
      let (t, run, x) = Returns-inv (clear_rows-ok r n w i hi hn js s oj sized low pivot) in
      let (u, run', y) = Returns-inv (clear_rows-ok r n w i hi hn ks s ok_k sized low pivot) in
      (t, run, run' ∙ ap ok (sym (Cleared-unique same x y)))

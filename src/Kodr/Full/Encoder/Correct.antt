-- ===== src/Kodr/Full/Encoder/Correct.antt =====
-- `CodedPiece` of kodr/full/encoder.go.
use rlnc_streaming.Base.{
  ℕ, suc, ◌+◌, ◌≤◌, ◌<◌, ◌≡◌, sym, ap, ap₂, ◌∙◌, List, [], ◌∷◌, arith, length, get_or, replicate,
  length-replicate, get_or-replicate, dec_lt,
}
use rlnc_streaming.Run.{load-ok, Returns, returns, Returns-map, Returns-bind}
use rlnc_streaming.Field.{Field, zero-mul, add-zero}
use rlnc_streaming.Field.Sum.{sum, sum-front, sum_congr}
use rlnc_streaming.Kodr.Matrix.{Matrix}
use rlnc_streaming.Kodr.Matrix.Cells.{entry, at, HasShape, load_row, get_or_beyond}
use rlnc_streaming.Kodr.Elimination.RowOps.{add_scaled-ok}
use rlnc_streaming.Kodr.Data.{multiply_piece}
use rlnc_streaming.Kodr.Full.Encoder.{FullEncoder, combine, coded_piece, piece_size}
use rlnc_streaming.Kodr.Full.Decoder.Correct.{IsCodedFrom}

module _ {F : Type 0} ⦃g : Field F⦄ where
  -- `acc` with a multiple of the piece added.
  multiply_piece-ok :
      (w : ℕ) (p acc : List F) (by : F)
      → length p ≡ w
      → length acc ≡ w
      → Returns
          (λ out.
            (length out ≡ w) × ((c : ℕ) → entry out c ≡ g.add (entry acc c) (g.mul by (entry p c))))
          (multiply_piece p by acc)
  unfolding multiply_piece
  multiply_piece-ok w p acc by hp ha =
      Returns-map (add_scaled-ok (length p) 0 by p acc (omega arith) (omega arith)) λ out u. (
        u.same_length ∙ ha,
        λ c. elim (dec_lt c w) [
          | yes l ↦
              u.inside c (omega arith) (omega arith)
              ∙ ap (g.add (entry acc c)) (g.mul_comm (entry p c) by)
          | no l ↦
              u.after c (omega arith)
              ∙ sym (add-zero (entry acc c))
              ∙ ap (g.add (entry acc c)) (
                  sym (zero-mul by)
                  ∙ g.mul_comm g.zero by
                  ∙ ap (g.mul by) (sym (get_or_beyond p c g.zero (omega arith))))
        ],
      )

  abbrev Combined : Matrix F → ℕ → ℕ → List F → List F → List F → Type 0
  Combined ps w i vector acc out =
      (length out ≡ w)
      × ((c : ℕ)
          → entry out c
            ≡ g.add (entry acc c) (sum (length ps) (λ k. g.mul (entry vector (i + k)) (at ps k c))))

  pub combine-ok :
      (w i : ℕ) (ps : Matrix F) (vector acc : List F)
      → ((a : ℕ) → a < length ps → length (get_or ps a []) ≡ w)
      → i + length ps ≤ length vector
      → length acc ≡ w
      → Returns (Combined ps w i vector acc) (combine i ps vector acc)
  unfolding combine sum
  combine-ok w i [] vector acc wide h e = returns (e, λ c. sym (add-zero (entry acc c)))
  combine-ok w i (p ∷ ps) vector acc wide h e = rw (load-ok vector i g.zero (omega arith)) (
      Returns-bind (multiply_piece-ok w p acc (entry vector i) (wide 0 (omega arith)) e)
        λ mid (size, cells).
          Returns-map
            (combine-ok w (suc i) ps vector mid (λ a l. wide (suc a) (omega arith)) (omega arith)
              size)
            λ out (size2, cells2). (
              size2,
              λ c.
                  cells2 c
                  ∙ ap (λ x. g.add x (tail_sum c)) (cells c)
                  ∙ g.add_assoc (entry acc c) (g.mul (entry vector i) (entry p c)) (tail_sum c)
                  ∙ ap (g.add (entry acc c)) (front c),
            ))
    where
      tail_sum : ℕ → F
      tail_sum c = sum (length ps) (λ k. g.mul (entry vector (suc i + k)) (at ps k c))

      front :
          (c : ℕ)
          → g.add (g.mul (entry vector i) (entry p c)) (tail_sum c)
            ≡ sum (suc (length ps)) (λ k. g.mul (entry vector (i + k)) (at (p ∷ ps) k c))
      front c =
          ap₂ g.add (ap {A = ℕ} (λ t. g.mul (entry vector t) (entry p c)) (omega arith)) (
            sum_congr (length ps) _ _
              (λ k l. ap {A = ℕ} (λ t. g.mul (entry vector t) (at ps k c)) (omega arith)))
          ∙ sym (sum-front (length ps) (λ k. g.mul (entry vector (i + k)) (at (p ∷ ps) k c)))

  combination :
      (rand : ℕ → List F) (n w : ℕ) (e : FullEncoder F)
      → HasShape e.pieces n w
      → (c : ℕ)
      → g.add (entry (replicate (length (get_or e.pieces 0 [])) g.zero) c) (
          sum
            (length e.pieces)
            (λ k. g.mul (entry (rand (length e.pieces)) (0 + k)) (at e.pieces k c)))
        ≡ sum n (λ k. g.mul (entry (rand (length e.pieces)) k) (at e.pieces k c))
  combination rand n w e shape c =
      let v = rand (length e.pieces) in
      ap (λ x. g.add x (sum (length e.pieces) (λ k. g.mul (entry v (0 + k)) (at e.pieces k c))))
        (get_or-replicate (length (get_or e.pieces 0 [])) c g.zero)
      ∙ g.zero-add _
      ∙ sum_congr (length e.pieces) _ _
          (λ k l. ap {A = ℕ} (λ t. g.mul (entry v t) (at e.pieces k c)) (omega arith))
      ∙ ap {A = ℕ} (λ t. sum t (λ k. g.mul (entry v k) (at e.pieces k c))) shape.height

  -- For an encoder with n > 0 pieces of one length w, and random bytes that fill what they are asked
  -- for, `CodedPiece` returns normally: the coding vector is the random one, of n symbols, and the
  -- piece has w symbols, each the combination of the pieces by the coding vector.
  pub coded_piece-IsCodedFrom :
      (rand : ℕ → List F) (n w : ℕ) (e : FullEncoder F)
      → ((k : ℕ) → length (rand k) ≡ k)
      → HasShape e.pieces n w
      → 0 < n
      → Returns (λ p. IsCodedFrom e.pieces n w p × (p.vector ≡ rand n)) (coded_piece rand e)
  unfolding coded_piece piece_size
  coded_piece-IsCodedFrom rand n w e full shape h = rw (load_row shape 0 h) (
      Returns-bind
        (combine-ok w 0 e.pieces (rand (length e.pieces)) (replicate _ g.zero)
          (λ a l. shape.width a (omega (arith, shape.height)))
          (omega (arith, full (length e.pieces))) (length-replicate _ g.zero ∙ shape.width 0 h))
        λ piece (size, cells). returns (
          record {
            vector_length = full (length e.pieces) ∙ shape.height;
            piece_length = size;
            combination = λ c. cells c ∙ combination rand n w e shape c;
          },
          ap rand shape.height,
        ))

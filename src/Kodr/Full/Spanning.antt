-- ===== src/Kodr/Full/Spanning.antt =====
-- kodr/full/decoder.go: a decoder is done only if the coding vectors that it was given span.
use rlnc_streaming.Base.{
  ℕ, suc, ◌+◌, ◌≤◌, ◌<◌, ◌≡◌, ◌↔◌, sym, ap, ◌∙◌, List, [], ◌∷◌, true, false, ltb, ◌==◌,
  if◌then◌else◌, arith, inl, inr, Bool-cases, ==_refl, ==_ne,
}
use rlnc_streaming.Run.{Returns, returns, Returns-map, Returns-bind, Returns-both, Returns-if}
use rlnc_streaming.Field.{Field, zero-mul, mul-zero}
use rlnc_streaming.Field.Sum.{sum_single}
use rlnc_streaming.Kodr.Matrix.{Matrix}
use rlnc_streaming.Kodr.Matrix.Cells.{entry, at, at_below}
use rlnc_streaming.Kodr.Elimination.Equations.{lhs_zero, Solves}
use rlnc_streaming.Kodr.Elimination.Kernel.{dot_product, lhs-homogeneous}
use rlnc_streaming.Kodr.Elimination.Rref.{rref-ok}
use rlnc_streaming.Kodr.Data.{CodedPiece}
use rlnc_streaming.Kodr.State.{add_row}
use rlnc_streaming.Kodr.State.Rows.{add_row-Sized, Solves-add_row}
use rlnc_streaming.Kodr.Full.Decoder.{FullDecoder, new_full_decoder, is_decoded, add_piece}
use rlnc_streaming.Kodr.Full.Decoder.Correct.{
  IsCodedFrom, IsConsistent, new-IsConsistent, add_piece-IsConsistent,
}
use rlnc_streaming.Kodr.Full.Session.{offer, offer_all, AllCodedFrom}
use rlnc_streaming.Kodr.Full.Complete.{
  IsNull, AllNull, Spans, offer_all-done, offer_all-Progress, spanned-done,
}

module _ {F : Type 0} ⦃g : Field F⦄ (pieces : Matrix F) (n w : ℕ) (two : 2 ≤ n) where
  -- A vector that has product zero with the rows and with the piece has product zero with the new rows.
  abbrev Inherits : FullDecoder F → CodedPiece F → FullDecoder F → Type 0
  Inherits d p d' =
      (y : ℕ → F) → IsNull n d y → dot_product n (entry p.vector) y ≡ g.zero → IsNull n d' y

  add_piece-Inherits :
      (r : ℕ) (d : FullDecoder F) (p : CodedPiece F)
      → IsConsistent pieces n w d r
      → IsCodedFrom pieces n w p
      → is_decoded d ≡ false
      → Returns (Inherits d p) (add_piece p d)
  unfolding add_piece
  add_piece-Inherits r d p ok_d coded more = rw more (
      Returns-if (ltb 1 (d.received + 1))
        (λ e.
          Returns-bind
            (rref-ok (suc r) n w (add_row p d.state) (omega arith)
              (ground (arith, ok_d.expected, ok_d.useful, more))
              (add_row-Sized p d.state ok_d.sized coded.vector_length coded.piece_length))
            λ s (r', u). returns (λ y h z. u.weakens.solutions 0 y g.zero (added y h z)))
        (λ e. returns added))
    where
      added :
          (y : ℕ → F)
          → IsNull n d y
          → dot_product n (entry p.vector) y ≡ g.zero
          → Solves n (add_row p d.state) 0 y g.zero
      added y h z =
          (Solves-add_row p d.state ok_d.sized 0 y g.zero).1
            (h, lhs-homogeneous n (entry p.vector) y (entry p.piece 0) ∙ z)

  offer_all-Inherits :
      (r : ℕ) (ps : List (CodedPiece F)) (d : FullDecoder F)
      → IsConsistent pieces n w d r
      → AllCodedFrom pieces n w ps
      → Returns (λ d'. (y : ℕ → F) → IsNull n d y → AllNull n y ps → IsNull n d' y) (offer_all ps d)
  unfolding offer_all offer
  offer_all-Inherits r [] d c all = returns (λ y h z. h)
  offer_all-Inherits r (p ∷ ps) d c (coded, all) = elim (Bool-cases (is_decoded d)) [
    | inl e ↦ rw (e, offer_all-done ps d e) (returns (λ y h z. h))
    | inr e ↦ rw e (
        Returns-bind
          (Returns-both (add_piece-IsConsistent pieces n w r two d c p coded e)
            (add_piece-Inherits r d p c coded e))
          λ d1 ((r1, c1), inherits).
            Returns-map (offer_all-Inherits r1 ps d1 c1 all)
              λ d2 rest y h (first, others). rest y (inherits y h first) others)
  ]

  -- Every vector has product zero with the rows of a new decoder.
  new-IsNull : (y : ℕ → F) → IsNull n (new_full_decoder n) y
  new-IsNull y a =
      let empty = new-IsConsistent pieces n w (omega arith) in
      lhs_zero n _ _ y g.zero (λ k. at_below empty.sized.coeffs a k (omega arith))
        (mul-zero (at (new_full_decoder {F = F} n).state.coded a 0))

  -- Only zero has product zero with the rows of a decoder that is done.
  done-null :
      (r : ℕ) (d : FullDecoder F)
      → IsConsistent pieces n w d r
      → is_decoded d ≡ true
      → (y : ℕ → F) → IsNull n d y
      → (k : ℕ) → k < n
      → y k ≡ g.zero
  done-null r d c done y null k h =
      sym picked
      ∙ sym (lhs-homogeneous n (λ j. at d.state.coeffs k j) y (at d.state.coded k 0))
      ∙ null k
    where
      identity : (j : ℕ) → at d.state.coeffs k j ≡ (if k == j then g.one else g.zero)
      identity j = c.full (ground (arith, c.expected, c.useful, done, c.bounded)) k j h

      picked : dot_product n (λ j. at d.state.coeffs k j) y ≡ y k
      picked =
          sum_single n k (λ j. g.mul (at d.state.coeffs k j) (y j)) h
            (λ j l ne.
              ap (λ x. g.mul x (y j)) (identity j ∙ rw (==_ne k j (λ e. ne (sym e))))
              ∙ zero-mul (y j))
          ∙ ap (λ x. g.mul x (y k)) (identity k ∙ rw (==_refl k))
          ∙ g.one-mul (y k)

  -- However many pieces coded from n >= 2 original pieces are offered to a new decoder, it takes them without
  -- an error or a panic, and then it is done if and only if their coding vectors span all vectors of
  -- length n.
  pub done-Spans :
      (ps : List (CodedPiece F))
      → AllCodedFrom pieces n w ps
      → Returns (λ d. (is_decoded d ≡ true) ↔ Spans n ps) (offer_all ps (new_full_decoder n))
  done-Spans ps all =
      Returns-map
        (Returns-both
          (offer_all-Progress pieces n w 0 ps (new_full_decoder n) two
            (new-IsConsistent pieces n w (omega arith)) all)
          (offer_all-Inherits 0 ps (new_full_decoder n) (new-IsConsistent pieces n w (omega arith))
            all))
        λ d (((r, c), progress), inherits). (
          λ done y nulls k h. done-null r d c done y (inherits y (new-IsNull y) nulls) k h,
          λ spans. spanned-done pieces n w r ps (new_full_decoder n) d spans c progress,
        )

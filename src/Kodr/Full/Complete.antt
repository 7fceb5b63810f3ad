-- ===== src/Kodr/Full/Complete.antt =====
-- kodr/full/decoder.go: when the decoder is done.
use mathlib.Core.List.{flatten}
use rlnc_streaming.Base.{
  ℕ, suc, ◌+◌, ◌≤◌, ◌<◌, ◌≡◌, ◌⊎◌, inl, inr, refl, sym, ◌∙◌, List, [], ◌∷◌, true, false, ltb,
  length, arith, Bool-cases, dec_lt, le→leb,
}
use rlnc_streaming.Run.{ok, Returns, returns, Returns-map, Returns-bind, Returns-both, Returns-if}
use rlnc_streaming.Field.{Field, is_zero, eq→is_zero, mul-zero}
use rlnc_streaming.Kodr.Matrix.{Matrix}
use rlnc_streaming.Kodr.Matrix.Cells.{HasShape, entry, at, at_below}
use rlnc_streaming.Kodr.Elimination.Equations.{lhs_zero, Solves}
use rlnc_streaming.Kodr.Elimination.Kernel.{dot_product, lhs-homogeneous, NullVector, null_vector}
use rlnc_streaming.Kodr.Elimination.Rref.{rref-ok}
use rlnc_streaming.Kodr.Data.{CodedPiece}
use rlnc_streaming.Kodr.State.{add_row}
use rlnc_streaming.Kodr.State.Rows.{add_row-Sized, Solves-add_row}
use rlnc_streaming.Kodr.Full.Decoder.{
  FullDecoder, new_full_decoder, is_decoded, add_piece, get_pieces,
}
use rlnc_streaming.Kodr.Full.Decoder.Correct.{
  IsCodedFrom, IsConsistent, new-IsConsistent, add_piece-IsConsistent, get_pieces-original,
}
use rlnc_streaming.Kodr.Data.{ceil_div}
use rlnc_streaming.Kodr.Data.Split.{pieces_by_count-IsSplit}
use rlnc_streaming.Kodr.Full.Encoder.{FullEncoder, new_full_encoder_with_piece_count}
use rlnc_streaming.Kodr.Full.Encoder.Correct.{coded_piece-IsCodedFrom}
use rlnc_streaming.Run.{Returns-inv}
use rlnc_streaming.Base.{subst, ◌++◌, replicate}
use rlnc_streaming.Kodr.Full.Session.{
  offer, offer_all, AllCodedFrom, AllFill, coded_pieces, transfer,
}

module _ {F : Type 0} ⦃g : Field F⦄ where
  -- `y` has product zero with every row of coefficients of the decoder.
  abbrev pub IsNull : ℕ → FullDecoder F → (ℕ → F) → Type 0
  IsNull n d y = Solves n d.state 0 y g.zero

  -- `y` has product zero with the coding vector of every piece.
  abbrev pub AllNull : ℕ → (ℕ → F) → List (CodedPiece F) → Type 0
  AllNull n y [] = Unit {0}
  AllNull n y (p ∷ ps) = (dot_product n (entry p.vector) y ≡ g.zero) × AllNull n y ps

  -- The coding vectors span all vectors of length `n`: only zero has product zero with each of them.
  abbrev pub Spans : ℕ → List (CodedPiece F) → Type 0
  Spans n ps = (y : ℕ → F) → AllNull n y ps → (k : ℕ) → k < n → y k ≡ g.zero

  -- What one decoder knows of another, to which a piece was added.
  abbrev Remembers : ℕ → FullDecoder F → CodedPiece F → FullDecoder F → Type 0
  Remembers n d p d' =
      (y : ℕ → F) → IsNull n d' y → IsNull n d y × (dot_product n (entry p.vector) y ≡ g.zero)

  module _ (pieces : Matrix F) (n w r : ℕ) (two : 2 ≤ n) (d : FullDecoder F)
      (ok_d : IsConsistent pieces n w d r) (p : CodedPiece F) (coded : IsCodedFrom pieces n w p)
      (more : is_decoded d ≡ false) where
    row_known :
        (y : ℕ → F)
        → Solves n (add_row p d.state) 0 y g.zero
        → IsNull n d y × (dot_product n (entry p.vector) y ≡ g.zero)
    row_known y h =
        let (old, new) = (Solves-add_row p d.state ok_d.sized 0 y g.zero).0 h in
        (old, sym (lhs-homogeneous n (entry p.vector) y (entry p.piece 0)) ∙ new)

    add_piece-Remembers : Returns (Remembers n d p) (add_piece p d)
    unfolding add_piece
    add_piece-Remembers = rw more (
        Returns-if (ltb 1 (d.received + 1))
          (λ e.
            Returns-bind
              (rref-ok (suc r) n w (add_row p d.state) (omega arith)
                (ground (arith, ok_d.expected, ok_d.useful, more))
                (add_row-Sized p d.state ok_d.sized coded.vector_length coded.piece_length))
              λ s (r', u). returns (λ y h. row_known y (u.weakens.orthogonal 0 y h)))
          (λ e. returns (λ y h. row_known y h)))

  pub offer_all-done :
      (ps : List (CodedPiece F)) (d : FullDecoder F) → is_decoded d ≡ true → offer_all ps d ≡ ok d
  unfolding offer_all offer
  offer_all-done [] d e = refl
  offer_all-done (p ∷ ps) d e = rw e (offer_all-done ps d e)

  -- The decoder is done, or no equation is lost.
  abbrev pub Progress : ℕ → FullDecoder F → List (CodedPiece F) → FullDecoder F → Type 0
  Progress n d ps d' =
      (is_decoded d' ≡ true) ⊎ ((y : ℕ → F) → IsNull n d' y → IsNull n d y × AllNull n y ps)

  pub offer_all-Progress :
      (pieces : Matrix F) (n w r : ℕ) (ps : List (CodedPiece F)) (d : FullDecoder F)
      → 2 ≤ n
      → IsConsistent pieces n w d r
      → AllCodedFrom pieces n w ps
      → Returns
          (λ d'. ((r' : ℕ) × IsConsistent pieces n w d' r') × Progress n d ps d')
          (offer_all ps d)
  unfolding offer_all offer
  offer_all-Progress pieces n w r [] d two c all = returns ((r, c), inr (λ y h. (h, tt)))
  offer_all-Progress pieces n w r (p ∷ ps) d two c (coded, all) = elim (Bool-cases (is_decoded d)) [
    | inl e ↦ rw (e, offer_all-done ps d e) (returns ((r, c), inl e))
    | inr e ↦ rw e (
        Returns-bind
          (Returns-both (add_piece-IsConsistent pieces n w r two d c p coded e)
            (add_piece-Remembers pieces n w r two d c p coded e))
          λ d1 ((r1, c1), known).
            Returns-map (offer_all-Progress pieces n w r1 ps d1 two c1 all)
              λ d2 (c2, progress). (c2, onward d1 d2 known progress))
  ]
    where
      onward :
          (d1 d2 : FullDecoder F)
          → Remembers n d p d1
          → Progress n d1 ps d2
          → Progress n d (p ∷ ps) d2
      onward d1 d2 known (inl e) = inl e
      onward d1 d2 known (inr f) =
          inr (λ y h. let (h1, rest) = f y h in let (h0, first) = known y h1 in (h0, (first, rest)))

  -- With fewer rows than columns some vector that is not zero has product zero with every row.
  short-misses :
      (n w r : ℕ) (pieces : Matrix F) (d : FullDecoder F)
      → IsConsistent pieces n w d r
      → r < n
      → (y : ℕ → F) × IsNull n d y × ((k : ℕ) × (k < n) × (is_zero (y k) ≡ false))
  short-misses n w r pieces d c h =
      let v = null_vector r n (at d.state.coeffs) h in
      (v.vector, null v, (v.place, v.inside, v.nonzero))
    where
      null : (v : NullVector r n (at d.state.coeffs)) → IsNull n d v.vector
      null v a = elim (dec_lt a r) [
        | yes l ↦ lhs-homogeneous n _ v.vector (at d.state.coded a 0) ∙ v.null a l
        | no l ↦
            lhs_zero n _ _ v.vector g.zero (λ k. at_below c.sized.coeffs a k (omega arith))
              (mul-zero (at d.state.coded a 0))
      ]

  pub spanned-done :
      (pieces : Matrix F) (n w r : ℕ) (ps : List (CodedPiece F)) (d0 d : FullDecoder F)
      → Spans n ps
      → IsConsistent pieces n w d r
      → Progress n d0 ps d
      → is_decoded d ≡ true
  spanned-done pieces n w r ps d0 d spans c (inl e) = e
  spanned-done pieces n w r ps d0 d spans c (inr f) = elim (dec_lt r n) [
    | no l ↦ le→leb d.expected d.useful (omega (arith, c.expected, c.useful))
    | yes l ↦
        let (y, null, (k, hk, nz)) = short-misses n w r pieces d c l in
        absurd (cc (eq→is_zero (y k) (spans y (f y null).1 k hk), nz))
  ]

  -- For n >= 2 original pieces of one length: if the coding vectors of the pieces coded from them that
  -- a new decoder is offered span all vectors of length n, then it takes them without an error or a
  -- panic, it is done, and `GetPieces` returns the original pieces.
  pub decode_complete :
      (pieces : Matrix F) (n w : ℕ) (ps : List (CodedPiece F))
      → 2 ≤ n
      → HasShape pieces n w
      → AllCodedFrom pieces n w ps
      → Spans n ps
      → Returns
          (λ d. (is_decoded d ≡ true) × (get_pieces d ≡ ok pieces))
          (offer_all ps (new_full_decoder n))
  decode_complete pieces n w ps two shape all spans =
      Returns-map
        (offer_all-Progress pieces n w 0 ps (new_full_decoder n) two
          (new-IsConsistent pieces n w (omega arith)) all)
        λ d ((r, c), progress).
          let done = spanned-done pieces n w r ps (new_full_decoder n) d spans c progress in
          (done, get_pieces-original pieces n w r shape d c done)

  -- The coding vectors that the sources of random symbols give for `n` pieces span all vectors.
  abbrev pub AllNullRandom : ℕ → (ℕ → F) → List (ℕ → List F) → Type 0
  AllNullRandom n y [] = Unit {0}
  AllNullRandom n y (rand ∷ rands) =
      (dot_product n (entry (rand n)) y ≡ g.zero) × AllNullRandom n y rands

  abbrev pub SpansRandom : ℕ → List (ℕ → List F) → Type 0
  SpansRandom n rands = (y : ℕ → F) → AllNullRandom n y rands → (k : ℕ) → k < n → y k ≡ g.zero

  coded_pieces-AllNull :
      (rands : List (ℕ → List F)) (n w : ℕ) (e : FullEncoder F)
      → AllFill rands
      → HasShape e.pieces n w
      → 0 < n
      → Returns
          (λ ps.
            AllCodedFrom e.pieces n w ps × ((y : ℕ → F) → AllNull n y ps → AllNullRandom n y rands))
          (coded_pieces rands e)
  unfolding coded_pieces
  coded_pieces-AllNull [] n w e fill shape h = returns (tt, λ y a. tt)
  coded_pieces-AllNull (rand ∷ rands) n w e (fill, fills) shape h =
      Returns-bind (coded_piece-IsCodedFrom rand n w e fill shape h) λ p (c, same).
        Returns-bind (coded_pieces-AllNull rands n w e fills shape h) λ ps (cs, rest). returns (
          (c, cs),
          λ y (null, nulls).
              (subst (λ v. dot_product n (entry v) y ≡ g.zero) same null, rest y nulls),
        )

  -- The decoder is done, and its pieces, joined, are the chunk and the padding behind it.
  abbrev pub Arrives : List F → ℕ → FullEncoder F × FullDecoder F → Type 0
  Arrives bytes count r =
      (is_decoded r.1 ≡ true)
      × ((ps : Matrix F) × (get_pieces r.1 ≡ ok ps)
          × (flatten ps ≡ bytes ++ replicate r.0.extra g.zero)
          × (r.0.extra < count))

  -- For a piece count of at least 2 and at most the number of bytes, and random bytes that fill what
  -- they are asked for: if the random coding vectors span all vectors of the length of the piece count,
  -- then the chunk goes through splitting, encoder and decoder without an error or a panic, the decoder
  -- is done, and its pieces, joined, are the chunk and the padding, which is shorter than the count.
  pub transfer_complete :
      (bytes : List F) (count : ℕ) (rands : List (ℕ → List F))
      → 2 ≤ count
      → count ≤ length bytes
      → AllFill rands
      → SpansRandom count rands
      → Returns (Arrives bytes count) (transfer bytes count rands)
  unfolding transfer new_full_encoder_with_piece_count
  transfer_complete bytes count rands two enough fills spans =
      let (r, split_ok, s) = Returns-inv (pieces_by_count-IsSplit bytes count two enough) in
      let w = ceil_div (length bytes) count in
      rw split_ok (
        Returns-bind
          (coded_pieces-AllNull rands count w (record { pieces = r.0; extra = r.1 }) fills s.shape
            (omega arith))
          λ ps (all, random).
            Returns-bind
              (decode_complete r.0 count w ps two s.shape all (λ y null. spans y (random y null)))
              λ d (done, decoded). returns (done, (r.0, decoded, s.joined, s.padding)))

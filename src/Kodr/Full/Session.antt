-- ===== src/Kodr/Full/Session.antt =====
-- One chunk of data from the encoder to the decoder. The decoder is offered one coded piece after the
-- other; once it is done it refuses the rest, which the receiver passes over.
use mathlib.Core.List.{flatten}
use rlnc_streaming.Base.{
  ℕ, ◌≤◌, ◌<◌, ◌≡◌, refl, ◌⊎◌, Bool-cases, inl, inr, List, [], ◌∷◌, ◌++◌, true, false,
  if◌then◌else◌, length, replicate, arith,
}
use rlnc_streaming.Run.{
  Run, ok, err, ◌>>=◌, Returns, returns, Returns-map, Returns-bind, Returns-if, Returns-inv,
  all_useful_pieces_received, more_useful_pieces_required,
}
use rlnc_streaming.Field.{Field}
use rlnc_streaming.Kodr.Matrix.{Matrix}
use rlnc_streaming.Kodr.Matrix.Cells.{HasShape}
use rlnc_streaming.Kodr.Data.{CodedPiece, ceil_div}
use rlnc_streaming.Kodr.Data.Split.{pieces_by_count-IsSplit}
use rlnc_streaming.Kodr.Full.Encoder.{FullEncoder, new_full_encoder_with_piece_count, coded_piece}
use rlnc_streaming.Kodr.Full.Encoder.Correct.{coded_piece-IsCodedFrom}
use rlnc_streaming.Kodr.Full.Decoder.{
  FullDecoder, new_full_decoder, is_decoded, add_piece, get_pieces,
}
use rlnc_streaming.Kodr.Full.Decoder.Correct.{
  IsCodedFrom, IsConsistent, new-IsConsistent, add_piece-IsConsistent, get_pieces-original,
}

module _ {F : Type 0} ⦃g : Field F⦄ where
  -- `AddPiece`, where a decoder that has all useful pieces stays as it is.
  unfoldable pub offer : CodedPiece F → FullDecoder F → Run (FullDecoder F)
  offer p d = if is_decoded d then ok d else add_piece p d

  unfoldable pub offer_all : List (CodedPiece F) → FullDecoder F → Run (FullDecoder F)
  offer_all [] d = ok d
  offer_all (p ∷ ps) d = do d' ← offer p d; offer_all ps d'

  -- As many coded pieces as there are sources of random coefficients.
  unfoldable pub coded_pieces : List (ℕ → List F) → FullEncoder F → Run (List (CodedPiece F))
  coded_pieces [] e = ok []
  coded_pieces (rand ∷ rands) e = do p ← coded_piece rand e; ps ← coded_pieces rands e; ok (p ∷ ps)

  abbrev pub AllCodedFrom : Matrix F → ℕ → ℕ → List (CodedPiece F) → Type 0
  AllCodedFrom pieces n w [] = Unit {0}
  AllCodedFrom pieces n w (p ∷ ps) = IsCodedFrom pieces n w p × AllCodedFrom pieces n w ps

  pub offer-refuses :
      (p : CodedPiece F) (d : FullDecoder F)
      → is_decoded d ≡ true
      → add_piece p d ≡ err all_useful_pieces_received
  unfolding add_piece
  offer-refuses p d e = rw e

  offer_all-IsConsistent :
      (pieces : Matrix F) (n w r : ℕ) (ps : List (CodedPiece F)) (d : FullDecoder F)
      → 2 ≤ n
      → IsConsistent pieces n w d r
      → AllCodedFrom pieces n w ps
      → Returns (λ d'. (r' : ℕ) × IsConsistent pieces n w d' r') (offer_all ps d)
  unfolding offer_all offer
  offer_all-IsConsistent pieces n w r [] d two c all = returns (r, c)
  offer_all-IsConsistent pieces n w r (p ∷ ps) d two c (coded, all) =
      Returns-bind {P = λ d'. (r' : ℕ) × IsConsistent pieces n w d' r'}
        (Returns-if (is_decoded d) (λ e. returns (r, c))
          (λ e. add_piece-IsConsistent pieces n w r two d c p coded e))
        λ d' (r', c'). offer_all-IsConsistent pieces n w r' ps d' two c' all

  -- What `GetPieces` answers of original pieces: them, or that more pieces are required.
  abbrev pub Answers : Matrix F → FullDecoder F → Type 0
  Answers pieces d = (get_pieces d ≡ err more_useful_pieces_required) ⊎ (get_pieces d ≡ ok pieces)

  get_pieces_early :
      (d : FullDecoder F) → is_decoded d ≡ false → get_pieces d ≡ err more_useful_pieces_required
  unfolding get_pieces
  get_pieces_early d e = rw e refl

  -- For n >= 2 original pieces of one length: however many pieces coded from them are offered to a new
  -- decoder, in whatever order, none makes it fail, and then `GetPieces` returns the original pieces or
  -- the error that more useful pieces are required.
  pub decode_original :
      (pieces : Matrix F) (n w : ℕ) (ps : List (CodedPiece F))
      → 2 ≤ n
      → HasShape pieces n w
      → AllCodedFrom pieces n w ps
      → Returns (Answers pieces) (offer_all ps (new_full_decoder n))
  decode_original pieces n w ps two shape all =
      Returns-map
        (offer_all-IsConsistent pieces n w 0 ps (new_full_decoder n) two
          (new-IsConsistent pieces n w (omega arith)) all)
        λ d (r, c). elim (Bool-cases (is_decoded d)) [
          | inl done ↦ inr (get_pieces-original pieces n w r shape d c done)
          | inr e ↦ inl (get_pieces_early d e)
        ]

  abbrev pub AllFill : List (ℕ → List F) → Type 0
  AllFill [] = Unit {0}
  AllFill (rand ∷ rands) = ((k : ℕ) → length (rand k) ≡ k) × AllFill rands

  pub coded_pieces-AllCodedFrom :
      (rands : List (ℕ → List F)) (n w : ℕ) (e : FullEncoder F)
      → AllFill rands
      → HasShape e.pieces n w
      → 0 < n
      → Returns (AllCodedFrom e.pieces n w) (coded_pieces rands e)
  unfolding coded_pieces
  coded_pieces-AllCodedFrom [] n w e fill shape h = returns tt
  coded_pieces-AllCodedFrom (rand ∷ rands) n w e (fill, fills) shape h =
      Returns-bind (coded_piece-IsCodedFrom rand n w e fill shape h) λ p (c, v).
        Returns-bind (coded_pieces-AllCodedFrom rands n w e fills shape h) λ ps cs. returns (c, cs)

  -- The whole way of a chunk: split, encoded, offered to a decoder for the same number of pieces.
  unfoldable pub transfer : List F → ℕ → List (ℕ → List F) → Run (FullEncoder F × FullDecoder F)
  transfer bytes count rands = do
    e ← new_full_encoder_with_piece_count bytes count
    ps ← coded_pieces rands e
    d ← offer_all ps (new_full_decoder count)
    ok (e, d)

  -- `GetPieces` answers that more pieces are required, or with pieces which, joined, are the chunk and
  -- the padding behind it, which is shorter than the number of pieces.
  abbrev pub Delivered : List F → ℕ → FullEncoder F × FullDecoder F → Type 0
  Delivered bytes count r =
      (ps : Matrix F) × Answers ps r.1
      × (flatten ps ≡ bytes ++ replicate r.0.extra g.zero)
      × (r.0.extra < count)

  -- For a piece count of at least 2 and at most the number of bytes, and random bytes that fill what
  -- they are asked for, the way of a chunk through splitting, encoder and decoder never fails, whatever
  -- the coefficients; then `GetPieces` returns the error that more useful pieces are required, or
  -- pieces which, joined, are the chunk and the padding, which is shorter than the piece count.
  pub transfer_correct :
      (bytes : List F) (count : ℕ) (rands : List (ℕ → List F))
      → 2 ≤ count
      → count ≤ length bytes
      → AllFill rands
      → Returns (Delivered bytes count) (transfer bytes count rands)
  unfolding transfer new_full_encoder_with_piece_count
  transfer_correct bytes count rands two enough fills =
      let split = Returns-inv (pieces_by_count-IsSplit bytes count two enough) in
      let (r, split_ok, s) = split in
      let w = ceil_div (length bytes) count in
      rw split_ok (
        Returns-bind
          (coded_pieces-AllCodedFrom rands count w (record { pieces = r.0; extra = r.1 }) fills
            s.shape (omega arith))
          λ ps all.
            Returns-bind (decode_original r.0 count w ps two s.shape all)
              λ d decoded. returns (r.0, decoded, s.joined, s.padding))

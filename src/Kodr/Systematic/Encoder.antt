-- ===== src/Kodr/Systematic/Encoder.antt =====
-- kodr/systematic/encoder.go. The random bytes are an argument, as for the full encoder.
pub mod Complete
use rlnc_streaming.Base.{
  ℕ, ◌+◌, ◌-◌, ◌*◌, List, [], ◌∷◌, ◌++◌, ltb, if◌then◌else◌, length, take, replicate,
}
use rlnc_streaming.Run.{Run, ok, ◌>>=◌, load, store}
use rlnc_streaming.Field.{Field}
use rlnc_streaming.Kodr.Data.{CodedPiece, pieces_by_size, pieces_by_count}
use rlnc_streaming.Kodr.Full.Encoder.{combine}

-- `SystematicRLNCEncoder`, without the field.
pub record SystematicEncoder (F : Type 0) : Type 0 where
  pub current_piece_id : ℕ
  pub pieces : List (List F)
  pub extra : ℕ

module _ {F : Type 0} where
  -- `PieceCount`
  abbrev pub piece_count : SystematicEncoder F → ℕ
  piece_count e = length e.pieces

  -- `PieceSize`
  unfoldable pub piece_size : SystematicEncoder F → Run ℕ
  piece_size e = do p ← load e.pieces 0; ok (length p)

  -- `CodedPieceLen`
  unfoldable pub coded_piece_len : SystematicEncoder F → Run ℕ
  coded_piece_len e = do n ← piece_size e; ok (piece_count e + n)

  -- `DecodableLen`
  unfoldable pub decodable_len : SystematicEncoder F → Run ℕ
  decodable_len e = do n ← coded_piece_len e; ok (piece_count e * n)

  -- `Padding`
  abbrev pub padding : SystematicEncoder F → ℕ
  padding e = e.extra

  -- `NewSystematicRLNCEncoder`
  abbrev pub new_systematic_encoder : List (List F) → SystematicEncoder F
  new_systematic_encoder pieces = record { current_piece_id = 0; pieces = pieces; extra = 0 }

module _ {F : Type 0} ⦃g : Field F⦄ where
  -- `systematicCodingVector`; the `nil` of the source is the empty list.
  unfoldable pub systematic_coding_vector : ℕ → SystematicEncoder F → Run (List F)
  systematic_coding_vector idx e =
      if ltb idx (piece_count e) then store (replicate (piece_count e) g.zero) idx g.one else ok []

  -- `copy` into a new piece of `n` symbols.
  unfoldable pub copy_piece : ℕ → List F → List F
  copy_piece n p = take n p ++ replicate (n - length p) g.zero

  -- `CodedPiece`: the piece and the encoder after the call.
  unfoldable pub coded_piece :
      (ℕ → List F) → SystematicEncoder F → Run (CodedPiece F × SystematicEncoder F)
  coded_piece rand e =
      if ltb e.current_piece_id (piece_count e)
      then (do
        vector ← systematic_coding_vector e.current_piece_id e
        n ← piece_size e
        original ← load e.pieces e.current_piece_id
        ok (
          record { vector = vector; piece = copy_piece n original },
          record e { current_piece_id = e.current_piece_id + 1 },
        ))
      else do
        let vector = rand (piece_count e)
        n ← piece_size e
        piece ← combine 0 e.pieces vector (replicate n g.zero)
        ok (record { vector = vector; piece = piece }, e)

  -- `NewSystematicRLNCEncoderWithPieceCount`
  unfoldable pub new_systematic_encoder_with_piece_count : List F → ℕ → Run (SystematicEncoder F)
  new_systematic_encoder_with_piece_count bytes count = do
    split ← pieces_by_count bytes count
    ok (record (new_systematic_encoder split.0) { extra = split.1 })

  -- `NewSystematicRLNCEncoderWithPieceSize`
  unfoldable pub new_systematic_encoder_with_piece_size : List F → ℕ → Run (SystematicEncoder F)
  new_systematic_encoder_with_piece_size bytes size = do
    split ← pieces_by_size bytes size
    ok (record (new_systematic_encoder split.0) { extra = split.1 })

  -- One coded piece after the other, as many as there are sources of random symbols.
  unfoldable pub coded_pieces :
      List (ℕ → List F) → SystematicEncoder F → Run (List (CodedPiece F) × SystematicEncoder F)
  coded_pieces [] e = ok ([], e)
  coded_pieces (rand ∷ rands) e = do
    drawn ← coded_piece rand e
    rest ← coded_pieces rands drawn.1
    ok (drawn.0 ∷ rest.0, rest.1)

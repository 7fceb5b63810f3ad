-- ===== src/Kodr/Full/Encoder.antt =====
-- kodr/full/encoder.go and kodr/full/recoder.go. The random bytes of `GenerateCodingVector` come from
-- `crypto/rand`: they are the argument `rand`, which gives as many symbols as it is asked for.
pub mod Correct
use rlnc_streaming.Base.{ℕ, suc, ◌+◌, ◌*◌, List, [], ◌∷◌, length, replicate}
use rlnc_streaming.Run.{Run, ok, ◌>>=◌, load}
use rlnc_streaming.Field.{Field}
use rlnc_streaming.Kodr.Matrix.{Matrix, multiply}
use rlnc_streaming.Kodr.Data.{
  CodedPiece, multiply_piece, pieces_by_size, pieces_by_count, coded_pieces_for_recoding,
}

-- `FullRLNCEncoder`, without the field.
pub record FullEncoder (F : Type 0) : Type 0 where
  pub pieces : List (List F)
  pub extra : ℕ

-- `FullRLNCRecoder`
pub record FullRecoder (F : Type 0) : Type 0 where
  pub pieces : List (CodedPiece F)
  pub coding_matrix : Matrix F

module _ {F : Type 0} where
  -- `PieceCount`
  abbrev pub piece_count : FullEncoder F → ℕ
  piece_count e = length e.pieces

  -- `PieceSize`
  unfoldable pub piece_size : FullEncoder F → Run ℕ
  piece_size e = do p ← load e.pieces 0; ok (length p)

  -- `CodedPieceLen`
  unfoldable pub coded_piece_len : FullEncoder F → Run ℕ
  coded_piece_len e = do n ← piece_size e; ok (piece_count e + n)

  -- `DecodableLen`
  unfoldable pub decodable_len : FullEncoder F → Run ℕ
  decodable_len e = do n ← coded_piece_len e; ok (piece_count e * n)

  -- `Padding`
  abbrev pub padding : FullEncoder F → ℕ
  padding e = e.extra

  -- `NewFullRLNCEncoder`
  abbrev pub new_full_encoder : List (List F) → FullEncoder F
  new_full_encoder pieces = record { pieces = pieces; extra = 0 }

module _ {F : Type 0} ⦃g : Field F⦄ where
  -- The loop over the pieces, from index `i` on: each is added with its coefficient.
  unfoldable pub combine : ℕ → List (List F) → List F → List F → Run (List F)
  combine i [] vector acc = ok acc
  combine i (p ∷ ps) vector acc = do
    by ← load vector i
    acc' ← multiply_piece p by acc
    combine (suc i) ps vector acc'

  -- `CodedPiece` of the encoder.
  unfoldable pub coded_piece : (ℕ → List F) → FullEncoder F → Run (CodedPiece F)
  coded_piece rand e = do
    let vector = rand (piece_count e)
    n ← piece_size e
    piece ← combine 0 e.pieces vector (replicate n g.zero)
    ok (record { vector = vector; piece = piece })

  -- `NewFullRLNCEncoderWithPieceCount`
  unfoldable pub new_full_encoder_with_piece_count : List F → ℕ → Run (FullEncoder F)
  new_full_encoder_with_piece_count bytes count = do
    split ← pieces_by_count bytes count
    ok (record (new_full_encoder split.0) { extra = split.1 })

  -- `NewFullRLNCEncoderWithPieceSize`
  unfoldable pub new_full_encoder_with_piece_size : List F → ℕ → Run (FullEncoder F)
  new_full_encoder_with_piece_size bytes size = do
    split ← pieces_by_size bytes size
    ok (record (new_full_encoder split.0) { extra = split.1 })

  -- `fill`: the coding vectors, one row each.
  unfoldable pub coding_vectors : List (CodedPiece F) → Matrix F
  coding_vectors [] = []
  coding_vectors (p ∷ ps) = p.vector ∷ coding_vectors ps

  -- The coded parts of the pieces.
  unfoldable pub coded_parts : List (CodedPiece F) → List (List F)
  coded_parts [] = []
  coded_parts (p ∷ ps) = p.piece ∷ coded_parts ps

  -- `NewFullRLNCRecoder`
  unfoldable pub new_full_recoder : List (CodedPiece F) → FullRecoder F
  new_full_recoder pieces = record { pieces = pieces; coding_matrix = coding_vectors pieces }

  -- `NewFullRLNCRecoderWithFlattenData`
  unfoldable pub new_full_recoder_with_flatten_data : List F → ℕ → ℕ → Run (FullRecoder F)
  new_full_recoder_with_flatten_data bytes count coded = do
    pieces ← coded_pieces_for_recoding bytes count coded
    ok (new_full_recoder pieces)

  -- `CodedPiece` of the recoder.
  unfoldable pub recoded_piece : (ℕ → List F) → FullRecoder F → Run (CodedPiece F)
  recoded_piece rand r = do
    let vector = rand (length r.pieces)
    first ← load r.pieces 0
    piece ← combine 0 (coded_parts r.pieces) vector (replicate (length first.piece) g.zero)
    mult ← multiply (vector ∷ []) r.coding_matrix
    row ← load mult 0
    ok (record { vector = row; piece = piece })

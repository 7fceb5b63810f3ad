-- ===== src/Kodr/Data.antt =====
-- kodr/data.go: pieces, coded pieces and the splitting of data. Lengths are below 2^53, where the
-- floating-point quotients of the source round up exactly and no conversion wraps around.
pub mod Split
pub mod Flattened
use rlnc_streaming.Base.{
  ℕ, zero, suc, ◌+◌, ◌-◌, ◌*◌, ◌/◌, List, [], ◌∷◌, ◌++◌, Bool, true, false, Option, none, some,
  ◌==◌, ltb, leb, if◌then◌else◌, length, take, replicate, min,
}
use rlnc_streaming.Run.{
  Run, ok, err, ◌>>=◌, slice, zero_piece_size, bad_piece_count, copy_failed,
  piece_count_more_than_total_bytes, coded_data_length_mismatch, coding_vector_length_mismatch,
}
use rlnc_streaming.Field.{Field, is_zero}
use rlnc_streaming.Kodr.Elimination.{add_scaled}

-- `CodedPiece`: a coding vector and the combination of the pieces by its entries.
pub record CodedPiece (F : Type 0) : Type 0 where
  pub vector : List F
  pub piece : List F

-- ceil(a / b), for b > 0
abbrev pub ceil_div : ℕ → ℕ → ℕ
ceil_div a b = (a + b - 1) / b

abbrev pub is_some : Option ℕ → Bool
is_some none = false
is_some (some p) = true

module _ {F : Type 0} where
  -- `Len`
  unfoldable pub len : CodedPiece F → ℕ
  len p = length p.vector + length p.piece

  -- `Flatten`
  unfoldable pub flatten : CodedPiece F → List F
  flatten p = p.vector ++ p.piece

  -- The slices `data[size * i : size * (i + 1)]`, for `n` indices from `i` on.
  unfoldable pub pieces_from : ℕ → ℕ → ℕ → List F → Run (List (List F))
  pieces_from zero i size bytes = ok []
  pieces_from (suc n) i size bytes = do
    piece ← slice (size * i) (size * (i + 1)) bytes
    rest ← pieces_from n (suc i) size bytes
    ok (piece ∷ rest)

module _ {F : Type 0} ⦃g : Field F⦄ where
  -- `Piece.Multiply`
  unfoldable pub multiply_piece : List F → F → List F → Run (List F)
  multiply_piece piece by p = add_scaled (length piece) 0 by piece p

  -- The loop of `IsSystematic`, from index `i` on; `pos` is the place of the one found so far.
  unfoldable pub systematic_from : ℕ → Option ℕ → List F → Option ℕ
  systematic_from i pos [] = pos
  systematic_from i pos (x ∷ xs) =
      let skip = systematic_from (suc i) pos xs in
      let take_it = systematic_from (suc i) (some i) xs in
      if is_zero x
      then skip
      else if g.beq x g.one
      then elim pos [ some p ↦ none | none ↦ take_it ]
      else none

  -- `IsSystematic`
  unfoldable pub is_systematic : CodedPiece F → Bool
  is_systematic p = is_some (systematic_from 0 none p.vector)

  -- `make([]byte, total)`, then `copy`, whose count is compared with the length of the data; the
  -- copy is made only if there is padding.
  unfoldable pub pad : ℕ → ℕ → List F → Run (List F)
  pad padding total bytes =
      if ltb 0 padding
      then if min total (length bytes) == length bytes
        then ok (take total bytes ++ replicate (total - length bytes) g.zero)
        else err copy_failed
      else ok bytes

  -- `OriginalPiecesFromDataAndPieceSize`: the pieces and the padding.
  unfoldable pub pieces_by_size : List F → ℕ → Run (List (List F) × ℕ)
  pieces_by_size bytes size =
      let count = ceil_div (length bytes) size in
      let padding = count * size - length bytes in
      if size == 0
      then err zero_piece_size
      else if leb (length bytes) size
      then err bad_piece_count
      else do
        padded ← pad padding (count * size) bytes
        pieces ← pieces_from count 0 size padded
        ok (pieces, padding)

  -- `OriginalPiecesFromDataAndPieceCount`
  unfoldable pub pieces_by_count : List F → ℕ → Run (List (List F) × ℕ)
  pieces_by_count bytes count =
      let size = ceil_div (length bytes) count in
      let padding = count * size - length bytes in
      if ltb count 2
      then err bad_piece_count
      else if ltb (length bytes) count
      then err piece_count_more_than_total_bytes
      else do
        padded ← pad padding (size * count) bytes
        split ← pieces_by_size padded size
        ok (split.0, padding)

module _ {F : Type 0} where
  -- One flattened piece is cut at the length of its coding vector.
  unfoldable pub cut_piece : ℕ → List F → Run (CodedPiece F)
  cut_piece coded bytes = do
    vector ← slice 0 coded bytes
    piece ← slice coded (length bytes) bytes
    ok (record { vector = vector; piece = piece })

  unfoldable pub cut_pieces : ℕ → List (List F) → Run (List (CodedPiece F))
  cut_pieces coded [] = ok []
  cut_pieces coded (bytes ∷ rest) = do
    piece ← cut_piece coded bytes
    pieces ← cut_pieces coded rest
    ok (piece ∷ pieces)

  -- `CodedPiecesForRecoding`; a piece count of zero is a division by zero.
  unfoldable pub coded_pieces_for_recoding : List F → ℕ → ℕ → Run (List (CodedPiece F))
  coded_pieces_for_recoding bytes count coded =
      let size = length bytes / count in
      if count == 0
      then Run.panic
      else if size * count == length bytes
      then if ltb coded size
        then pieces_from count 0 size bytes >>= cut_pieces coded
        else err coding_vector_length_mismatch
      else err coded_data_length_mismatch

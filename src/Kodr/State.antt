-- ===== src/Kodr/State.antt =====
-- kodr/matrix/decoder_state.go: the methods of `DecoderState` around the elimination. The rows that
-- `AddPiece` appends are the caller's slices, which the elimination overwrites; here they are values.
pub mod Rows
pub mod Partial
use rlnc_streaming.Base.{
  ℕ, zero, suc, List, [], ◌∷◌, ◌++◌, Bool, true, false, not, ◌==◌, leb, if◌then◌else◌, length,
}
use rlnc_streaming.Run.{Run, ok, err, ◌>>=◌, load, piece_out_of_bound, piece_not_decoded_yet}
use rlnc_streaming.Field.{Field, is_zero}
use rlnc_streaming.Kodr.Matrix.{cell, cols, rows}
use rlnc_streaming.Kodr.Elimination.{DecoderState}
use rlnc_streaming.Kodr.Data.{CodedPiece}

module _ {F : Type 0} where
  -- `Rank`
  abbrev pub rank : DecoderState F → ℕ
  rank s = rows s.coeffs

  -- `AddPiece`
  unfoldable pub add_row : CodedPiece F → DecoderState F → DecoderState F
  add_row p s = record s { coeffs = s.coeffs ++ p.vector ∷ []; coded = s.coded ++ p.piece ∷ [] }

module _ {F : Type 0} ⦃g : Field F⦄ where
  -- The loop of `GetPiece` over the coefficients of row `idx`: the one at `idx` must be 1, and the
  -- source asks of each other that it is not 0.
  unfoldable pub looks_decoded : ℕ → ℕ → ℕ → DecoderState F → Run Bool
  looks_decoded zero i idx s = ok true
  looks_decoded (suc n) i idx s = do
    x ← cell s.coeffs idx i
    let rest = looks_decoded n (suc i) idx s
    if (if i == idx then g.beq x g.one else not (is_zero x)) then rest else ok false

  -- `GetPiece`
  unfoldable pub get_piece : ℕ → DecoderState F → Run (List F)
  get_piece idx s =
      if leb s.piece_count idx
      then err piece_out_of_bound
      else if leb (rows s.coeffs) idx
      then err piece_not_decoded_yet
      else if leb s.piece_count (rank s)
      then load s.coded idx
      else do
        n ← cols s.coeffs
        decoded ← looks_decoded n 0 idx s
        if decoded then load s.coded idx else err piece_not_decoded_yet

-- ===== src/Kodr/Full/Decoder.antt =====
-- kodr/full/decoder.go.
pub mod Correct
use rlnc_streaming.Base.{
  ℕ, zero, suc, ◌+◌, ◌-◌, ◌%◌, ◌^◌, List, [], ◌∷◌, Bool, ltb, leb, if◌then◌else◌,
}
use rlnc_streaming.Run.{
  Run, ok, err, ◌>>=◌, all_useful_pieces_received, more_useful_pieces_required,
}
use rlnc_streaming.Field.{Field}
use rlnc_streaming.Kodr.Matrix.{cols}
use rlnc_streaming.Kodr.Elimination.{DecoderState, new_decoder_state, rref}
use rlnc_streaming.Kodr.Data.{CodedPiece}
use rlnc_streaming.Kodr.State.{rank, add_row, get_piece}

-- `FullRLNCDecoder`
pub record FullDecoder (F : Type 0) : Type 0 where
  pub expected : ℕ
  pub useful : ℕ
  pub received : ℕ
  pub state : DecoderState F

module _ {F : Type 0} where
  -- `GetRecv`
  abbrev pub get_recv : FullDecoder F → ℕ
  get_recv d = d.received

  -- `GetExpt`
  abbrev pub get_expt : FullDecoder F → ℕ
  get_expt d = d.expected

  -- `PieceLength`
  unfoldable pub piece_length : FullDecoder F → Run ℕ
  piece_length d = if ltb 0 d.received then cols d.state.coded else ok 0

  -- `IsDecoded`
  abbrev pub is_decoded : FullDecoder F → Bool
  is_decoded d = leb d.expected d.useful

  -- `Required`, on unsigned 64-bit numbers.
  unfoldable pub required : FullDecoder F → ℕ
  required d = (d.expected + 2 ^ 64 - d.useful) % 2 ^ 64

  -- `NewFullRLNCDecoder`
  abbrev pub new_full_decoder : ℕ → FullDecoder F
  new_full_decoder n = record {
    expected = n;
    useful = 0;
    received = 0;
    state = new_decoder_state n;
  }

module _ {F : Type 0} ⦃g : Field F⦄ where
  -- `AddPiece`; on an error the decoder is as it was.
  unfoldable pub add_piece : CodedPiece F → FullDecoder F → Run (FullDecoder F)
  add_piece p d =
      let s = add_row p d.state in
      let received = d.received + 1 in
      if is_decoded d
      then err all_useful_pieces_received
      else if ltb 1 received
      then (do s' ← rref s; ok (record d { useful = rank s'; received = received; state = s' }))
      else ok (record d { useful = d.useful + 1; received = received; state = s })

  -- The loop of `GetPieces`, for `n` indices from `i` on.
  unfoldable pub pieces_loop : ℕ → ℕ → DecoderState F → Run (List (List F))
  pieces_loop zero i s = ok []
  pieces_loop (suc n) i s = do
    piece ← get_piece i s
    rest ← pieces_loop n (suc i) s
    ok (piece ∷ rest)

  -- `GetPieces`
  unfoldable pub get_pieces : FullDecoder F → Run (List (List F))
  get_pieces d =
      if is_decoded d then pieces_loop d.useful 0 d.state else err more_useful_pieces_required

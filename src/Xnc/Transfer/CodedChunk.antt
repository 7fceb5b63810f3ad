-- ===== src/Xnc/Transfer/CodedChunk.antt =====
-- xnc/server.go and xnc/client.go: the coded pieces of a chunk.
use native.Mathlib.Nat.{mul-le-mul_left}
use mathlib.Core.List.{flatten}
use rlnc_streaming.Base.{
  ℕ, ◌*◌, ◌≡◌, refl, ap, ◌∙◌, subst, Bool, false, List, [], ◌∷◌, ◌++◌, map, length, replicate,
  arith,
}
use rlnc_streaming.Run.{Run, ok, ◌>>=◌, Returns-inv}
use rlnc_streaming.Field.{Field}
use rlnc_streaming.Kodr.Matrix.{Matrix}
use rlnc_streaming.Kodr.Matrix.Cells.{HasShape}
use rlnc_streaming.Kodr.Elimination.{range_from}
use rlnc_streaming.Kodr.Data.{CodedPiece, ceil_div}
use rlnc_streaming.Kodr.Data.Split.{pieces_by_count-IsSplit, ceil_div_mul}
use rlnc_streaming.Kodr.Full.Encoder.{FullEncoder, new_full_encoder_with_piece_count}
use rlnc_streaming.Kodr.Full.Decoder.{FullDecoder, new_full_decoder, is_decoded}
use rlnc_streaming.Kodr.Full.Session.{
  AllFill, AllCodedFrom, offer_all, coded_pieces, coded_pieces-AllCodedFrom, transfer,
}
use rlnc_streaming.Xnc.Sizes.{Sizes, IsSane, piece_cnt, coded_piece_cnt}

module _ {F : Type 0} ⦃g : Field F⦄ (z : Sizes) where
  -- The random symbols of the coded pieces of a chunk.
  abbrev pub sources : (ℕ → ℕ → List F) → List (ℕ → List F)
  sources rands = map rands (range_from 0 (coded_piece_cnt z))

  abbrev pub completes : Run (FullEncoder F × FullDecoder F) → Bool
  completes (ok r) = is_decoded r.1
  completes _ = false

  -- The coded pieces of a chunk are enough for its decoder.
  abbrev pub arrives : (ℕ → ℕ → List F) → List F → Bool
  arrives rands chunk = completes (transfer chunk (piece_cnt z) (sources rands))

pub AllFill-map :
    {F : Type 0} ⦃g : Field F⦄ (rands : ℕ → ℕ → List F) (js : List ℕ)
    → ((j k : ℕ) → length (rands j k) ≡ k)
    → AllFill (map rands js)
AllFill-map rands [] fill = tt
AllFill-map rands (j ∷ js) fill = (fill j, AllFill-map rands js fill)

-- The coded pieces of a chunk, as the server makes them and as a decoder takes them.
pub record CodedChunk {F : Type 0} ⦃g : Field F⦄ (z : Sizes) (rands : ℕ → ℕ → List F)
    (chunk : List F) : Type 0 where
  pub pieces : Matrix F
  pub shape : HasShape pieces z.vector z.piece
  pub zeros : ℕ
  pub joined : flatten pieces ≡ chunk ++ replicate zeros g.zero
  pub coded : List (CodedPiece F)
  pub from : AllCodedFrom pieces z.vector z.piece coded
  pub made :
      (new_full_encoder_with_piece_count chunk (piece_cnt z)
        >>= (λ e. coded_pieces (sources z rands) e))
      ≡ ok coded
  pub taken :
      (d : FullDecoder F)
      → offer_all coded (new_full_decoder (piece_cnt z)) ≡ ok d
      → arrives z rands chunk ≡ is_decoded d

pub coded_chunk :
    {F : Type 0} ⦃g : Field F⦄ (z : Sizes) (rands : ℕ → ℕ → List F) (chunk : List F)
    → IsSane z
    → ((j k : ℕ) → length (rands j k) ≡ k)
    → length chunk ≡ z.vector * z.piece
    → CodedChunk z rands chunk
unfolding new_full_encoder_with_piece_count transfer
coded_chunk z rands chunk sane fill whole =
    let (split, split_ok, cut) = Returns-inv (
      pieces_by_count-IsSplit chunk z.vector sane.two
        (omega (arith, whole, mul-le-mul_left z.vector sane.positive))) in
    let width : ceil_div (length chunk) z.vector ≡ z.piece =
      ap {A = ℕ} (λ t. ceil_div t z.vector) whole
      ∙ ceil_div_mul z.piece z.vector (omega (arith, sane.two)) in
    let shape : HasShape split.0 z.vector z.piece =
      subst (HasShape split.0 z.vector) width cut.shape in
    let (ps, made, from) = Returns-inv (
      coded_pieces-AllCodedFrom (sources z rands) z.vector z.piece
        (record { pieces = split.0; extra = split.1 })
        (AllFill-map rands (range_from 0 (coded_piece_cnt z)) fill) shape
        (omega (arith, sane.two))) in
    record {
      pieces = split.0;
      shape = shape;
      zeros = split.1;
      joined = cut.joined;
      coded = ps;
      from = from;
      made = rw (split_ok, made) refl;
      taken = λ d e. rw (split_ok, made, e) refl;
    }

-- ===== src/Tests/Completion.antt =====
-- Transfers that are complete, over the field of two elements.

use rlnc_streaming.Base.{
  ℕ, zero, suc, ◌≡◌, ◌↔◌, ◌<◌, refl, arith, [], ◌∷◌, Bool, true, false, ◌&&◌, length-replicate,
}
use rlnc_streaming.Run.{ok, Returns}
use rlnc_streaming.Field.Sum.{sum}
use rlnc_streaming.Kodr.Matrix.Cells.{entry, at}
use rlnc_streaming.Kodr.Data.{CodedPiece}
use rlnc_streaming.Kodr.Full.Decoder.{is_decoded, get_pieces, new_full_decoder}
use rlnc_streaming.Kodr.Full.Decoder.Correct.{IsCodedFrom}
use rlnc_streaming.Kodr.Full.Session.{offer_all, transfer}
use rlnc_streaming.Kodr.Full.Complete.{
  SpansRandom, Spans, Arrives, decode_complete, transfer_complete,
}
use rlnc_streaming.Kodr.Full.Spanning.{done-Spans}
use rlnc_streaming.Tests.Binary.{binary}
use rlnc_streaming.Tests.Coding.{
  alternate, length-alternate, sample, sources, originals, pair_HasShape, first, first-IsCodedFrom,
}

abbrev pub second : CodedPiece Bool
second = record { vector = false ∷ true ∷ []; piece = false ∷ false ∷ [] }

second_combination :
    (c : ℕ) → entry second.piece c ≡ sum 2 (λ k. entry second.vector k && at originals k c)
unfolding sum
second_combination zero = refl
second_combination (suc zero) = refl
second_combination (suc (suc c)) = refl

pub second-IsCodedFrom : IsCodedFrom originals 2 2 second
second-IsCodedFrom = record {
  vector_length = refl;
  piece_length = refl;
  combination = second_combination;
}

left_zero : (a b : Bool) → binary.add a b ≡ false → b ≡ false → a ≡ false
left_zero false b h e = refl
left_zero true b h e = cc

-- Only zero has product zero with 11 and with 01.
pub both_zero :
    (y : ℕ → Bool)
    → sum 2 (λ k. entry (true ∷ true ∷ []) k && y k) ≡ false
    → sum 2 (λ k. entry (false ∷ true ∷ []) k && y k) ≡ false
    → (k : ℕ) → k < 2
    → y k ≡ false
unfolding sum
both_zero y h1 h2 zero l = left_zero (y 0) (y 1) h1 h2
both_zero y h1 h2 (suc zero) l = h2
both_zero y h1 h2 (suc (suc k)) l = absurd (omega arith)

decode_complete_example :
    Returns
      (λ d. (is_decoded d ≡ true) × (get_pieces d ≡ ok originals))
      (offer_all (first ∷ second ∷ []) (new_full_decoder 2))
decode_complete_example =
    decode_complete originals 2 2 (first ∷ second ∷ []) (omega arith)
      (pair_HasShape true false false false) (first-IsCodedFrom, (second-IsCodedFrom, tt))
      (λ y (h1, (h2, _)). both_zero y h1 h2)

sources_span : SpansRandom 2 sources
unfolding alternate
sources_span y (h1, (h2, _)) = both_zero y h1 h2

transfer_complete_example : Returns (Arrives sample 2) (transfer sample 2 sources)
transfer_complete_example =
    transfer_complete sample 2 sources (omega arith) (omega arith)
      (λ k. length-replicate k true, (length-alternate false, tt)) sources_span

done-Spans_example :
    Returns
      (λ d. (is_decoded d ≡ true) ↔ Spans 2 (first ∷ first ∷ []))
      (offer_all (first ∷ first ∷ []) (new_full_decoder 2))
done-Spans_example =
    done-Spans originals 2 2 (omega arith) (first ∷ first ∷ [])
      (first-IsCodedFrom, (first-IsCodedFrom, tt))

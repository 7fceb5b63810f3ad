-- ===== src/Tests/Systematic.antt =====
-- The systematic codec, over the field of two elements.
use rlnc_streaming.Base.{◌≡◌, refl, arith, [], ◌∷◌, Bool, true, false}
use rlnc_streaming.Run.{ok, ◌>>=◌, Returns}
use rlnc_streaming.Kodr.Full.Decoder.{is_decoded, new_full_decoder}
use rlnc_streaming.Kodr.Full.Decoder as Whole
use rlnc_streaming.Kodr.Full.Session.{offer_all}
use rlnc_streaming.Kodr.Systematic.Encoder.{coded_pieces, new_systematic_encoder}
use rlnc_streaming.Kodr.Systematic.Encoder.Complete.{systematic_complete}
use rlnc_streaming.Kodr.Systematic.Decoder.{add_piece, get_pieces, new_systematic_decoder}
use rlnc_streaming.Kodr.Systematic.Decoder.Full.{to_full, decoder-to_full}
use rlnc_streaming.Tests.Binary.{binary}
use rlnc_streaming.Tests.Coding.{ones, originals, pair_HasShape, first}

systematic_complete_example :
    Returns
      (λ d. (is_decoded d ≡ true) × (Whole.get_pieces d ≡ ok originals))
      (coded_pieces (ones ∷ ones ∷ []) (new_systematic_encoder originals)
        >>= (λ drawn. offer_all drawn.0 (new_full_decoder 2)))
systematic_complete_example =
    systematic_complete originals 2 2 (ones ∷ ones ∷ []) (omega arith)
      (pair_HasShape true false false false) refl

decoder-to_full_example :
    ((add_piece first (new_systematic_decoder 2) >>= (λ d. ok (to_full d)))
      ≡ Whole.add_piece first (new_full_decoder 2))
    × (get_pieces (new_systematic_decoder {F = Bool} 2) ≡ Whole.get_pieces (new_full_decoder 2))
decoder-to_full_example = decoder-to_full first (new_systematic_decoder 2)

-- ===== src/Tests/Recoding.antt =====
-- Matrices, flattened pieces and recoding over the field of two elements.
use rlnc_streaming.Base.{◌≡◌, refl, arith, [], ◌∷◌, Bool, true, false, length-replicate}
use rlnc_streaming.Run.{ok, ◌>>=◌, Returns}
use rlnc_streaming.Kodr.Matrix.{
  Matrix, multiply, cmp, cmp_rows, cmp_row, cols, dot, product_row, product_rows, cell,
}
use rlnc_streaming.Run.{load}
use rlnc_streaming.Kodr.Matrix.Product.{IsProduct, multiply-IsProduct}
use rlnc_streaming.Kodr.Data.Flattened.{joined}
use rlnc_streaming.Kodr.Full.Encoder.{new_full_recoder_with_flatten_data}
use rlnc_streaming.Kodr.Full.Decoder.{new_full_decoder}
use rlnc_streaming.Kodr.Full.Session.{offer_all, Answers}
use rlnc_streaming.Kodr.Full.Recoder.{recoded_pieces, relay_original}
use rlnc_streaming.Tests.Binary.{binary}
use rlnc_streaming.Tests.Coding.{
  length-alternate, originals, pair_HasShape, first, first-IsCodedFrom, sources,
}
use rlnc_streaming.Tests.Completion.{second, second-IsCodedFrom}

abbrev upper : Matrix Bool
upper = (true ∷ true ∷ []) ∷ (false ∷ true ∷ []) ∷ []

abbrev lower : Matrix Bool
lower = (true ∷ false ∷ []) ∷ (true ∷ true ∷ []) ∷ []

multiply_run : multiply upper lower ≡ ok ((false ∷ true ∷ []) ∷ (true ∷ true ∷ []) ∷ [])
unfolding multiply cols load dot product_row product_rows cell
multiply_run = refl

cmp_run : cmp upper lower ≡ ok false
unfolding cmp cols load cmp_rows cmp_row
cmp_run = refl

multiply-IsProduct_example : Returns (IsProduct 2 2 2 upper lower) (multiply upper lower)
multiply-IsProduct_example =
    multiply-IsProduct 2 2 2 upper lower (pair_HasShape true true false true)
      (pair_HasShape true false true true) (omega arith) (omega arith)

relay_original_example : Returns (Answers originals) (
    new_full_recoder_with_flatten_data (joined (first ∷ second ∷ [])) 2 2
    >>= recoded_pieces sources
    >>= (λ qs. offer_all qs (new_full_decoder 2)))
relay_original_example =
    relay_original originals 2 2 sources (first ∷ second ∷ [])
      (λ k. length-replicate k true, (length-alternate false, tt))
      (first-IsCodedFrom, (second-IsCodedFrom, tt)) (pair_HasShape true false false false)
      (omega arith) (omega arith) (omega arith)

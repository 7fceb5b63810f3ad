-- ===== src/Kodr/Full/Recoder.antt =====
-- `CodedPiece` of kodr/full/recoder.go: a recoded piece is a coded piece.
use rlnc_streaming.Base.{
  ℕ, zero, suc, ◌+◌, ◌≤◌, ◌<◌, ◌≡◌, refl, sym, ap, ap₂, ◌∙◌, List, [], ◌∷◌, length, get_or,
  replicate, arith, length-replicate, get_or-replicate,
}
use rlnc_streaming.Run.{Run, ok, ◌>>=◌, load, Returns, returns, Returns-bind, Returns-inv}
use rlnc_streaming.Field.{Field}
use rlnc_streaming.Field.Sum.{sum, sum_congr}
use rlnc_streaming.Kodr.Matrix.{Matrix}
use rlnc_streaming.Kodr.Matrix.Cells.{entry, at, HasShape, cons-HasShape, load_row}
use rlnc_streaming.Kodr.Matrix.Product.{IsProduct, multiply-IsProduct, sum-sum}
use rlnc_streaming.Kodr.Data.{CodedPiece}
use rlnc_streaming.Kodr.Full.Encoder.{
  FullRecoder, coding_vectors, coded_parts, new_full_recoder, recoded_piece,
  new_full_recoder_with_flatten_data,
}
use rlnc_streaming.Kodr.Full.Encoder.Correct.{combine-ok}
use rlnc_streaming.Kodr.Full.Decoder.Correct.{IsCodedFrom}
use rlnc_streaming.Kodr.Full.Session.{AllCodedFrom, AllFill, Answers, decode_original, offer_all}
use rlnc_streaming.Kodr.Full.Decoder.{new_full_decoder}
use rlnc_streaming.Kodr.Data.Flattened.{joined, AllSized, coded_pieces_for_recoding-joined}

module _ {F : Type 0} ⦃g : Field F⦄ where
  -- The recoded pieces of a recoder, one for each source of random bytes.
  unfoldable pub recoded_pieces : List (ℕ → List F) → FullRecoder F → Run (List (CodedPiece F))
  recoded_pieces [] r = ok []
  recoded_pieces (rand ∷ rands) r = do
    p ← recoded_piece rand r
    ps ← recoded_pieces rands r
    ok (p ∷ ps)

module _ {F : Type 0} ⦃g : Field F⦄ (pieces : Matrix F) (n w : ℕ) where
  -- What a recoder reads of its pieces.
  record IsReadFrom (ps : List (CodedPiece F)) : Type 0 where
    vectors : HasShape (coding_vectors ps) (length ps) n
    parts : HasShape (coded_parts ps) (length ps) w
    combinations :
        (k c : ℕ)
        → k < length ps
        → at (coded_parts ps) k c ≡ sum n (λ t. g.mul (at (coding_vectors ps) k t) (at pieces t c))

  all-IsReadFrom : (ps : List (CodedPiece F)) → AllCodedFrom pieces n w ps → IsReadFrom ps
  unfolding coding_vectors coded_parts
  all-IsReadFrom [] all = record {
    vectors = record { height = refl; width = λ i h. absurd (omega arith) };
    parts = record { height = refl; width = λ i h. absurd (omega arith) };
    combinations = λ k c h. absurd (omega arith);
  }
  all-IsReadFrom (p ∷ ps) (coded, all) =
      let rest = all-IsReadFrom ps all in
      record {
        vectors = cons-HasShape p.vector rest.vectors coded.vector_length;
        parts = cons-HasShape p.piece rest.parts coded.piece_length;
        combinations = cell rest;
      }
    where
      cell :
          IsReadFrom ps
          → (k c : ℕ) → k < suc (length ps)
          → at (p.piece ∷ coded_parts ps) k c
            ≡ sum n (λ t. g.mul (at (p.vector ∷ coding_vectors ps) k t) (at pieces t c))
      cell rest zero c h = coded.combination c
      cell rest (suc k) c h = rest.combinations k c (omega arith)

  -- For coded pieces of n > 0 original pieces, at least one, and random bytes that fill what they are
  -- asked for, the recoder made of them returns a piece that is coded from the same original pieces.
  recoded_piece-IsCodedFrom :
      (rand : ℕ → List F) (ps : List (CodedPiece F))
      → ((k : ℕ) → length (rand k) ≡ k)
      → AllCodedFrom pieces n w ps
      → 0 < n
      → 0 < length ps
      → Returns (IsCodedFrom pieces n w) (recoded_piece rand (new_full_recoder ps))
  unfolding recoded_piece new_full_recoder load
  recoded_piece-IsCodedFrom rand [] fill all hn hp = absurd (omega arith)
  recoded_piece-IsCodedFrom rand (p ∷ ps) fill (coded, all) hn hp =
      let (mult, run, product) = Returns-inv (
        multiply-IsProduct 1 r n (v ∷ []) (coding_vectors (p ∷ ps)) single read.vectors
          (omega arith) (omega arith)) in
      Returns-bind
        (combine-ok w 0 (coded_parts (p ∷ ps)) v (replicate (length p.piece) g.zero)
          (λ a l. read.parts.width a (omega (arith, read.parts.height)))
          (omega (arith, read.parts.height, fill r))
          (length-replicate (length p.piece) g.zero ∙ coded.piece_length))
        λ piece (size, cells).
          rw (run, load_row product.shape 0 (omega arith))
            (returns (record {
              vector_length = product.shape.width 0 (omega arith);
              piece_length = size;
              combination = λ c. cells c ∙ combined c ∙ entries mult product c;
            }))
    where
      r : ℕ
      r = suc (length ps)

      v : List F
      v = rand r

      read : IsReadFrom (p ∷ ps)
      read = all-IsReadFrom (p ∷ ps) (coded, all)

      single : HasShape (v ∷ []) 1 r
      single =
          cons-HasShape v (record { height = refl; width = λ i h. absurd (omega arith) }) (fill r)

      weighted : ℕ → F
      weighted c =
          sum (length (coded_parts (p ∷ ps)))
            (λ k. g.mul (entry v (0 + k)) (at (coded_parts (p ∷ ps)) k c))

      combined :
          (c : ℕ)
          → g.add (entry (replicate (length p.piece) g.zero) c) (weighted c)
            ≡ sum n (λ t.
              g.mul
                (sum r (λ k. g.mul (entry v k) (at (coding_vectors (p ∷ ps)) k t)))
                (at pieces t c))
      combined c =
          ap (λ x. g.add x (weighted c)) (get_or-replicate (length p.piece) c g.zero)
          ∙ g.zero-add (weighted c)
          ∙ ap {A = ℕ} (λ l. sum l (λ k. g.mul (entry v (0 + k)) (at (coded_parts (p ∷ ps)) k c)))
              read.parts.height
          ∙ sum_congr r _ _
              (λ k h. ap₂ g.mul (ap {A = ℕ} (entry v) (omega arith)) (read.combinations k c h))
          ∙ sum-sum r n (entry v) (at (coding_vectors (p ∷ ps))) (λ t. at pieces t c)

      entries :
          (mult : Matrix F)
          → IsProduct 1 r n (v ∷ []) (coding_vectors (p ∷ ps)) mult
          → (c : ℕ)
          → sum n (λ t.
            g.mul
              (sum r (λ k. g.mul (entry v k) (at (coding_vectors (p ∷ ps)) k t)))
              (at pieces t c))
            ≡ sum n (λ t. g.mul (entry (get_or mult 0 []) t) (at pieces t c))
      entries mult product c =
          sum_congr n _ _
            (λ t h. ap (λ x. g.mul x (at pieces t c)) (sym (product.cells 0 t (omega arith) h)))

  all-AllSized : (ps : List (CodedPiece F)) → AllCodedFrom pieces n w ps → AllSized n w ps
  all-AllSized [] all = tt
  all-AllSized (p ∷ ps) (coded, all) =
      ((coded.vector_length, coded.piece_length), all-AllSized ps all)

  recoded_pieces-AllCodedFrom :
      (rands : List (ℕ → List F)) (ps : List (CodedPiece F))
      → AllFill rands
      → AllCodedFrom pieces n w ps
      → 0 < n
      → 0 < length ps
      → Returns (AllCodedFrom pieces n w) (recoded_pieces rands (new_full_recoder ps))
  unfolding recoded_pieces
  recoded_pieces-AllCodedFrom [] ps fill all hn hp = returns tt
  recoded_pieces-AllCodedFrom (rand ∷ rands) ps (fill, fills) all hn hp =
      Returns-bind (recoded_piece-IsCodedFrom rand ps fill all hn hp) λ q c.
        Returns-bind (recoded_pieces-AllCodedFrom rands ps fills all hn hp) λ qs cs. returns (c, cs)

  -- For one or more coded pieces of n >= 2 original pieces of one length that is not zero, sent
  -- flattened, one behind the other, and random bytes that fill what they are asked for: the recoder
  -- made of these bytes makes as many pieces as it is asked for, a new decoder takes all of them
  -- without an error or a panic, and `GetPieces` then returns the original pieces or the error that
  -- more useful pieces are required.
  pub relay_original :
      (rands : List (ℕ → List F)) (ps : List (CodedPiece F))
      → AllFill rands
      → AllCodedFrom pieces n w ps
      → HasShape pieces n w
      → 2 ≤ n
      → 0 < w
      → 0 < length ps
      → Returns (Answers pieces) (
          new_full_recoder_with_flatten_data (joined ps) (length ps) n
          >>= recoded_pieces rands
          >>= (λ qs. offer_all qs (new_full_decoder n)))
  unfolding new_full_recoder_with_flatten_data
  relay_original rands ps fill all shape two hw hp =
      rw (coded_pieces_for_recoding-joined n w ps (all-AllSized ps all) hw hp) (
        Returns-bind (recoded_pieces-AllCodedFrom rands ps fill all (omega arith) hp)
          λ qs cs. decode_original pieces n w qs two shape cs)

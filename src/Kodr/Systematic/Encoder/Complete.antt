-- ===== src/Kodr/Systematic/Encoder/Complete.antt =====
-- kodr/systematic/encoder.go: the pieces that are sent first.
use rlnc_streaming.Base.{
  ℕ, suc, ◌+◌, ◌-◌, ◌≤◌, ◌<◌, ◌≡◌, refl, sym, ap, ap₂, ◌∙◌, subst, List, [], ◌∷◌, append-nil, true,
  ◌==◌, if◌then◌else◌, length, replicate, set, get_or, arith, ==_refl, ==_ne, ℕ_discrete,
  length-replicate, length-set, get_or-replicate, take_all, lt→ltb,
}
use rlnc_streaming.Run.{ok, ◌>>=◌, load-ok, store-ok, Returns, returns, Returns-bind}
use rlnc_streaming.Field.{Field, zero-mul}
use rlnc_streaming.Field.Sum.{sum_single}
use rlnc_streaming.Kodr.Matrix.{Matrix}
use rlnc_streaming.Kodr.Matrix.Cells.{HasShape, entry, at, get_or-set}
use rlnc_streaming.Kodr.Elimination.Kernel.{dot_product}
use rlnc_streaming.Kodr.Data.{CodedPiece}
use rlnc_streaming.Kodr.Full.Decoder.{new_full_decoder, is_decoded, get_pieces}
use rlnc_streaming.Kodr.Full.Decoder.Correct.{IsCodedFrom}
use rlnc_streaming.Kodr.Full.Session.{AllCodedFrom, offer_all}
use rlnc_streaming.Kodr.Full.Complete.{AllNull, decode_complete}
use rlnc_streaming.Kodr.Systematic.Encoder.{
  SystematicEncoder, piece_size, systematic_coding_vector, copy_piece, coded_piece, coded_pieces,
  new_systematic_encoder,
}

module _ {F : Type 0} ⦃g : Field F⦄ where
  abbrev unit_vector : ℕ → ℕ → List F
  unit_vector n i = set (replicate n g.zero) i g.one

  entry-unit_vector :
      (n i k : ℕ) → i < n → entry (unit_vector n i) k ≡ (if i == k then g.one else g.zero)
  entry-unit_vector n i k h =
      get_or-set (replicate n g.zero) i k g.one g.zero (omega (arith, length-replicate n g.zero))
      ∙ ap (λ x. if i == k then g.one else x) (get_or-replicate n k g.zero)

  -- The product with a unit vector picks one entry.
  unit-dot_product : (n i : ℕ) (y : ℕ → F) → i < n → dot_product n (entry (unit_vector n i)) y ≡ y i
  unit-dot_product n i y h =
      sum_single n i (λ k. g.mul (entry (unit_vector n i) k) (y k)) h
        (λ k l ne.
          ap (λ x. g.mul x (y k)) (entry-unit_vector n i k h ∙ rw (==_ne i k (λ e. ne (sym e))))
          ∙ zero-mul (y k))
      ∙ ap (λ x. g.mul x (y i)) (entry-unit_vector n i i h ∙ rw (==_refl i))
      ∙ g.one-mul (y i)

  copy_piece-all : (p : List F) → copy_piece (length p) p ≡ p
  unfolding copy_piece
  copy_piece-all p =
      let none_left : length p - length p ≡ 0 = omega arith in
      rw (take_all (length p) p (omega arith), none_left) (append-nil p)

  -- What a call gives while original pieces are left: the next of them.
  abbrev IsNext : Matrix F → ℕ → ℕ → CodedPiece F × SystematicEncoder F → Type 0
  IsNext pieces n i r =
      (r.0.vector ≡ unit_vector n i)
      × (r.0.piece ≡ get_or pieces i [])
      × (r.1.pieces ≡ pieces)
      × (r.1.current_piece_id ≡ suc i)

  coded_piece-IsNext :
      (rand : ℕ → List F) (n w i : ℕ) (e : SystematicEncoder F)
      → HasShape e.pieces n w
      → e.current_piece_id ≡ i
      → i < n
      → Returns (IsNext e.pieces n i) (coded_piece rand e)
  unfolding coded_piece systematic_coding_vector piece_size
  coded_piece-IsNext rand n w i e shape at_i h =
      rw
        (
          lt→ltb e.current_piece_id (length e.pieces) (omega (arith, at_i, shape.height)),
          store-ok (replicate (length e.pieces) g.zero) e.current_piece_id g.one
              (omega (arith, at_i, shape.height, length-replicate (length e.pieces) g.zero)),
          load-ok e.pieces 0 [] (omega (arith, shape.height)),
          load-ok e.pieces e.current_piece_id [] (omega (arith, at_i, shape.height)),
        )
        (returns (
          ap₂ unit_vector shape.height at_i,
          ap (λ t. copy_piece (length (get_or e.pieces 0 [])) (get_or e.pieces t [])) at_i
              ∙ ap (λ t. copy_piece t (get_or e.pieces i []))
                  (shape.width 0 (omega arith) ∙ sym (shape.width i h))
              ∙ copy_piece-all (get_or e.pieces i []),
          refl,
          omega (arith, at_i),
        ))

  next-IsCodedFrom :
      (pieces : Matrix F) (n w i : ℕ) (r : CodedPiece F × SystematicEncoder F)
      → HasShape pieces n w
      → i < n
      → IsNext pieces n i r
      → IsCodedFrom pieces n w r.0
  next-IsCodedFrom pieces n w i r shape h (vector, piece, _, _) = record {
    vector_length =
        ap length vector ∙ length-set (replicate n g.zero) i g.one ∙ length-replicate n g.zero;
    piece_length = ap length piece ∙ shape.width i h;
    combination = λ c.
        ap (λ p. entry p c) piece
        ∙ sym (unit-dot_product n i (λ k. at pieces k c) h)
        ∙ ap (λ v. dot_product n (entry v) (λ k. at pieces k c)) (sym vector);
  }

  -- What the pieces drawn from index `i` on leave of a vector with product zero with each: only its
  -- first `i` entries.
  abbrev Drawn : Matrix F → ℕ → ℕ → ℕ → List (CodedPiece F) × SystematicEncoder F → Type 0
  Drawn pieces n w i r =
      AllCodedFrom pieces n w r.0
      × ((y : ℕ → F) → AllNull n y r.0 → (k : ℕ) → i ≤ k → k < n → y k ≡ g.zero)

  coded_pieces-Drawn :
      (rands : List (ℕ → List F)) (pieces : Matrix F) (n w i : ℕ) (e : SystematicEncoder F)
      → e.pieces ≡ pieces
      → HasShape pieces n w
      → e.current_piece_id ≡ i
      → i + length rands ≡ n
      → Returns (Drawn pieces n w i) (coded_pieces rands e)
  unfolding coded_pieces
  coded_pieces-Drawn [] pieces n w i e same shape at_i count =
      returns (tt, λ y null k l h. absurd (omega arith))
  coded_pieces-Drawn (rand ∷ rands) pieces n w i e same shape at_i count = Returns-bind next λ r p.
      Returns-bind (coded_pieces-Drawn rands pieces n w (suc i) r.1 p.2 shape p.3 (omega arith))
        λ rest (all, zeros). returns (
          (next-IsCodedFrom pieces n w i r shape (omega arith) p, all),
          λ y (null, nulls) k l h. elim (ℕ_discrete k i) [
            | yes q ↦
                ap y q
                ∙ sym (unit-dot_product n i y (omega arith))
                ∙ ap (λ v. dot_product n (entry v) y) (sym p.0)
                ∙ null
            | no q ↦ zeros y nulls k (omega arith) h
          ],
        )
    where
      next : Returns (IsNext pieces n i) (coded_piece rand e)
      next =
          subst (λ m. Returns (IsNext m n i) (coded_piece rand e)) same
            (coded_piece-IsNext rand n w i e (subst (λ m. HasShape m n w) (sym same) shape) at_i
              (omega (arith, count)))

  -- For n >= 2 original pieces of one length, the first n pieces of a new systematic encoder, whatever
  -- the random bytes, complete a new decoder, without an error or a panic: the decoder is done and
  -- `GetPieces` returns the original pieces.
  pub systematic_complete :
      (pieces : Matrix F) (n w : ℕ) (rands : List (ℕ → List F))
      → 2 ≤ n
      → HasShape pieces n w
      → length rands ≡ n
      → Returns
          (λ d. (is_decoded d ≡ true) × (get_pieces d ≡ ok pieces))
          (coded_pieces rands (new_systematic_encoder pieces)
            >>= (λ drawn. offer_all drawn.0 (new_full_decoder n)))
  systematic_complete pieces n w rands two shape count =
      Returns-bind
        (coded_pieces-Drawn rands pieces n w 0 (new_systematic_encoder pieces) refl shape refl
          (omega (arith, count)))
        λ drawn (all, zeros).
          decode_complete pieces n w drawn.0 two shape all
            λ y null k h. zeros y null k (omega arith) h

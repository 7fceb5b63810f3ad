-- ===== src/Tests/Coding.antt =====
-- The coding layer over the field of two elements.

use rlnc_streaming.Base.{
  ℕ, zero, suc, ◌≡◌, refl, ap, List, [], ◌∷◌, Bool, true, false, not, length, replicate,
  length-replicate, arith, ◌<◌,
}
use rlnc_streaming.Run.{Run, ok, err, ◌>>=◌, Returns}
use rlnc_streaming.Kodr.Matrix.{Matrix}
use rlnc_streaming.Kodr.Full.Encoder.{FullEncoder}
use rlnc_streaming.Kodr.Full.Decoder.{FullDecoder, get_pieces, add_piece}
use rlnc_streaming.Kodr.Full.Session.{transfer, transfer_correct, Delivered}
use rlnc_streaming.Run.{load, store, slice}
use rlnc_streaming.Kodr.Matrix.{cols, cell, swap_rows, remove_row}
use rlnc_streaming.Kodr.Elimination.{
  range_from, add_scaled, scale, find_pivot, clear_row, clear_unless_zero, clear_rows, switch_rows,
  settle_pivot, clear_below, forward_step, forward_loop, clean_forward, normalise, backward_step,
  backward_loop, clean_backward, row_is_zero, remove_loop, remove_zero_rows, rref,
}
use rlnc_streaming.Kodr.State.{add_row, get_piece}
use rlnc_streaming.Kodr.Data.{multiply_piece, pieces_from, pad, pieces_by_size, pieces_by_count}
use rlnc_streaming.Kodr.Full.Encoder.{
  piece_size, combine, coded_piece, new_full_encoder_with_piece_count,
}
use rlnc_streaming.Kodr.Full.Decoder.{pieces_loop}
use rlnc_streaming.Kodr.Full.Session.{offer, offer_all, coded_pieces}
use rlnc_streaming.Base.{get_or, ◌≢◌, ◌&&◌}
use rlnc_streaming.Run.{piece_not_decoded_yet}
use rlnc_streaming.Field.Sum.{sum}
use rlnc_streaming.Kodr.Matrix.Cells.{HasShape, at, entry}
use rlnc_streaming.Kodr.Elimination.{DecoderState}
use rlnc_streaming.Kodr.Elimination.Clear.{Sized}
use rlnc_streaming.Kodr.Elimination.Keeps.{Upper}
use rlnc_streaming.Kodr.Elimination.Rref.{Reduction, rref-ok}
use rlnc_streaming.Kodr.Elimination.Order.{clear_rows_order}
use rlnc_streaming.Kodr.Data.{CodedPiece}
use rlnc_streaming.Kodr.State.Partial.{get_piece-refuses_decoded}
use rlnc_streaming.Kodr.Full.Decoder.{new_full_decoder}
use rlnc_streaming.Kodr.Full.Decoder.Correct.{
  IsCodedFrom, IsConsistent, new-IsConsistent, add_piece-IsConsistent,
}
use rlnc_streaming.Tests.Binary.{binary}

-- b, not b, b, …
unfoldable pub alternate : Bool → ℕ → List Bool
alternate b zero = []
alternate b (suc n) = b ∷ alternate (not b) n

pub length-alternate : (b : Bool) (n : ℕ) → length (alternate b n) ≡ n
unfolding alternate
length-alternate b zero = refl
length-alternate b (suc n) = ap suc (length-alternate (not b) n)

abbrev pub ones : ℕ → List Bool
ones n = replicate n true

abbrev pub sample : List Bool
sample = true ∷ false ∷ true ∷ []

abbrev pub sources : List (ℕ → List Bool)
sources = ones ∷ alternate false ∷ []

abbrev decoded : FullEncoder Bool × FullDecoder Bool → Run (List (List Bool))
decoded r = get_pieces r.1

-- Three symbols in two pieces, sent with the coding vectors 11 and 01.
transfer_run :
    (transfer sample 2 sources >>= decoded) ≡ ok ((true ∷ false ∷ []) ∷ (true ∷ false ∷ []) ∷ [])
unfolding transfer offer_all offer coded_pieces alternate new_full_encoder_with_piece_count
    pieces_by_count pieces_by_size pieces_from pad coded_piece piece_size combine multiply_piece
    add_piece add_row get_pieces pieces_loop get_piece rref clean_forward clean_backward
    remove_zero_rows forward_loop forward_step backward_loop backward_step remove_loop row_is_zero
    settle_pivot switch_rows clear_below clear_rows clear_unless_zero clear_row find_pivot
    add_scaled scale normalise range_from cols cell swap_rows remove_row load store slice
transfer_run = refl

transfer_correct_example : Returns (Delivered sample 2) (transfer sample 2 sources)
transfer_correct_example =
    transfer_correct sample 2 sources (omega arith) (omega arith)
      (λ k. length-replicate k true, (length-alternate false, tt))

-- Two rows of two cells.
pub pair_HasShape : (a b c d : Bool) → HasShape ((a ∷ b ∷ []) ∷ (c ∷ d ∷ []) ∷ []) 2 2
pair_HasShape a b c d = record { height = refl; width = wide }
  where
    wide : (i : ℕ) → i < 2 → length (get_or ((a ∷ b ∷ []) ∷ (c ∷ d ∷ []) ∷ []) i []) ≡ 2
    wide zero h = refl
    wide (suc zero) h = refl
    wide (suc (suc i)) h = absurd (omega arith)

abbrev pub originals : Matrix Bool
originals = (true ∷ false ∷ []) ∷ (false ∷ false ∷ []) ∷ []

abbrev state : DecoderState Bool
state = record {
  piece_count = 2;
  coeffs = (false ∷ true ∷ []) ∷ (true ∷ true ∷ []) ∷ [];
  coded = (false ∷ false ∷ []) ∷ (true ∷ false ∷ []) ∷ [];
}

state-Sized : Sized state 2 2 2
state-Sized = record {
  coeffs = pair_HasShape false true true true;
  coded = pair_HasShape false false true false;
}

rref-ok_example : Returns (λ t. (r' : ℕ) × Reduction 2 2 2 state t r') (rref state)
rref-ok_example = rref-ok 2 2 2 state (omega arith) (omega arith) state-Sized

-- An upper triangular state.
abbrev triangle : DecoderState Bool
triangle = record {
  piece_count = 2;
  coeffs = (true ∷ true ∷ []) ∷ (false ∷ true ∷ []) ∷ [];
  coded = (true ∷ false ∷ []) ∷ (false ∷ false ∷ []) ∷ [];
}

triangle-Sized : Sized triangle 2 2 2
triangle-Sized = record {
  coeffs = pair_HasShape true true false true;
  coded = pair_HasShape true false false false;
}

triangle-Upper : Upper triangle
triangle-Upper zero c h = absurd (omega arith)
triangle-Upper (suc zero) zero h = refl
triangle-Upper (suc zero) (suc c) h = absurd (omega arith)
triangle-Upper (suc (suc a)) c h = refl

-- Row 0 is cleared once, and three times.
clear_rows_order_example :
    (t : DecoderState Bool) × (clear_rows 2 1 (0 ∷ []) triangle ≡ ok t)
    × (clear_rows 2 1 (0 ∷ 0 ∷ 0 ∷ []) triangle ≡ ok t)
clear_rows_order_example =
    clear_rows_order 2 2 2 1 (0 ∷ []) (0 ∷ 0 ∷ 0 ∷ []) triangle (omega arith) (omega arith)
      (omega arith) (omega arith) (λ a. ground arith) triangle-Sized (triangle-Upper 1) refl

abbrev pub first : CodedPiece Bool
first = record { vector = true ∷ true ∷ []; piece = true ∷ false ∷ [] }

first_combination :
    (c : ℕ) → entry first.piece c ≡ sum 2 (λ k. entry first.vector k && at originals k c)
unfolding sum
first_combination zero = refl
first_combination (suc zero) = refl
first_combination (suc (suc c)) = refl

pub first-IsCodedFrom : IsCodedFrom originals 2 2 first
first-IsCodedFrom = record {
  vector_length = refl;
  piece_length = refl;
  combination = first_combination;
}

new_decoder : IsConsistent originals 2 2 (new_full_decoder 2) 0
new_decoder = new-IsConsistent originals 2 2 (omega arith)

add_piece-IsConsistent_example :
    Returns (λ d. (r : ℕ) × IsConsistent originals 2 2 d r) (add_piece first (new_full_decoder 2))
add_piece-IsConsistent_example =
    add_piece-IsConsistent originals 2 2 0 (omega arith) (new_full_decoder 2) new_decoder first
      first-IsCodedFrom refl

-- One piece of two is known: the first row is a row of the identity matrix.
abbrev partial : DecoderState Bool
partial = record {
  piece_count = 2;
  coeffs = (true ∷ false ∷ []) ∷ [];
  coded = (true ∷ false ∷ []) ∷ [];
}

single_HasShape : (a b : Bool) → HasShape ((a ∷ b ∷ []) ∷ []) 1 2
single_HasShape a b = record { height = refl; width = wide }
  where
    wide : (i : ℕ) → i < 1 → length (get_or ((a ∷ b ∷ []) ∷ []) i []) ≡ 2
    wide zero h = refl
    wide (suc i) h = absurd (omega arith)

partial_unit : (c : ℕ) → c ≢ 0 → at partial.coeffs 0 c ≡ false
partial_unit zero h = absurd (h refl)
partial_unit (suc zero) h = refl
partial_unit (suc (suc c)) h = refl

get_piece-refuses_decoded_example : get_piece 0 partial ≡ err piece_not_decoded_yet
get_piece-refuses_decoded_example =
    get_piece-refuses_decoded 0 1 2 2 partial
      (record { coeffs = single_HasShape true false; coded = single_HasShape true false }) refl
      (omega arith) (omega arith) (omega arith) (refl, partial_unit)

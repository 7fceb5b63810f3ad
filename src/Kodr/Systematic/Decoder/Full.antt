-- ===== src/Kodr/Systematic/Decoder/Full.antt =====
-- The systematic decoder beside the full one of kodr/full/decoder.go.
use rlnc_streaming.Base.{ℕ, zero, suc, ◌+◌, ◌≡◌, refl, ap, Bool-cases, ltb, inl, inr, if◌then◌else◌}
use rlnc_streaming.Run.{Run, ok, err, panic, ◌>>=◌, more_useful_pieces_required}
use rlnc_streaming.Field.{Field}
use rlnc_streaming.Kodr.Elimination.{rref}
use rlnc_streaming.Kodr.Data.{CodedPiece}
use rlnc_streaming.Kodr.State.{add_row}
use rlnc_streaming.Kodr.Full.Decoder.{FullDecoder}
use rlnc_streaming.Kodr.Full.Decoder as Whole
use rlnc_streaming.Kodr.Systematic.Decoder.{
  SystematicDecoder, is_decoded, add_piece, get_piece, pieces_loop, get_pieces,
}

module _ {F : Type 0} where
  -- The same fields in the other type.
  abbrev pub to_full : SystematicDecoder F → FullDecoder F
  to_full d = record {
    expected = d.expected;
    useful = d.useful;
    received = d.received;
    state = d.state;
  }

bind_map :
    {A B C : Type 0} (f : B → C) (r : Run A) (k : A → Run B)
    → ((r >>= k) >>= (λ b. ok (f b))) ≡ (r >>= (λ a. k a >>= (λ b. ok (f b))))
bind_map f panic k = refl
bind_map f (err e) k = refl
bind_map f (ok a) k = refl

module _ {F : Type 0} ⦃g : Field F⦄ where
  add_piece-to_full :
      (p : CodedPiece F) (d : SystematicDecoder F)
      → (add_piece p d >>= (λ d'. ok (to_full d'))) ≡ Whole.add_piece p (to_full d)
  unfolding add_piece Whole.add_piece
  add_piece-to_full p d = elim (Bool-cases (is_decoded d)) [
    | inl e ↦ rw e refl
    | inr e ↦ rw e (elim (Bool-cases (ltb 1 (d.received + 1))) [
      | inr e' ↦ rw e' refl
      | inl e' ↦ rw e' (bind_map to_full (rref (add_row p d.state)) _)
    ])
  ]

  pieces_loop-to_full :
      (n i : ℕ) (d : SystematicDecoder F) → pieces_loop n i d ≡ Whole.pieces_loop n i d.state
  unfolding pieces_loop Whole.pieces_loop get_piece
  pieces_loop-to_full zero i d = refl
  pieces_loop-to_full (suc n) i d = rw (pieces_loop-to_full n (suc i) d) refl

  -- `AddPiece` and `GetPieces` of the systematic decoder give what those of the full decoder give on
  -- the same fields, errors and panics included.
  pub decoder-to_full :
      (p : CodedPiece F) (d : SystematicDecoder F)
      → ((add_piece p d >>= (λ d'. ok (to_full d'))) ≡ Whole.add_piece p (to_full d))
        × (get_pieces d ≡ Whole.get_pieces (to_full d))
  unfolding get_pieces Whole.get_pieces
  decoder-to_full p d = (
    add_piece-to_full p d,
    ap (λ r. if is_decoded d then r else err more_useful_pieces_required)
        (pieces_loop-to_full d.useful 0 d),
  )

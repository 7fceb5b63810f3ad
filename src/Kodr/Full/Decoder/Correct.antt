-- ===== src/Kodr/Full/Decoder/Correct.antt =====
-- kodr/full/decoder.go: a decoder and the original pieces that its input is coded from.
use rlnc_streaming.Base.{
  ℕ, zero, suc, ◌+◌, ◌≤◌, ◌<◌, ◌≡◌, refl, sym, ap, ap₂, ◌∙◌, [], true, false, ◌==◌, ltb,
  if◌then◌else◌, length, drop, get_or, arith, leb-false, le→leb, drop_all, get_or∷drop, ==_refl,
  ==_ne,
}
use rlnc_streaming.Run.{ok, load-ok, Returns, returns, Returns-bind, Returns-if}
use rlnc_streaming.Field.{Field, zero-mul, mul-one, add-eq_zero}
use rlnc_streaming.Field.Sum.{sum, sum_single}
use rlnc_streaming.Kodr.Matrix.{Matrix}
use rlnc_streaming.Kodr.Matrix.Cells.{entry, at, HasShape, at_below, get_or-ext}
use rlnc_streaming.Kodr.Elimination.Clear.{Sized}
use rlnc_streaming.Kodr.Elimination.Equations.{lhs, lhs_zero, Solves}
use rlnc_streaming.Kodr.Elimination.Rref.{IsIdentity, rref-ok}
use rlnc_streaming.Kodr.Data.{CodedPiece}
use rlnc_streaming.Kodr.State.{add_row, get_piece}
use rlnc_streaming.Kodr.State.Rows.{add_row-Sized, Solves-add_row}
use rlnc_streaming.Kodr.Full.Decoder.{
  FullDecoder, new_full_decoder, is_decoded, add_piece, pieces_loop, get_pieces,
}

module _ {F : Type 0} ⦃g : Field F⦄ where
  -- `p` is the combination of the rows of `pieces` by the entries of its coding vector.
  pub record IsCodedFrom (pieces : Matrix F) (n w : ℕ) (p : CodedPiece F) : Type 0 where
    pub vector_length : length p.vector ≡ n
    pub piece_length : length p.piece ≡ w
    pub combination :
        (c : ℕ) → entry p.piece c ≡ sum n (λ k. g.mul (entry p.vector k) (at pieces k c))

  -- The equation of such a piece holds for the columns of the original pieces.
  IsCodedFrom-lhs :
      (pieces : Matrix F) (n w : ℕ) (p : CodedPiece F)
      → IsCodedFrom pieces n w p
      → (c : ℕ)
      → lhs n (λ k. entry p.vector k) (entry p.piece c) (λ k. at pieces k c) g.one ≡ g.zero
  unfolding lhs
  IsCodedFrom-lhs pieces n w p e c =
      ap (g.add (sum n (λ k. g.mul (entry p.vector k) (at pieces k c))))
        (mul-one (entry p.piece c) ∙ e.combination c)
      ∙ g.add_self _

  -- What holds of a decoder that was given pieces coded from `pieces`, `r` of them useful.
  pub record IsConsistent (pieces : Matrix F) (n w : ℕ) (d : FullDecoder F) (r : ℕ) : Type 0 where
    pub expected : d.expected ≡ n
    pub count : d.state.piece_count ≡ n
    pub useful : d.useful ≡ r
    pub bounded : r ≤ n
    pub sized : Sized d.state r n w
    pub fresh : d.received ≡ 0 → r ≡ 0
    pub solved : (c : ℕ) → Solves n d.state c (λ k. at pieces k c) g.one
    pub full : r ≡ n → IsIdentity n d.state

  empty-Sized : (n w : ℕ) → Sized (new_full_decoder {F = F} n).state 0 n w
  empty-Sized n w = record {
    coeffs = record { height = refl; width = λ i h. absurd (omega arith) };
    coded = record { height = refl; width = λ i h. absurd (omega arith) };
  }

  -- A new decoder has taken no pieces yet.
  pub new-IsConsistent :
      (pieces : Matrix F) (n w : ℕ) → 0 < n → IsConsistent pieces n w (new_full_decoder n) 0
  new-IsConsistent pieces n w h = record {
    expected = refl;
    count = refl;
    useful = refl;
    bounded = omega arith;
    sized = empty-Sized n w;
    fresh = λ e. refl;
    solved = λ c a.
        lhs_zero n _ _ (λ k. at pieces k c) g.one
          (λ k. at_below (empty-Sized n w).coeffs a k (omega arith))
          (ap (λ x. g.mul x g.one) (at_below (empty-Sized n w).coded a c (omega arith))
            ∙ zero-mul g.one);
    full = λ e. absurd (omega arith);
  }

module _ {F : Type 0} ⦃g : Field F⦄ (pieces : Matrix F) (n w r : ℕ) (two : 2 ≤ n)
    (d : FullDecoder F) (ok_d : IsConsistent pieces n w d r) (p : CodedPiece F)
    (coded : IsCodedFrom pieces n w p) (more : is_decoded d ≡ false) where
  room : r < n
  room = ground (arith, ok_d.expected, ok_d.useful, more)

  new-Sized : Sized (add_row p d.state) (suc r) n w
  new-Sized = add_row-Sized p d.state ok_d.sized coded.vector_length coded.piece_length

  new_solved : (c : ℕ) → Solves n (add_row p d.state) c (λ k. at pieces k c) g.one
  new_solved c =
      (Solves-add_row p d.state ok_d.sized c (λ k. at pieces k c) g.one).1
        (ok_d.solved c, IsCodedFrom-lhs pieces n w p coded c)

  -- A decoder for n >= 2 pieces that is not done and is consistent with the original pieces takes
  -- every piece coded from them without an error or a panic, and is consistent with them again.
  pub add_piece-IsConsistent :
      Returns (λ d'. (r' : ℕ) × IsConsistent pieces n w d' r') (add_piece p d)
  unfolding add_piece add_row
  add_piece-IsConsistent = rw more (
      Returns-if (ltb 1 (d.received + 1))
        (λ e.
          Returns-bind (rref-ok (suc r) n w (add_row p d.state) (omega arith) room new-Sized)
            λ s (r', u). returns (
              r',
              record {
                expected = ok_d.expected;
                count = u.same_count ∙ ok_d.count;
                useful = u.sized.coeffs.height;
                bounded = omega (arith, u.fewer, room);
                sized = u.sized;
                fresh = λ h. absurd (omega arith);
                solved = λ c. u.weakens.solutions c _ g.one (new_solved c);
                full = u.full;
              },
            ))
        (λ e. returns (
          suc r,
          record {
            expected = ok_d.expected;
            count = ok_d.count;
            useful = omega (arith, ok_d.useful);
            bounded = room;
            sized = new-Sized;
            fresh = λ h. absurd (omega arith);
            solved = new_solved;
            full = λ h. absurd (ground (arith, ok_d.fresh, e));
          },
        )))

module _ {F : Type 0} ⦃g : Field F⦄ (pieces : Matrix F) (n w r : ℕ) (shape : HasShape pieces n w)
    (d : FullDecoder F) (ok_d : IsConsistent pieces n w d r) (done : is_decoded d ≡ true) where
  all_useful : r ≡ n
  all_useful = ground (arith, ok_d.expected, ok_d.useful, done, ok_d.bounded)

  -- At the identity matrix the equations say that the rows are the pieces.
  decoded_cell : (a c : ℕ) → a < n → at d.state.coded a c ≡ at pieces a c
  unfolding lhs
  decoded_cell a c h =
      add-eq_zero (at d.state.coded a c) (at pieces a c)
        (ap₂ g.add (sym picked) (sym (mul-one (at d.state.coded a c))) ∙ ok_d.solved c a)
    where
      identity : (k : ℕ) → at d.state.coeffs a k ≡ (if a == k then g.one else g.zero)
      identity k = ok_d.full all_useful a k h

      picked : sum n (λ k. g.mul (at d.state.coeffs a k) (at pieces k c)) ≡ at pieces a c
      picked =
          sum_single n a (λ k. g.mul (at d.state.coeffs a k) (at pieces k c)) h
            (λ k l ne.
              ap (λ x. g.mul x (at pieces k c)) (identity k ∙ rw (==_ne a k (λ e. ne (sym e))))
              ∙ zero-mul (at pieces k c))
          ∙ ap (λ x. g.mul x (at pieces a c)) (identity a ∙ rw (==_refl a))
          ∙ g.one-mul (at pieces a c)

  decoded_rows : d.state.coded ≡ pieces
  decoded_rows =
      get_or-ext d.state.coded pieces [] (ok_d.sized.coded.height ∙ all_useful ∙ sym shape.height)
        λ a h.
          let inside : a < n = omega (arith, ok_d.sized.coded.height, all_useful) in
          get_or-ext (get_or d.state.coded a []) (get_or pieces a []) g.zero
            (ok_d.sized.coded.width a (omega (arith, all_useful)) ∙ sym (shape.width a inside))
            (λ c k. decoded_cell a c inside)

  loop-ok : (k i : ℕ) → i + k ≡ n → pieces_loop k i d.state ≡ ok (drop i d.state.coded)
  unfolding pieces_loop get_piece
  loop-ok zero i h =
      ap ok (sym (drop_all i d.state.coded (omega (arith, ok_d.sized.coded.height, all_useful))))
  loop-ok (suc k) i h =
      rw
        (
          leb-false d.state.piece_count i (omega (arith, ok_d.count)),
          leb-false (length d.state.coeffs) i (omega (arith, ok_d.sized.coeffs.height, all_useful)),
          le→leb d.state.piece_count (length d.state.coeffs)
              (omega (arith, ok_d.count, ok_d.sized.coeffs.height, all_useful)),
          load-ok d.state.coded i [] (omega (arith, ok_d.sized.coded.height, all_useful)),
          loop-ok k (suc i) (omega arith),
        )
        (ap ok
          (get_or∷drop i d.state.coded [] (omega (arith, ok_d.sized.coded.height, all_useful))))

  -- `GetPieces` returns the original pieces.
  pub get_pieces-original : get_pieces d ≡ ok pieces
  unfolding get_pieces
  get_pieces-original =
      rw (done, ok_d.useful, all_useful) (loop-ok n 0 (omega arith) ∙ ap ok decoded_rows)

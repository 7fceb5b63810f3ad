-- ===== src/Kodr/State/Partial.antt =====
-- `GetPiece` of kodr/matrix/decoder_state.go before the decoding is complete.
use rlnc_streaming.Base.{
  ℕ, zero, suc, ◌+◌, ◌≤◌, ◌<◌, ◌≡◌, ◌≢◌, ap, ◌∙◌, false, ◌==◌, length, arith, leb-false, ==_refl,
  ==_ne, ℕ_discrete,
}
use rlnc_streaming.Run.{ok, err, piece_not_decoded_yet}
use rlnc_streaming.Field.{Field, eq→is_zero}
use rlnc_streaming.Kodr.Matrix.Cells.{at, cell-ok, cols-ok}
use rlnc_streaming.Kodr.Elimination.{DecoderState}
use rlnc_streaming.Kodr.Elimination.Clear.{Sized}
use rlnc_streaming.Kodr.State.{get_piece, looks_decoded}

module _ {F : Type 0} ⦃g : Field F⦄ where
  -- Row `idx` is that of a piece that is decoded: a one at `idx`, and no other piece takes part.
  abbrev pub IsUnitRow : DecoderState F → ℕ → Type 0
  IsUnitRow s idx = (at s.coeffs idx idx ≡ g.one) × ((c : ℕ) → c ≢ idx → at s.coeffs idx c ≡ g.zero)

  -- The scan stops with `false` at the first column other than `idx`.
  looks_decoded-unit :
      (k i idx r n w : ℕ) (s : DecoderState F)
      → Sized s r n w
      → idx < r
      → i + k ≡ n
      → IsUnitRow s idx
      → (c : ℕ) → i ≤ c
      → c < n
      → c ≢ idx
      → looks_decoded k i idx s ≡ ok false
  unfolding looks_decoded
  looks_decoded-unit zero i idx r n w s sized hi e unit c l h ne = absurd (omega arith)
  looks_decoded-unit (suc k) i idx r n w s sized hi e (one, zeros) c l h ne =
      rw (cell-ok sized.coeffs idx i hi (omega arith)) (elim (ℕ_discrete i idx) [
        | yes q ↦
            rw
              (
                ap {A = ℕ} (λ t. t == idx) q,
                ==_refl idx,
                (g.beq_iff (at s.coeffs idx i) g.one).1
                    (ap {A = ℕ} (λ t. at s.coeffs idx t) q ∙ one),
              )
              (looks_decoded-unit k (suc i) idx r n w s sized hi (omega arith) (one, zeros) c
                (omega arith) h ne)
        | no q ↦ rw (==_ne i idx q, eq→is_zero (at s.coeffs idx i) (zeros i q))
      ])

  -- In a decoder state for n >= 2 pieces with r < n rows, `GetPiece` answers "piece not decoded yet"
  -- for every index below r whose row of coefficients is 1 at that index and 0 elsewhere.
  pub get_piece-refuses_decoded :
      (idx r n w : ℕ) (s : DecoderState F)
      → Sized s r n w
      → s.piece_count ≡ n
      → 2 ≤ n
      → idx < r
      → r < n
      → IsUnitRow s idx
      → get_piece idx s ≡ err piece_not_decoded_yet
  unfolding get_piece
  get_piece-refuses_decoded idx r n w s sized count two hi more unit = rw (
    leb-false s.piece_count idx (omega (arith, count)),
    leb-false (length s.coeffs) idx (omega (arith, sized.coeffs.height)),
    leb-false s.piece_count (length s.coeffs) (omega (arith, count, sized.coeffs.height)),
    cols-ok sized.coeffs (omega arith),
    scan,
  )
    where
      scan : looks_decoded n 0 idx s ≡ ok false
      scan = elim (ℕ_discrete idx 0) [
        | yes q ↦
            looks_decoded-unit n 0 idx r n w s sized hi (omega arith) unit 1 (omega arith)
              (omega arith) (omega arith)
        | no q ↦
            looks_decoded-unit n 0 idx r n w s sized hi (omega arith) unit 0 (omega arith)
              (omega arith) (omega arith)
      ]

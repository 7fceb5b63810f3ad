-- ===== src/Kodr/Elimination/Removal.antt =====
-- `remove_zero_rows` of kodr/matrix/decoder_state.go.
use rlnc_streaming.Base.{
  ℕ, zero, suc, ◌+◌, ◌≤◌, ◌<◌, ◌≡◌, refl, subst, Bool, true, false, List, [], ◌∷◌, if◌then◌else◌,
  arith, length, get_or, dec_lt,
}
use rlnc_streaming.Run.{◌>>=◌, load, Returns, returns, Returns-map, Returns-bind, Returns-if}
use rlnc_streaming.Field.{Field, is_zero, is_zero→eq}
use rlnc_streaming.Kodr.Matrix.Cells.{entry, at, load_row, cols-ok}
use rlnc_streaming.Kodr.Elimination.{DecoderState, row_is_zero, remove_loop, remove_zero_rows}
use rlnc_streaming.Kodr.Elimination.Clear.{Sized}
use rlnc_streaming.Kodr.Elimination.Weakens.{IsNonZeroRow, Weakens, Weakens-refl, Weakens-trans}
use rlnc_streaming.Kodr.Elimination.Without.{
  without, without-Sized, without-Weakens, without-nonzero,
}

module _ {F : Type 0} ⦃g : Field F⦄ where
  -- What the scan of a row says.
  abbrev Scanned : List F → Bool → Type 0
  Scanned row true = (c : ℕ) → entry row c ≡ g.zero
  Scanned row false = (c : ℕ) × (is_zero (entry row c) ≡ false)

  row_is_zero-ok :
      (n : ℕ) (row : List F) → length row ≡ n → Returns (Scanned row) (row_is_zero n row)
  unfolding row_is_zero
  row_is_zero-ok zero [] h = returns (λ c. refl)
  row_is_zero-ok zero (x ∷ row) h = absurd (omega arith)
  row_is_zero-ok (suc n) [] h = absurd (omega arith)
  row_is_zero-ok (suc n) (x ∷ row) h =
      Returns-if (is_zero x) (λ e. Returns-map (row_is_zero-ok n row (omega arith)) (further e))
        (λ e. returns (0, e))
    where
      further : is_zero x ≡ true → (b : Bool) → Scanned row b → Scanned (x ∷ row) b
      further e true f =
          λ c. elim c as (λ c. entry (x ∷ row) c ≡ g.zero) [ zero ↦ is_zero→eq x e | suc c ↦ f c ]
      further e false (c, f) = (suc c, f)

  pub record Trimmed (r n w : ℕ) (s t : DecoderState F) (r' : ℕ) : Type 0 where
    pub sized : Sized t r' n w
    pub same_count : t.piece_count ≡ s.piece_count
    pub fewer : r' ≤ r
    pub weakens : Weakens n s t
    pub nonzero : (a : ℕ) → a < r' → IsNonZeroRow t a
    pub all_kept : r' ≡ r → t ≡ s

module _ {F : Type 0} ⦃g : Field F⦄ (n w : ℕ) where
  abbrev TrimmedTo : ℕ → DecoderState F → DecoderState F → Type 0
  TrimmedTo r s t = (r' : ℕ) × Trimmed r n w s t r'

  remove_loop-ok :
      (k i r : ℕ) (s : DecoderState F)
      → i + k ≡ r
      → Sized s r n w
      → ((a : ℕ) → a < i → IsNonZeroRow s a)
      → Returns (TrimmedTo r s) (remove_loop k i n s)
  unfolding remove_loop
  remove_loop-ok zero i r s e sized before = returns (
    r,
    record {
      sized = sized;
      same_count = refl;
      fewer = omega arith;
      weakens = Weakens-refl n s;
      nonzero = λ a h. before a (omega arith);
      all_kept = λ h. refl;
    },
  )
  remove_loop-ok (suc k) i zero s e sized before = absurd (omega arith)
  remove_loop-ok (suc k) i (suc r) s e sized before = rw (load_row sized.coeffs i (omega arith)) (
      Returns-bind (row_is_zero-ok n (get_or s.coeffs i []) (sized.coeffs.width i (omega arith)))
        (scanned (remove_loop-ok k i r (without i s)) (remove_loop-ok k (suc i) (suc r) s)))
    where
      removed :
          ((c : ℕ) → at s.coeffs i c ≡ g.zero)
          → (t : DecoderState F) → TrimmedTo r (without i s) t
          → TrimmedTo (suc r) s t
      removed f t (r', u) = (
        r',
        record {
          sized = u.sized;
          same_count = u.same_count;
          fewer = omega (arith, u.fewer);
          weakens =
              Weakens-trans n s (without i s) t (without-Weakens i s sized (omega arith) f)
                u.weakens;
          nonzero = u.nonzero;
          all_kept = λ h. absurd (omega (arith, u.fewer));
        },
      )

      scanned :
          (i + k ≡ r
            → Sized (without i s) r n w
            → ((a : ℕ) → a < i → IsNonZeroRow (without i s) a)
            → Returns (TrimmedTo r (without i s)) (remove_loop k i n (without i s)))
          → (suc i + k ≡ suc r
              → Sized s (suc r) n w
              → ((a : ℕ) → a < suc i → IsNonZeroRow s a)
              → Returns (TrimmedTo (suc r) s) (remove_loop k (suc i) n s))
          → (b : Bool) → Scanned (get_or s.coeffs i []) b
          → Returns (TrimmedTo (suc r) s) (
              if b
              then (load s.coded i >>= λ crow. remove_loop k i n (without i s))
              else remove_loop k (suc i) n s)
      scanned go stay true f = rw (load_row sized.coded i (omega arith)) (
          Returns-map
            (go (omega arith) (without-Sized i s sized (omega arith))
              (without-nonzero i s sized (omega arith) before))
            (removed f))
      scanned go stay false f = stay (omega arith) sized (λ a h. elim (dec_lt a i) [
        | yes l ↦ before a l
        | no l ↦ subst (IsNonZeroRow s) (omega arith) f
      ])

  -- On matrices of one height, which is not zero, `remove_zero_rows` runs to its end. No row
  -- with zero coefficients is left, and the state is unchanged if no row went. Every solution of the
  -- old rows' equations solves the new rows', and a vector with product zero with every new row of
  -- coefficients has product zero with every old one.
  pub remove_zero_rows-ok :
      (r : ℕ) (s : DecoderState F)
      → 0 < r
      → Sized s r n w
      → Returns (λ t. (r' : ℕ) × Trimmed r n w s t r') (remove_zero_rows s)
  unfolding remove_zero_rows
  remove_zero_rows-ok r s hr sized =
      rw (cols-ok sized.coeffs hr, sized.coeffs.height)
        (remove_loop-ok r 0 r s (omega arith) sized (λ a h. absurd (omega arith)))

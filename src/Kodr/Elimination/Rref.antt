-- ===== src/Kodr/Elimination/Rref.antt =====
-- `Rref` of kodr/matrix/decoder_state.go: the three passes in a row.
use rlnc_streaming.Base.{
  ℕ, zero, suc, ◌+◌, ◌≤◌, ◌<◌, ◌≡◌, sym, subst, ◌∙◌, false, ◌==◌, if◌then◌else◌, arith, inl, inr,
  dec_lt, ℕ_discrete, ==_refl, ==_ne,
}
use rlnc_streaming.Run.{Returns, Returns-map, Returns-bind}
use rlnc_streaming.Field.{Field, is_zero, eq→is_zero}
use rlnc_streaming.Kodr.Matrix.Cells.{at, at_right}
use rlnc_streaming.Kodr.Elimination.{DecoderState, rref}
use rlnc_streaming.Kodr.Elimination.Clear.{Sized}
use rlnc_streaming.Kodr.Elimination.Keeps.{Upper}
use rlnc_streaming.Kodr.Elimination.Forward.{clean_forward-ok}
use rlnc_streaming.Kodr.Elimination.Backward.{
  ClearAbove, IsReducedAt, ReducedFrom, clean_backward-ok,
}
use rlnc_streaming.Kodr.Elimination.Weakens.{
  IsNonZeroRow, Weakens, Weakens-trans, SameSolutions-Weakens,
}
use rlnc_streaming.Kodr.Elimination.Removal.{remove_zero_rows-ok}

module _ {F : Type 0} ⦃g : Field F⦄ where
  -- The coefficients are the identity matrix.
  abbrev pub IsIdentity : ℕ → DecoderState F → Type 0
  IsIdentity n s = (a c : ℕ) → a < n → at s.coeffs a c ≡ (if a == c then g.one else g.zero)

  zero≢nonzero : (x : F) → x ≡ g.zero → is_zero x ≡ false → ⊥
  zero≢nonzero x e h = cc (eq→is_zero x e)

  -- An upper triangular square matrix of non-zero rows, reduced at each pivot, has a one at each
  -- place of the diagonal and a zero above it.
  pivots :
      (n w d : ℕ) (s : DecoderState F)
      → Sized s n n w
      → Upper s
      → ReducedFrom 0 n s
      → ((a : ℕ) → a < n → IsNonZeroRow s a)
      → (k : ℕ) → k < n
      → n ≤ k + d
      → (at s.coeffs k k ≡ g.one) × ClearAbove s k
  pivots n w zero s sized upper reduced nonzero k hk hd = absurd (omega arith)
  pivots n w (suc d) s sized upper reduced nonzero k hk hd =
      let (c, nz) = nonzero k hk in at_column c nz (pivots n w d s sized upper reduced nonzero c)
    where
      here :
          is_zero (at s.coeffs k k) ≡ false
          → IsReducedAt s k
          → (at s.coeffs k k ≡ g.one) × ClearAbove s k
      here nz (inl e) = absurd (zero≢nonzero (at s.coeffs k k) e nz)
      here nz (inr p) = p

      at_column :
          (c : ℕ)
          → is_zero (at s.coeffs k c) ≡ false
          → (c < n → n ≤ c + d → (at s.coeffs c c ≡ g.one) × ClearAbove s c)
          → (at s.coeffs k k ≡ g.one) × ClearAbove s k
      at_column c nz later = elim (dec_lt c k) [
        | yes l ↦ absurd (zero≢nonzero (at s.coeffs k c) (upper k c l) nz)
        | no l ↦ elim (dec_lt k c) [
          | yes m ↦ elim (dec_lt c n) [
            | yes p ↦ absurd (zero≢nonzero (at s.coeffs k c) ((later p (omega arith)).1 k m) nz)
            | no p ↦
                absurd (zero≢nonzero (at s.coeffs k c) (at_right sized.coeffs k c (omega arith)) nz)
          ]
          | no m ↦
              let same : c ≡ k = omega arith in
              here (subst (λ x. is_zero (at s.coeffs k x) ≡ false) same nz)
                (reduced k (omega arith) hk)
        ]
      ]

  square-IsIdentity :
      (n w : ℕ) (s : DecoderState F)
      → Sized s n n w
      → Upper s
      → ReducedFrom 0 n s
      → ((a : ℕ) → a < n → IsNonZeroRow s a)
      → IsIdentity n s
  square-IsIdentity n w s sized upper reduced nonzero a c ha =
      let column = pivots n w n s sized upper reduced nonzero in
      elim (ℕ_discrete a c) [
        | yes q ↦ rw (sym q, ==_refl a) (column a ha (omega arith)).0
        | no q ↦ rw (==_ne a c q) (elim (dec_lt c a) [
          | yes l ↦ upper a c l
          | no l ↦ elim (dec_lt c n) [
            | yes m ↦ (column c m (omega arith)).1 a (omega arith)
            | no m ↦ at_right sized.coeffs a c (omega arith)
          ]
        ])
      ]

  -- What `Rref` makes of a state with `r` rows.
  pub record Reduction (r n w : ℕ) (s t : DecoderState F) (r' : ℕ) : Type 0 where
    pub sized : Sized t r' n w
    pub same_count : t.piece_count ≡ s.piece_count
    pub fewer : r' ≤ r
    pub weakens : Weakens n s t
    pub nonzero : (a : ℕ) → a < r' → IsNonZeroRow t a
    pub full : r' ≡ n → IsIdentity n t

  -- On matrices of one height r, with 0 < r and r at most the number n of coefficients of a row, `Rref`
  -- runs to its end and leaves at most r rows. Every solution of the old rows' equations solves the new
  -- rows', and a vector with product zero with every new row of coefficients has product zero with
  -- every old one. No row of zero coefficients is left, and if n rows are left the coefficients are the identity.
  pub rref-ok :
      (r n w : ℕ) (s : DecoderState F)
      → 0 < r
      → r ≤ n
      → Sized s r n w
      → Returns (λ t. (r' : ℕ) × Reduction r n w s t r') (rref s)
  unfolding rref
  rref-ok r n w s hr hn sized = Returns-bind (clean_forward-ok r n w s hr sized) λ a (keeps, upper).
      Returns-bind (clean_backward-ok r n w a hr keeps.sized upper) λ b (keeps2, upper2, reduced).
        Returns-map (remove_zero_rows-ok n w r b hr keeps2.sized) λ t (r', u). (
          r',
          record {
            sized = u.sized;
            same_count = u.same_count ∙ keeps2.same_count ∙ keeps.same_count;
            fewer = u.fewer;
            weakens =
                Weakens-trans n s b t
                  (Weakens-trans n s a b (SameSolutions-Weakens n s a keeps.same)
                    (SameSolutions-Weakens n a b keeps2.same))
                  u.weakens;
            nonzero = u.nonzero;
            full = λ h.
                let square : r ≡ n = omega (arith, u.fewer) in
                let same : t ≡ b = u.all_kept (h ∙ sym square) in
                subst (IsIdentity n) (sym same) (
                  square-IsIdentity n w b (subst (λ x. Sized b x n w) square keeps2.sized) upper2
                    (λ k l m. reduced k l (omega arith))
                    (λ x l. subst (λ v. IsNonZeroRow v x) same (u.nonzero x (omega arith))));
          },
        )

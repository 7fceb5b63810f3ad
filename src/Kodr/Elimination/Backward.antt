-- ===== src/Kodr/Elimination/Backward.antt =====
-- `clean_backward` of kodr/matrix/decoder_state.go.
use rlnc_streaming.Base.{
  ℕ, zero, suc, ◌+◌, min, ◌≤◌, ◌<◌, ◌≡◌, sym, ap, subst, ◌∙◌, ==_refl, ==_ne, false, ◌==◌, ◌&&◌,
  ltb, leb, ◌⊎◌, if◌then◌else◌, arith, Bool-cases, inl, inr, ℕ_discrete,
}
use rlnc_streaming.Run.{ok, ◌>>=◌, Returns, returns, Returns-map, Returns-bind, Returns-if}
use rlnc_streaming.Field.{Field, is_zero, is_zero→eq, add-mul-div}
use rlnc_streaming.Kodr.Matrix.{cell}
use rlnc_streaming.Kodr.Matrix.Cells.{at, cols-ok, cell-ok}
use rlnc_streaming.Kodr.Elimination.{
  DecoderState, range_from, clear_rows, normalise, backward_step, backward_loop, clean_backward,
}
use rlnc_streaming.Kodr.Elimination.Clear.{Sized, Cleared, quotient, contains, clear_rows-ok}
use rlnc_streaming.Kodr.Elimination.Normalise.{Scaled, Scaled-Keeps, scaled_zero, normalise-ok}
use rlnc_streaming.Kodr.Elimination.Keeps.{
  contains-range_from, Others-range_from, Keeps, Keeps-refl, Keeps-trans, Cleared-Keeps, Upper,
  add-mul_vanish,
}

module _ {F : Type 0} ⦃g : Field F⦄ where
  -- Column `k` is zero above the diagonal.
  abbrev pub ClearAbove : DecoderState F → ℕ → Type 0
  ClearAbove s k = (a : ℕ) → a < k → at s.coeffs a k ≡ g.zero

  -- Column `k` has no pivot, or is a column of the identity matrix above the diagonal.
  abbrev pub IsReducedAt : DecoderState F → ℕ → Type 0
  IsReducedAt s k = (at s.coeffs k k ≡ g.zero) ⊎ ((at s.coeffs k k ≡ g.one) × ClearAbove s k)

  abbrev pub ReducedFrom : ℕ → ℕ → DecoderState F → Type 0
  ReducedFrom i b s = (k : ℕ) → i ≤ k → k < b → IsReducedAt s k

module _ {F : Type 0} ⦃g : Field F⦄ (r n w i b : ℕ) (hr : b ≤ r) (hn : b ≤ n) (hi : i < b)
    (s : DecoderState F) (sized : Sized s r n w) (upper : Upper s)
    (reduced : ReducedFrom (suc i) b s) (pivot : is_zero (at s.coeffs i i) ≡ false) where
  -- After the rows above are cleared.
  record Lifted (t : DecoderState F) : Type 0 where
    keeps : Keeps r n w s t
    triangular : Upper t
    right : ReducedFrom (suc i) b t
    above : ClearAbove t i
    nonzero : is_zero (at t.coeffs i i) ≡ false

  lift-ok : Returns Lifted (clear_rows n i (range_from 0 i) s)
  lift-ok =
      Returns-map
        (clear_rows-ok r n w i (omega arith) (omega arith) (range_from 0 i) s
          (Others-range_from r i 0 i (omega arith) (inl (omega arith))) sized (λ c h. upper i c h)
          pivot)
        λ t u. record {
          keeps = Cleared-Keeps i (λ a. contains a (range_from 0 i)) s t u (among i ∙ ground arith);
          triangular = λ a c h. ground (
            arith,
            u.coeffs a c,
            among a,
            upper a c h,
            add-mul_vanish (at s.coeffs a c) (at s.coeffs i c) (quotient s i a) (upper a c h),
            upper i c,
          );
          right = λ k l h. column t u k l (reduced k l h);
          above = λ a h.
              ground (
                arith,
                u.coeffs a i,
                among a,
                add-mul-div (at s.coeffs a i) (at s.coeffs i i) pivot,
              );
          nonzero = ap {A = F} (λ x. is_zero x) (ground (arith, u.coeffs i i, among i)) ∙ pivot;
        }
    where
      among : (a : ℕ) → contains a (range_from 0 i) ≡ (leb 0 a && ltb a (0 + i))
      among a = contains-range_from a 0 i

      column :
          (t : DecoderState F)
          → Cleared r n w i (λ a. contains a (range_from 0 i)) s t
          → (k : ℕ) → i < k
          → IsReducedAt s k
          → IsReducedAt t k
      column t u k l (inl e) = inl (ground (arith, u.coeffs k k, among k, e))
      column t u k l (inr (e, clear)) = inr (
        ground (arith, u.coeffs k k, among k, e),
        λ a h. ground (
          arith,
          u.coeffs a k,
          among a,
          clear a h,
          add-mul_vanish (at s.coeffs a k) (at s.coeffs i k) (quotient s i a) (clear a h)
              (clear i l),
        ),
      )

  abbrev Rest : DecoderState F → Type 0
  Rest t = Keeps r n w s t × Upper t × ReducedFrom i b t

  -- Column `i` joins the columns that are reduced.
  join : (t : DecoderState F) → ReducedFrom (suc i) b t → IsReducedAt t i → ReducedFrom i b t
  join t rest here k l h = elim (ℕ_discrete i k) [
    | yes q ↦ subst (IsReducedAt t) q here
    | no q ↦ rest k (omega arith) h
  ]

  Scaled-Rest :
      (t u : DecoderState F)
      → Lifted t
      → Scaled r n w i (g.div g.one (at t.coeffs i i)) t u
      → Rest u
  Scaled-Rest t u l v = (
    Keeps-trans s t u l.keeps (Scaled-Keeps r n w i (at t.coeffs i i) t u v l.nonzero),
    λ a c h. row a c (l.triangular a c h),
    join u (λ k p q. column k p (l.right k p q))
        (inr (
          rw (==_refl i) at (v.coeffs i i) ∙ g.mul-div g.one (at t.coeffs i i) l.nonzero,
          λ a h. row a i (l.above a h),
        )),
  )
    where
      row : (a c : ℕ) → at t.coeffs a c ≡ g.zero → at u.coeffs a c ≡ g.zero
      row a c e = elim (Bool-cases (i == a)) [
        | inl q ↦ rw q at (v.coeffs a c) ∙ sym (scaled_zero _ e) ∙ e
        | inr q ↦ rw q at (v.coeffs a c) ∙ e
      ]

      column : (k : ℕ) → i < k → IsReducedAt t k → IsReducedAt u k
      column k p (inl e) = inl (row k k e)
      column k p (inr (e, above)) =
          inr (rw (==_ne i k (omega arith)) at (v.coeffs k k) ∙ e, λ a h. row a k (above a h))

  reduce-ok : Returns Rest (
      clear_rows n i (range_from 0 i) s >>= λ t.
      cell t.coeffs i i >>= λ y. if g.beq y g.one then ok t else normalise n i y t)
  reduce-ok = Returns-bind lift-ok λ t l.
      rw (cell-ok l.keeps.sized.coeffs i i (omega arith) (omega arith)) (
        Returns-if (g.beq (at t.coeffs i i) g.one)
          (λ e. returns (
            l.keeps,
            l.triangular,
            join t l.right (inr ((g.beq_iff (at t.coeffs i i) g.one).0 e, l.above)),
          ))
          (λ e.
            Returns-map
              (normalise-ok r n w i (omega arith) (omega arith) t l.keeps.sized
                (λ c h. l.triangular i c h) l.nonzero)
              λ u v. Scaled-Rest t u l v))

-- The result of the rounds down to `i`.
abbrev pub Reduced :
    {F : Type 0} ⦃g : Field F⦄ → ℕ → ℕ → ℕ → ℕ → ℕ → DecoderState F → DecoderState F → Type 0
Reduced r n w b i s t = Keeps r n w s t × Upper t × ReducedFrom i b t

module _ {F : Type 0} ⦃g : Field F⦄ (r n w b : ℕ) (hr : b ≤ r) (hn : b ≤ n) where
  backward_step-ok :
      (i : ℕ) (s : DecoderState F)
      → i < b
      → Sized s r n w
      → Upper s
      → ReducedFrom (suc i) b s
      → Returns (Reduced r n w b i s) (backward_step n i s)
  unfolding backward_step
  backward_step-ok i s hi sized upper reduced =
      rw (cell-ok sized.coeffs i i (omega arith) (omega arith)) (
        Returns-if (is_zero (at s.coeffs i i))
          (λ e. returns (
            Keeps-refl s sized,
            upper,
            λ k l h. elim (ℕ_discrete i k) [
              | yes q ↦ subst (IsReducedAt s) q (inl (is_zero→eq (at s.coeffs i i) e))
              | no q ↦ reduced k (omega arith) h
            ],
          ))
          (λ e. reduce-ok r n w i b hr hn hi s sized upper reduced e))

  backward_loop-ok :
      (i : ℕ) (s : DecoderState F)
      → i ≤ b
      → Sized s r n w
      → Upper s
      → ReducedFrom i b s
      → Returns (Reduced r n w b 0 s) (backward_loop n i s)
  unfolding backward_loop
  backward_loop-ok zero s h sized upper reduced = returns (Keeps-refl s sized, upper, reduced)
  backward_loop-ok (suc i) s h sized upper reduced =
      Returns-bind (backward_step-ok i s (omega arith) sized upper reduced)
        λ t (keeps, upper1, reduced1).
          Returns-map (backward_loop-ok i t (omega arith) keeps.sized upper1 reduced1)
            λ u (keeps2, upper2, reduced2). (Keeps-trans s t u keeps keeps2, upper2, reduced2)

module _ {F : Type 0} ⦃g : Field F⦄ (r n w : ℕ) where
  -- On matrices of one height, which is not zero, with upper triangular coefficients, `clean_backward`
  -- runs to its end. The matrices keep their sizes and solutions and the coefficients stay upper
  -- triangular; each cell of the diagonal that is not zero is one, with zeros above it.
  pub clean_backward-ok :
      (s : DecoderState F)
      → 0 < r
      → Sized s r n w
      → Upper s
      → Returns (Reduced r n w (min r n) 0 s) (clean_backward s)
  unfolding clean_backward
  clean_backward-ok s hr sized upper =
      rw (cols-ok sized.coeffs hr, sized.coeffs.height)
        (backward_loop-ok r n w (min r n) (omega arith) (omega arith) (min r n) s (omega arith)
          sized upper (λ k l h. absurd (omega arith)))

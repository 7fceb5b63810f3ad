-- ===== src/Kodr/Elimination/Pivot.antt =====
-- The search for a pivot and the switch of two rows.
use rlnc_streaming.Base.{
  ℕ, zero, suc, ◌+◌, ◌≤◌, ◌<◌, ◌≡◌, sym, ap, ◌∙◌, true, false, ◌==◌, Option, none, some,
  if◌then◌else◌, arith, ℕ_discrete,
}
use rlnc_streaming.Run.{Returns, returns, Returns-map, Returns-if}
use rlnc_streaming.Field.{Field, is_zero, is_zero→eq}
use rlnc_streaming.Kodr.Matrix.{Matrix}
use rlnc_streaming.Kodr.Matrix.Cells.{at, HasShape, cell-ok}
use rlnc_streaming.Kodr.Elimination.{DecoderState, find_pivot}
use rlnc_streaming.Kodr.Elimination.Equations.{SameSolutions, row_lhs, lhs_congr}
use rlnc_streaming.Kodr.Elimination.Keeps.{Keeps, Triangular}

-- The row that takes the place of row `a` when rows `i` and `p` are switched.
abbrev exchange : ℕ → ℕ → ℕ → ℕ
exchange i p a = if p == a then i else if i == a then p else a

exchange-exchange : (i p a : ℕ) → exchange i p (exchange i p a) ≡ a
exchange-exchange i p a = ground arith

module _ {F : Type 0} ⦃g : Field F⦄ where
  -- What the search for a pivot finds.
  abbrev pub Found : Matrix F → ℕ → ℕ → ℕ → Option ℕ → Type 0
  Found m i p hi none = (a : ℕ) → p ≤ a → a < hi → at m a i ≡ g.zero
  Found m i p hi (some q) = (p ≤ q) × (q < hi) × (is_zero (at m q i) ≡ false)

  pub find_pivot-ok :
      (k p i : ℕ) {m : Matrix F} {r n : ℕ}
      → HasShape m r n
      → p + k ≤ r
      → i < n
      → Returns (Found m i p (p + k)) (find_pivot k p i m)
  unfolding find_pivot
  find_pivot-ok zero p i shape h hn = returns (λ a l u. absurd (omega arith))
  find_pivot-ok (suc k) p i {m} shape h hn = rw (cell-ok shape p i (omega arith) hn) (
      Returns-if (is_zero (at m p i))
        (λ e. Returns-map (find_pivot-ok k (suc p) i shape (omega arith) hn) (further e))
        (λ e. returns (omega arith, omega arith, e)))
    where
      further :
          is_zero (at m p i) ≡ true
          → (o : Option ℕ) → Found m i (suc p) (suc p + k) o
          → Found m i p (p + suc k) o
      further e none f = λ a l u. elim (ℕ_discrete p a) [
        | yes q ↦ ap (λ x. at m x i) (sym q) ∙ is_zero→eq (at m p i) e
        | no q ↦ f a (omega arith) (omega arith)
      ]
      further e (some q) (l, u, nz) = (omega arith, omega arith, nz)

  -- What the row switch establishes for column `i`.
  abbrev pub Settled : ℕ → ℕ → ℕ → ℕ → DecoderState F → Option (DecoderState F) → Type 0
  Settled r n w i s none = (a : ℕ) → i ≤ a → at s.coeffs a i ≡ g.zero
  Settled r n w i s (some s') =
      Keeps r n w s s' × Triangular i s' × (is_zero (at s'.coeffs i i) ≡ false)

  -- Row `a` of the second matrix is row `p`, `i` or `a` of the first.
  abbrev pub Swapped : ℕ → ℕ → Matrix F → Matrix F → Type 0
  Swapped i p m m' =
      (a k : ℕ) → at m' a k ≡ (if p == a then at m i k else if i == a then at m p k else at m a k)

  pub Swapped-SameSolutions :
      (n i p : ℕ) (s s' : DecoderState F)
      → Swapped i p s.coeffs s'.coeffs
      → Swapped i p s.coded s'.coded
      → SameSolutions n s s'
  Swapped-SameSolutions n i p s s' u v c y z = (
    λ h a. moved a ∙ h (exchange i p a),
    λ h a.
        ap (λ t. row_lhs n s c t y z) (sym (exchange-exchange i p a))
        ∙ sym (moved (exchange i p a))
        ∙ h (exchange i p a),
  )
    where
      moved : (a : ℕ) → row_lhs n s' c a y z ≡ row_lhs n s c (exchange i p a) y z
      moved a = lhs_congr n _ _ _ _ y z (λ k. ground (arith, u a k)) (ground (arith, v a c))

-- ===== src/Kodr/Elimination/Equations.antt =====
-- What the elimination must not change: the linear equations that the rows satisfy. A row stands for
-- the equation `Σ coeffs[a][k] * y[k] + coded[a][c] * z = 0`, for each column `c` of the coded
-- symbols. At `z = 1` and `y` a column of the original pieces it says that the coded piece is that
-- combination of the pieces; at `z = 0` it says that `y` is orthogonal to the coding vector.
use rlnc_streaming.Base.{
  ℕ, ◌≡◌, ◌↔◌, sym, ap, ap₂, ◌∙◌, Bool, true, false, if◌then◌else◌, Bool-cases, inl, inr,
}
use rlnc_streaming.Field.{Field, zero-mul, add-zero, add-mul, add_interchange}
use rlnc_streaming.Field.Sum.{sum, sum_congr, sum-add, sum-zero, sum-mul}
use rlnc_streaming.Kodr.Matrix.Cells.{at}
use rlnc_streaming.Kodr.Elimination.{DecoderState}
use rlnc_streaming.Kodr.Elimination.Clear.{Cleared, quotient}

module _ {F : Type 0} ⦃g : Field F⦄ (n : ℕ) where
  -- The left side of the equation, of coefficients `u` and coded symbol `v`.
  unfoldable pub lhs : (ℕ → F) → F → (ℕ → F) → F → F
  lhs u v y z = g.add (sum n (λ k. g.mul (u k) (y k))) (g.mul v z)

  mul_right_comm : (a b c : F) → g.mul (g.mul a b) c ≡ g.mul (g.mul a c) b
  mul_right_comm a b c = g.mul_assoc a b c ∙ ap (g.mul a) (g.mul_comm b c) ∙ sym (g.mul_assoc a c b)

  -- It is linear in the row.
  pub lhs-add :
      (u u' : ℕ → F) (v v' q : F) (y : ℕ → F) (z : F)
      → lhs (λ k. g.add (u k) (g.mul (u' k) q)) (g.add v (g.mul v' q)) y z
        ≡ g.add (lhs u v y z) (g.mul (lhs u' v' y z) q)
  unfolding lhs
  lhs-add u u' v v' q y z =
      ap₂ g.add
        (sum_congr n _ (λ k. g.add (g.mul (u k) (y k)) (g.mul (g.mul (u' k) (y k)) q))
            (λ k h. scaled (u k) (u' k) (y k))
          ∙ sum-add n (λ k. g.mul (u k) (y k)) (λ k. g.mul (g.mul (u' k) (y k)) q)
          ∙ ap (g.add _) (sum-mul n (λ k. g.mul (u' k) (y k)) q))
        (scaled v v' z)
      ∙ add_interchange _ _ _ _
      ∙ ap (g.add _) (sym (add-mul _ _ q))
    where
      scaled : (a b c : F) → g.mul (g.add a (g.mul b q)) c ≡ g.add (g.mul a c) (g.mul (g.mul b c) q)
      scaled a b c = add-mul a (g.mul b q) c ∙ ap (g.add (g.mul a c)) (mul_right_comm b q c)

  pub lhs-mul :
      (u : ℕ → F) (v q : F) (y : ℕ → F) (z : F)
      → lhs (λ k. g.mul (u k) q) (g.mul v q) y z ≡ g.mul (lhs u v y z) q
  unfolding lhs
  lhs-mul u v q y z =
      ap₂ g.add
        (sum_congr n _ (λ k. g.mul (g.mul (u k) (y k)) q) (λ k h. mul_right_comm (u k) q (y k))
          ∙ sum-mul n (λ k. g.mul (u k) (y k)) q)
        (mul_right_comm v q z)
      ∙ sym (add-mul _ _ q)

  pub lhs_congr :
      (u u' : ℕ → F) (v v' : F) (y : ℕ → F) (z : F)
      → ((k : ℕ) → u k ≡ u' k)
      → v ≡ v'
      → lhs u v y z ≡ lhs u' v' y z
  unfolding lhs
  lhs_congr u u' v v' y z e f =
      ap₂ g.add (sum_congr n _ _ (λ k h. ap (λ x. g.mul x (y k)) (e k))) (ap (λ x. g.mul x z) f)

  pub lhs_zero :
      (u : ℕ → F) (v : F) (y : ℕ → F) (z : F)
      → ((k : ℕ) → u k ≡ g.zero)
      → g.mul v z ≡ g.zero
      → lhs u v y z ≡ g.zero
  unfolding lhs
  lhs_zero u v y z e f =
      ap₂ g.add
        (sum_congr n _ (λ k. g.zero) (λ k h. ap (λ x. g.mul x (y k)) (e k) ∙ zero-mul (y k))
          ∙ sum-zero n)
        f
      ∙ add-zero g.zero

  -- The left side at row `a` of a state.
  abbrev pub row_lhs : DecoderState F → ℕ → ℕ → (ℕ → F) → F → F
  row_lhs s c a y z = lhs (λ k. at s.coeffs a k) (at s.coded a c) y z

  abbrev pub Solves : DecoderState F → ℕ → (ℕ → F) → F → Type 0
  Solves s c y z = (a : ℕ) → row_lhs s c a y z ≡ g.zero

  -- The two states have the same solutions.
  abbrev pub SameSolutions : DecoderState F → DecoderState F → Type 0
  SameSolutions s s' = (c : ℕ) (y : ℕ → F) (z : F) → Solves s c y z ↔ Solves s' c y z

  pub SameSolutions-refl : (s : DecoderState F) → SameSolutions s s
  SameSolutions-refl s c y z = (λ h. h, λ h. h)

  pub SameSolutions-trans :
      (s t u : DecoderState F) → SameSolutions s t → SameSolutions t u → SameSolutions s u
  SameSolutions-trans s t u p q c y z =
      (λ h. (q c y z).0 ((p c y z).0 h), λ h. (p c y z).1 ((q c y z).1 h))

  vanish :
      (b : Bool) (x y q : F)
      → x ≡ g.zero
      → y ≡ g.zero
      → (if b then g.add x (g.mul y q) else x) ≡ g.zero
  vanish true x y q e f = rw (e, f, zero-mul q) (add-zero g.zero)
  vanish false x y q e f = e

  unvanish :
      (b : Bool) (x y q : F)
      → (if b then g.add x (g.mul y q) else x) ≡ g.zero
      → y ≡ g.zero
      → x ≡ g.zero
  unvanish true x y q e f =
      sym (add-zero x) ∙ ap (g.add x) (sym (ap (λ t. g.mul t q) f ∙ zero-mul q)) ∙ e
  unvanish false x y q e f = e

  pub Cleared-SameSolutions :
      (r w i : ℕ) (chosen : ℕ → Bool) (s s' : DecoderState F)
      → Cleared r n w i chosen s s'
      → chosen i ≡ false
      → SameSolutions s s'
  Cleared-SameSolutions r w i chosen s s' u stays c y z = (
    λ h a. step a ∙ vanish (chosen a) _ _ (quotient s i a) (h a) (h i),
    λ h a.
        let pivot : row_lhs s c i y z ≡ g.zero = rw stays at (sym (step i)) ∙ h i in
        unvanish (chosen a) _ _ (quotient s i a) (sym (step a) ∙ h a) pivot,
  )
    where
      step :
          (a : ℕ)
          → row_lhs s' c a y z ≡ (
              if chosen a
              then g.add (row_lhs s c a y z) (g.mul (row_lhs s c i y z) (quotient s i a))
              else row_lhs s c a y z)
      step a = elim (Bool-cases (chosen a)) [
        | inl e ↦ rw e (
            lhs_congr _ _ _ _ y z (λ k. rw e at (u.coeffs a k)) (rw e at (u.coded a c))
            ∙ lhs-add _ _ _ _ (quotient s i a) y z)
        | inr e ↦ rw e (lhs_congr _ _ _ _ y z (λ k. rw e at (u.coeffs a k)) (rw e at (u.coded a c)))
      ]

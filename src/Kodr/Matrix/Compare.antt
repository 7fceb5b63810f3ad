-- ===== src/Kodr/Matrix/Compare.antt =====
-- `Cmp` of kodr/matrix/matrix.go against equality of matrices.
use rlnc_streaming.Base.{
  ℕ, suc, ◌<◌, ◌≡◌, ◌≢◌, ◌↔◌, inl, inr, refl, sym, ap, ap₂, ◌∙◌, List, [], ◌∷◌, Bool, true, false,
  length, get_or, arith, Bool-cases, ℕ_discrete, ==_refl, ==_ne,
}
use rlnc_streaming.Run.{Returns, returns, Returns-inv}
use rlnc_streaming.Field.{Field}
use rlnc_streaming.Kodr.Matrix.{Matrix, cmp_row, cmp_rows, cmp}
use rlnc_streaming.Kodr.Matrix.Cells.{HasShape, cols-ok}

abbrev heads : {A : Type 0} → A → List A → A
heads d [] = d
heads d (x ∷ xs) = x

abbrev tails : {A : Type 0} → List A → List A
tails [] = []
tails (x ∷ xs) = xs

module _ {A : Type 0} where
  -- The test tells whether the lists are equal.
  abbrev pub Decides : A → A → Bool → Type 0
  Decides x y b = (b ≡ true) ↔ (x ≡ y)

  refutes : {x y : A} → x ≢ y → Decides x y false
  refutes n = (λ h. cc, λ h. absurd (n h))

module _ {A : Type 0} where
  Decides∷ :
      (x y : A) (xs ys : List A) (b : Bool) → x ≡ y → Decides xs ys b → Decides (x ∷ xs) (y ∷ ys) b
  Decides∷ x y xs ys b e (f, h) = (λ p. ap₂ ◌∷◌ e (f p), λ q. h (ap tails q))

  refutes∷ : (x y : A) (xs ys : List A) → x ≢ y → Decides (x ∷ xs) (y ∷ ys) false
  refutes∷ x y xs ys n = refutes (λ q. n (ap (heads x) q))

module _ {F : Type 0} ⦃g : Field F⦄ where
  beq-false : (x y : F) → g.beq x y ≡ false → x ≢ y
  beq-false x y h e = cc (h, (g.beq_iff x y).1 e)

  cmp_row-Decides :
      (xs ys : List F) → length xs ≡ length ys → Returns (Decides xs ys) (cmp_row xs ys)
  unfolding cmp_row
  cmp_row-Decides [] [] h = returns (λ p. refl, λ q. refl)
  cmp_row-Decides [] (y ∷ ys) h = absurd (omega arith)
  cmp_row-Decides (x ∷ xs) [] h = absurd (omega arith)
  cmp_row-Decides (x ∷ xs) (y ∷ ys) h = elim (Bool-cases (g.beq x y)) [
    | inr e ↦ rw e (returns (refutes∷ x y xs ys (beq-false x y e)))
    | inl e ↦
        let (b, run, d) = Returns-inv (cmp_row-Decides xs ys (omega arith)) in
        rw (e, run) (returns (Decides∷ x y xs ys b ((g.beq_iff x y).0 e) d))
  ]

  cmp_rows-Decides :
      (m other : Matrix F)
      → length m ≡ length other
      → ((i : ℕ) → i < length m → length (get_or m i []) ≡ length (get_or other i []))
      → Returns (Decides m other) (cmp_rows m other)
  unfolding cmp_rows
  cmp_rows-Decides [] [] h w = returns (λ p. refl, λ q. refl)
  cmp_rows-Decides [] (y ∷ ys) h w = absurd (omega arith)
  cmp_rows-Decides (x ∷ xs) [] h w = absurd (omega arith)
  cmp_rows-Decides (x ∷ xs) (y ∷ ys) h w =
      let (same, first, d) = Returns-inv (cmp_row-Decides x y (w 0 (omega arith))) in
      elim (Bool-cases same) [
        | inr e ↦ rw (first, e) (returns (refutes∷ x y xs ys (λ q. cc (e, d.1 q))))
        | inl e ↦
            let (b, run, ds) =
              Returns-inv (cmp_rows-Decides xs ys (omega arith) (λ i l. w (suc i) (omega arith))) in
            rw (first, e, run) (returns (Decides∷ x y xs ys b (d.0 e) ds))
      ]

  -- For two matrices that have a row each, all rows of a matrix of one length, `Cmp` returns
  -- normally, and it returns true if and only if the matrices are equal.
  cmp-Decides :
      (m other : Matrix F) (r c r' c' : ℕ)
      → HasShape m r c
      → HasShape other r' c'
      → 0 < r
      → 0 < r'
      → Returns (Decides m other) (cmp m other)
  unfolding cmp
  cmp-Decides m other r c r' c' shape shape' h h' = elim (ℕ_discrete r r') [
    | no n ↦
        rw (shape.height, shape'.height, ==_ne r r' n)
          (returns (refutes (λ q. n (sym shape.height ∙ ap length q ∙ shape'.height))))
    | yes e ↦ elim (ℕ_discrete c c') [
      | no n ↦
          rw
            (
              shape.height,
              shape'.height,
              e,
              ==_refl r',
              cols-ok shape h,
              cols-ok shape' h',
              ==_ne c c' n,
            )
            (returns (
              refutes (λ q.
                n (
                  sym (shape.width 0 h) ∙ ap (λ t. length (get_or t 0 [])) q ∙ shape'.width 0 h'))))
      | yes f ↦
          rw
            (
              shape.height,
              shape'.height,
              e,
              ==_refl r',
              cols-ok shape h,
              cols-ok shape' h',
              f,
              ==_refl c',
            )
            (cmp_rows-Decides m other (shape.height ∙ e ∙ sym shape'.height) (λ i l.
              shape.width i (omega (arith, shape.height))
              ∙ f
              ∙ sym (shape'.width i (omega (arith, shape.height, e)))))
    ]
  ]

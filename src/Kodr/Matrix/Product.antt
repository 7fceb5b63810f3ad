-- ===== src/Kodr/Matrix/Product.antt =====
-- `Multiply` of kodr/matrix/matrix.go against the sums of the matrix product.
use rlnc_streaming.Base.{
  ℕ, zero, suc, ◌+◌, ◌≤◌, ◌<◌, ◌≡◌, refl, sym, ap, ap₂, ◌∙◌, List, [], ◌∷◌, length, get_or, arith,
  ==_refl,
}
use rlnc_streaming.Run.{ok, load-ok, Returns, returns, Returns-map, Returns-bind}
use rlnc_streaming.Field.{Field, add-zero}
use rlnc_streaming.Field.Sum.{sum, sum-front, sum_congr, sum-mul, sum_comm}
use rlnc_streaming.Kodr.Matrix.{Matrix, dot, product_row, product_rows, multiply}
use rlnc_streaming.Kodr.Matrix.Cells.{HasShape, entry, at, cell-ok, cols-ok}

module _ {F : Type 0} ⦃g : Field F⦄ where
  -- The cell of a product.
  abbrev pub product_cell : ℕ → Matrix F → Matrix F → ℕ → ℕ → F
  product_cell n a b i j = sum n (λ k. g.mul (at a i k) (at b k j))

  dot-ok :
      (n k j c h : ℕ) (row : List F) (m : Matrix F) (acc : F)
      → HasShape m h c
      → k + n ≤ length row
      → k + n ≤ h
      → j < c
      → dot n k j row m acc
        ≡ ok (g.add acc (sum n (λ t. g.mul (entry row (k + t)) (at m (k + t) j))))
  unfolding dot sum
  dot-ok zero k j c h row m acc shape l1 l2 lj = ap ok (sym (add-zero acc))
  dot-ok (suc n) k j c h row m acc shape l1 l2 lj =
      rw
        (
          load-ok row k g.zero (omega arith),
          cell-ok shape k j (omega arith) lj,
          dot-ok n (suc k) j c h row m (g.add acc (g.mul (entry row k) (at m k j))) shape
              (omega arith) (omega arith) lj,
        )
        (ap ok (
          g.add_assoc acc (g.mul (entry row k) (at m k j)) _
          ∙ ap (g.add acc) (
              ap₂ g.add (ap {A = ℕ} (λ t. g.mul (entry row t) (at m t j)) (omega arith)) (
                sum_congr n _ _
                  (λ t l. ap {A = ℕ} (λ u. g.mul (entry row u) (at m u j)) (omega arith)))
              ∙ sym (sum-front n (λ t. g.mul (entry row (k + t)) (at m (k + t) j))))))

  -- A row of the product, from column `j` on.
  abbrev IsProductRow : ℕ → ℕ → ℕ → List F → Matrix F → List F → Type 0
  IsProductRow w j n row m out =
      (length out ≡ w)
      × ((i : ℕ) → i < w → entry out i ≡ sum n (λ k. g.mul (entry row k) (at m k (j + i))))

  product_row-ok :
      (w j n c : ℕ) (row : List F) (m : Matrix F)
      → HasShape m n c
      → length row ≡ n
      → j + w ≤ c
      → Returns (IsProductRow w j n row m) (product_row w j n row m)
  unfolding product_row
  product_row-ok zero j n c row m shape e l = returns (refl, λ i h. absurd (omega arith))
  product_row-ok (suc w) j n c row m shape e l =
      rw (dot-ok n 0 j c n row m g.zero shape (omega (arith, e)) (omega arith) (omega arith)) (
        Returns-bind (product_row-ok w (suc j) n c row m shape e (omega arith))
          λ rest (size, cells). returns (ap suc size, λ i h. cell i h rest cells))
    where
      cell :
          (i : ℕ)
          → i < suc w
          → (rest : List F)
          → ((i : ℕ) → i < w → entry rest i ≡ sum n (λ k. g.mul (entry row k) (at m k (suc j + i))))
          → entry (g.add g.zero (sum n (λ t. g.mul (entry row (0 + t)) (at m (0 + t) j))) ∷ rest) i
            ≡ sum n (λ k. g.mul (entry row k) (at m k (j + i)))
      cell zero h rest cells =
          g.zero-add _
          ∙ sum_congr n _ _ (λ k _.
            ap₂ {A = ℕ} {B = ℕ} (λ t u. g.mul (entry row t) (at m t u)) (omega arith) (omega arith))
      cell (suc i) h rest cells =
          cells i (omega arith)
          ∙ sum_congr n _ _ (λ k _. ap {A = ℕ} (λ u. g.mul (entry row k) (at m k u)) (omega arith))

  -- The first `w` cells of each row of the product.
  IsProductRows : ℕ → ℕ → Matrix F → Matrix F → Matrix F → Type 0
  IsProductRows w n a m out =
      (length out ≡ length a)
      × ((i : ℕ) → i < length a → IsProductRow w 0 n (get_or a i []) m (get_or out i []))

  product_rows-ok :
      (n c : ℕ) (a m : Matrix F)
      → HasShape m n c
      → ((i : ℕ) → i < length a → length (get_or a i []) ≡ n)
      → Returns (IsProductRows c n a m) (product_rows n c a m)
  unfolding product_rows IsProductRows
  product_rows-ok n c [] m shape wide = returns (refl, λ i h. absurd (omega arith))
  product_rows-ok n c (row ∷ a) m shape wide =
      Returns-bind (product_row-ok c 0 n c row m shape (wide 0 (omega arith)) (omega arith))
        λ r ok_row.
          Returns-bind (product_rows-ok n c a m shape (λ i l. wide (suc i) (omega arith)))
            λ rest (size, each). returns (ap suc size, λ i h. pick i h r ok_row rest each)
    where
      pick :
          (i : ℕ)
          → i < suc (length a)
          → (r : List F) → IsProductRow c 0 n row m r
          → (rest : Matrix F)
          → ((i : ℕ) → i < length a → IsProductRow c 0 n (get_or a i []) m (get_or rest i []))
          → IsProductRow c 0 n (get_or (row ∷ a) i []) m (get_or (r ∷ rest) i [])
      pick zero h r ok_row rest each = ok_row
      pick (suc i) h r ok_row rest each = each i (omega arith)

  -- A matrix of `r` rows and `c` columns whose cells are those of the product of `a` and `b`.
  pub record IsProduct (r n c : ℕ) (a b out : Matrix F) : Type 0 where
    pub shape : HasShape out r c
    pub cells : (i j : ℕ) → i < r → j < c → at out i j ≡ product_cell n a b i j

  -- For a matrix of r > 0 rows of n symbols and one of n > 0 rows of c symbols, `Multiply` returns
  -- normally: a matrix of r rows of c symbols, each the sum over k of the products of the entries
  -- k of its row of the first and of its column of the second.
  pub multiply-IsProduct :
      (r n c : ℕ) (a b : Matrix F)
      → HasShape a r n
      → HasShape b n c
      → 0 < r
      → 0 < n
      → Returns (IsProduct r n c a b) (multiply a b)
  unfolding multiply IsProductRows
  multiply-IsProduct r n c a b shape_a shape_b hr hn =
      rw (cols-ok shape_a hr, shape_b.height, ==_refl n, cols-ok shape_b hn)
        (Returns-map
          (product_rows-ok n c a b shape_b (λ i l. shape_a.width i (omega (arith, shape_a.height))))
          λ out (size, each). record {
            shape = record {
              height = size ∙ shape_a.height;
              width = λ i l. (each i (omega (arith, shape_a.height))).0;
            };
            cells = λ i j li lj.
                (each i (omega (arith, shape_a.height))).1 j lj
                ∙ sum_congr n _ _
                    (λ k _. ap {A = ℕ} (λ u. g.mul (at a i k) (at b k u)) (omega arith));
          })

  -- The sum that a product with a product is.
  pub sum-sum :
      (r n : ℕ) (v : ℕ → F) (m : ℕ → ℕ → F) (x : ℕ → F)
      → sum r (λ k. g.mul (v k) (sum n (λ t. g.mul (m k t) (x t))))
        ≡ sum n (λ t. g.mul (sum r (λ k. g.mul (v k) (m k t))) (x t))
  sum-sum r n v m x =
      sum_congr r _ _ (λ k _.
        g.mul_comm (v k) _
        ∙ sym (sum-mul n (λ t. g.mul (m k t) (x t)) (v k))
        ∙ sum_congr n _ _ (λ t _. g.mul_comm _ (v k) ∙ sym (g.mul_assoc (v k) (m k t) (x t))))
      ∙ sum_comm r n (λ k t. g.mul (g.mul (v k) (m k t)) (x t))
      ∙ sum_congr n _ _ (λ t _. sum-mul r (λ k. g.mul (v k) (m k t)) (x t))

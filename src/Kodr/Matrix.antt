-- ===== src/Kodr/Matrix.antt =====
-- kodr/matrix/matrix.go: matrices of symbols. An index out of range panics, as in Go.
pub mod Cells
pub mod Product
pub mod Compare
use rlnc_streaming.Base.{
  ℕ, zero, suc, List, [], ◌∷◌, ◌++◌, Bool, true, false, ◌==◌, if◌then◌else◌, length, take, drop,
}
use rlnc_streaming.Run.{Run, ok, err, ◌>>=◌, load, store, matrix_dimension_mismatch}
use rlnc_streaming.Field.{Field}

abbrev pub Matrix : Type 0 → Type 0
Matrix F = List (List F)

module _ {F : Type 0} where
  -- `Rows`
  abbrev pub rows : Matrix F → ℕ
  rows m = length m

  -- `Cols`: the length of the first row, which must exist.
  unfoldable pub cols : Matrix F → Run ℕ
  cols m = do row ← load m 0; ok (length row)

  -- `m[r][c]`
  unfoldable pub cell : Matrix F → ℕ → ℕ → Run F
  cell m r c = do row ← load m r; load row c

  -- `m[i], m[p] = m[p], m[i]`
  unfoldable pub swap_rows : ℕ → ℕ → Matrix F → Run (Matrix F)
  swap_rows i p m = do a ← load m p; b ← load m i; m' ← store m i a; store m' p b

  -- `copy(m[i:], m[i+1:])` and the cut of the last row: the row `i` goes.
  unfoldable pub remove_row : ℕ → Matrix F → Matrix F
  remove_row i m = take i m ++ drop (suc i) m

module _ {F : Type 0} ⦃g : Field F⦄ where
  -- The comparison of two rows, cell by cell; a second row that is too short panics.
  unfoldable pub cmp_row : List F → List F → Run Bool
  cmp_row [] other = ok true
  cmp_row (x ∷ row) [] = Run.panic
  cmp_row (x ∷ row) (y ∷ other) =
      let rest = cmp_row row other in if g.beq x y then rest else ok false

  unfoldable pub cmp_rows : Matrix F → Matrix F → Run Bool
  cmp_rows [] other = ok true
  cmp_rows (x ∷ m) [] = Run.panic
  cmp_rows (x ∷ m) (y ∷ other) = do
    same ← cmp_row x y
    let rest = cmp_rows m other
    if same then rest else ok false

  -- `Cmp`: the columns are compared only if the rows agree.
  unfoldable pub cmp : Matrix F → Matrix F → Run Bool
  cmp m other =
      if rows m == rows other
      then (do a ← cols m; b ← cols other; if a == b then cmp_rows m other else ok false)
      else ok false

  -- `for k := k; k < k + n; k++ { acc = acc + row[k] * with[k][j] }`
  unfoldable pub dot : ℕ → ℕ → ℕ → List F → Matrix F → F → Run F
  dot zero k j row m acc = ok acc
  dot (suc n) k j row m acc = do
    x ← load row k
    y ← cell m k j
    dot n (suc k) j row m (g.add acc (g.mul x y))

  -- The cells of one row of the product, from column `j` on: the work of one task.
  unfoldable pub product_row : ℕ → ℕ → ℕ → List F → Matrix F → Run (List F)
  product_row zero j n row m = ok []
  product_row (suc k) j n row m = do
    x ← dot n 0 j row m g.zero
    rest ← product_row k (suc j) n row m
    ok (x ∷ rest)

  -- One task for each row; a task writes its own row of the product only.
  unfoldable pub product_rows : ℕ → ℕ → Matrix F → Matrix F → Run (Matrix F)
  product_rows n c [] m = ok []
  product_rows n c (row ∷ a) m = do
    r ← product_row c 0 n row m
    rest ← product_rows n c a m
    ok (r ∷ rest)

  -- `Multiply`
  unfoldable pub multiply : Matrix F → Matrix F → Run (Matrix F)
  multiply a b = do
    n ← cols a
    if n == rows b then (do c ← cols b; product_rows n c a b) else err matrix_dimension_mismatch

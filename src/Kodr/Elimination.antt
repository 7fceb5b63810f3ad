-- ===== src/Kodr/Elimination.antt =====
-- kodr/matrix/decoder_state.go: the Gaussian elimination of the decoder. The rows that one pivot
-- clears are each the work of a goroutine that writes its own row only and reads the pivot's row; the
-- goroutines of one pivot are run here one after the other, in the order of a list of rows.
pub mod RowOps
pub mod Clear
pub mod Order
pub mod Rref
pub mod Removal
pub mod Without
pub mod Backward
pub mod Normalise
pub mod Keeps
pub mod Pivot
pub mod Forward
pub mod Equations
pub mod Kernel
pub mod Weakens
use rlnc_streaming.Base.{
  ℕ, zero, suc, ◌-◌, min, List, [], ◌∷◌, Option, none, some, Bool, true, false, ◌&&◌, if◌then◌else◌,
  length,
}
use rlnc_streaming.Run.{Run, ok, ◌>>=◌, load, store}
use rlnc_streaming.Field.{Field, is_zero}
use rlnc_streaming.Kodr.Matrix.{Matrix, cols, cell, swap_rows, remove_row}

-- lo, lo + 1, …, lo + n - 1
unfoldable pub range_from : ℕ → ℕ → List ℕ
range_from lo zero = []
range_from lo (suc n) = lo ∷ range_from (suc lo) n

-- `DecoderState`, without the field, which is a parameter.
pub record DecoderState (F : Type 0) : Type 0 where
  pub piece_count : ℕ
  pub coeffs : Matrix F
  pub coded : Matrix F

-- `NewDecoderStateWithPieceCount`
abbrev pub new_decoder_state : {F : Type 0} → ℕ → DecoderState F
new_decoder_state n = record { piece_count = n; coeffs = []; coded = [] }

-- `NewDecoderState`
abbrev pub decoder_state_of : {F : Type 0} → Matrix F → Matrix F → DecoderState F
decoder_state_of m d = record { piece_count = length m; coeffs = m; coded = d }

module _ {F : Type 0} ⦃g : Field F⦄ where
  -- `for k := lo; k < lo + n; k++ { dst[k] = dst[k] + src[k] * q }`
  unfoldable pub add_scaled : ℕ → ℕ → F → List F → List F → Run (List F)
  add_scaled zero k q src dst = ok dst
  add_scaled (suc n) k q src dst = do
    d ← load dst k
    s ← load src k
    dst' ← store dst k (g.add d (g.mul s q))
    add_scaled n (suc k) q src dst'

  -- `for k := lo; k < lo + n; k++ { row[k] = row[k] * inv }`. The source leaves out the
  -- coefficients that are zero.
  unfoldable pub scale : Bool → ℕ → ℕ → F → List F → Run (List F)
  scale skip zero k inv row = ok row
  scale skip (suc n) k inv row = do
    x ← load row k
    row' ← if skip && is_zero x then ok row else store row k (g.mul x inv)
    scale skip n (suc k) inv row'

  -- The search for a non-zero cell in column `i`, from row `p` on.
  unfoldable pub find_pivot : ℕ → ℕ → ℕ → Matrix F → Run (Option ℕ)
  find_pivot zero p i m = ok none
  find_pivot (suc n) p i m = do
    x ← cell m p i
    let rest = find_pivot n (suc p) i m
    if is_zero x then rest else ok (some p)

  -- The body of the goroutine that clears column `i` of row `j`, over `n` columns.
  unfoldable pub clear_row : ℕ → ℕ → ℕ → DecoderState F → Run (DecoderState F)
  clear_row n i j s = do
    x ← cell s.coeffs j i
    y ← cell s.coeffs i i
    let q = g.div x y
    src ← load s.coeffs i
    dst ← load s.coeffs j
    dst' ← add_scaled (n - i) i q src dst
    m ← store s.coeffs j dst'
    w ← cols s.coded
    csrc ← load s.coded i
    cdst ← load s.coded j
    cdst' ← add_scaled w 0 q csrc cdst
    d ← store s.coded j cdst'
    ok (record s { coeffs = m; coded = d })

  -- The test before the goroutine is started.
  unfoldable pub clear_unless_zero : ℕ → ℕ → ℕ → DecoderState F → Run (DecoderState F)
  clear_unless_zero n i j s = do
    x ← cell s.coeffs j i
    if is_zero x then ok s else clear_row n i j s

  -- The loop over the rows of `js`, with the goroutines that it starts.
  unfoldable pub clear_rows : ℕ → ℕ → List ℕ → DecoderState F → Run (DecoderState F)
  clear_rows n i [] s = ok s
  clear_rows n i (j ∷ js) s = do s' ← clear_unless_zero n i j s; clear_rows n i js s'

  -- The row switch in both matrices.
  unfoldable pub switch_rows : ℕ → Option ℕ → DecoderState F → Run (Option (DecoderState F))
  switch_rows i none s = ok none
  switch_rows i (some p) s = do
    m ← swap_rows i p s.coeffs
    d ← swap_rows i p s.coded
    ok (some (record s { coeffs = m; coded = d }))

  -- The first half of a round of `clean_forward`; `none` means that column `i` has no pivot.
  unfoldable pub settle_pivot : ℕ → DecoderState F → Run (Option (DecoderState F))
  settle_pivot i s = do
    x ← cell s.coeffs i i
    if is_zero x
        then (do
          found ← find_pivot (length s.coeffs - suc i) (suc i) i s.coeffs
          switch_rows i found s)
        else ok (some s)

  -- The second half: the rows below are cleared, or `continue`.
  unfoldable pub clear_below :
      ℕ → ℕ → DecoderState F → Option (DecoderState F) → Run (DecoderState F)
  clear_below n i s none = ok s
  clear_below n i s (some s') = clear_rows n i (range_from (suc i) (length s'.coeffs - suc i)) s'

  -- One round of the loop of `clean_forward`.
  unfoldable pub forward_step : ℕ → ℕ → DecoderState F → Run (DecoderState F)
  forward_step n i s = do settled ← settle_pivot i s; clear_below n i s settled

  unfoldable pub forward_loop : ℕ → ℕ → ℕ → DecoderState F → Run (DecoderState F)
  forward_loop n zero i s = ok s
  forward_loop n (suc k) i s = do s' ← forward_step n i s; forward_loop n k (suc i) s'

  unfoldable pub clean_forward : DecoderState F → Run (DecoderState F)
  clean_forward s = do n ← cols s.coeffs; forward_loop n (min (length s.coeffs) n) 0 s

  -- The division of row `i` by its pivot.
  unfoldable pub normalise : ℕ → ℕ → F → DecoderState F → Run (DecoderState F)
  normalise n i y s = do
    let inv = g.div g.one y
    row ← load s.coeffs i
    row' ← store row i g.one
    row'' ← scale true (n - suc i) (suc i) inv row'
    m ← store s.coeffs i row''
    w ← cols s.coded
    crow ← load s.coded i
    crow' ← scale false w 0 inv crow
    d ← store s.coded i crow'
    ok (record s { coeffs = m; coded = d })

  -- One round of the loop of `clean_backward`.
  unfoldable pub backward_step : ℕ → ℕ → DecoderState F → Run (DecoderState F)
  backward_step n i s = do
    x ← cell s.coeffs i i
    if is_zero x then ok s else (do
      s' ← clear_rows n i (range_from 0 i) s
      y ← cell s'.coeffs i i
      if g.beq y g.one then ok s' else normalise n i y s')

  -- The loop counts down.
  unfoldable pub backward_loop : ℕ → ℕ → DecoderState F → Run (DecoderState F)
  backward_loop n zero s = ok s
  backward_loop n (suc i) s = do s' ← backward_step n i s; backward_loop n i s'

  unfoldable pub clean_backward : DecoderState F → Run (DecoderState F)
  clean_backward s = do n ← cols s.coeffs; backward_loop n (min (length s.coeffs) n) s

  -- `true` if the first cells of the row, as many as `n`, are zero.
  unfoldable pub row_is_zero : ℕ → List F → Run Bool
  row_is_zero zero row = ok true
  row_is_zero (suc n) [] = Run.panic
  row_is_zero (suc n) (x ∷ row) =
      let rest = row_is_zero n row in if is_zero x then rest else ok false

  -- The loop of `remove_zero_rows`. Each round takes a row away or goes on to the next, so the rounds
  -- are as many as the rows are at the start.
  unfoldable pub remove_loop : ℕ → ℕ → ℕ → DecoderState F → Run (DecoderState F)
  remove_loop zero i n s = ok s
  remove_loop (suc k) i n s = do
    row ← load s.coeffs i
    all_zero ← row_is_zero n row
    if all_zero
        then (do
          crow ← load s.coded i
          remove_loop k i n
              (record s { coeffs = remove_row i s.coeffs; coded = remove_row i s.coded }))
        else remove_loop k (suc i) n s

  unfoldable pub remove_zero_rows : DecoderState F → Run (DecoderState F)
  remove_zero_rows s = do n ← cols s.coeffs; remove_loop (length s.coeffs) 0 n s

  unfoldable pub rref : DecoderState F → Run (DecoderState F)
  rref s = do a ← clean_forward s; b ← clean_backward a; remove_zero_rows b

-- ===== src/Kodr/Data/Split.antt =====
-- kodr/data.go: the splitting of data into pieces, their number, their size and the padding.
use native.Mathlib.Nat.{lt-div-mul-add, div-mul-le_self, div-eq_of_lt-le}
use mathlib.Core.List.{flatten}
use rlnc_streaming.Base.{
  ℕ, zero, suc, ◌+◌, ◌-◌, ◌*◌, ◌/◌, ◌≤◌, ◌<◌, ◌≡◌, refl, sym, ap, ◌∙◌, List, ◌++◌, length, take,
  drop, replicate, min, arith, length-append, length-take, length-drop, length-replicate, take_all,
  take-add, drop-drop, append-nil, leb-false, ltb-false, dec_lt, ==_refl, ==_ne, lt→ltb,
}
use rlnc_streaming.Run.{ok, slice-ok, Returns, returns, Returns-bind}
use rlnc_streaming.Field.{Field}
use rlnc_streaming.Kodr.Matrix.Cells.{HasShape, cons-HasShape}
use rlnc_streaming.Kodr.Data.{ceil_div, pieces_from, pad, pieces_by_size, pieces_by_count}

ceil_div_bounds : (a b : ℕ) → 0 < b → (a ≤ ceil_div a b * b) × (ceil_div a b * b < a + b)
ceil_div_bounds a b h =
    let up : a + b - 1 < (a + b - 1) / b * b + b = lt-div-mul-add h in
    let low : (a + b - 1) / b * b ≤ a + b - 1 = div-mul-le_self (a + b - 1) b in
    (omega arith, omega arith)

-- The quotient of a multiple is exact.
pub ceil_div_mul : (n b : ℕ) → 0 < b → ceil_div (b * n) b ≡ n
ceil_div_mul n b h = div-eq_of_lt-le b (omega arith) (omega arith)

module _ {F : Type 0} where
  -- The slices cut the part of the list that they cover.
  pub pieces_from-ok :
      (n i size : ℕ) (bytes : List F)
      → size * (i + n) ≤ length bytes
      → Returns
          (λ ps. HasShape ps n size × (flatten ps ≡ take (size * n) (drop (size * i) bytes)))
          (pieces_from n i size bytes)
  unfolding pieces_from flatten
  pieces_from-ok zero i size bytes h = returns (
    record { height = refl; width = λ a l. absurd (omega arith) },
    ap {A = ℕ} (λ t. take t (drop (size * i) bytes)) {x = 0} {y = size * 0} (omega arith),
  )
  pieces_from-ok (suc n) i size bytes h =
      rw (slice-ok (size * i) (size * (i + 1)) bytes (omega arith) (grind arith)) (
        Returns-bind (pieces_from-ok n (suc i) size bytes (grind arith)) λ ps (shape, cut).
          returns (
            cons-HasShape (take step (drop (size * i) bytes)) shape (
                omega (
                  arith,
                  one,
                  length-take step (drop (size * i) bytes),
                  length-drop (size * i) bytes,
                  inside,
                )),
            ap (◌++◌ (take step (drop (size * i) bytes))) (cut ∙ next)
                ∙ take-add step (size * n) (drop (size * i) bytes)
                ∙ ap {A = ℕ} (λ t. take t (drop (size * i) bytes)) (omega (arith, one)),
          ))
    where
      step : ℕ
      step = size * (i + 1) - size * i

      one : step ≡ size
      one = omega arith

      inside : size * i + size ≤ length bytes
      inside = grind arith

      next :
          take (size * n) (drop (size * suc i) bytes)
          ≡ take (size * n) (drop step (drop (size * i) bytes))
      next =
          ap {A = ℕ} (λ t. take (size * n) (drop t bytes)) (omega (arith, one))
          ∙ ap (take (size * n)) (sym (drop-drop (size * i) step bytes))

module _ {F : Type 0} ⦃g : Field F⦄ where
  -- The padding goes behind the data.
  pad-ok :
      (padding total : ℕ) (bytes : List F)
      → total ≡ length bytes + padding
      → pad padding total bytes ≡ ok (bytes ++ replicate padding g.zero)
  unfolding pad
  pad-ok zero total bytes h = ap ok (sym (append-nil bytes))
  pad-ok (suc padding) total bytes h = rw (
    lt→ltb 0 (suc padding) (omega arith),
    same,
    ==_refl (length bytes),
    take_all total bytes (omega arith),
    rest,
  )
    where
      same : min total (length bytes) ≡ length bytes
      same = omega arith

      rest : total - length bytes ≡ suc padding
      rest = omega arith

  -- Data that the size divides is cut into pieces, with no padding.
  pieces_by_size-exact :
      (n size : ℕ) (bytes : List F)
      → 0 < size
      → 2 ≤ n
      → length bytes ≡ size * n
      → Returns
          (λ (ps, padding). HasShape ps n size × (flatten ps ≡ bytes))
          (pieces_by_size bytes size)
  unfolding pieces_by_size
  pieces_by_size-exact n size bytes hs hn h =
      rw
        (
          ==_ne size 0 (omega arith),
          leb-false (length bytes) size below,
          h,
          ceil_div_mul n size hs,
          pad-ok (n * size - size * n) (n * size) bytes (omega (arith, h)),
          none_left,
          append-nil bytes,
        )
        (Returns-bind (pieces_from-ok n 0 size bytes (omega (arith, h)))
          λ ps (shape, cut). returns (shape, cut ∙ whole))
    where
      below : size < length bytes
      below = grind arith

      none_left : n * size - size * n ≡ 0
      none_left = omega arith

      whole : take (size * n) (drop (size * 0) bytes) ≡ bytes
      whole =
          ap {A = ℕ} (λ t. take (size * n) (drop t bytes)) {x = size * 0} {y = 0} (omega arith)
          ∙ take_all (size * n) bytes (omega (arith, h))

  -- What the splitting by count promises: the pieces, as many as asked for, are of one size, and
  -- joined they are the data and then zeros, fewer than there are pieces.
  pub record IsSplit (bytes : List F) (count : ℕ) (r : List (List F) × ℕ) : Type 0 where
    pub shape : HasShape r.0 count (ceil_div (length bytes) count)
    pub joined : flatten r.0 ≡ bytes ++ replicate r.1 g.zero
    pub padding : r.1 < count
    pub positive : 0 < ceil_div (length bytes) count

  -- For a piece count of at least 2 and at most the number of bytes,
  -- `OriginalPiecesFromDataAndPieceCount` returns normally: as many pieces as asked for, all of the
  -- size ceil(bytes / count), which joined are the data followed by zeros; the zeros are the padding
  -- it reports, and are fewer than the pieces.
  pub pieces_by_count-IsSplit :
      (bytes : List F) (count : ℕ)
      → 2 ≤ count
      → count ≤ length bytes
      → Returns (IsSplit bytes count) (pieces_by_count bytes count)
  unfolding pieces_by_count
  pieces_by_count-IsSplit bytes count two enough =
      rw
        (
          ltb-false count 2 two,
          ltb-false (length bytes) count enough,
          pad-ok padding (size * count) bytes (omega (arith, bounds.0)),
        )
        (Returns-bind
          (pieces_by_size-exact count size (bytes ++ replicate padding g.zero) positive two total)
          λ r (shape, joined). returns (record {
            shape = shape;
            joined = joined;
            padding = omega (arith, bounds.1);
            positive = positive;
          }))
    where
      size : ℕ
      size = ceil_div (length bytes) count

      padding : ℕ
      padding = count * size - length bytes

      bounds : (length bytes ≤ size * count) × (size * count < length bytes + count)
      bounds = ceil_div_bounds (length bytes) count (omega arith)

      positive : 0 < size
      positive = elim (dec_lt 0 size) [
        | yes l ↦ l
        | no l ↦
            let none : size ≡ 0 = omega arith in
            absurd (omega (arith, bounds.0, ap {A = ℕ} (λ t. t * count) none))
      ]

      total : length (bytes ++ replicate padding g.zero) ≡ size * count
      total = omega (
        arith,
        length-append bytes (replicate padding g.zero),
        length-replicate padding g.zero,
        bounds.0,
      )

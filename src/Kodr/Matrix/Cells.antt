-- ===== src/Kodr/Matrix/Cells.antt =====
-- Rows and cells as total functions of their indices, `0` out of range, and what the writes of a row
-- or a cell do to them.
use rlnc_streaming.Base.{
  ℕ, zero, suc, ◌<◌, ◌≤◌, ◌≡◌, refl, ap, ap₂, ◌∙◌, List, [], ◌∷◌, ◌==◌, if◌then◌else◌, length,
  length-set, get_or, set, arith, dec_lt,
}
use rlnc_streaming.Run.{ok, load, load-ok, store, store-ok, Returns, returns}
use rlnc_streaming.Field.{Field}
use rlnc_streaming.Kodr.Matrix.{Matrix, cols, cell, swap_rows}

module _ {A : Type 0} where
  pub get_or-set :
      (xs : List A) (i j : ℕ) (v d : A)
      → i < length xs
      → get_or (set xs i v) j d ≡ (if i == j then v else get_or xs j d)
  get_or-set [] i j v d h = absurd (omega arith)
  get_or-set (x ∷ xs) zero zero v d h = refl
  get_or-set (x ∷ xs) (suc i) (suc j) v d h = ground (arith, get_or-set xs i j v d)
  get_or-set (x ∷ xs) i j v d h = ground arith

  pub get_or_beyond : (xs : List A) (i : ℕ) (d : A) → length xs ≤ i → get_or xs i d ≡ d
  get_or_beyond [] i d h = refl
  get_or_beyond (x ∷ xs) zero d h = absurd (omega arith)
  get_or_beyond (x ∷ xs) (suc i) d h = get_or_beyond xs i d (omega arith)

  -- Lists of one length with the same entries are equal.
  pub get_or-ext :
      (xs ys : List A) (d : A)
      → length xs ≡ length ys
      → ((i : ℕ) → i < length xs → get_or xs i d ≡ get_or ys i d)
      → xs ≡ ys
  get_or-ext [] [] d e h = refl
  get_or-ext [] (y ∷ ys) d e h = absurd (omega arith)
  get_or-ext (x ∷ xs) [] d e h = absurd (omega arith)
  get_or-ext (x ∷ xs) (y ∷ ys) d e h =
      ap₂ ◌∷◌ (h 0 (omega arith))
        (get_or-ext xs ys d (omega arith) (λ i p. h (suc i) (omega arith)))

module _ {F : Type 0} ⦃g : Field F⦄ where
  -- An entry of a row, and a cell of a matrix; zero out of range.
  abbrev pub entry : List F → ℕ → F
  entry row c = get_or row c g.zero

  abbrev pub at : Matrix F → ℕ → ℕ → F
  at m r c = entry (get_or m r []) c

-- `m` has `r` rows of `c` cells each.
pub record HasShape {F : Type 0} (m : Matrix F) (r c : ℕ) : Type 0 where
  pub height : length m ≡ r
  pub width : (i : ℕ) → i < r → length (get_or m i []) ≡ c

module _ {F : Type 0} where
  cons_width :
      {m : Matrix F} {r c : ℕ} (row : List F)
      → HasShape m r c
      → length row ≡ c
      → (a : ℕ) → a < suc r
      → length (get_or (row ∷ m) a []) ≡ c
  cons_width row shape e zero h = e
  cons_width row shape e (suc a) h = shape.width a (omega arith)

  -- A row of the same length may be put in front.
  pub cons-HasShape :
      {m : Matrix F} {r c : ℕ} (row : List F)
      → HasShape m r c
      → length row ≡ c
      → HasShape (row ∷ m) (suc r) c
  cons-HasShape row shape e = record {
    height = ap suc shape.height;
    width = λ a h. cons_width row shape e a h;
  }

module _ {F : Type 0} {m : Matrix F} {r c : ℕ} (shape : HasShape m r c) where
  pub load_row : (i : ℕ) → i < r → load m i ≡ ok (get_or m i [])
  load_row i h = load-ok m i [] (rw shape.height h)

  pub cols-ok : 0 < r → cols m ≡ ok c
  unfolding cols
  cols-ok h = rw (load_row 0 h, shape.width 0 h)

  -- A row of the same length may be written.
  pub store-HasShape : (i : ℕ) (row : List F) → i < r → length row ≡ c → HasShape (set m i row) r c
  store-HasShape i row h e = record {
    height = length-set m i row ∙ shape.height;
    width = λ j p. ground (arith, get_or-set m i j row [], shape.height, shape.width j);
  }

  pub store_row : (i : ℕ) (row : List F) → i < r → store m i row ≡ ok (set m i row)
  store_row i row h = store-ok m i row (rw shape.height h)

module _ {F : Type 0} ⦃g : Field F⦄ {m : Matrix F} {r c : ℕ} (shape : HasShape m r c) where
  pub cell-ok : (i j : ℕ) → i < r → j < c → cell m i j ≡ ok (at m i j)
  unfolding cell
  cell-ok i j h k =
      rw (load_row shape i h, load-ok (get_or m i []) j g.zero (rw (shape.width i h) k))

  pub at_below : (i j : ℕ) → r ≤ i → at m i j ≡ g.zero
  at_below i j h = rw (get_or_beyond m i [] (rw shape.height h))

  pub at_right : (i j : ℕ) → c ≤ j → at m i j ≡ g.zero
  at_right i j h = elim (dec_lt i r) [
    | yes p ↦ get_or_beyond (get_or m i []) j g.zero (rw (shape.width i p) h)
    | no p ↦ at_below i j (omega arith)
  ]

  pub at-set :
      (i : ℕ) (row : List F) (j k : ℕ)
      → i < r
      → at (set m i row) j k ≡ (if i == j then entry row k else at m j k)
  at-set i row j k h = ground (arith, get_or-set m i j row [], shape.height)

module _ {F : Type 0} ⦃g : Field F⦄ {m : Matrix F} {r c : ℕ} (shape : HasShape m r c) where
  -- What the row switch does to the cells.
  pub swap_rows-ok :
      (i p : ℕ)
      → i < r
      → p < r
      → Returns
          (λ m'.
            HasShape m' r c
            × ((j k : ℕ)
                → at m' j k ≡ (if p == j then at m i k else if i == j then at m p k else at m j k)))
          (swap_rows i p m)
  unfolding swap_rows
  swap_rows-ok i p hi hp =
      let first = store-HasShape shape i (get_or m p []) hi (shape.width p hp) in
      rw
        (
          load_row shape p hp,
          load_row shape i hi,
          store_row shape i (get_or m p []) hi,
          store_row first p (get_or m i []) hp,
        )
        (returns (
          store-HasShape first p (get_or m i []) hp (shape.width i hi),
          λ j k.
              ground (
                arith,
                at-set first p (get_or m i []) j k hp,
                at-set shape i (get_or m p []) j k hi,
              ),
        ))

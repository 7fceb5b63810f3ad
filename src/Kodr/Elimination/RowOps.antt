-- ===== src/Kodr/Elimination/RowOps.antt =====
-- The row loops: what they do to the entries of a row.
use rlnc_streaming.Base.{
  ℕ, zero, suc, ◌+◌, ◌≤◌, ◌<◌, ◌≡◌, refl, sym, ap, ◌∙◌, List, and_right, Bool, ◌&&◌, if◌then◌else◌,
  length, length-set, set, arith,
}
use rlnc_streaming.Run.{
  ok, load-ok, store, store-ok, Returns, returns, Returns-map, Returns-bind, Returns-if,
}
use rlnc_streaming.Field.{Field, is_zero, is_zero→eq, zero-mul}
use rlnc_streaming.Kodr.Matrix.Cells.{entry, get_or-set}
use rlnc_streaming.Kodr.Elimination.{add_scaled, scale}

module _ {F : Type 0} ⦃g : Field F⦄ where
  -- `row'` is `row` but for the entries from `lo` to `hi - 1`, which are `f`.
  pub record Updated (lo hi : ℕ) (f : ℕ → F) (row row' : List F) : Type 0 where
    pub same_length : length row' ≡ length row
    pub inside : (c : ℕ) → lo ≤ c → c < hi → entry row' c ≡ f c
    pub before : (c : ℕ) → c < lo → entry row' c ≡ entry row c
    pub after : (c : ℕ) → hi ≤ c → entry row' c ≡ entry row c

  pub add_scaled-ok :
      (n k : ℕ) (q : F) (src dst : List F)
      → k + n ≤ length src
      → k + n ≤ length dst
      → Returns
          (Updated k (k + n) (λ c. g.add (entry dst c) (g.mul (entry src c) q)) dst)
          (add_scaled n k q src dst)
  unfolding add_scaled
  add_scaled-ok zero k q src dst hs hd = returns (record {
    same_length = refl;
    inside = λ c l h. absurd (omega arith);
    before = λ c l. refl;
    after = λ c l. refl;
  })
  add_scaled-ok (suc n) k q src dst hs hd =
      let v = g.add (entry dst k) (g.mul (entry src k) q) in
      rw
        (
          load-ok dst k g.zero (omega arith),
          load-ok src k g.zero (omega arith),
          store-ok dst k v (omega arith),
        )
        (Returns-map
          (add_scaled-ok n (suc k) q src (set dst k v) (omega arith)
            (omega (arith, length-set dst k v)))
          λ row u. record {
            same_length = u.same_length ∙ length-set dst k v;
            inside = λ c l h. ground (arith, get_or-set dst k c v g.zero, u.inside c, u.before c);
            before = λ c l. ground (arith, get_or-set dst k c v g.zero, u.before c);
            after = λ c l. ground (arith, get_or-set dst k c v g.zero, u.after c);
          })

  -- A product by zero is zero, so the entries that the source leaves out are as if they were scaled.
  scaled_entry :
      (skip : Bool) (k : ℕ) (inv : F) (row : List F)
      → k < length row
      → Returns
          (Updated k (suc k) (λ c. g.mul (entry row c) inv) row)
          (if skip && is_zero (entry row k) then ok row else store row k (g.mul (entry row k) inv))
  scaled_entry skip k inv row h =
      Returns-if (skip && is_zero (entry row k))
        (λ e. returns (record {
          same_length = refl;
          inside = λ c l m.
              let z = is_zero→eq (entry row k) (and_right skip (is_zero (entry row k)) e) in
              let here : c ≡ k = omega arith in
              rw here (z ∙ sym (zero-mul inv) ∙ ap (λ x. g.mul x inv) (sym z));
          before = λ c l. refl;
          after = λ c l. refl;
        }))
        (λ e. rw (store-ok row k (g.mul (entry row k) inv) h) (
          returns (record {
            same_length = length-set row k _;
            inside = λ c l m. ground (arith, get_or-set row k c (g.mul (entry row k) inv) g.zero);
            before = λ c l. ground (arith, get_or-set row k c (g.mul (entry row k) inv) g.zero);
            after = λ c l. ground (arith, get_or-set row k c (g.mul (entry row k) inv) g.zero);
          })))

  pub scale-ok :
      (skip : Bool) (n k : ℕ) (inv : F) (row : List F)
      → k + n ≤ length row
      → Returns (Updated k (k + n) (λ c. g.mul (entry row c) inv) row) (scale skip n k inv row)
  unfolding scale
  scale-ok skip zero k inv row h = returns (record {
    same_length = refl;
    inside = λ c l m. absurd (omega arith);
    before = λ c l. refl;
    after = λ c l. refl;
  })
  scale-ok skip (suc n) k inv row h = rw (load-ok row k g.zero (omega arith)) (
      Returns-bind (scaled_entry skip k inv row (omega arith)) λ row1 u.
        Returns-map (scale-ok skip n (suc k) inv row1 (omega (arith, u.same_length))) λ row2 v.
          record {
            same_length = v.same_length ∙ u.same_length;
            inside = λ c l m. ground (arith, u.inside c, u.after c, v.before c, v.inside c);
            before = λ c l. ground (arith, v.before c, u.before c);
            after = λ c l. ground (arith, v.after c, u.after c);
          })

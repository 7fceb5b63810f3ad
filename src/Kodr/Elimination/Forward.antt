-- ===== src/Kodr/Elimination/Forward.antt =====
-- `clean_forward` of kodr/matrix/decoder_state.go.
use rlnc_streaming.Base.{
  ℕ, zero, suc, ◌+◌, ◌-◌, min, ◌≤◌, ◌<◌, ◌≡◌, refl, sym, ap, ◌∙◌, true, false, ◌&&◌, ltb, leb,
  Option, none, some, List, arith, inr, length, ℕ_discrete, dec_lt,
}
use rlnc_streaming.Run.{Returns, returns, Returns-map, Returns-bind, Returns-if}
use rlnc_streaming.Field.{Field, is_zero, is_zero→eq, add-mul-div}
use rlnc_streaming.Kodr.Matrix.Cells.{at, cols-ok, cell-ok, at_below, at_right, swap_rows-ok}
use rlnc_streaming.Kodr.Elimination.{
  DecoderState, range_from, settle_pivot, switch_rows, clear_below, forward_step, forward_loop,
  clean_forward,
}
use rlnc_streaming.Kodr.Elimination.Clear.{Sized, Cleared, quotient, contains, clear_rows-ok}
use rlnc_streaming.Kodr.Elimination.Keeps.{
  contains-range_from, Others-range_from, Keeps, Keeps-refl, Keeps-trans, Cleared-Keeps,
  add-mul_vanish, Triangular, Upper,
}
use rlnc_streaming.Kodr.Elimination.Pivot.{Found, Settled, find_pivot-ok, Swapped-SameSolutions}

module _ {F : Type 0} ⦃g : Field F⦄ (r n w i : ℕ) (s : DecoderState F) (hi : i < r) (hn : i < n)
    (sized : Sized s r n w) (tri : Triangular i s) where
  switch_rows-ok :
      (o : Option ℕ)
      → is_zero (at s.coeffs i i) ≡ true
      → Found s.coeffs i (suc i) r o
      → Returns (Settled r n w i s) (switch_rows i o s)
  unfolding switch_rows
  switch_rows-ok none e f = returns (λ a h. elim (ℕ_discrete i a) [
    | yes q ↦ ap (λ x. at s.coeffs x i) (sym q) ∙ is_zero→eq (at s.coeffs i i) e
    | no q ↦ elim (dec_lt a r) [
      | yes l ↦ f a (omega arith) l
      | no l ↦ at_below sized.coeffs a i (omega arith)
    ]
  ])
  switch_rows-ok (some p) e (below, inside, pivot) =
      Returns-bind (swap_rows-ok sized.coeffs i p hi inside) λ m (shape, cells).
        Returns-bind (swap_rows-ok sized.coded i p hi inside) λ d (cshape, ccells).
          let s' : DecoderState F = record s { coeffs = m; coded = d } in
          returns (
            record {
              sized = record { coeffs = shape; coded = cshape };
              same_count = refl;
              same = Swapped-SameSolutions n i p s s' cells ccells;
            },
            (λ a c l h. ground (arith, cells a c, tri i c l, tri p c l, tri a c l h)),
            ap {A = F} (λ x. is_zero x) (ground (arith, cells i i)) ∙ pivot,
          )

  settle_pivot-ok : Returns (Settled r n w i s) (settle_pivot i s)
  unfolding settle_pivot
  settle_pivot-ok = rw (cell-ok sized.coeffs i i hi hn) (
      Returns-if (is_zero (at s.coeffs i i))
        (λ e.
          Returns-bind
            (find_pivot-ok (length s.coeffs - suc i) (suc i) i sized.coeffs
              (omega (arith, sized.coeffs.height)) hn)
            λ o f. switch_rows-ok o e (rw bound at f))
        (λ e. returns (Keeps-refl s sized, tri, e)))
    where
      bound : suc i + (length s.coeffs - suc i) ≡ r
      bound = omega (arith, sized.coeffs.height)

  Cleared-below :
      (t u : DecoderState F)
      → Sized t r n w
      → (js : List ℕ) → ((a : ℕ) → contains a js ≡ (leb (suc i) a && ltb a r))
      → Cleared r n w i (λ a. contains a js) t u
      → Triangular i t
      → is_zero (at t.coeffs i i) ≡ false
      → Triangular (suc i) u
  Cleared-below t u shape js among cleared tri' pivot a c l h = elim (dec_lt a r) [
    | no p ↦ at_below cleared.sized.coeffs a c (omega arith)
    | yes p ↦ elim (ℕ_discrete i c) [
      | yes q ↦ ground (
        arith,
        cleared.coeffs a c,
        among a,
        add-mul-div (at t.coeffs a i) (at t.coeffs i i) pivot,
      )
      | no q ↦ ground (
        arith,
        cleared.coeffs a c,
        add-mul_vanish (at t.coeffs a c) (at t.coeffs i c) (quotient t i a)
            (tri' a c (omega arith) h) (tri' i c (omega arith) (omega arith)),
        tri' a c,
      )
    ]
  ]

  clear_below-ok :
      (o : Option (DecoderState F))
      → Settled r n w i s o
      → Returns (λ s'. Keeps r n w s s' × Triangular (suc i) s') (clear_below n i s o)
  unfolding clear_below
  clear_below-ok none f = returns (
    Keeps-refl s sized,
    λ a c l h. elim (ℕ_discrete c i) [
      | yes q ↦ ap (at s.coeffs a) q ∙ f a (omega arith)
      | no q ↦ tri a c (omega arith) h
    ],
  )
  clear_below-ok (some t) (k, tri', pivot) =
      let js = range_from (suc i) (length t.coeffs - suc i) in
      let above = k.sized.coeffs.height in
      Returns-map
        (clear_rows-ok r n w i hi hn js t
          (Others-range_from r i (suc i) (length t.coeffs - suc i) (omega (arith, above))
            (inr (omega arith)))
          k.sized (λ c h. tri' i c h h) pivot)
        λ u cleared. (
          Keeps-trans s t u k (
              Cleared-Keeps i (λ a. contains a js) t u cleared
                (contains-range_from i (suc i) (length t.coeffs - suc i) ∙ ground arith)),
          Cleared-below t u k.sized js
              (λ a. contains-range_from a (suc i) (length t.coeffs - suc i) ∙ ground arith) cleared
              tri' pivot,
        )

  forward_step-ok : Returns (λ s'. Keeps r n w s s' × Triangular (suc i) s') (forward_step n i s)
  unfolding forward_step
  forward_step-ok = Returns-bind settle_pivot-ok λ o f. clear_below-ok o f

module _ {F : Type 0} ⦃g : Field F⦄ (r n w : ℕ) where
  forward_loop-ok :
      (k i : ℕ) (s : DecoderState F)
      → i + k ≤ r
      → i + k ≤ n
      → Sized s r n w
      → Triangular i s
      → Returns (λ s'. Keeps r n w s s' × Triangular (i + k) s') (forward_loop n k i s)
  unfolding forward_loop
  forward_loop-ok zero i s hr hn sized tri =
      returns (Keeps-refl s sized, λ a c l h. tri a c (omega arith) h)
  forward_loop-ok (suc k) i s hr hn sized tri =
      Returns-bind (forward_step-ok r n w i s (omega arith) (omega arith) sized tri)
        λ t (keeps, tri1).
          Returns-map (forward_loop-ok k (suc i) t (omega arith) (omega arith) keeps.sized tri1)
            λ u (keeps2, tri2).
              (Keeps-trans s t u keeps keeps2, λ a c l h. tri2 a c (omega arith) h)

  -- On matrices of one height, which is not zero, `clean_forward` runs to its end and leaves matrices
  -- of the same sizes with the same solutions; the coefficient matrix is upper triangular.
  pub clean_forward-ok :
      (s : DecoderState F)
      → 0 < r
      → Sized s r n w
      → Returns (λ s'. Keeps r n w s s' × Upper s') (clean_forward s)
  unfolding clean_forward
  clean_forward-ok s hr sized = rw (cols-ok sized.coeffs hr) (
      Returns-map
        (forward_loop-ok (min (length s.coeffs) n) 0 s (omega (arith, sized.coeffs.height))
          (omega arith) sized (λ a c l h. absurd (omega arith)))
        λ t (keeps, tri). (keeps, upper t keeps.sized tri))
    where
      upper :
          (t : DecoderState F)
          → Sized t r n w
          → Triangular (0 + min (length s.coeffs) n) t
          → Upper t
      upper t shape tri a c h = elim (dec_lt a r) [
        | no p ↦ at_below shape.coeffs a c (omega arith)
        | yes p ↦ elim (dec_lt c n) [
          | no q ↦ at_right shape.coeffs a c (omega arith)
          | yes q ↦ tri a c (omega (arith, sized.coeffs.height)) h
        ]
      ]

-- ===== src/Godash/Arbiter/Search.antt =====
-- godash/algorithms/arbiterPlus.go: where the loops over the indices end.
use rlnc_streaming.Base.{
  ℕ, zero, suc, ◌+◌, ◌-◌, ◌≤◌, ◌<◌, ◌≡◌, ◌⊎◌, inl, inr, refl, sym, subst, List, [], ◌∷◌, ◌++◌, Bool,
  true, false, none, length, arith, Bool-cases, ℕ_discrete, ==_ne, ==_refl,
}
use rlnc_streaming.Run.{ok, load-ok, Returns, returns, Returns-map, Returns-bind, divide-ok}
use rlnc_streaming.Godash.Double.{Doubles}
use rlnc_streaming.Godash.Logistic.Range.{select_rep_rate-bound}
use rlnc_streaming.Godash.Arbiter.{raise_index, switch_index, affordable_at, selected_index_arbiter}

-- The first index from `i` on that passes the test, or the lowest.
abbrev IsFirstPassed : (ℕ → Bool) → ℕ → ℕ → ℕ → Type 0
IsFirstPassed test i lowest r =
    (i ≤ r)
    × (r ≤ lowest)
    × ((r ≡ lowest) ⊎ (test r ≡ true))
    × ((j : ℕ) → i ≤ j → j < r → test j ≡ false)

-- With one round for each index from `i` to the lowest, the loop of `CalculateSelectedIndexArbiter` that
-- raises the index ends, for a test that returns normally: at the first index that passes the test, or
-- at the lowest.
raise_index-IsFirstPassed :
    (test : ℕ → Bool) (n i lowest : ℕ)
    → i + n ≡ lowest
    → Returns (IsFirstPassed test i lowest) (raise_index (λ j. ok (test j)) n i)
unfolding raise_index
raise_index-IsFirstPassed test zero i lowest h =
    returns (omega arith, omega arith, inl (omega arith), λ j l m. absurd (omega arith))
raise_index-IsFirstPassed test (suc n) i lowest h = elim (Bool-cases (test i)) [
  | inl e ↦ rw e (returns (omega arith, omega arith, inr e, λ j l m. absurd (omega arith)))
  | inr e ↦ rw e (
      Returns-map (raise_index-IsFirstPassed test n (suc i) lowest (omega arith)) λ r (a, b, c, f).
        (
          omega arith,
          b,
          c,
          λ j l m. elim (ℕ_discrete j i) [
            | yes q ↦ subst (λ t. test t ≡ false) (sym q) e
            | no q ↦ f j (omega arith) m
          ],
        ))
]

module _ {D : Type 0} (d : Doubles D) where
  -- The control changes the index by one, or keeps it at most two indices above the last.
  switch_index-bounds :
      (last target lowest : ℕ) (rate : D) (bandwidths : List ℕ)
      → lowest + 1 ≡ length bandwidths
      → target ≤ lowest
      → last ≤ lowest
      → Returns
          (λ r. (r ≤ lowest) × (last ≤ r + 2) × (target ≤ r))
          (switch_index d last target rate bandwidths)
  unfolding switch_index
  switch_index-bounds last target lowest rate bandwidths h t l =
      elim (ℕ_discrete last (target + 1)) [
        | no n ↦ rw (==_ne last (target + 1) n) (returns (ground arith))
        | yes e ↦
            rw (e, ==_refl (target + 1), load-ok bandwidths target 0 (omega arith))
              (returns (ground arith))
      ]

  -- If the lowest index is that of the last bandwidth and the last segment was requested at one of the
  -- indices and has a duration, for segment lengths that the server answers:
  -- `CalculateSelectedIndexArbiter` returns normally. It adds the new throughput to the others and
  -- returns an index of the list that is at most two better than the last one.
  pub selected_index_arbiter-bounds :
      (size : ℕ → ℕ → ℕ) (thrs : List ℕ)
      (new last_duration index max_buffer last mpd_duration segment buffer lowest : ℕ)
      (bandwidths : List ℕ)
      → lowest + 1 ≡ length bandwidths
      → 0 < last_duration
      → last ≤ lowest
      → Returns
          (λ (thrs', r). (thrs' ≡ thrs ++ new ∷ []) × (r ≤ lowest) × (last ≤ r + 2))
          (selected_index_arbiter d size none thrs new last_duration index max_buffer last
            mpd_duration segment buffer lowest bandwidths)
  unfolding selected_index_arbiter affordable_at
  selected_index_arbiter-bounds size thrs new last_duration index max_buffer last mpd_duration
        segment buffer lowest bandwidths h pos l =
      Returns-bind (select_rep_rate-bound _ bandwidths lowest h) λ target t.
        Returns-bind (switch_index-bounds last target lowest _ bandwidths h t l)
          λ switched (s, near, up). rw (divide-ok mpd_duration last_duration pos) (
            Returns-bind
              (raise_index-IsFirstPassed _ (lowest - switched) switched lowest (omega arith))
              λ r (a, b, c, f). returns (refl, b, omega arith))

-- ===== src/Godash/Rates.antt =====
-- godash/algorithms/helperFunctions.go: the choice of a bandwidth below the throughput. Throughputs and
-- bandwidths are not negative.
use rlnc_streaming.Base.{
  ℕ, zero, suc, ◌+◌, ◌-◌, ◌≤◌, ◌<◌, ◌≡◌, ◌⊎◌, inl, inr, refl, List, get_or, ltb, ltb→lt, ◌&&◌, ◌==◌,
  if◌then◌else◌, length, arith, Bool-cases, ==_ne, ℕ_discrete, subst, sym,
}
use rlnc_streaming.Run.{Run, ok, ◌>>=◌, load, load-ok, Returns, returns, Returns-map}

-- The loop of `SelectRepRateWithThroughtput` over `n` indices from `i` on; `selected` and `rate` are the
-- variables that it changes.
unfoldable pub rate_loop : ℕ → ℕ → ℕ → List ℕ → ℕ → ℕ → Run ℕ
rate_loop zero i throughput bandwidths selected rate = ok rate
rate_loop (suc n) i throughput bandwidths selected rate = do
  b ← load bandwidths i
  let rest = rate_loop n (suc i) throughput bandwidths selected rate
  let last = (do
    l ← load bandwidths (length bandwidths - 1)
    rate_loop n (suc i) throughput bandwidths l (length bandwidths - 1))
  if ltb b throughput
      then ok i
      else if (i == (length bandwidths - 1)) && (selected == 0)
      then last
      else rest

-- `SelectRepRateWithThroughtput`
unfoldable pub select_rep_rate : ℕ → List ℕ → ℕ → Run ℕ
select_rep_rate throughput bandwidths lowest =
    rate_loop (length bandwidths - 1) 0 throughput bandwidths 0 lowest

-- The first index from `i` on, before the last, of a bandwidth below the throughput; else `lowest`.
abbrev pub IsFirstBelow : ℕ → ℕ → List ℕ → ℕ → ℕ → Type 0
IsFirstBelow i throughput bandwidths lowest r =
    ((i ≤ r)
      × (r + 1 < length bandwidths)
      × (get_or bandwidths r 0 < throughput)
      × ((j : ℕ) → i ≤ j → j < r → throughput ≤ get_or bandwidths j 0))
    ⊎ (((j : ℕ) → i ≤ j → j + 1 < length bandwidths → throughput ≤ get_or bandwidths j 0)
        × (r ≡ lowest))

first_or_later :
    (i throughput : ℕ) (bandwidths : List ℕ) (lowest r : ℕ)
    → throughput ≤ get_or bandwidths i 0
    → IsFirstBelow (suc i) throughput bandwidths lowest r
    → IsFirstBelow i throughput bandwidths lowest r
first_or_later i throughput bandwidths lowest r h (inl (a, b, c, d)) = inl (
  omega arith,
  b,
  c,
  λ j l m. elim (ℕ_discrete j i) [
    | yes q ↦ subst (λ t. throughput ≤ get_or bandwidths t 0) (sym q) h
    | no q ↦ d j (omega arith) m
  ],
)
first_or_later i throughput bandwidths lowest r h (inr (d, e)) = inr (
  λ j l m. elim (ℕ_discrete j i) [
    | yes q ↦ subst (λ t. throughput ≤ get_or bandwidths t 0) (sym q) h
    | no q ↦ d j (omega arith) m
  ],
  e,
)

rate_loop-IsFirstBelow :
    (n i throughput : ℕ) (bandwidths : List ℕ) (lowest : ℕ)
    → i + n ≡ length bandwidths - 1
    → Returns
        (IsFirstBelow i throughput bandwidths lowest)
        (rate_loop n i throughput bandwidths 0 lowest)
unfolding rate_loop
rate_loop-IsFirstBelow zero i throughput bandwidths lowest h =
    returns (inr (λ j l m. absurd (omega arith), refl))
rate_loop-IsFirstBelow (suc n) i throughput bandwidths lowest h =
    rw (load-ok bandwidths i 0 (omega arith), ==_ne i (length bandwidths - 1) (omega arith))
      (elim (Bool-cases (ltb (get_or bandwidths i 0) throughput)) [
        | inl e ↦
            rw e (
              returns (inl (omega arith, omega arith, ltb→lt _ _ e, λ j l m. absurd (omega arith))))
        | inr e ↦ rw e (
            Returns-map
              (rate_loop-IsFirstBelow n (suc i) throughput bandwidths lowest (omega arith))
              (λ r f. first_or_later i throughput bandwidths lowest r (ground (arith, e)) f))
      ])

-- `SelectRepRateWithThroughtput` never panics. It returns the first index, the last one excluded, of a
-- bandwidth below the throughput, and the index it was given as the lowest if there is none.
pub select_rep_rate-IsFirstBelow :
    (throughput : ℕ) (bandwidths : List ℕ) (lowest : ℕ)
    → Returns
        (IsFirstBelow 0 throughput bandwidths lowest)
        (select_rep_rate throughput bandwidths lowest)
unfolding select_rep_rate
select_rep_rate-IsFirstBelow throughput bandwidths lowest =
    rate_loop-IsFirstBelow (length bandwidths - 1) 0 throughput bandwidths lowest (omega arith)

-- ===== src/Godash/Logistic/Range.antt =====
-- godash/algorithms/logistic.go: the indices that `LogisticFunction` returns.
use rlnc_streaming.Base.{
  get_or, [], ◌∷◌, zero, suc, ℕ, ◌+◌, ◌-◌, ◌/◌, ◌≤◌, ◌<◌, ◌≡◌, ◌⊎◌, Bool, inl, inr, List, length,
  arith, true, false, if◌then◌else◌, Bool-cases,
}
use rlnc_streaming.Run.{Run, ok, ◌>>=◌, load-ok, Returns, returns, Returns-map, Returns-bind}
use rlnc_streaming.Godash.Double.{Doubles}
use rlnc_streaming.Godash.Rates.{select_rep_rate, select_rep_rate-IsFirstBelow}
use rlnc_streaming.Godash.Logistic.{
  lowest_bitrate, highest_bitrate, settle_index, logistic_rate, logistic_function,
}

-- The index that a throughput selects is one of the list.
pub select_rep_rate-bound :
    (throughput : ℕ) (bandwidths : List ℕ) (lowest : ℕ)
    → lowest + 1 ≡ length bandwidths
    → Returns (λ r. r ≤ lowest) (select_rep_rate throughput bandwidths lowest)
select_rep_rate-bound throughput bandwidths lowest h =
    Returns-map (select_rep_rate-IsFirstBelow throughput bandwidths lowest)
      λ r f. elim f [ inl (_, inside, _, _) ↦ omega arith | inr (_, e) ↦ omega arith ]

-- Not the first index, and not behind the one that is called the lowest.
abbrev pub IsAfterFirst : ℕ → ℕ → Type 0
IsAfterFirst lowest r = (0 < r) × (r ≤ lowest)

pub settle_index-IsAfterFirst :
    (opt last highest lowest : ℕ)
    → opt ≤ lowest
    → last ≤ lowest
    → 0 < lowest
    → IsAfterFirst lowest (settle_index opt last highest lowest)
unfolding settle_index
settle_index-IsAfterFirst opt last highest lowest h l pos = (ground arith, ground arith)

-- Each bandwidth is below the one before it.
abbrev pub IsDescending : List ℕ → Type 0
IsDescending [] = Unit
IsDescending (x ∷ []) = Unit
IsDescending (x ∷ y ∷ ys) = (y < x) × IsDescending (y ∷ ys)

below_first :
    (x : ℕ) (xs : List ℕ) (r : ℕ) → IsDescending (x ∷ xs) → r < length xs → get_or xs r 0 < x
below_first x [] r h l = absurd (omega arith)
below_first x (y ∷ ys) zero (h, hs) l = h
below_first x (y ∷ ys) (suc r) (h, hs) l = omega (arith, below_first y ys r hs (omega arith), h)

module _ {D : Type 0} (d : Doubles D) where
  -- If the lowest index is that of the last bandwidth, not the only one, and the last segment was
  -- requested at one of the indices: `LogisticFunction` returns normally, for every buffer level, an
  -- index of the list, and never the index 0.
  pub logistic_function-IsAfterFirst :
      (last buffer highest lowest max_buffer : ℕ) (bandwidths : List ℕ)
      → lowest + 1 ≡ length bandwidths
      → 0 < lowest
      → last ≤ lowest
      → Returns
          (IsAfterFirst lowest)
          (logistic_function d last buffer highest lowest max_buffer bandwidths)
  unfolding logistic_function lowest_bitrate highest_bitrate
  logistic_function-IsAfterFirst last buffer highest lowest max_buffer bandwidths h pos l =
      Returns-bind {P = λ opt. opt ≤ lowest} (chosen (Bool-cases full))
        λ opt bound. returns (settle_index-IsAfterFirst opt last highest lowest bound l pos)
    where
      full : Bool
      full = d.at_most (d.times (d.literal 97 100) (d.of_int max_buffer)) (d.of_int (buffer / 1000))

      selected : Run ℕ
      selected = do
        low ← lowest_bitrate bandwidths
        high ← highest_bitrate bandwidths
        let target = logistic_rate d low high buffer
        select_rep_rate (d.to_int (d.times (d.plus target (d.of_int 1)) (d.of_int 1000))) bandwidths
            lowest

      chosen :
          (full ≡ true) ⊎ (full ≡ false)
          → Returns (λ opt. opt ≤ lowest) (if full then ok 0 else selected)
      chosen (inl e) = rw e (returns (omega arith))
      chosen (inr e) =
          rw
            (
              e,
              load-ok bandwidths (length bandwidths - 1) 0 (omega arith),
              load-ok bandwidths 0 0 (omega arith),
            )
            (select_rep_rate-bound _ bandwidths lowest h)

  -- If each bandwidth is below the one before it, the lowest index is that of the last, there are two or
  -- more, and the last segment was requested at one of the indices: `LogisticFunction` returns normally,
  -- for every buffer level, and the bandwidth at its index is below the first, which is the highest.
  pub logistic_function_below_best :
      (last buffer highest max_buffer best : ℕ) (bandwidths : List ℕ)
      → IsDescending (best ∷ bandwidths)
      → 0 < length bandwidths
      → last ≤ length bandwidths
      → Returns
          (λ r. get_or (best ∷ bandwidths) r 0 < best)
          (logistic_function d last buffer highest
            (length bandwidths)
            max_buffer
            (best ∷ bandwidths))
  logistic_function_below_best last buffer highest max_buffer best bandwidths sorted several l =
      Returns-map
        (logistic_function-IsAfterFirst last buffer highest (length bandwidths) max_buffer
          (best ∷ bandwidths) (omega arith) several l)
        λ r (after, inside). lower r after inside
    where
      lower : (r : ℕ) → 0 < r → r ≤ length bandwidths → get_or (best ∷ bandwidths) r 0 < best
      lower zero after inside = absurd (omega arith)
      lower (suc r) after inside = below_first best bandwidths r sorted (omega arith)

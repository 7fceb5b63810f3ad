-- ===== src/Godash/Averages/Mean.antt =====
-- godash/algorithms/average.go: the mean against the quotient of integers.
use rlnc_streaming.Base.{
  ap₂, ltb-false, ℕ, ◌+◌, ◌/◌, ◌^◌, ◌<◌, ◌≡◌, ap, ◌∙◌, List, [], ◌∷◌, ◌++◌, length, arith,
  length-append,
}
use rlnc_streaming.Run.{ok, ◌>>=◌}
use rlnc_streaming.Godash.Double.{Doubles, IsExact}
use rlnc_streaming.Godash.Rates.{select_rep_rate}
use rlnc_streaming.Godash.Averages.{mean_sum, mean_average, mean_average_algo}

-- The sum of the throughputs.
unfoldable pub total : List ℕ → ℕ
total [] = 0
total (x ∷ xs) = x + total xs

pub total-append : (xs ys : List ℕ) → total (xs ++ ys) ≡ total xs + total ys
unfolding total
total-append [] ys = omega arith
total-append (x ∷ xs) ys = omega (arith, total-append xs ys)

module _ {D : Type 0} (d : Doubles D) (exact : IsExact d) where
  mean_sum-exact :
      (acc : ℕ) (xs : List ℕ)
      → acc + total xs < 2 ^ 53
      → mean_sum d (d.of_int acc) xs ≡ d.of_int (acc + total xs)
  unfolding mean_sum total
  mean_sum-exact acc [] h = ap {A = ℕ} d.of_int (omega arith)
  mean_sum-exact acc (x ∷ xs) h =
      ap (λ t. mean_sum d t xs) (exact.plus_int acc x (omega arith))
      ∙ mean_sum-exact (acc + x) xs (omega arith)
      ∙ ap {A = ℕ} d.of_int (omega arith)

  mean_average-quotient :
      (xs : List ℕ)
      → total xs < 2 ^ 53
      → 0 < length xs
      → length xs < 2 ^ 53
      → d.to_int (mean_average d xs) ≡ total xs / length xs
  unfolding mean_average
  mean_average-quotient xs small some few =
      ap (λ t. d.to_int (d.over t (d.of_int (length xs)))) (mean_sum-exact 0 xs (omega arith))
      ∙ ap {A = ℕ} (λ t. d.to_int (d.over (d.of_int t) (d.of_int (length xs)))) (omega arith)
      ∙ exact.over_int (total xs) (length xs) small some few

  -- If the throughputs add up to less than 2^53, and there are fewer than 2^53, `MeanAverageAlgo` chooses
  -- as for the quotient of their sum by their number, the new one included.
  mean_average_algo-quotient :
      (thrs : List ℕ) (new : ℕ) (bandwidths : List ℕ) (lowest : ℕ)
      → total thrs + new < 2 ^ 53
      → length thrs + 1 < 2 ^ 53
      → mean_average_algo d thrs new bandwidths lowest ≡ (
          select_rep_rate ((total thrs + new) / (length thrs + 1)) bandwidths lowest
          >>= (λ rate. ok (thrs ++ new ∷ [], rate)))
  unfolding mean_average_algo total
  mean_average_algo-quotient [] new bandwidths lowest small few =
      ap {A = ℕ} (λ t. select_rep_rate t bandwidths lowest >>= (λ rate. ok (new ∷ [], rate)))
        (omega arith)
  mean_average_algo-quotient (x ∷ xs) new bandwidths lowest small few =
      let all = (x ∷ xs) ++ new ∷ [] in
      let sum : total all ≡ x + total xs + new = total-append (x ∷ xs) (new ∷ []) ∙ omega arith in
      let count : length all ≡ length (x ∷ xs) + 1 = length-append (x ∷ xs) (new ∷ []) in
      rw
        (
          ltb-false (length all) 2 (omega (arith, count)),
          mean_average-quotient all (omega (arith, sum)) (omega (arith, count))
              (omega (arith, count)),
        )
        (ap₂ {A = ℕ} {B = ℕ}
          (λ t u. select_rep_rate (t / u) bandwidths lowest >>= (λ rate. ok (all, rate))) sum count)

-- ===== src/Godash/Averages.antt =====
-- godash/algorithms: conventional.go, average.go, geometric.go, exponential.go, elastic.go and the averages
-- of helperFunctions.go. Throughputs are not negative. An algorithm returns the throughputs, to which
-- it has added the new one, and the index that it chooses.
pub mod Smoothing
pub mod Mean
use mathlib.Core.List.{reverse}
use rlnc_streaming.Base.{
  ℕ, suc, ◌+◌, ◌-◌, ◌*◌, ◌/◌, List, [], ◌∷◌, ◌++◌, Option, none, some, ltb, if◌then◌else◌, length,
  take, drop,
}
use rlnc_streaming.Run.{Run, ok, ◌>>=◌}
use rlnc_streaming.Godash.Double.{Doubles}
use rlnc_streaming.Godash.Rates.{select_rep_rate}

-- The variable `thr` after a new throughput; `none` is its first value, -1.
unfoldable pub smooth : Option ℕ → ℕ → ℕ
smooth none new = new
smooth (some thr) new = 8 * thr / 10 + 2 * new / 10

-- `Conventional`: the variable `thr`, the throughputs and the index.
unfoldable pub conventional : Option ℕ → List ℕ → ℕ → List ℕ → ℕ → Run (Option ℕ × List ℕ × ℕ)
conventional thr thrs new bandwidths lowest = do
  let thr' = smooth thr new
  rate ← select_rep_rate thr' bandwidths lowest
  ok (some thr', thrs ++ thr' ∷ [], rate)

module _ {D : Type 0} (d : Doubles D) where
  -- `CalculateThroughtput`
  unfoldable pub calculate_throughput : ℕ → ℕ → ℕ
  calculate_throughput segment_size time =
      d.to_int (d.over (d.of_int segment_size) (d.over (d.of_int time) (d.of_int 1000)))

  -- The loop of `meanAverage`.
  unfoldable pub mean_sum : D → List ℕ → D
  mean_sum acc [] = acc
  mean_sum acc (x ∷ xs) = mean_sum (d.plus acc (d.of_int x)) xs

  -- `meanAverage`
  unfoldable pub mean_average : List ℕ → D
  mean_average thrs = d.over (mean_sum (d.of_int 0) thrs) (d.of_int (length thrs))

  -- `MeanAverageAlgo`
  unfoldable pub mean_average_algo : List ℕ → ℕ → List ℕ → ℕ → Run (List ℕ × ℕ)
  mean_average_algo thrs new bandwidths lowest = do
    let all = thrs ++ new ∷ []
    let few = select_rep_rate new bandwidths lowest
    let many = select_rep_rate (d.to_int (mean_average all)) bandwidths lowest
    rate ← if ltb (length all) 2 then few else many
    ok (all, rate)

  -- The loop of `geomAverage`.
  unfoldable pub geom_product : D → List ℕ → D
  geom_product acc [] = acc
  geom_product acc (x ∷ xs) = geom_product (d.times acc (d.of_int x)) xs

  -- `geomAverage`
  unfoldable pub geom_average : List ℕ → D
  geom_average thrs =
      d.power (geom_product (d.of_int 1) thrs) (d.over (d.of_int 1) (d.of_int (length thrs)))

  -- `GeomAverageAlgo`
  unfoldable pub geom_average_algo : List ℕ → ℕ → List ℕ → ℕ → Run (List ℕ × ℕ)
  geom_average_algo thrs new bandwidths lowest = do
    let all = thrs ++ new ∷ []
    let few = select_rep_rate new bandwidths lowest
    let many = select_rep_rate (d.to_int (geom_average all)) bandwidths lowest
    rate ← if ltb (length all) 2 then few else many
    ok (all, rate)

  -- The second loop of `ExpAverage`, from index `i` on, over the last `n` throughputs.
  unfoldable pub exp_sum : ℕ → ℕ → D → D → D → List ℕ → D
  exp_sum n i ratio weights acc [] = acc
  exp_sum n i ratio weights acc (x ∷ xs) =
      let weight =
        d.over (d.times ratio (d.power (d.minus (d.of_int 1) ratio) (d.of_int (n - 1 - i))))
          weights in
      exp_sum n (suc i) ratio weights (d.plus acc (d.times weight (d.of_int x))) xs

  -- `ExpAverage`: the last throughputs, the newest first.
  unfoldable pub exp_average : List ℕ → D → ℕ → D
  exp_average thrs ratio window =
      let last = take window (reverse thrs) in
      let weights =
        d.minus (d.of_int 1) (d.power (d.minus (d.of_int 1) ratio) (d.of_int (length last))) in
      exp_sum (length last) 0 ratio weights (d.of_int 0) last

  -- `EMWAAverageAlgo`
  unfoldable pub emwa_average_algo : D → ℕ → List ℕ → ℕ → List ℕ → ℕ → Run (List ℕ × ℕ)
  emwa_average_algo ratio window thrs new bandwidths lowest = do
    let all = thrs ++ new ∷ []
    let few = select_rep_rate new bandwidths lowest
    let many = select_rep_rate (d.to_int (exp_average all ratio window)) bandwidths lowest
    rate ← if ltb (length all) 2 then few else many
    ok (all, rate)

  -- The loop of `harmonicAverage`.
  unfoldable pub harmonic_sum : D → List ℕ → D
  harmonic_sum acc [] = acc
  harmonic_sum acc (x ∷ xs) = harmonic_sum (d.plus acc (d.over (d.of_int 1) (d.of_int x))) xs

  -- `harmonicAverage`
  unfoldable pub harmonic_average : ℕ → List ℕ → D
  harmonic_average num thrs =
      let last = if ltb (length thrs) num then thrs else drop (length thrs - num) thrs in
      d.over (d.of_int (length last)) (harmonic_sum (d.of_int 0) last)

  -- `ElasticAlgo`: the static parameter, the throughputs and the index.
  unfoldable pub elastic_algo :
      List ℕ → ℕ → ℕ → ℕ → List ℕ → D → ℕ → D → D → ℕ → Run (D × List ℕ × ℕ)
  elastic_algo thrs new del_time max_buffer bandwidths static buffer kp ki lowest = do
    let all = thrs ++ new ∷ []
    let estimate = harmonic_average 5 all
    let static' = d.plus static (
        d.times (d.over (d.of_int del_time) (d.of_int 1000))
          (d.minus (d.over (d.of_int buffer) (d.of_int 1000)) (d.of_int max_buffer)))
    let target = d.over estimate (
        d.minus (d.minus (d.of_int 1) (d.times kp (d.of_int (buffer / 1000)))) (d.times ki static'))
    rate ← select_rep_rate (d.to_int target) bandwidths lowest
    ok (static', all, rate)

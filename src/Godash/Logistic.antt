-- ===== src/Godash/Logistic.antt =====
-- godash/algorithms/logistic.go. Index 0 is the representation with the highest bitrate; the index that
-- is called the lowest is the last. The log is left out.
pub mod Range
use rlnc_streaming.Base.{
  ℕ, ◌+◌, ◌-◌, ◌/◌, List, [], ◌∷◌, ◌++◌, ◌==◌, ltb, leb, if◌then◌else◌, length,
}
use rlnc_streaming.Run.{Run, ok, ◌>>=◌, load}
use rlnc_streaming.Godash.Calc.{max_int, min_int}
use rlnc_streaming.Godash.Double.{Doubles}
use rlnc_streaming.Godash.Rates.{select_rep_rate}

-- The loop of `LowestBitrate`.
unfoldable pub scan_lowest : ℕ → List ℕ → ℕ
scan_lowest lowest [] = lowest
scan_lowest lowest (x ∷ xs) = scan_lowest (if ltb x lowest then x else lowest) xs

-- The loop of `HighestBitrate`.
unfoldable pub scan_highest : ℕ → List ℕ → ℕ
scan_highest highest [] = highest
scan_highest highest (x ∷ xs) = scan_highest (if ltb highest x then x else highest) xs

-- The integer of `LowestBitrate`; an empty list panics.
unfoldable pub lowest_bitrate : List ℕ → Run ℕ
lowest_bitrate xs = do first ← load xs (length xs - 1); ok (scan_lowest first xs)

-- The integer of `HighestBitrate`
unfoldable pub highest_bitrate : List ℕ → Run ℕ
highest_bitrate xs = do first ← load xs 0; ok (scan_highest first xs)

-- The end of `LogisticFunction`: from the index that the target rate gives to the one returned.
unfoldable pub settle_index : ℕ → ℕ → ℕ → ℕ → ℕ
settle_index opt last highest lowest =
    let upper = max_int (last - 1) highest in
    let lower = min_int (last + 1) lowest in
    if opt == 0
    then (if leb last lowest then lowest else last - 1)
    else if leb opt lower
    then opt
    else if leb upper opt
    then opt - 1
    else opt

module _ {D : Type 0} (d : Doubles D) where
  -- The target rate of `LogisticFunction`.
  unfoldable pub logistic_rate : ℕ → ℕ → ℕ → D
  logistic_rate low_bits high_bits buffer =
      let low = d.over (d.of_int low_bits) (d.of_int 1024) in
      let high = d.over (d.of_int high_bits) (d.of_int 1024) in
      let decay = d.exp (
        d.over (d.times (d.minus (d.of_int 0) (d.literal 5 100)) (d.of_int buffer))
          (d.of_int 1000)) in
      d.ceil
        (d.over high (d.plus (d.of_int 1) (d.times (d.minus (d.over high low) (d.of_int 1)) decay)))

  -- `LogisticFunction`
  unfoldable pub logistic_function : ℕ → ℕ → ℕ → ℕ → ℕ → List ℕ → Run ℕ
  logistic_function last buffer highest lowest max_buffer bandwidths = do
    opt ←
        if d.at_most (d.times (d.literal 97 100) (d.of_int max_buffer)) (d.of_int (buffer / 1000))
        then ok 0
        else do
          low ← lowest_bitrate bandwidths
          high ← highest_bitrate bandwidths
          let target = logistic_rate low high buffer
          select_rep_rate (d.to_int (d.times (d.plus target (d.of_int 1)) (d.of_int 1000)))
              bandwidths lowest
    ok (settle_index opt last highest lowest)

  -- `Logistic`, with `calculateSelectedIndex`: the throughputs and the index.
  unfoldable pub logistic : List ℕ → ℕ → ℕ → List ℕ → ℕ → ℕ → ℕ → ℕ → Run (List ℕ × ℕ)
  logistic thrs new last bandwidths buffer highest lowest max_buffer = do
    rate ← logistic_function last buffer highest lowest max_buffer bandwidths
    ok (thrs ++ new ∷ [], rate)

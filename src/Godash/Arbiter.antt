-- ===== src/Godash/Arbiter.antt =====
-- godash/algorithms/arbiterPlus.go, and `SmartConvHelper` and `SmartConvHelperFromFile` of
-- helperFunctions.go. `size` is the answer of the server to a request for the length of a segment, by the
-- index of the representation and the number of the segment. The package's variables keep the values
-- that they are given before each use.
pub mod Search
use rlnc_streaming.Base.{
  ℕ, zero, suc, ◌+◌, ◌-◌, ◌*◌, ◌/◌, List, [], ◌∷◌, ◌++◌, Bool, true, false, Option, none, some,
  ◌==◌, ltb, if◌then◌else◌, length,
}
use rlnc_streaming.Run.{Run, ok, ◌>>=◌, load, divide}
use rlnc_streaming.Godash.Calc.{max_int, min_int, float_min}
use rlnc_streaming.Godash.Double.{Doubles}
use rlnc_streaming.Godash.Rates.{select_rep_rate}
use rlnc_streaming.Godash.Averages.{exp_average}

-- The loop of `SmartConvHelper`: the bits of `n` segments.
unfoldable pub window_bits : (ℕ → ℕ → ℕ) → ℕ → ℕ → ℕ → ℕ → ℕ
window_bits size index zero segment acc = acc
window_bits size index (suc n) segment acc =
    window_bits size index n (suc segment) (acc + 8 * size index segment)

-- `segment - 1` as an index
unfoldable pub previous : ℕ → Run ℕ
previous zero = Run.panic
previous (suc n) = ok n

-- The loop of `SmartConvHelperFromFile`, whose segment numbers are one less than those here.
unfoldable pub file_bits : List (List ℕ) → ℕ → ℕ → ℕ → ℕ → Run ℕ
file_bits table index zero segment acc = ok acc
file_bits table index (suc n) segment acc = do
  row ← load table index
  k ← previous segment
  bytes ← load row k
  file_bits table index n (suc segment) (acc + bytes * 8)

-- The loops that raise the index until the test is passed or the index is the lowest.
unfoldable pub raise_index : (ℕ → Run Bool) → ℕ → ℕ → Run ℕ
raise_index test zero index = ok index
raise_index test (suc n) index = do
  passed ← test index
  let rest = raise_index test n (suc index)
  if passed then ok index else rest

module _ {D : Type 0} (d : Doubles D) where
  -- The comparison at the end of both helpers.
  unfoldable pub is_affordable : ℕ → D → D → ℕ → Bool
  is_affordable bits window estimate last_duration =
      d.at_most
        (d.over (d.of_int bits) (d.times (d.over (d.of_int last_duration) (d.of_int 1000)) window))
        estimate

  -- `float64(videoWindow)`, which may be negative
  unfoldable pub window_double : ℕ → ℕ → D
  window_double segments last_index =
      if ltb (last_index + 5) segments then d.of_int 5 else d.of_difference segments last_index

  -- `SmartConvHelper`
  unfoldable pub smart_conv_helper : (ℕ → ℕ → ℕ) → ℕ → D → ℕ → ℕ → D → ℕ → Bool
  smart_conv_helper size rounds window segment last_duration estimate index =
      is_affordable (window_bits size index rounds segment 0) window estimate last_duration

  -- `SmartConvHelperFromFile`
  unfoldable pub smart_conv_helper_from_file : List (List ℕ) → ℕ → D → ℕ → ℕ → D → ℕ → Run Bool
  smart_conv_helper_from_file table rounds window segment last_duration estimate index = do
    bits ← file_bits table index rounds segment 0
    ok (is_affordable bits window estimate last_duration)

  -- The factor by which the fullness of the buffer scales the estimate.
  unfoldable pub buffering_factor : ℕ → ℕ → D
  buffering_factor buffer max_buffer =
      let fullness =
        float_min d (d.of_int 1) (d.over (d.of_int buffer) (d.of_int (max_buffer * 1000))) in
      d.plus (d.literal 75 100) (d.times (d.minus (d.literal 115 100) (d.literal 75 100)) fullness)

  -- The control of the switching.
  unfoldable pub switch_index : ℕ → ℕ → D → List ℕ → Run ℕ
  switch_index last target rate bandwidths = do
    near ←
        if last == target + 1
        then (do
          b ← load bandwidths target
          let factor =
              d.minus (d.literal 1065 1000)
                (d.times (d.of_difference (length bandwidths) target) (d.literal 15 1000))
          ok (d.below rate (d.times factor (d.of_int (b / 1000)))))
        else ok false
    ok (if near then target + 1 else if ltb (target + 2) last then max_int (last - 2) 0 else target)

  -- The test of the loops: by the lengths that a file holds, or by requests.
  unfoldable pub affordable_at :
      (ℕ → ℕ → ℕ) → Option (List (List ℕ)) → ℕ → D → ℕ → ℕ → D → ℕ → Run Bool
  affordable_at size none rounds window segment last_duration estimate index =
      ok (smart_conv_helper size rounds window segment last_duration estimate index)
  affordable_at size (some table) rounds window segment last_duration estimate index =
      smart_conv_helper_from_file table rounds window segment last_duration estimate index

  -- `CalculateSelectedIndexArbiter`: the throughputs and the index.
  unfoldable pub selected_index_arbiter :
      (ℕ → ℕ → ℕ)
      → Option (List (List ℕ))
      → List ℕ
      → ℕ
      → ℕ
      → ℕ
      → ℕ
      → ℕ
      → ℕ
      → ℕ
      → ℕ
      → ℕ
      → List ℕ
      → Run (List ℕ × ℕ)
  selected_index_arbiter size table thrs new last_duration last_index max_buffer last mpd_duration
        segment buffer lowest bandwidths =
      do
        let all = thrs ++ new ∷ []
        let rate =
            d.times (exp_average d all (d.literal 4 10) 10) (buffering_factor buffer max_buffer)
        target ← select_rep_rate (d.to_int rate) bandwidths lowest
        switched ← switch_index last target rate bandwidths
        segments ← divide mpd_duration last_duration
        let rounds = min_int (segments - last_index) 5
        let window = window_double segments last_index
        index ←
            raise_index (affordable_at size table rounds window segment last_duration rate)
              (lowest - switched) switched
        ok (all, index)

-- ===== src/Godash/Bba.antt =====
-- godash/algorithms/bba2.go. `size` is the answer of the server to a request for the length of a segment
-- of the representation that is played, by the number of the segment; the answer to the same request is
-- the same. The mean of the throughputs, which the source computes and does not use, is left out.
pub mod Range
use rlnc_streaming.Base.{
  ℕ, zero, suc, ◌+◌, ◌-◌, ◌*◌, ◌/◌, List, [], ◌∷◌, ◌++◌, Bool, ◌==◌, ltb, if◌then◌else◌, length,
}
use rlnc_streaming.Run.{Run, ok, ◌>>=◌, load, divide}
use rlnc_streaming.Godash.Calc.{max_int, min_int}
use rlnc_streaming.Godash.Double.{Doubles}
use rlnc_streaming.Godash.Rates.{select_rep_rate}
use rlnc_streaming.Godash.Logistic.{lowest_bitrate, highest_bitrate, settle_index}

-- The loop of `bba1UpdateReservoir` over `n` segments: the bytes of those above the average size, and the
-- bytes of the others.
unfoldable pub split_sizes : (ℕ → ℕ) → ℕ → ℕ → ℕ → ℕ → ℕ → ℕ × ℕ
split_sizes size average zero segment large small = (large, small)
split_sizes size average (suc n) segment large small =
    let big = ltb average (size segment) in
    split_sizes size average n (suc segment) (if big then large + size segment else large)
      (if big then small else small + size segment)

module _ {D : Type 0} (d : Doubles D) where
  -- The bounds of the reservoir.
  unfoldable pub clamp_reservoir : ℕ → ℕ → D → D
  clamp_reservoir last_duration max_buffer r =
      let most = d.times (d.literal 6 10) (d.of_int (max_buffer * 1000)) in
      if d.below r (d.of_int (2 * last_duration))
      then d.times (d.of_int 2) (d.of_int last_duration)
      else if d.below most r
      then most
      else r

  -- `bba1UpdateReservoir`; a window that is negative in the source has no rounds.
  unfoldable pub update_reservoir : (ℕ → ℕ) → ℕ → ℕ → ℕ → ℕ → ℕ → ℕ → List ℕ → Run ℕ
  update_reservoir size last last_index mpd_duration last_duration max_buffer segment bandwidths =
      do
        room ← divide (2 * max_buffer * 1000) last_duration
        segments ← divide mpd_duration last_duration
        rate ← load bandwidths last
        let window = min_int room (segments - last_index)
        let average = rate / 1000 * last_duration / 8000
        let sizes = split_sizes size average window segment 0 0
        let r =
            d.over (d.times (d.of_int 8) (d.of_difference sizes.0 sizes.1)) (d.of_int (rate / 1000))
        ok (d.to_int (clamp_reservoir last_duration max_buffer r))

  -- The target rate of `bba1VRAA`.
  unfoldable pub vraa_rate : ℕ → ℕ → ℕ → ℕ → D
  vraa_rate low_bits high_bits max_buffer reservoir =
      let low = d.over (d.of_int low_bits) (d.of_int 1024) in
      let high = d.over (d.of_int high_bits) (d.of_int 1024) in
      d.over (d.minus high low)
        (d.minus (d.times (d.literal 9 10) (d.of_int max_buffer)) (d.of_int reservoir))

  -- `bba1VRAA`; its end is that of `LogisticFunction`.
  unfoldable pub vraa : ℕ → ℕ → ℕ → ℕ → ℕ → List ℕ → ℕ → Run ℕ
  vraa last buffer highest lowest max_buffer bandwidths reservoir = do
    opt ←
        if d.at_most (d.times (d.literal 9 10) (d.of_int max_buffer)) (d.of_int (buffer / 1000))
        then ok 0
        else do
          low ← lowest_bitrate bandwidths
          high ← highest_bitrate bandwidths
          let target = vraa_rate low high max_buffer reservoir
          select_rep_rate (d.to_int (d.times (d.plus target (d.of_int 1)) (d.of_int 1000)))
              bandwidths lowest
    ok (settle_index opt last highest lowest)

  -- The index for a buffer below the reservoir; `slow` is the local `mStaticAlgPar`.
  unfoldable pub below_reservoir : Bool → ℕ → ℕ → ℕ → List ℕ → ℕ
  below_reservoir slow download_time last_duration last bandwidths =
      if slow
      then length bandwidths - 1
      else if d.below (d.of_int download_time)
          (d.times (d.literal 125 1000) (d.of_int last_duration))
      then max_int (last - 1) 0
      else last

  -- The index for a buffer that reaches the reservoir, from that of `bba1VRAA`.
  unfoldable pub above_reservoir : Bool → ℕ → ℕ → ℕ → List ℕ → ℕ → ℕ
  above_reservoir slow download_time last_duration last bandwidths r =
      let limit =
        if d.at_most (d.of_int download_time) (d.times (d.literal 5 10) (d.of_int last_duration))
        then max_int (last - 1) 0
        else length bandwidths - 1 in
      if slow then r else min_int r limit

  -- The part of `CalculateSelectedIndexBba` that follows `bba1UpdateReservoir`.
  unfoldable pub index_for : ℕ → ℕ → ℕ → ℕ → ℕ → ℕ → ℕ → List ℕ → ℕ → Run ℕ
  index_for last_duration max_buffer last download_time buffer highest lowest bandwidths reservoir =
      let slow = ltb last_duration download_time in
      let low = below_reservoir slow download_time last_duration last bandwidths in
      if ltb buffer reservoir then ok low else do
        r ← vraa last buffer highest lowest max_buffer bandwidths reservoir
        ok (above_reservoir slow download_time last_duration last bandwidths r)

  -- `CalculateSelectedIndexBba`: the throughputs and the index.
  unfoldable pub selected_index_bba :
      (ℕ → ℕ) → List ℕ → ℕ → ℕ → ℕ → ℕ → ℕ → ℕ → ℕ → ℕ → ℕ → ℕ → ℕ → List ℕ → Run (List ℕ × ℕ)
  selected_index_bba size thrs new last_duration last_index max_buffer last mpd_duration segment
        download_time buffer highest lowest bandwidths =
      do
        reservoir ←
            update_reservoir size last last_index mpd_duration last_duration max_buffer segment
              bandwidths
        rate ←
            index_for last_duration max_buffer last download_time buffer highest lowest bandwidths
              reservoir
        ok (thrs ++ new ∷ [], rate)

-- ===== src/Godash/Qoe.antt =====
-- godash/qoe/yin.go, yu.go and duanmu.go: estimates of quality from the log of the last segment, less
-- what they print. The functions send their result to a channel; these return it.
pub mod Rates
pub mod Claye
use rlnc_streaming.Base.{ℕ, zero, suc, ◌+◌, List, [], ◌∷◌, ◌==◌, length, if◌then◌else◌}
use rlnc_streaming.Godash.Double.{Doubles}
use rlnc_streaming.Godash.Int.{ℤ, pos, negsuc, is_positive}
use rlnc_streaming.Godash.Player.{SegmentLog}

-- The sum of the durations of the first segments; a segment without a log has none.
unfoldable pub init_delay : ℕ → List ℕ → ℕ
init_delay (suc n) (duration ∷ durations) = duration + init_delay n durations
init_delay _ _ = 0

module _ {D : Type 0} (d : Doubles D) where
  -- `float64` of an `int`
  unfoldable pub of_signed : ℤ → D
  of_signed (pos n) = d.of_int n
  of_signed (negsuc n) = d.of_difference 0 (n + 1)

  -- The sum of the durations, from `sum` on.
  unfoldable pub add_durations : List ℕ → D → D
  add_durations [] sum = sum
  add_durations (duration ∷ durations) sum =
      add_durations durations (d.plus sum (d.of_int duration))

  -- `getYin` for `initBuffer`, the last log, its `PlaybackTime` and the durations of all segments.
  unfoldable pub get_yin : ℕ → SegmentLog → ℤ → List ℕ → D
  get_yin init_buffer l playback_time durations =
      let magnitude =
        if l.switches == 0 then d.of_int 0 else d.over (d.of_int l.sum_changes) (d.of_int 1000) in
      let played =
        d.minus
          (d.minus (d.over (d.of_int l.sum_rates) (d.of_int 1000)) (d.times (d.of_int 1) magnitude))
          (d.times (d.of_int 3) (of_signed l.total_stall)) in
      if is_positive playback_time
      then played
      else d.minus played (d.times (d.of_int 3000) (d.of_int (init_delay init_buffer durations)))

  -- `getYu`. The constant 1 / 3 of `w1` is a quotient of integers, which is 0.
  unfoldable pub get_yu : SegmentLog → List ℕ → D
  get_yu l durations =
      let size = d.of_int (length durations) in
      let w1 = d.of_int 0 in
      let average = d.over (d.over (d.of_int l.sum_rates) (d.of_int 1000000)) size in
      let magnitude = d.over (d.over (d.of_int l.sum_changes) (d.of_int 1000000)) size in
      let display = d.plus (add_durations durations (d.of_int 0)) (of_signed l.total_stall) in
      let starvation = d.over (of_signed l.total_stall) display in
      d.minus (d.minus average (d.times w1 magnitude)) (d.times (d.of_int 20) starvation)

  -- `PlaybackTime`, or 1 for 0.
  unfoldable pub session_duration : ℤ → ℤ
  session_duration (pos zero) = pos 1
  session_duration playback_time = playback_time

  -- `getDuanmu`
  unfoldable pub get_duanmu : ℕ → SegmentLog → ℤ → List ℕ → D
  get_duanmu init_buffer l playback_time durations =
      let rebuffer =
        d.over (of_signed l.total_stall) (of_signed (session_duration playback_time)) in
      let magnitude =
        if l.switches == 0
        then d.of_int 0
        else d.over (d.over (d.of_int l.sum_changes) (d.of_int 1000)) (d.of_int l.switches) in
      let delay = d.of_int (init_delay init_buffer durations) in
      let average =
        d.over (d.over (d.of_int l.sum_rates) (d.of_int 1000)) (d.of_int (length durations)) in
      let late =
        d.minus (d.times (d.minus (d.of_int 0) (d.literal 23 10)) delay)
          (d.times (d.literal 565 10) rebuffer) in
      d.plus
        (d.plus (d.plus late (d.times (d.literal 70 10000) average))
          (d.times (d.literal 7 10000) magnitude))
        (d.of_int 54)

-- ===== src/Tests/Quality.antt =====
-- The estimates of godash/qoe, with whole numbers for floating-point numbers.
use rlnc_streaming.Base.{ℕ, ◌+◌, ◌-◌, ◌*◌, ◌/◌, ◌^◌, ◌≡◌, refl, arith, [], ◌∷◌, ltb, leb, length}
use rlnc_streaming.Godash.Double.{Doubles}
use rlnc_streaming.Godash.Player.{
  Playback, SegmentLog, fresh, play_segment, filled, capped, first_log, next_log,
}
use rlnc_streaming.Godash.Player.Stalls.{Reached}
use rlnc_streaming.Godash.Qoe.{of_signed, init_delay, get_yin, get_yu, session_duration, get_duanmu}
use rlnc_streaming.Godash.Qoe.Rates.{IsZeroed, get_yu-blind}
use rlnc_streaming.Godash.Averages.Mean.{total}
use rlnc_streaming.Godash.Qoe.Claye.{Statistics, get_claye, get_claye-blind}
use rlnc_streaming.Tests.Adaptation.{settings, stalled}

-- Whole numbers for floating-point numbers.
abbrev rounded : Doubles ℕ
rounded = record {
  of_int = λ n. n;
  of_difference = λ a b. a - b;
  literal = λ a b. a / b;
  plus = λ x y. x + y;
  minus = λ x y. x - y;
  times = λ x y. x * y;
  over = λ x y. x / y;
  power = λ x y. x ^ y;
  exp = λ x. 3 ^ x;
  ceil = λ x. x;
  below = ltb;
  at_most = leb;
  to_int = λ x. x;
}

rounded-IsZeroed : IsZeroed rounded
rounded-IsZeroed = record { zero_times = λ a b c h hb hc. omega arith }

abbrev logged : SegmentLog
logged = next_log (first_log (play_segment settings 4 500 fresh).stall 500000) stalled.stall 900000

get_yin_run : get_yin rounded 2 logged stalled.position (4 ∷ 4 ∷ []) ≡ 1000
unfolding get_yin play_segment capped filled next_log first_log of_signed
get_yin_run = refl

get_duanmu_run : get_duanmu rounded 2 logged stalled.position (4 ∷ 4 ∷ []) ≡ 54
unfolding get_duanmu play_segment capped filled next_log first_log of_signed init_delay
    session_duration
get_duanmu_run = refl

-- The log of the same rates and stalls, with no change of the rates.
abbrev calm : SegmentLog
calm = record logged { sum_changes = 0 }

get_yu-blind_example : get_yu rounded logged (4 ∷ 4 ∷ []) ≡ get_yu rounded calm (4 ∷ 4 ∷ [])
unfolding next_log first_log
get_yu-blind_example =
    get_yu-blind rounded rounded-IsZeroed logged calm (4 ∷ 4 ∷ []) refl refl (omega arith)
      (omega arith) (omega arith)

-- The mean of whole numbers; the spread stands for the variance.
abbrev whole_statistics : Statistics ℕ
whole_statistics = record {
  mean = λ xs. total xs / length xs;
  variance = λ xs. total xs;
  log = λ x. x;
  sqrt = λ x. x;
}

-- The player after two segments, the second downloaded in the given time, and its log.
abbrev second_played : ℕ → Playback
second_played run_time = play_segment settings 4 run_time (play_segment settings 4 500 fresh)

abbrev second_log : ℕ → SegmentLog
second_log run_time =
    next_log (first_log (play_segment settings 4 500 fresh).stall 500000)
      (second_played run_time).stall 900000

second_reached : (run_time : ℕ) → Reached settings (second_played run_time) (second_log run_time)
second_reached run_time =
    Reached.next (play_segment settings 4 500 fresh)
      (first_log (play_segment settings 4 500 fresh).stall 500000) 4 run_time 900000
      (Reached.first 4 500 500000)

get_claye-blind_example :
    get_claye rounded whole_statistics (second_log 500) 900000 2
    ≡ get_claye rounded whole_statistics (second_log 7000) 900000 2
unfolding first_log next_log
get_claye-blind_example =
    get_claye-blind rounded whole_statistics settings settings (second_played 500)
      (second_played 7000) (second_log 500) (second_log 7000) 900000 2 (second_reached 500)
      (second_reached 7000) refl

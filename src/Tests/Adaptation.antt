-- ===== src/Tests/Adaptation.antt =====
-- The algorithms of godash/algorithms, with fractions for floating-point numbers.
use rlnc_streaming.Base.{
  ℕ, ◌+◌, ◌-◌, ◌*◌, ◌/◌, ◌^◌, ◌≤◌, ◌<◌, get_or, drop, ◌≡◌, refl, ap₂, arith, List, [], ◌∷◌, none,
  true, ltb, leb, length,
}
use rlnc_streaming.Run.{Returns}
use rlnc_streaming.Godash.Double.{Doubles, IsExact}
use rlnc_streaming.Godash.Averages.Smoothing.{
  conventional_all, IsNear, AllBetween, conventional_all-IsNear,
}
use rlnc_streaming.Godash.Logistic.{logistic_function}
use rlnc_streaming.Godash.Logistic.Range.{
  IsAfterFirst, logistic_function-IsAfterFirst, logistic_function_below_best,
}
use rlnc_streaming.Godash.Bba.{selected_index_bba}
use rlnc_streaming.Godash.Bba.Range.{IsChoice, selected_index_bba-IsChoice}
use rlnc_streaming.Godash.Arbiter.{selected_index_arbiter}
use rlnc_streaming.Godash.Arbiter.Search.{selected_index_arbiter-bounds}
use rlnc_streaming.Godash.Int.{difference}
use rlnc_streaming.Godash.Player.{
  Adapt, Choosing, Reading, choose_rate, Settings, Playback, fresh, play_segment, filled, capped,
  first_log, next_log,
}
use rlnc_streaming.Godash.Player.Choice.{choose_rate-bound}
use rlnc_streaming.Godash.Player.Stalls.{Reached, IsWithin, Reached-IsWithin}
use rlnc_streaming.Godash.Player.Logged.{IsLogged, Reached-IsLogged}

-- Fractions that are not negative; the exponential is 1 / (1 + x).
abbrev fractions : Doubles (ℕ × ℕ)
fractions = record {
  of_int = λ n. (n, 1);
  of_difference = λ a b. (a - b, 1);
  literal = λ a b. (a, b);
  plus = λ x y. (x.0 * y.1 + y.0 * x.1, x.1 * y.1);
  minus = λ x y. (x.0 * y.1 - y.0 * x.1, x.1 * y.1);
  times = λ x y. (x.0 * y.0, x.1 * y.1);
  over = λ x y. (x.0 * y.1, x.1 * y.0);
  power = λ x y. (x.0 ^ (y.0 / y.1), x.1 ^ (y.0 / y.1));
  exp = λ x. (x.1, x.1 + x.0);
  ceil = λ x. ((x.0 + x.1 - 1) / x.1, 1);
  below = λ x y. ltb (x.0 * y.1) (y.0 * x.1);
  at_most = λ x y. leb (x.0 * y.1) (y.0 * x.1);
  to_int = λ x. x.0 / x.1;
}

fractions-IsExact : IsExact fractions
fractions-IsExact = record {
  plus_int = λ a b h. ap₂ {A = ℕ} {B = ℕ} (λ x y. (x, y)) (omega arith) (omega arith);
  over_int = λ a b h pos few. ap₂ {A = ℕ} {B = ℕ} (λ x y. x / y) (omega arith) (omega arith);
}

abbrev bandwidths : List ℕ
bandwidths = 900 ∷ 500 ∷ 100 ∷ []

conventional_all-IsNear_example :
    Returns
      (λ (thr', thrs'). IsNear 100 200 thr' × AllBetween 92 200 thrs' × (length thrs' ≡ 3))
      (conventional_all none [] (150 ∷ 120 ∷ 200 ∷ []) bandwidths 2)
conventional_all-IsNear_example =
    conventional_all-IsNear 100 200 none [] (150 ∷ 120 ∷ 200 ∷ []) bandwidths 2 tt tt
      ((omega arith, omega arith), ((omega arith, omega arith), ((omega arith, omega arith), tt)))

logistic_function-IsAfterFirst_example :
    Returns (IsAfterFirst 2) (logistic_function fractions 1 30000 0 2 30 bandwidths)
logistic_function-IsAfterFirst_example =
    logistic_function-IsAfterFirst fractions 1 30000 0 2 30 bandwidths refl (omega arith)
      (omega arith)

logistic_function_below_best_example :
    Returns
      (λ r. get_or bandwidths r 0 < get_or bandwidths 0 0)
      (logistic_function fractions 1 30000 0 2 30 bandwidths)
logistic_function_below_best_example =
    logistic_function_below_best fractions 1 30000 0 30 (get_or bandwidths 0 0) (drop 1 bandwidths)
      (omega arith, (omega arith, tt)) (omega arith) (omega arith)

selected_index_bba-IsChoice_example :
    Returns
      (λ (thrs', r). (thrs' ≡ 600 ∷ 700 ∷ []) × IsChoice 2 4000 5000 r)
      (selected_index_bba fractions
        (λ n. 1000 + n)
        (600 ∷ [])
        700
        4000
        1
        30
        1
        60000
        2
        5000
        9000
        0
        2
        bandwidths)
selected_index_bba-IsChoice_example =
    selected_index_bba-IsChoice fractions (λ n. 1000 + n) 0 2 bandwidths refl (omega arith)
      (600 ∷ []) 700 4000 1 30 1 60000 2 5000 9000 (omega arith) (omega arith)

selected_index_arbiter-bounds_example :
    Returns
      (λ (thrs', r). (thrs' ≡ 600 ∷ 700 ∷ []) × (r ≤ 2) × (1 ≤ r + 2))
      (selected_index_arbiter fractions
        (λ i n. 1000 + n)
        none
        (600 ∷ [])
        700
        4000
        1
        30
        1
        60000
        2
        9000
        2
        bandwidths)
selected_index_arbiter-bounds_example =
    selected_index_arbiter-bounds fractions (λ i n. 1000 + n) (600 ∷ []) 700 4000 1 30 1 60000 2
      9000 2 bandwidths refl (omega arith) (omega arith)

abbrev reading : Reading (ℕ × ℕ)
reading = record {
  new_thr = 700;
  delivery_time = 5000;
  buffer = 9000;
  max_buffer = 30;
  max_buffer_level = 30;
  bandwidths = bandwidths;
  highest = 0;
  lowest = 2;
  segment_duration = 4;
  segment_number = 2;
  stream_duration = 60000;
  kp = (1, 100);
  ki = (1, 1000);
  ratio = (4, 10);
  size = λ i n. 1000 + n;
  table = none;
}

abbrev choosing : Choosing (ℕ × ℕ)
choosing = record { thr = none; thrs = 600 ∷ []; static = (0, 1); rate = 1 }

choose_rate-bound_example :
    Returns (λ s. s.rate ≤ 2) (choose_rate fractions reading Adapt.bba_alg choosing)
choose_rate-bound_example =
    choose_rate-bound fractions reading
      (record { lowest_last = refl; several = omega arith; timed = omega arith; online = refl })
      Adapt.bba_alg choosing (omega arith)

abbrev pub settings : Settings
settings = record { init_buffer = 1; max_buffer = 30; extended = true }

-- The second segment of four seconds arrives three seconds too late.
abbrev pub stalled : Playback
stalled = play_segment settings 4 7000 (play_segment settings 4 500 fresh)

stall_run : stalled.stall ≡ difference 4000 7000
unfolding play_segment filled capped
stall_run = refl

Reached-IsWithin_example :
    IsWithin settings stalled
    × ((next_log (first_log (play_segment settings 4 500 fresh).stall 500) stalled.stall 900).stalls
        ≡ 0)
Reached-IsWithin_example =
    Reached-IsWithin settings stalled
      (next_log (first_log (play_segment settings 4 500 fresh).stall 500) stalled.stall 900)
      (Reached.next (play_segment settings 4 500 fresh)
        (first_log (play_segment settings 4 500 fresh).stall 500) 4 7000 900
        (Reached.first 4 500 500))

Reached-IsLogged_example :
    IsLogged (next_log (first_log (play_segment settings 4 500 fresh).stall 500) stalled.stall 900)
Reached-IsLogged_example =
    Reached-IsLogged settings stalled
      (next_log (first_log (play_segment settings 4 500 fresh).stall 500) stalled.stall 900)
      (Reached.next (play_segment settings 4 500 fresh)
        (first_log (play_segment settings 4 500 fresh).stall 500) 4 7000 900
        (Reached.first 4 500 500))

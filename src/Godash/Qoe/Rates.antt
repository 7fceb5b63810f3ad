-- ===== src/Godash/Qoe/Rates.antt =====
-- godash/qoe/yu.go: what the estimate of Yu depends on.
use rlnc_streaming.Base.{ℕ, ◌^◌, ◌<◌, ◌≡◌, sym, ap, ap₂, ◌∙◌, List, arith, length}
use rlnc_streaming.Godash.Double.{Doubles}
use rlnc_streaming.Godash.Int.{ℤ}
use rlnc_streaming.Godash.Player.{SegmentLog}
use rlnc_streaming.Godash.Qoe.{of_signed, add_durations, get_yu}

-- What IEEE 754 states of 0: its product with a finite number is 0.
pub record IsZeroed {D : Type 0} (d : Doubles D) : Type 0 where
  pub zero_times :
      (a b c : ℕ)
      → a < 2 ^ 53
      → 0 < b
      → 0 < c
      → d.times (d.of_int 0) (d.over (d.over (d.of_int a) (d.of_int b)) (d.of_int c)) ≡ d.of_int 0

module _ {D : Type 0} (d : Doubles D) (laws : IsZeroed d) where
  -- For segments whose rate changes sum to less than 2^53: two logs with the same sum of rates and the
  -- same stalls get the same estimate of Yu, however much their rates change.
  pub get_yu-blind :
      (l m : SegmentLog) (durations : List ℕ)
      → l.sum_rates ≡ m.sum_rates
      → l.total_stall ≡ m.total_stall
      → l.sum_changes < 2 ^ 53
      → m.sum_changes < 2 ^ 53
      → 0 < length durations
      → get_yu d l durations ≡ get_yu d m durations
  unfolding get_yu
  get_yu-blind l m durations rates stall hl hm some_segment =
      value l hl
      ∙ ap₂ (λ sum_rates total_stall. outcome sum_rates total_stall (d.of_int 0)) rates stall
      ∙ sym (value m hm)
    where
      size : D
      size = d.of_int (length durations)

      outcome : ℕ → ℤ → D → D
      outcome sum_rates total_stall switching =
          d.minus (d.minus (d.over (d.over (d.of_int sum_rates) (d.of_int 1000000)) size) switching)
            (d.times (d.of_int 20) (
              d.over (of_signed d total_stall)
                (d.plus (add_durations d durations (d.of_int 0)) (of_signed d total_stall))))

      value :
          (l : SegmentLog)
          → l.sum_changes < 2 ^ 53
          → get_yu d l durations ≡ outcome l.sum_rates l.total_stall (d.of_int 0)
      value l h =
          ap (outcome l.sum_rates l.total_stall)
            (laws.zero_times l.sum_changes 1000000 (length durations) h (omega arith) some_segment)

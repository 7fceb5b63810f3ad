-- ===== src/Tests/PlayOut.antt =====
-- The printed log of godash/logging/debug.go, and the replaced segments of godash/hlsfunc.
use rlnc_streaming.Base.{ℕ, arith, ◌≡◌, refl, [], ◌∷◌}
use rlnc_streaming.Godash.Int.{pos}
use rlnc_streaming.Godash.PlayOut.{start_of, print_segments, print_stream}
use rlnc_streaming.Godash.PlayOut.Once.{count, is_reached}
use rlnc_streaming.Godash.PlayOut.Calls.{future}
use rlnc_streaming.Godash.PlayOut.Whole.{print_stream-once}
use rlnc_streaming.Godash.PlayOut.Times.{print_segments-count}
use rlnc_streaming.Godash.Hls.{change_buffer_levels}
use rlnc_streaming.Godash.Hls.Between.{change_buffer_levels_lem}
use rlnc_streaming.Base.{List, get_elem?, some}

-- The arrival times and the durations of five segments.
abbrev segments : List (ℕ × ℕ)
segments = (500, 4) ∷ (1000, 4) ∷ (9000, 4) ∷ (12000, 4) ∷ (14000, 2) ∷ []

print_segments_run : (print_segments 2 0 0 [] segments).0 ≡ 1 ∷ 2 ∷ []
unfolding print_segments
print_segments_run = refl

print_stream_run : print_stream 2 segments ≡ 1 ∷ 2 ∷ 3 ∷ 4 ∷ 5 ∷ []
unfolding print_stream
print_stream_run = refl

print_stream-once_example : count 3 (print_stream 2 segments) ≡ 1
print_stream-once_example = print_stream-once 2 segments 3

print_segments-count_example : count 2 (print_segments 2 0 0 [] segments).0 ≡ 1
unfolding start_of is_reached future
print_segments-count_example = print_segments-count 2 1 segments (omega arith)

change_buffer_levels_lem_example :
    get_elem? (change_buffer_levels (pos 5 ∷ pos 6 ∷ pos 9 ∷ pos 7 ∷ []) 4 2 (pos 2)) 2
    ≡ some (pos 7)
change_buffer_levels_lem_example =
    change_buffer_levels_lem (pos 5 ∷ pos 6 ∷ pos 9 ∷ pos 7 ∷ []) 4 2 2 (pos 2)

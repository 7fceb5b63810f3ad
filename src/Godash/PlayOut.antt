-- ===== src/Godash/PlayOut.antt =====
-- PrintPlayOutLog of godash/logging/debug.go for one mime type: which segments are printed, and when.
-- The logs are those of the segments from the first on.
pub mod Once
pub mod Calls
pub mod Marked
pub mod Whole
pub mod Times
use rlnc_streaming.Base.{
  ℕ, zero, suc, ◌+◌, ◌-◌, List, [], ◌∷◌, ◌++◌, Bool, true, false, ◌&&◌, not, leb, ◌*◌, length,
  if◌then◌else◌,
}

-- `PlayStartPosition` and `Played`
pub record PlayLog : Type 0 where
  pub play_start : ℕ
  pub played : Bool

-- The start position of a segment, 0 for a number that has no log.
unfoldable pub start_of : List PlayLog → ℕ → ℕ
start_of logs zero = 0
start_of [] (suc i) = 0
start_of (l ∷ logs) (suc zero) = l.play_start
start_of (l ∷ logs) (suc (suc i)) = start_of logs (suc i)

-- A segment is due when its start, which is that of the segment before it, and the initial buffer are
-- over, and it is not yet printed.
abbrev pub is_due : ℕ → ℕ → ℕ → PlayLog → Bool
is_due time delay start l = leb (start + delay) time && not l.played

abbrev pub mark : Bool → PlayLog → PlayLog
mark due l = if due then record l { played = true } else l

abbrev pub put_if : Bool → ℕ → List ℕ → List ℕ
put_if due number printed = if due then number ∷ printed else printed

-- The loop from segment `number` on, which starts at `start`: the numbers that are printed, and the
-- logs after it.
unfoldable pub print_from : ℕ → ℕ → ℕ → ℕ → List PlayLog → List ℕ × List PlayLog
print_from time delay number start [] = ([], [])
print_from time delay number start (l ∷ logs) =
    let (printed, after) = print_from time delay (suc number) l.play_start logs in
    let due = is_due time delay start l in (put_if due number printed, mark due l ∷ after)

-- PrintPlayOutLog
unfoldable pub print_play_out_log : ℕ → ℕ → List PlayLog → List ℕ × List PlayLog
unfolding print_from start_of
print_play_out_log time init_buffer logs = print_from time (start_of logs init_buffer) 1 0 logs

-- What streamLoop logs of a segment, from `PlayStartPosition`.
abbrev pub new_log : ℕ → PlayLog
new_log total = record { play_start = total; played = false }

-- The calls of streamLoop while it downloads segments, each with its arrival time and its duration: the
-- call, if enough segments wait, stands before the log of the segment. The result is all that is printed,
-- and the logs. `counter` is `waitToPlayCounter`, and `total` is `segmentDurationTotal`.
unfoldable pub print_segments : ℕ → ℕ → ℕ → List PlayLog → List (ℕ × ℕ) → List ℕ × List PlayLog
unfolding print_play_out_log
print_segments init_buffer counter total logs [] = ([], logs)
print_segments init_buffer counter total logs ((arrival, duration) ∷ segments) =
    let (printed, after) =
      if leb init_buffer counter then print_play_out_log arrival init_buffer logs else ([], logs) in
    let total' = total + duration * 1000 in
    let (later, final) =
      print_segments init_buffer (suc counter) total' (after ++ new_log total' ∷ []) segments in
    (printed ++ later, final)

-- All that a stream of the segments prints: the last call, of `Stream`, is at the start position of the
-- last segment, after the initial buffer.
unfoldable pub print_stream : ℕ → List (ℕ × ℕ) → List ℕ
unfolding print_segments
print_stream init_buffer segments =
    let (printed, logs) = print_segments init_buffer 0 0 [] segments in
    let end = start_of logs (length logs) + start_of logs init_buffer in
    printed ++ (print_play_out_log end init_buffer logs).0

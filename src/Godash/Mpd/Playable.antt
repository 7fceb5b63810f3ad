-- ===== src/Godash/Mpd/Playable.antt =====
-- getPlayableSegmentMPDindex and GetNextSegmentDuration of godash/http/mpdParsing.go. The durations of
-- the segments are those of the MPD files, in seconds; the other durations are in milliseconds.
pub mod Choice
use rlnc_streaming.Base.{
  ℕ, zero, suc, ◌+◌, ◌-◌, ◌*◌, ◌/◌, ◌%◌, ◌≤◌, ◌<◌, ◌≡◌, refl, ap, ◌∙◌, List, [], ◌∷◌, Bool, true,
  false, ◌&&◌, ◌||◌, ◌==◌, leb, length, if◌then◌else◌, arith,
}
use rlnc_streaming.Run.{Run, ok, panic, ◌>>=◌, load}

-- `x % d == 0`, a panic if d is 0
abbrev pub divides : ℕ → ℕ → Run Bool
divides d x = if d == 0 then panic else ok (x % d == 0)

-- The two lists with an index and a segment number in front.
abbrev pub prepend : ℕ → ℕ → List ℕ × List ℕ → List ℕ × List ℕ
prepend i n (indexes, numbers) = (i ∷ indexes, n ∷ numbers)

-- One round of the loop, before what the later rounds append.
abbrev pub usable_or : ℕ → ℕ → ℕ → ℕ → ℕ → List ℕ × List ℕ → Run (List ℕ × List ℕ)
usable_or i d last total stream later = do
  by_last ← divides (d * 1000) last
  by_total ← divides (d * 1000) total
  ok (
      if (by_last || by_total) && leb (total + d * 1000) stream
      then prepend i (total / (d * 1000) + 1) later
      else later)

-- The loop of getPlayableSegmentMPDindex from the MPD file `i` on.
unfoldable pub playable_from : ℕ → List ℕ → ℕ → ℕ → ℕ → Run (List ℕ × List ℕ)
playable_from i [] last total stream = ok ([], [])
playable_from i (d ∷ ds) last total stream = do
  later ← playable_from (suc i) ds last total stream
  usable_or i d last total stream later

-- getPlayableSegmentMPDindex
unfoldable pub get_playable_segment_mpd_index : List ℕ → ℕ → ℕ → ℕ → Run (List ℕ × List ℕ)
unfolding playable_from
get_playable_segment_mpd_index durations last total stream =
    playable_from 0 durations last total stream

-- `stopApp`, `mpdIndex` and `nextSegmentNumber`
pub record Next : Type 0 where
  pub stop : Bool
  pub mpd_index : ℕ
  pub segment_number : ℕ

-- The choice by a random number.
abbrev pub pick : ℕ → List ℕ × List ℕ → Run Next
pick random (indexes, numbers) =
    if length indexes == 0
    then ok (record { stop = true; mpd_index = 0; segment_number = 0 })
    else (do
      i ← load indexes (random % length indexes)
      n ← load numbers (random % length indexes)
      ok (record { stop = false; mpd_index = i; segment_number = n }))

-- GetNextSegmentDuration
unfoldable pub get_next_segment_duration : ℕ → List ℕ → ℕ → ℕ → ℕ → Run Next
unfolding get_playable_segment_mpd_index
get_next_segment_duration random durations last total stream =
    get_playable_segment_mpd_index durations last total stream >>= pick random

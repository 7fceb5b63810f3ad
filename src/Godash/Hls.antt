-- ===== src/Godash/Hls.antt =====
-- ChangeBufferLevels of godash/hlsfunc/hlsFunctions.go. The levels are those of the logs of the
-- segments from the first on, and there is a log for each segment below `segment_number`.
pub mod Between
use rlnc_streaming.Base.{
  ℕ, zero, suc, ◌+◌, ◌-◌, List, [], ◌∷◌, Bool, true, false, ◌&&◌, ltb, leb, if◌then◌else◌,
}
use rlnc_streaming.Godash.Int.{ℤ, pos, negsuc, difference, ◌+ℤ◌, opposite}

-- `levels[i] -= by`, nothing for an `i` that has no level
unfoldable pub lower : List ℤ → ℕ → ℤ → List ℤ
lower [] i by = []
lower (level ∷ levels) zero by = (level +ℤ opposite by) ∷ levels
lower (level ∷ levels) (suc i) by = level ∷ lower levels i by

-- The loop from the segment `number` on, for the segments that are left.
unfoldable pub lower_from : List ℤ → ℕ → ℕ → ℤ → List ℤ
lower_from levels number zero by = levels
lower_from levels number (suc rounds) by =
    lower_from (lower levels (number - 1) by) (suc number) rounds by

-- ChangeBufferLevels
unfoldable pub change_buffer_levels : List ℤ → ℕ → ℕ → ℤ → List ℤ
unfolding lower lower_from
change_buffer_levels levels segment_number chunk_replace by =
    lower_from levels (chunk_replace + 1) (segment_number - (chunk_replace + 1)) by

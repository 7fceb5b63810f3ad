-- ===== src/Godash/Qoe/Claye.antt =====
-- godash/qoe/claye.go: the estimate of Claeys, from the log of the last segment.
use rlnc_streaming.Base.{ℕ, ◌≡◌, refl, List, map, ltb, if◌then◌else◌}
use rlnc_streaming.Godash.Double.{Doubles}
use rlnc_streaming.Godash.Calc.{max_float}
use rlnc_streaming.Godash.Player.{Settings, Playback, SegmentLog}
use rlnc_streaming.Godash.Player.Stalls.{Reached, Reached-IsWithin}
use rlnc_streaming.Godash.Qoe.{of_signed}

-- `Mean` and `Variance` of gonum.org/v1/gonum/stat, and `math.Log` and `math.Sqrt`.
pub record Statistics (D : Type 0) : Type 0 where
  pub mean : List D → D
  pub variance : List D → D
  pub log : D → D
  pub sqrt : D → D

module _ {D : Type 0} (d : Doubles D) (s : Statistics D) where
  -- The average length of a stall, in 15 seconds, and 1 for a longer one.
  unfoldable pub stall_element : SegmentLog → D
  stall_element l =
      let average = d.over (of_signed d l.total_stall) (d.of_int l.stalls) in
      if d.below (d.of_int 15) average then d.of_int 1 else d.over average (d.of_int 15)

  -- The penalty for the stalls, for a log of `size` segments.
  unfoldable pub stall_penalty : SegmentLog → ℕ → D
  unfolding stall_element
  stall_penalty l size =
      let often = s.log (d.over (d.of_int l.stalls) (d.of_int size)) in
      if ltb 0 l.stalls
      then d.times (d.literal 495 100) (
          d.plus (d.times (d.literal 875 1000) (d.plus (d.of_int 1) (d.over often (d.of_int 6))))
            (d.times (d.literal 125 1000) (stall_element l)))
      else d.of_int 0

  -- `getClaye` for the last log, `maxRepRate` and the number of the segments.
  unfoldable pub get_claye : SegmentLog → ℕ → ℕ → D
  unfolding stall_penalty
  get_claye l max_rep_rate size =
      let rates = map d.of_int l.rates in
      let max_rate = d.of_int max_rep_rate in
      let rate_qoe = d.over (d.times (d.literal 567 100) (s.mean rates)) max_rate in
      let switching = d.over (d.times (d.literal 672 100) (s.sqrt (s.variance rates))) max_rate in
      max_float d (d.of_int 0)
        (d.minus (d.minus (d.plus (d.literal 17 100) rate_qoe) switching) (stall_penalty l size))

  -- Two streams of one segment or more, of the same rates, get the same estimate of Claeys, however often
  -- and however long each of them stalled.
  pub get_claye-blind :
      (c c' : Settings) (p p' : Playback) (l l' : SegmentLog) (max_rep_rate size : ℕ)
      → Reached c p l
      → Reached c' p' l'
      → l.rates ≡ l'.rates
      → get_claye l max_rep_rate size ≡ get_claye l' max_rep_rate size
  unfolding get_claye stall_penalty
  get_claye-blind c c' p p' l l' max_rep_rate size r r' e =
      rw (e, (Reached-IsWithin c p l r).1, (Reached-IsWithin c' p' l' r').1) refl

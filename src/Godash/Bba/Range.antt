-- ===== src/Godash/Bba/Range.antt =====
-- godash/algorithms/bba2.go: the indices that it returns.
use rlnc_streaming.Base.{
  ℕ, ◌+◌, ◌-◌, ◌*◌, ◌/◌, ◌≤◌, ◌<◌, ◌≡◌, ◌⊎◌, inl, inr, refl, List, [], ◌∷◌, ◌++◌, Bool, true, false,
  ltb, if◌then◌else◌, length, arith, Bool-cases,
}
use rlnc_streaming.Run.{Run, ok, ◌>>=◌, load-ok, Returns, returns, Returns-bind, divide-ok}
use rlnc_streaming.Godash.Double.{Doubles}
use rlnc_streaming.Godash.Rates.{select_rep_rate}
use rlnc_streaming.Godash.Logistic.{lowest_bitrate, highest_bitrate}
use rlnc_streaming.Godash.Logistic.Range.{
  select_rep_rate-bound, IsAfterFirst, settle_index-IsAfterFirst,
}
use rlnc_streaming.Godash.Bba.{
  update_reservoir, vraa_rate, vraa, below_reservoir, above_reservoir, index_for,
  selected_index_bba,
}

-- An index of the list; not the best one if the download took longer than the segment plays.
abbrev pub IsChoice : ℕ → ℕ → ℕ → ℕ → Type 0
IsChoice lowest last_duration download_time r =
    (r ≤ lowest) × (last_duration < download_time → 0 < r)

module _ {D : Type 0} (d : Doubles D) (size : ℕ → ℕ) (highest lowest : ℕ) (bandwidths : List ℕ)
    (last_index : lowest + 1 ≡ length bandwidths) (several : 0 < lowest) where
  vraa-IsAfterFirst :
      (last buffer max_buffer reservoir : ℕ)
      → last ≤ lowest
      → Returns
          (IsAfterFirst lowest)
          (vraa d last buffer highest lowest max_buffer bandwidths reservoir)
  unfolding vraa lowest_bitrate highest_bitrate
  vraa-IsAfterFirst last buffer max_buffer reservoir l =
      Returns-bind {P = λ opt. opt ≤ lowest} (chosen (Bool-cases full))
        λ opt bound. returns (settle_index-IsAfterFirst opt last highest lowest bound l several)
    where
      full : Bool
      full = d.at_most (d.times (d.literal 9 10) (d.of_int max_buffer)) (d.of_int (buffer / 1000))

      selected : Run ℕ
      selected = do
        low ← lowest_bitrate bandwidths
        high ← highest_bitrate bandwidths
        let target = vraa_rate d low high max_buffer reservoir
        select_rep_rate (d.to_int (d.times (d.plus target (d.of_int 1)) (d.of_int 1000))) bandwidths
            lowest

      chosen :
          (full ≡ true) ⊎ (full ≡ false)
          → Returns (λ opt. opt ≤ lowest) (if full then ok 0 else selected)
      chosen (inl e) = rw e (returns (omega arith))
      chosen (inr e) =
          rw
            (
              e,
              load-ok bandwidths (length bandwidths - 1) 0 (omega arith),
              load-ok bandwidths 0 0 (omega arith),
            )
            (select_rep_rate-bound _ bandwidths lowest last_index)

  below_reservoir-IsChoice :
      (download_time last_duration last : ℕ)
      → last ≤ lowest
      → IsChoice lowest last_duration download_time (
          below_reservoir d
            (ltb last_duration download_time)
            download_time
            last_duration
            last
            bandwidths)
  unfolding below_reservoir
  below_reservoir-IsChoice download_time last_duration last l = ground arith

  above_reservoir-IsChoice :
      (download_time last_duration last r : ℕ)
      → last ≤ lowest
      → IsAfterFirst lowest r
      → IsChoice lowest last_duration download_time (
          above_reservoir d
            (ltb last_duration download_time)
            download_time
            last_duration
            last
            bandwidths
            r)
  unfolding above_reservoir
  above_reservoir-IsChoice download_time last_duration last r l (pos, bound) = ground arith

  index_for-IsChoice :
      (last_duration max_buffer last download_time buffer reservoir : ℕ)
      → last ≤ lowest
      → Returns (IsChoice lowest last_duration download_time) (
          index_for d last_duration max_buffer last download_time buffer highest lowest bandwidths
            reservoir)
  unfolding index_for
  index_for-IsChoice last_duration max_buffer last download_time buffer reservoir l =
      elim (Bool-cases (ltb buffer reservoir)) [
        | inl e ↦ rw e (returns (below_reservoir-IsChoice download_time last_duration last l))
        | inr e ↦ rw e (
            Returns-bind (vraa-IsAfterFirst last buffer max_buffer reservoir l)
              λ r w. returns (above_reservoir-IsChoice download_time last_duration last r l w))
      ]

  -- If the lowest index is that of the last bandwidth, not the only one, and the last segment was
  -- requested at one of the indices and has a duration: `CalculateSelectedIndexBba` returns normally,
  -- whatever the lengths of the segments. It adds the new throughput to the others and returns an
  -- index of the list, which is not 0 if the download took longer than the segment plays.
  pub selected_index_bba-IsChoice :
      (thrs : List ℕ)
      (new last_duration index max_buffer last mpd_duration segment download_time buffer : ℕ)
      → 0 < last_duration
      → last ≤ lowest
      → Returns
          (λ (thrs', r). (thrs' ≡ thrs ++ new ∷ []) × IsChoice lowest last_duration download_time r)
          (selected_index_bba d size thrs new last_duration index max_buffer last mpd_duration
            segment download_time buffer highest lowest bandwidths)
  unfolding selected_index_bba update_reservoir
  selected_index_bba-IsChoice thrs new last_duration index max_buffer last mpd_duration segment
        download_time buffer h l =
      rw
        (
          divide-ok (2 * max_buffer * 1000) last_duration h,
          divide-ok mpd_duration last_duration h,
          load-ok bandwidths last 0 (omega arith),
        )
        (Returns-bind (index_for-IsChoice last_duration max_buffer last download_time buffer _ l)
          λ r c. returns (refl, c))

-- ===== src/Godash/Player/Choice.antt =====
-- godash/player/player.go: the index that the algorithms choose.
use rlnc_streaming.Base.{
  Bool-cases, [], ◌∷◌, ◌++◌, ℕ, ◌+◌, ◌*◌, ◌≤◌, ◌<◌, ◌≡◌, inl, inr, none, length, arith, List, ltb,
  if◌then◌else◌,
}
use rlnc_streaming.Run.{ok, ◌>>=◌, Returns, returns, Returns-bind}
use rlnc_streaming.Godash.Double.{Doubles}
use rlnc_streaming.Godash.Averages.{
  conventional, mean_average_algo, geom_average_algo, emwa_average_algo, elastic_algo, mean_average,
  geom_average, exp_average,
}
use rlnc_streaming.Godash.Rates.{select_rep_rate}
use rlnc_streaming.Godash.Logistic.{logistic}
use rlnc_streaming.Godash.Logistic.Range.{select_rep_rate-bound, logistic_function-IsAfterFirst}
use rlnc_streaming.Godash.Bba.Range.{selected_index_bba-IsChoice}
use rlnc_streaming.Godash.Arbiter.Search.{selected_index_arbiter-bounds}
use rlnc_streaming.Godash.Player.{Adapt, Choosing, Reading, choose_rate}

-- What the theorem asks of the stream: the lowest index is that of the last bandwidth, not the only one,
-- a segment has a duration, and the segment lengths are those that the server answers.
pub record IsPlayable {D : Type 0} (x : Reading D) : Type 0 where
  pub lowest_last : x.lowest + 1 ≡ length x.bandwidths
  pub several : 0 < x.lowest
  pub timed : 0 < x.segment_duration
  pub online : x.table ≡ none

module _ {D : Type 0} (d : Doubles D) (x : Reading D) (playable : IsPlayable x) where
  chosen : (thr : ℕ) → Returns (λ r. r ≤ x.lowest) (select_rep_rate thr x.bandwidths x.lowest)
  chosen thr = select_rep_rate-bound thr x.bandwidths x.lowest playable.lowest_last

  -- The choice of the algorithms that take an average once there are two throughputs.
  averaged :
      (all : List ℕ) (new average : ℕ)
      → Returns {V = List ℕ × ℕ}
          (λ t. t.1 ≤ x.lowest)
          ((if ltb (length all) 2
              then select_rep_rate new x.bandwidths x.lowest
              else select_rep_rate average x.bandwidths x.lowest)
            >>= (λ rate. ok (all, rate)))
  averaged all new average = elim (Bool-cases (ltb (length all) 2)) [
    | inl e ↦ rw e (Returns-bind (chosen new) λ r b. returns b)
    | inr e ↦ rw e (Returns-bind (chosen average) λ r b. returns b)
  ]

  -- For a stream whose lowest index is that of the last bandwidth, not the only one, whose segments
  -- have a duration and whose segment lengths are asked of the server: if the last index was one of
  -- the list of bandwidths, then each of the algorithms returns normally, and the index that it
  -- chooses is one of the list.
  pub choose_rate-bound :
      (alg : Adapt) (s : Choosing D)
      → s.rate ≤ x.lowest
      → Returns (λ s'. s'.rate ≤ x.lowest) (choose_rate d x alg s)
  unfolding choose_rate conventional elastic_algo mean_average_algo geom_average_algo
      emwa_average_algo logistic
  choose_rate-bound Adapt.conventional_alg s h =
      Returns-bind {P = λ t. t.2 ≤ x.lowest} (Returns-bind (chosen _) λ r b. returns b)
        λ (thr, thrs, r) b. returns b
  choose_rate-bound Adapt.elastic_alg s h =
      Returns-bind {P = λ t. t.2 ≤ x.lowest} (Returns-bind (chosen _) λ r b. returns b)
        λ (static, thrs, r) b. returns b
  choose_rate-bound Adapt.progressive_alg s h =
      Returns-bind {P = λ t. t.2 ≤ x.lowest} (Returns-bind (chosen _) λ r b. returns b)
        λ (thr, thrs, r) b. returns b
  choose_rate-bound Adapt.logistic_alg s h =
      Returns-bind {P = λ t. t.1 ≤ x.lowest}
        (Returns-bind
          (logistic_function-IsAfterFirst d s.rate x.buffer x.highest x.lowest x.max_buffer_level
            x.bandwidths playable.lowest_last playable.several h)
          λ r b. returns b.1)
        λ (thrs, r) b. returns b
  choose_rate-bound Adapt.mean_average_alg s h =
      let all = s.thrs ++ x.new_thr ∷ [] in
      Returns-bind (averaged all x.new_thr (d.to_int (mean_average d all))) λ (thrs, r) b. returns b
  choose_rate-bound Adapt.geom_average_alg s h =
      let all = s.thrs ++ x.new_thr ∷ [] in
      Returns-bind (averaged all x.new_thr (d.to_int (geom_average d all))) λ (thrs, r) b. returns b
  choose_rate-bound Adapt.emwa_average_alg s h =
      let all = s.thrs ++ x.new_thr ∷ [] in
      Returns-bind (averaged all x.new_thr (d.to_int (exp_average d all x.ratio 3)))
        λ (thrs, r) b. returns b
  choose_rate-bound Adapt.arbiter_alg s h = rw playable.online (
      Returns-bind
        (selected_index_arbiter-bounds d x.size s.thrs x.new_thr (x.segment_duration * 1000)
          x.segment_number x.max_buffer_level s.rate x.stream_duration x.segment_number x.buffer
          x.lowest x.bandwidths playable.lowest_last (omega (arith, playable.timed)) h)
        λ (thrs, r) (e, b, near). returns b)
  choose_rate-bound Adapt.bba_alg s h =
      Returns-bind
        (selected_index_bba-IsChoice d (x.size s.rate) x.highest x.lowest x.bandwidths
          playable.lowest_last playable.several s.thrs x.new_thr (x.segment_duration * 1000)
          x.segment_number x.max_buffer_level s.rate x.stream_duration x.segment_number
          x.delivery_time x.buffer (omega (arith, playable.timed)) h)
        λ (thrs, r) (e, choice). returns choice.0
  choose_rate-bound Adapt.test_alg s h = returns h

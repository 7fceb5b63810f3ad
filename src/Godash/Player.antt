-- ===== src/Godash/Player.antt =====
-- godash/player/player.go: what `streamLoop` does with a segment after its download, for a stream of one
-- mime type and without the replacement of segments (hls). The times that the clock gives, the sizes and
-- the requests are arguments. The rates and their sums are whole numbers below 2^53.
pub mod Choice
pub mod Stalls
pub mod Logged
use rlnc_streaming.Base.{
  ℕ, zero, suc, ◌+◌, ◌-◌, ◌*◌, List, [], ◌∷◌, ◌++◌, Bool, true, false, ◌&&◌, Option, ◌==◌, ltb, leb,
  if◌then◌else◌,
}
use rlnc_streaming.Run.{Run, ok, ◌>>=◌}
use rlnc_streaming.Godash.Calc.{max_int}
use rlnc_streaming.Godash.Int.{ℤ, pos, negsuc, difference, ◌+ℤ◌, is_positive}
use rlnc_streaming.Godash.Double.{Doubles}
use rlnc_streaming.Godash.Averages.{
  conventional, mean_average_algo, geom_average_algo, emwa_average_algo, elastic_algo,
}
use rlnc_streaming.Godash.Logistic.{logistic}
use rlnc_streaming.Godash.Bba.{selected_index_bba}
use rlnc_streaming.Godash.Arbiter.{selected_index_arbiter}

-- The settings of a stream: `initBuffer`, `maxBuffer` and `extendPrintLog`.
pub record Settings : Type 0 where
  pub init_buffer : ℕ
  pub max_buffer : ℕ
  pub extended : Bool

-- `bufferLevel`, `waitToPlayCounter`, `stallTime`, `segmentDurationTotal` and `playPosition`
pub record Playback : Type 0 where
  pub level : ℕ
  pub counter : ℕ
  pub stall : ℤ
  pub total : ℕ
  pub position : ℤ

abbrev pub fresh : Playback
fresh = record { level = 0; counter = 0; stall = pos 0; total = 0; position = pos 0 }

-- The buffer after a segment of `duration` seconds whose download took `run_time` milliseconds.
unfoldable pub filled : Settings → ℕ → ℕ → Playback → ℕ
filled c duration run_time s =
    if leb c.init_buffer s.counter
    then max_int (s.level - run_time) 0 + duration * 1000
    else s.level + duration * 1000

-- The buffer after the sleep.
unfoldable pub capped : Settings → ℕ → ℕ
capped c level =
    if ltb (c.max_buffer * 1000) level then level - (level - c.max_buffer * 1000) else level

-- The player after such a segment.
unfoldable pub play_segment : Settings → ℕ → ℕ → Playback → Playback
play_segment c duration run_time s =
    let level = capped c (filled c duration run_time s) in
    let total = s.total + duration * 1000 in
    let stall = if leb run_time s.level then pos 0 else difference s.level run_time in
    record {
      level = level;
      counter = s.counter + 1;
      stall = if leb c.init_buffer s.counter then stall else s.stall;
      total = total;
      position =
          if c.extended && ltb c.init_buffer (s.counter + 1)
          then difference total level
          else s.position;
    }

-- What the log keeps of a segment for the estimates of quality.
pub record SegmentLog : Type 0 where
  pub stall : ℤ
  pub bandwidth : ℕ
  pub rates : List ℕ
  pub sum_rates : ℕ
  pub total_stall : ℤ
  pub stalls : ℕ
  pub switches : ℕ
  pub rate_difference : ℕ
  pub sum_changes : ℕ
  pub changes : List ℕ

-- The log of the first segment.
unfoldable pub first_log : ℤ → ℕ → SegmentLog
first_log stall bandwidth = record {
  stall = stall;
  bandwidth = bandwidth;
  rates = bandwidth ∷ [];
  sum_rates = bandwidth;
  total_stall = stall;
  stalls = if is_positive stall then 1 else 0;
  switches = 0;
  rate_difference = 0;
  sum_changes = 0;
  changes = [];
}

-- The log of a later segment, from that of the segment before.
unfoldable pub next_log : SegmentLog → ℤ → ℕ → SegmentLog
next_log l stall bandwidth =
    let change = (bandwidth - l.bandwidth) + (l.bandwidth - bandwidth) in
    record {
      stall = stall;
      bandwidth = bandwidth;
      rates = l.rates ++ bandwidth ∷ [];
      sum_rates = l.sum_rates + bandwidth;
      total_stall = l.stall +ℤ stall;
      stalls = if is_positive stall then l.stalls + 1 else l.stalls;
      switches = if bandwidth == l.bandwidth then l.switches else l.switches + 1;
      rate_difference = change;
      sum_changes = l.sum_changes + change;
      changes = l.changes ++ change ∷ [];
    }

-- `adapt`, by the constants of godash/global/globalVar.go
pub data Adapt : Type 0 where
  conventional_alg elastic_alg progressive_alg logistic_alg mean_average_alg : Adapt
  geom_average_alg emwa_average_alg arbiter_alg bba_alg test_alg : Adapt

-- What the algorithms change: `thr` and `thrList`, `staticAlgParameter` and `repRate`.
pub record Choosing (D : Type 0) : Type 0 where
  pub thr : Option ℕ
  pub thrs : List ℕ
  pub static : D
  pub rate : ℕ

-- What they read. `size` and `table` are as in the module Arbiter.
pub record Reading (D : Type 0) : Type 0 where
  pub new_thr : ℕ
  pub delivery_time : ℕ
  pub buffer : ℕ
  pub max_buffer : ℕ
  pub max_buffer_level : ℕ
  pub bandwidths : List ℕ
  pub highest : ℕ
  pub lowest : ℕ
  pub segment_duration : ℕ
  pub segment_number : ℕ
  pub stream_duration : ℕ
  pub kp : D
  pub ki : D
  pub ratio : D
  pub size : ℕ → ℕ → ℕ
  pub table : Option (List (List ℕ))

module _ {D : Type 0} (d : Doubles D) where
  -- The last `switch adapt` of `streamLoop`.
  unfoldable pub choose_rate : Reading D → Adapt → Choosing D → Run (Choosing D)
  choose_rate x conventional_alg s = do
    (thr, thrs, rate) ← conventional s.thr s.thrs x.new_thr x.bandwidths x.lowest
    ok (record s { thr = thr; thrs = thrs; rate = rate })
  choose_rate x elastic_alg s = do
    (static, thrs, rate) ←
        elastic_algo d s.thrs x.new_thr x.delivery_time x.max_buffer x.bandwidths s.static x.buffer
          x.kp x.ki x.lowest
    ok (record s { static = static; thrs = thrs; rate = rate })
  choose_rate x progressive_alg s = do
    (thr, thrs, rate) ← conventional s.thr s.thrs x.new_thr x.bandwidths x.lowest
    ok (record s { thr = thr; thrs = thrs; rate = rate })
  choose_rate x logistic_alg s = do
    (thrs, rate) ←
        logistic d s.thrs x.new_thr s.rate x.bandwidths x.buffer x.highest x.lowest
          x.max_buffer_level
    ok (record s { thrs = thrs; rate = rate })
  choose_rate x mean_average_alg s = do
    (thrs, rate) ← mean_average_algo d s.thrs x.new_thr x.bandwidths x.lowest
    ok (record s { thrs = thrs; rate = rate })
  choose_rate x geom_average_alg s = do
    (thrs, rate) ← geom_average_algo d s.thrs x.new_thr x.bandwidths x.lowest
    ok (record s { thrs = thrs; rate = rate })
  choose_rate x emwa_average_alg s = do
    (thrs, rate) ← emwa_average_algo d x.ratio 3 s.thrs x.new_thr x.bandwidths x.lowest
    ok (record s { thrs = thrs; rate = rate })
  choose_rate x arbiter_alg s = do
    (thrs, rate) ←
        selected_index_arbiter d x.size x.table s.thrs x.new_thr (x.segment_duration * 1000)
          x.segment_number x.max_buffer_level s.rate x.stream_duration x.segment_number x.buffer
          x.lowest x.bandwidths
    ok (record s { thrs = thrs; rate = rate })
  choose_rate x bba_alg s = do
    (thrs, rate) ←
        selected_index_bba d (x.size s.rate) s.thrs x.new_thr (x.segment_duration * 1000)
          x.segment_number x.max_buffer_level s.rate x.stream_duration x.segment_number
          x.delivery_time x.buffer x.highest x.lowest x.bandwidths
    ok (record s { thrs = thrs; rate = rate })
  choose_rate x test_alg s = ok s

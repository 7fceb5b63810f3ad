-- ===== src/Godash/Player/Stalls.antt =====
-- godash/player/player.go: the buffer, the position and the stalls of a stream.
use rlnc_streaming.Base.{
  ℕ, ◌+◌, ◌-◌, ◌*◌, ◌≤◌, ◌<◌, ◌≡◌, refl, Bool, true, false, ltb, leb, ◌&&◌, if◌then◌else◌, arith,
  leb-false, le→leb,
}
use rlnc_streaming.Godash.Int.{ℤ, difference, is_positive}
use rlnc_streaming.Godash.Player.{
  Settings, Playback, fresh, filled, capped, play_segment, SegmentLog, first_log, next_log,
}

-- The player and its last log, after one segment or more, each of any duration, download time and
-- bandwidth.
pub data Reached (c : Settings) : Playback → SegmentLog → Type 0 where
  first :
      (duration run_time bandwidth : ℕ)
      → Reached c
          (play_segment c duration run_time fresh)
          (first_log (play_segment c duration run_time fresh).stall bandwidth)
  next :
      (s : Playback) (l : SegmentLog) (duration run_time bandwidth : ℕ)
      → Reached c s l
      → Reached c
          (play_segment c duration run_time s)
          (next_log l (play_segment c duration run_time s).stall bandwidth)

abbrev pub IsNotPositive : ℤ → Type 0
IsNotPositive x = is_positive x ≡ false

-- The buffer is within its limit and within what was downloaded, and no stall is counted.
pub record IsWithin (c : Settings) (s : Playback) : Type 0 where
  pub limit : s.level ≤ c.max_buffer * 1000
  pub downloaded : s.level ≤ s.total
  pub played : (p : ℕ) × (s.position ≡ ℤ.pos p)
  pub no_stall : IsNotPositive s.stall

difference-IsNotPositive : (a b : ℕ) → a < b → IsNotPositive (difference a b)
difference-IsNotPositive a b h = rw (leb-false b a h) refl

either {ℓ} :
    {A : Type ℓ} (P : A → Type 0) (test : Bool) (x y : A)
    → (test ≡ true → P x)
    → (test ≡ false → P y)
    → P (if test then x else y)
either P true x y f h = f refl
either P false x y f h = h refl

capped_bounds :
    (c : Settings) (level : ℕ) → (capped c level ≤ c.max_buffer * 1000) × (capped c level ≤ level)
unfolding capped
capped_bounds c level = (ground arith, ground arith)

filled_bound :
    (c : Settings) (duration run_time : ℕ) (s : Playback)
    → filled c duration run_time s ≤ s.level + duration * 1000
unfolding filled
filled_bound c duration run_time s = ground arith

play_segment-IsWithin :
    (c : Settings) (duration run_time : ℕ) (s : Playback)
    → s.level ≤ s.total
    → (p : ℕ) × (s.position ≡ ℤ.pos p)
    → IsNotPositive s.stall
    → IsWithin c (play_segment c duration run_time s)
unfolding play_segment
play_segment-IsWithin c duration run_time s h p stall =
    let level = capped c (filled c duration run_time s) in
    let (limit, cut) = capped_bounds c (filled c duration run_time s) in
    let down : level ≤ s.total + duration * 1000 =
      omega (arith, cut, filled_bound c duration run_time s) in
    record {
      limit = limit;
      downloaded = down;
      played =
          either (λ x. (p : ℕ) × (x ≡ ℤ.pos p)) (c.extended && ltb c.init_buffer (s.counter + 1)) _
            _
            (λ e. (
              s.total + duration * 1000 - level,
              rw (le→leb level (s.total + duration * 1000) down) refl,
            ))
            (λ e. p);
      no_stall =
          either IsNotPositive (leb c.init_buffer s.counter) _ _
            (λ e.
              either IsNotPositive (leb run_time s.level) _ _ (λ q. refl)
                (λ q. difference-IsNotPositive s.level run_time (ground (arith, q))))
            (λ e. stall);
    }

-- After any segments, one or more, of any durations, download times and bandwidths: the buffer holds at
-- most its maximum and at most what was downloaded, the playback position is not negative, and the log
-- counts no stall, whatever the download times were.
pub Reached-IsWithin :
    (c : Settings) (s : Playback) (l : SegmentLog) → Reached c s l → IsWithin c s × (l.stalls ≡ 0)
unfolding first_log next_log
Reached-IsWithin c s l (first duration run_time bandwidth) =
    let within = play_segment-IsWithin c duration run_time fresh (omega arith) (0, refl) refl in
    (within, rw within.no_stall refl)
Reached-IsWithin c s l (next s0 l0 duration run_time bandwidth r) =
    let (within0, none_yet) = Reached-IsWithin c s0 l0 r in
    let within =
      play_segment-IsWithin c duration run_time s0 within0.downloaded within0.played
        within0.no_stall in
    (within, rw within.no_stall none_yet)

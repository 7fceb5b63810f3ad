-- ===== src/Godash/PlayOut/Whole.antt =====
-- What streamLoop and Stream of godash/player/player.go print of a stream.
use rlnc_streaming.Base.{
  ℕ, zero, suc, ◌+◌, ◌-◌, ◌*◌, ◌<◌, ◌≤◌, ◌≡◌, length, refl, ap, ◌∙◌, List, [], ◌∷◌, ◌++◌, Bool,
  true, false, ◌&&◌, leb, ltb, if◌then◌else◌, arith, Bool-cases, inl, inr, ◌⊎◌,
}
use rlnc_streaming.Godash.PlayOut.{
  PlayLog, start_of, is_due, print_play_out_log, print_segments, new_log, print_stream,
}
use rlnc_streaming.Godash.PlayOut.Once.{count, count-append, count_before}
use rlnc_streaming.Godash.PlayOut.Calls.{
  future, call_printed, call_unknown, call_if, called_length, called_unknown, length-snoc,
  final_start,
}
use rlnc_streaming.Godash.PlayOut.Marked.{downloaded-Counted}

-- The start positions do not pass the last one.
last_start : ℕ → List (ℕ × ℕ) → ℕ
last_start total [] = total
last_start total ((arrival, duration) ∷ segments) = last_start (total + duration * 1000) segments

last_start-le : (total : ℕ) (segments : List (ℕ × ℕ)) → total ≤ last_start total segments
unfolding last_start
last_start-le total [] = omega arith
last_start-le total ((arrival, duration) ∷ segments) =
    omega (arith, last_start-le (total + duration * 1000) segments)

future-le :
    (total : ℕ) (segments : List (ℕ × ℕ)) (i : ℕ)
    → start_of (future total segments) i ≤ last_start total segments
unfolding start_of future last_start
future-le total segments zero = omega arith
future-le total [] (suc i) = omega arith
future-le total ((arrival, duration) ∷ segments) (suc zero) =
    last_start-le (total + duration * 1000) segments
future-le total ((arrival, duration) ∷ segments) (suc (suc i)) =
    future-le (total + duration * 1000) segments (suc i)

future-last :
    (total j : ℕ) (segments : List (ℕ × ℕ))
    → length segments ≡ suc j
    → start_of (future total segments) (suc j) ≡ last_start total segments
unfolding start_of future last_start
future-last total j [] h = absurd (omega arith)
future-last total zero ((arrival, duration) ∷ []) h = refl
future-last total zero ((arrival, duration) ∷ s ∷ segments) h = absurd (omega arith)
future-last total (suc j) ((arrival, duration) ∷ segments) h =
    future-last (total + duration * 1000) j segments (omega (arith, h))

final_length :
    (init_buffer counter total : ℕ) (logs : List PlayLog) (segments : List (ℕ × ℕ))
    → length (print_segments init_buffer counter total logs segments).1
      ≡ length logs + length segments
unfolding print_segments
final_length init_buffer counter total logs [] = omega arith
final_length init_buffer counter total logs ((arrival, duration) ∷ segments) =
    let now = call_if (leb init_buffer counter) arrival init_buffer logs in
    final_length init_buffer (suc counter) (total + duration * 1000)
      (now.1 ++ new_log (total + duration * 1000) ∷ []) segments
    ∙ omega (
      arith,
      length-snoc now.1 (new_log (total + duration * 1000)),
      called_length (leb init_buffer counter) arrival init_buffer logs,
    )

-- A number that is not that of a segment is never printed.
called_zero :
    (waits : Bool) (arrival init_buffer : ℕ) (logs : List PlayLog)
    → count 0 (call_if waits arrival init_buffer logs).0 ≡ 0
unfolding count print_play_out_log
called_zero true arrival init_buffer logs =
    count_before arrival (start_of logs init_buffer) 0 1 0 logs (omega arith)
called_zero false arrival init_buffer logs = refl

zero_not_printed :
    (init_buffer counter total : ℕ) (logs : List PlayLog) (segments : List (ℕ × ℕ))
    → count 0 (print_segments init_buffer counter total logs segments).0 ≡ 0
unfolding print_segments count
zero_not_printed init_buffer counter total logs [] = refl
zero_not_printed init_buffer counter total logs ((arrival, duration) ∷ segments) =
    let now = call_if (leb init_buffer counter) arrival init_buffer logs in
    count-append 0 now.0 _
    ∙ omega (
      arith,
      called_zero (leb init_buffer counter) arrival init_buffer logs,
      zero_not_printed init_buffer (suc counter) (total + duration * 1000)
          (now.1 ++ new_log (total + duration * 1000) ∷ []) segments,
    )

beyond_not_printed :
    (init_buffer counter total k : ℕ) (logs : List PlayLog) (segments : List (ℕ × ℕ))
    → length logs + length segments ≤ k
    → count (1 + k) (print_segments init_buffer counter total logs segments).0 ≡ 0
unfolding print_segments count
beyond_not_printed init_buffer counter total k logs [] h = refl
beyond_not_printed init_buffer counter total k logs ((arrival, duration) ∷ segments) h =
    let now = call_if (leb init_buffer counter) arrival init_buffer logs in
    count-append (1 + k) now.0 _
    ∙ omega (
      arith,
      called_unknown (leb init_buffer counter) arrival init_buffer k logs (omega (arith, h)),
      beyond_not_printed init_buffer (suc counter) (total + duration * 1000) k
          (now.1 ++ new_log (total + duration * 1000) ∷ []) segments
          (omega (
            arith,
            h,
            length-snoc now.1 (new_log (total + duration * 1000)),
            called_length (leb init_buffer counter) arrival init_buffer logs,
          )),
    )

-- The last call prints what is left.
last_call :
    (init_buffer end position : ℕ) (l : PlayLog) (printed : ℕ)
    → position ≤ end
    → printed + 0 ≡ (if l.played then 1 else 0)
    → printed + (if is_due (end + init_buffer) init_buffer position l then 1 else 0) ≡ 1
last_call init_buffer end position l printed h e = ground (arith, h, e)

module _ (init_buffer : ℕ) (segments : List (ℕ × ℕ)) where
  abbrev all_printed : List ℕ × List PlayLog
  all_printed = print_segments init_buffer 0 0 [] segments

  abbrev last_time : ℕ
  last_time = start_of all_printed.1 (length all_printed.1) + start_of all_printed.1 init_buffer

  -- No start position is behind that of the last segment.
  start-le :
      (j : ℕ)
      → j < length segments
      → start_of all_printed.1 j ≤ start_of all_printed.1 (length all_printed.1)
  start-le j h =
      let count : length all_printed.1 ≡ suc (length segments - 1) =
        final_length init_buffer 0 0 [] segments ∙ omega (arith, h) in
      let end : start_of all_printed.1 (length all_printed.1) ≡ last_start 0 segments =
        final_start init_buffer 0 0 [] segments (length all_printed.1)
        ∙ ap (λ n. start_of (future 0 segments) n) count
        ∙ future-last 0 (length segments - 1) segments (omega (arith, h)) in
      omega (arith, end, final_start init_buffer 0 0 [] segments j, future-le 0 segments j)

  printed_once :
      (j : ℕ) → j < length segments → count (1 + j) (print_stream init_buffer segments) ≡ 1
  unfolding print_stream
  printed_once j h =
      let c = downloaded-Counted init_buffer 0 0 j j [] segments (omega arith) h in
      count-append (1 + j) all_printed.0 _
      ∙ ap {A = ℕ} (λ n. count (1 + j) all_printed.0 + n)
          (call_printed last_time init_buffer all_printed.1 j c.log c.found)
      ∙ last_call (start_of all_printed.1 init_buffer)
          (start_of all_printed.1 (length all_printed.1)) (start_of all_printed.1 j) c.log
          (count (1 + j) all_printed.0) (start-le j h) c.counted

  not_printed :
      (k : ℕ) → length segments ≤ k → count (1 + k) (print_stream init_buffer segments) ≡ 0
  unfolding print_stream
  not_printed k h =
      count-append (1 + k) all_printed.0 _
      ∙ omega (
        arith,
        beyond_not_printed init_buffer 0 0 k [] segments (omega (arith, h)),
        call_unknown last_time init_buffer all_printed.1 k
            (omega (arith, h, final_length init_buffer 0 0 [] segments)),
      )

  zero_never : count 0 (print_stream init_buffer segments) ≡ 0
  unfolding print_stream
  zero_never =
      count-append 0 all_printed.0 _
      ∙ omega (
        arith,
        zero_not_printed init_buffer 0 0 [] segments,
        called_zero true last_time init_buffer all_printed.1,
      )

  -- The numbers of the segments are printed once each, and no other number, whatever the arrival times
  -- and the durations of the segments and the number of segments that wait at first.
  pub print_stream-once :
      (n : ℕ)
      → count n (print_stream init_buffer segments)
        ≡ (if ltb 0 n && leb n (length segments) then 1 else 0)
  print_stream-once zero = zero_never
  print_stream-once (suc j) =
      let numbered : suc j ≡ 1 + j = omega arith in
      ap (λ n. count n (print_stream init_buffer segments)) numbered
      ∙ cases (Bool-cases (leb (suc j) (length segments)))
    where
      cases :
          (leb (suc j) (length segments) ≡ true) ⊎ (leb (suc j) (length segments) ≡ false)
          → count (1 + j) (print_stream init_buffer segments)
            ≡ (if ltb 0 (suc j) && leb (suc j) (length segments) then 1 else 0)
      cases (inl e) = ground (arith, e, printed_once j (ground (arith, e)))
      cases (inr e) = ground (arith, e, not_printed j (ground (arith, e)))

-- ===== src/Godash/PlayOut/Times.antt =====
-- When streamLoop of godash/player/player.go prints a segment.
use rlnc_streaming.Base.{
  ℕ, zero, suc, ◌+◌, ◌-◌, ◌*◌, ◌<◌, ◌≤◌, ◌≡◌, length, refl, sym, ap, ap₂, ◌∙◌, List, [], ◌∷◌, ◌++◌,
  some, get_elem?, map, drop, Bool, true, false, ◌&&◌, not, leb, if◌then◌else◌, arith, subst,
}
use rlnc_streaming.Godash.Calc.{max_int}
use rlnc_streaming.Godash.PlayOut.{
  PlayLog, start_of, is_due, mark, print_play_out_log, print_segments, new_log,
}
use rlnc_streaming.Godash.PlayOut.Once.{
  count, count-append, is_reached, now_or_later, start_of-append, get_elem?-append, get_elem?-last,
  mark-played,
}
use rlnc_streaming.Godash.PlayOut.Calls.{
  future, get_elem?-inside, call_printed, call_marked, call_length, call_if, called_length,
  called_unknown, length-snoc, round_start,
}

-- The arrival times of segments.
abbrev pub arrivals : List (ℕ × ℕ) → List ℕ
arrivals = map (λ segment. segment.0)

-- 1 for a log that is not marked and whose segment one of the times reaches.
abbrev once : List ℕ → ℕ → PlayLog → ℕ
once times due l = if is_reached times due && not l.played then 1 else 0

-- One call, and the calls after it.
now_and_later :
    (time delay position : ℕ) (l : PlayLog) (times : List ℕ) (now later : ℕ)
    → now ≡ (if is_due time delay position l then 1 else 0)
    → later ≡ once times (position + delay) (mark (is_due time delay position l) l)
    → now + later ≡ once (time ∷ times) (position + delay) l
unfolding is_reached
now_and_later time delay position l times now later e f =
    ap₂ {A = ℕ} {B = ℕ} (λ x y. x + y) e
      (f
        ∙ ap (λ p. if is_reached times (position + delay) && not p then 1 else 0)
            (mark-played (is_due time delay position l) l))
    ∙ now_or_later (leb (position + delay) time) (is_reached times (position + delay)) l.played

-- A log that is there is printed if a call that is made later reaches it.
logged_times :
    (init_buffer counter total k position delay : ℕ) (logs : List PlayLog) (l : PlayLog)
    (segments : List (ℕ × ℕ))
    → counter ≡ length logs
    → get_elem? logs k ≡ some l
    → start_of (logs ++ future total segments) k ≡ position
    → start_of (logs ++ future total segments) init_buffer ≡ delay
    → count (1 + k) (print_segments init_buffer counter total logs segments).0
      ≡ once (arrivals (drop (init_buffer - counter) segments)) (position + delay) l
unfolding print_segments count is_reached future
logged_times init_buffer counter total k position delay logs l [] e at p d =
    ap (λ ss. once (arrivals ss) (position + delay) l) (sym (drop_nothing (init_buffer - counter)))
  where
    drop_nothing : (n : ℕ) → drop {A = ℕ × ℕ} n [] ≡ []
    drop_nothing zero = refl
    drop_nothing (suc n) = refl
logged_times init_buffer counter total k position delay logs l ((arrival, duration) ∷ segments) e at
      p d =
    go (leb init_buffer counter) refl (λ logs' l'.
      logged_times init_buffer (suc counter) (total + duration * 1000) k position delay logs' l'
        segments)
  where
    total' : ℕ
    total' = total + duration * 1000

    go :
        (waits : Bool)
        → leb init_buffer counter ≡ waits
        → ((logs' : List PlayLog) (l' : PlayLog)
            → suc counter ≡ length logs'
            → get_elem? logs' k ≡ some l'
            → start_of (logs' ++ future total' segments) k ≡ position
            → start_of (logs' ++ future total' segments) init_buffer ≡ delay
            → count (1 + k) (print_segments init_buffer (suc counter) total' logs' segments).0
              ≡ once (arrivals (drop (init_buffer - suc counter) segments)) (position + delay) l')
        → count (1 + k) (
            (call_if waits arrival init_buffer logs).0
            ++ (print_segments init_buffer
                (suc counter)
                total'
                ((call_if waits arrival init_buffer logs).1 ++ new_log total' ∷ [])
                segments).0)
          ≡ once
              (arrivals (drop (init_buffer - counter) ((arrival, duration) ∷ segments)))
              (position + delay)
              l
    go true waits ih =
        let now = print_play_out_log arrival init_buffer logs in
        let due = is_due arrival delay position l in
        let ready : init_buffer ≤ length logs = ground (arith, waits, e) in
        let pk : start_of logs k ≡ position =
          sym (start_of-append logs _ k (omega (arith, get_elem?-inside logs k l at))) ∙ p in
        let pd : start_of logs init_buffer ≡ delay =
          sym (start_of-append logs _ init_buffer ready) ∙ d in
        let marked : get_elem? now.1 k ≡ some (mark due l) =
          call_marked arrival init_buffer logs k l at
          ∙ ap₂ (λ wait start. some (mark (is_due arrival wait start l) l)) pd pk in
        let done : init_buffer - counter ≡ 0 = omega (arith, ready, e) in
        let done' : init_buffer - suc counter ≡ 0 = omega (arith, ready, e) in
        count-append (1 + k) now.0 _
        ∙ now_and_later arrival delay position l (arrivals segments) _ _
            (call_printed arrival init_buffer logs k l at
              ∙ ap₂ (λ wait start. if is_due arrival wait start l then 1 else 0) pd pk)
            (ih (now.1 ++ new_log total' ∷ []) (mark due l)
                (omega (
                  arith,
                  e,
                  length-snoc now.1 (new_log total'),
                  call_length arrival init_buffer logs,
                ))
                (get_elem?-append now.1 (new_log total' ∷ []) k (mark due l) marked)
                (round_start true arrival init_buffer total' logs segments k ∙ p)
                (round_start true arrival init_buffer total' logs segments init_buffer ∙ d)
              ∙ ap (λ n. once (arrivals (drop n segments)) (position + delay) (mark due l)) done')
        ∙ ap (λ n. once (arrivals (drop n ((arrival, duration) ∷ segments))) (position + delay) l)
            (sym done)
    go false early ih =
        let wait : init_buffer - counter ≡ suc (init_buffer - suc counter) =
          ground (arith, early) in
        ih (logs ++ new_log total' ∷ []) l (omega (arith, e, length-snoc logs (new_log total')))
          (get_elem?-append logs (new_log total' ∷ []) k l at)
          (round_start false arrival init_buffer total' logs segments k ∙ p)
          (round_start false arrival init_buffer total' logs segments init_buffer ∙ d)
        ∙ ap (λ n. once (arrivals (drop n ((arrival, duration) ∷ segments))) (position + delay) l)
            (sym wait)

only_later : (now later x : ℕ) → now ≡ 0 → later ≡ x → now + later ≡ x
only_later now later x none e = omega (arith, none, e)

-- The same for a segment that is downloaded later.
downloaded_times :
    (init_buffer counter total k j position delay : ℕ) (logs : List PlayLog)
    (segments : List (ℕ × ℕ))
    → counter ≡ length logs
    → k ≡ length logs + j
    → j < length segments
    → start_of (logs ++ future total segments) k ≡ position
    → start_of (logs ++ future total segments) init_buffer ≡ delay
    → count (1 + k) (print_segments init_buffer counter total logs segments).0 ≡ (
        if is_reached
          (arrivals (drop (max_int (suc j) (init_buffer - counter)) segments))
          (position + delay)
        then 1
        else 0)
unfolding print_segments future
downloaded_times init_buffer counter total k j position delay logs [] e at h p d =
    absurd (omega arith)
downloaded_times init_buffer counter total k zero position delay logs
      ((arrival, duration) ∷ segments) e at h p d =
    let waits = leb init_buffer counter in
    let total' = total + duration * 1000 in
    let now = call_if waits arrival init_buffer logs in
    let there : length now.1 ≡ k =
      called_length waits arrival init_buffer logs ∙ omega (arith, at) in
    let from : max_int (suc zero) (init_buffer - counter) ≡ suc (init_buffer - suc counter) =
      ground arith in
    count-append (1 + k) now.0 _
    ∙ only_later _ _ _ (called_unknown waits arrival init_buffer k logs (omega (arith, at))) (
        logged_times init_buffer (suc counter) total' k position delay
          (now.1 ++ new_log total' ∷ []) (new_log total') segments
          (omega (arith, e, at, there, length-snoc now.1 (new_log total')))
          (subst (λ n. get_elem? (now.1 ++ new_log total' ∷ []) n ≡ some (new_log total')) there
            (get_elem?-last now.1 (new_log total')))
          (round_start waits arrival init_buffer total' logs segments k ∙ p)
          (round_start waits arrival init_buffer total' logs segments init_buffer ∙ d)
        ∙ fresh_log _)
    ∙ ap {B = ℕ}
        (λ n.
          if is_reached (arrivals (drop n ((arrival, duration) ∷ segments))) (position + delay)
          then 1
          else 0)
        (sym from)
  where
    fresh_log : (test : Bool) → ◌≡◌ {A = ℕ} (if test && true then 1 else 0) (if test then 1 else 0)
    fresh_log true = refl
    fresh_log false = refl
downloaded_times init_buffer counter total k (suc j) position delay logs
      ((arrival, duration) ∷ segments) e at h p d =
    let waits = leb init_buffer counter in
    let total' = total + duration * 1000 in
    let now = call_if waits arrival init_buffer logs in
    let longer : length (now.1 ++ new_log total' ∷ []) ≡ suc (length logs) =
      length-snoc now.1 (new_log total')
      ∙ omega (arith, called_length waits arrival init_buffer logs) in
    let from : max_int (suc (suc j)) (init_buffer - counter)
        ≡ suc (max_int (suc j) (init_buffer - suc counter)) =
      ground arith in
    count-append (1 + k) now.0 _
    ∙ only_later _ _ _ (called_unknown waits arrival init_buffer k logs (omega (arith, at))) (
        downloaded_times init_buffer (suc counter) total' k j position delay
          (now.1 ++ new_log total' ∷ []) segments (omega (arith, e, longer))
          (omega (arith, at, longer)) (omega (arith, h))
          (round_start waits arrival init_buffer total' logs segments k ∙ p)
          (round_start waits arrival init_buffer total' logs segments init_buffer ∙ d))
    ∙ ap {B = ℕ}
        (λ n.
          if is_reached (arrivals (drop n ((arrival, duration) ∷ segments))) (position + delay)
          then 1
          else 0)
        (sym from)

-- While a stream goes on, the segment with the number 1 + j is printed once if one of the calls behind its
-- download is not before its start position and that of the initial buffer, and otherwise not at all.
pub print_segments-count :
    (init_buffer j : ℕ) (segments : List (ℕ × ℕ))
    → j < length segments
    → count (1 + j) (print_segments init_buffer 0 0 [] segments).0 ≡ (
        if is_reached
          (arrivals (drop (max_int (suc j) init_buffer) segments))
          (start_of (future 0 segments) j + start_of (future 0 segments) init_buffer)
        then 1
        else 0)
print_segments-count init_buffer j segments h =
    let none_waits : init_buffer - 0 ≡ init_buffer = omega arith in
    downloaded_times init_buffer 0 0 j j (start_of (future 0 segments) j)
      (start_of (future 0 segments) init_buffer) [] segments refl (omega arith) h refl refl
    ∙ ap
        (λ n.
          if is_reached (arrivals (drop (max_int (suc j) n) segments))
            (start_of (future 0 segments) j + start_of (future 0 segments) init_buffer)
          then 1
          else 0)
        none_waits

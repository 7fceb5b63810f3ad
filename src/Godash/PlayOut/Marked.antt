-- ===== src/Godash/PlayOut/Marked.antt =====
-- The logs that streamLoop of godash/player/player.go marks as played, and what it prints.
use rlnc_streaming.Base.{
  ℕ, zero, suc, ◌+◌, ◌*◌, ◌<◌, ◌≡◌, length, ◌∙◌, List, [], ◌∷◌, ◌++◌, some, get_elem?, Bool, true,
  false, leb, if◌then◌else◌, arith, subst,
}
use rlnc_streaming.Godash.PlayOut.{PlayLog, start_of, is_due, mark, print_segments, new_log}
use rlnc_streaming.Godash.PlayOut.Once.{count, count-append, get_elem?-append, get_elem?-last}
use rlnc_streaming.Godash.PlayOut.Calls.{
  call_printed, call_marked, call_if, called_length, called_unknown, length-snoc,
}

-- What becomes of a log that is there, over calls that print `printed` and leave `final`.
pub record Counted (k : ℕ) (played : Bool) (printed : List ℕ) (final : List PlayLog) : Type 0 where
  pub log : PlayLog
  pub found : get_elem? final k ≡ some log
  pub counted : count (1 + k) printed + (if played then 1 else 0) ≡ (if log.played then 1 else 0)

called_log :
    (waits : Bool) (arrival init_buffer k : ℕ) (logs : List PlayLog) (l : PlayLog)
    → get_elem? logs k ≡ some l
    → Counted k l.played
        (call_if waits arrival init_buffer logs).0
        (call_if waits arrival init_buffer logs).1
unfolding count
called_log true arrival init_buffer k logs l at =
    let due = is_due arrival (start_of logs init_buffer) (start_of logs k) l in
    record {
      log = mark due l;
      found = call_marked arrival init_buffer logs k l at;
      counted = ground (arith, call_printed arrival init_buffer logs k l at);
    }
called_log false arrival init_buffer k logs l at = record {
  log = l;
  found = at;
  counted = omega arith;
}

-- A segment is printed as often as its log is marked.
logged-Counted :
    (init_buffer counter total k : ℕ) (logs : List PlayLog) (l : PlayLog) (segments : List (ℕ × ℕ))
    → get_elem? logs k ≡ some l
    → Counted k l.played
        (print_segments init_buffer counter total logs segments).0
        (print_segments init_buffer counter total logs segments).1
unfolding print_segments count
logged-Counted init_buffer counter total k logs l [] at = record {
  log = l;
  found = at;
  counted = omega arith;
}
logged-Counted init_buffer counter total k logs l ((arrival, duration) ∷ segments) at =
    let total' = total + duration * 1000 in
    let now = call_if (leb init_buffer counter) arrival init_buffer logs in
    let c = called_log (leb init_buffer counter) arrival init_buffer k logs l at in
    let r =
      logged-Counted init_buffer (suc counter) total' k (now.1 ++ new_log total' ∷ []) c.log
        segments (get_elem?-append now.1 (new_log total' ∷ []) k c.log c.found) in
    record {
      log = r.log;
      found = r.found;
      counted = omega (arith, count-append (1 + k) now.0 _, c.counted, r.counted);
    }

not_yet :
    (k : ℕ) (now later : List ℕ) (final : List PlayLog)
    → count (1 + k) now ≡ 0
    → Counted k false later final
    → Counted k false (now ++ later) final
not_yet k now later final none c = record {
  log = c.log;
  found = c.found;
  counted = omega (arith, count-append (1 + k) now later, none, c.counted);
}

-- So is one that is downloaded later.
pub downloaded-Counted :
    (init_buffer counter total k j : ℕ) (logs : List PlayLog) (segments : List (ℕ × ℕ))
    → k ≡ length logs + j
    → j < length segments
    → Counted k false
        (print_segments init_buffer counter total logs segments).0
        (print_segments init_buffer counter total logs segments).1
unfolding print_segments
downloaded-Counted init_buffer counter total k j logs [] e h = absurd (omega arith)
downloaded-Counted init_buffer counter total k zero logs ((arrival, duration) ∷ segments) e h =
    let waits = leb init_buffer counter in
    let total' = total + duration * 1000 in
    let now = call_if waits arrival init_buffer logs in
    let there : length now.1 ≡ k =
      called_length waits arrival init_buffer logs ∙ omega (arith, e) in
    not_yet k now.0 _ _ (called_unknown waits arrival init_buffer k logs (omega (arith, e))) (
      logged-Counted init_buffer (suc counter) total' k (now.1 ++ new_log total' ∷ [])
        (new_log total') segments
        (subst (λ n. get_elem? (now.1 ++ new_log total' ∷ []) n ≡ some (new_log total')) there
          (get_elem?-last now.1 (new_log total'))))
downloaded-Counted init_buffer counter total k (suc j) logs ((arrival, duration) ∷ segments) e h =
    let waits = leb init_buffer counter in
    let total' = total + duration * 1000 in
    let now = call_if waits arrival init_buffer logs in
    not_yet k now.0 _ _ (called_unknown waits arrival init_buffer k logs (omega (arith, e))) (
      downloaded-Counted init_buffer (suc counter) total' k j (now.1 ++ new_log total' ∷ [])
        segments
        (omega (
          arith,
          e,
          length-snoc now.1 (new_log total'),
          called_length waits arrival init_buffer logs,
        ))
        (omega (arith, h)))

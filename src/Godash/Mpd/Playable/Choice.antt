-- ===== src/Godash/Mpd/Playable/Choice.antt =====
-- What the choice of the next segment of godash/http/mpdParsing.go is among.
use rlnc_streaming.Base.{
  ℕ, zero, suc, ◌+◌, ◌*◌, ◌/◌, ◌%◌, ◌≤◌, ◌<◌, ◌≡◌, refl, ap, ◌⊎◌, inl, inr, List, [], ◌∷◌, Bool,
  true, false, ◌&&◌, ◌||◌, ◌==◌, leb, length, get_or, if◌then◌else◌, arith, Bool-cases, ==_ne,
}
use rlnc_streaming.Run.{ok, load-ok, Returns, returns, Returns-bind}
use rlnc_streaming.Godash.Text.Cuts.{All}
use rlnc_streaming.Godash.Mpd.Playable.{
  divides, prepend, usable_or, playable_from, get_playable_segment_mpd_index, Next, pick,
  get_next_segment_duration,
}

module _ (last total stream : ℕ) where
  -- A segment of `d` seconds starts on a border of such segments, and fits into the stream.
  abbrev pub IsUsable : ℕ → Type 0
  IsUsable d = ((last % (d * 1000) ≡ 0) ⊎ (total % (d * 1000) ≡ 0)) × (total + d * 1000 ≤ stream)

  -- The indexes from `i` on of the usable durations, all of them, with their segment numbers.
  pub record IsPlayable (i : ℕ) (ds : List ℕ) (found : List ℕ × List ℕ) : Type 0 where
    pub same : length found.1 ≡ length found.0
    pub sound :
        (k : ℕ)
        → k < length found.0
        → (j : ℕ) × (j < length ds)
          × (get_or found.0 k 0 ≡ i + j)
          × IsUsable (get_or ds j 0)
          × (get_or found.1 k 0 ≡ total / (get_or ds j 0 * 1000) + 1)
    pub complete :
        (j : ℕ)
        → j < length ds
        → IsUsable (get_or ds j 0)
        → (k : ℕ) × (k < length found.0) × (get_or found.0 k 0 ≡ i + j)

  divides-ok : (d x : ℕ) → 0 < d → divides (d * 1000) x ≡ ok (x % (d * 1000) == 0)
  divides-ok d x h = rw (==_ne (d * 1000) 0 (λ e. omega (arith, e, h)))

  skipped :
      (i d : ℕ) (ds : List ℕ) (later : List ℕ × List ℕ)
      → ¬ IsUsable d
      → IsPlayable (suc i) ds later
      → IsPlayable i (d ∷ ds) later
  skipped i d ds later not_usable p = record {
    same = p.same;
    sound = λ k h.
        let (j, inside, at, usable, number) = p.sound k h in
        (suc j, omega arith, omega (arith, at), usable, number);
    complete = λ j h usable. among j h usable;
  }
    where
      among :
          (j : ℕ)
          → j < suc (length ds)
          → IsUsable (get_or (d ∷ ds) j 0)
          → (k : ℕ) × (k < length later.0) × (get_or later.0 k 0 ≡ i + j)
      among zero h usable = absurd (not_usable usable)
      among (suc j) h usable =
          let (k, inside, at) = p.complete j (omega arith) usable in (k, inside, omega (arith, at))

  taken :
      (i d : ℕ) (ds : List ℕ) (later : List ℕ × List ℕ)
      → IsUsable d
      → IsPlayable (suc i) ds later
      → IsPlayable i (d ∷ ds) (prepend i (total / (d * 1000) + 1) later)
  taken i d ds (indexes, numbers) usable p = record {
    same = ap suc p.same;
    sound = found;
    complete = among;
  }
    where
      found :
          (k : ℕ)
          → k < suc (length indexes)
          → (j : ℕ) × (j < suc (length ds))
            × (get_or (i ∷ indexes) k 0 ≡ i + j)
            × IsUsable (get_or (d ∷ ds) j 0)
            × (get_or ((total / (d * 1000) + 1) ∷ numbers) k 0
                ≡ total / (get_or (d ∷ ds) j 0 * 1000) + 1)
      found zero h = (0, omega arith, omega arith, usable, refl)
      found (suc k) h =
          let (j, inside, at, fits, number) = p.sound k (omega arith) in
          (suc j, omega arith, omega (arith, at), fits, number)

      among :
          (j : ℕ)
          → j < suc (length ds)
          → IsUsable (get_or (d ∷ ds) j 0)
          → (k : ℕ) × (k < suc (length indexes)) × (get_or (i ∷ indexes) k 0 ≡ i + j)
      among zero h fits = (0, omega arith, omega arith)
      among (suc j) h fits =
          let (k, inside, at) = p.complete j (omega arith) fits in
          (suc k, omega arith, omega (arith, at))

  usable_or-IsPlayable :
      (i d : ℕ) (ds : List ℕ) (later : List ℕ × List ℕ)
      → 0 < d
      → IsPlayable (suc i) ds later
      → Returns (IsPlayable i (d ∷ ds)) (usable_or i d last total stream later)
  usable_or-IsPlayable i d ds later h p =
      rw (divides-ok d last h, divides-ok d total h)
        (chosen
          ((last % (d * 1000) == 0 || total % (d * 1000) == 0) && leb (total + d * 1000) stream)
          (λ e. usable e) (λ e. unusable e))
    where
      usable :
          ((last % (d * 1000) == 0 || total % (d * 1000) == 0) && leb (total + d * 1000) stream)
            ≡ true
          → IsUsable d
      usable e = elim (Bool-cases (last % (d * 1000) == 0)) [
        | inl q ↦ (inl (ground (arith, q)), ground (arith, q, e))
        | inr q ↦ (inr (ground (arith, q, e)), ground (arith, q, e))
      ]

      unusable :
          ((last % (d * 1000) == 0 || total % (d * 1000) == 0) && leb (total + d * 1000) stream)
            ≡ false
          → ¬ IsUsable d
      unusable e (inl q, fits) = ground (arith, q, fits, e)
      unusable e (inr q, fits) = ground (arith, q, fits, e)

      chosen :
          (test : Bool)
          → (test ≡ true → IsUsable d)
          → (test ≡ false → ¬ IsUsable d)
          → Returns
              (IsPlayable i (d ∷ ds))
              (ok (if test then prepend i (total / (d * 1000) + 1) later else later))
      chosen true yes_usable not_usable = returns (taken i d ds later (yes_usable refl) p)
      chosen false yes_usable not_usable = returns (skipped i d ds later (not_usable refl) p)

  pub playable_from-IsPlayable :
      (i : ℕ) (ds : List ℕ)
      → All (λ d. 0 < d) ds
      → Returns (IsPlayable i ds) (playable_from i ds last total stream)
  unfolding playable_from
  playable_from-IsPlayable i [] h = returns record {
    same = refl;
    sound = λ k h. absurd (omega arith);
    complete = λ j h. absurd (omega arith);
  }
  playable_from-IsPlayable i (d ∷ ds) (h, hs) =
      Returns-bind (playable_from-IsPlayable (suc i) ds hs)
        λ later p. usable_or-IsPlayable i d ds later h p

  -- To stop, as no duration is usable, or an index of a usable one with the number of its segment.
  pub data IsNext (ds : List ℕ) (next : Next) : Type 0 where
    stops :
        next.stop ≡ true → ((j : ℕ) → j < length ds → ¬ IsUsable (get_or ds j 0)) → IsNext ds next
    goes_on :
        next.stop ≡ false
        → next.mpd_index < length ds
        → IsUsable (get_or ds next.mpd_index 0)
        → next.segment_number ≡ total / (get_or ds next.mpd_index 0 * 1000) + 1
        → IsNext ds next

  -- For durations that are positive, whatever the random number: the next segment is that of a usable
  -- duration, and the player stops if and only if there is none.
  pub get_next_segment_duration-IsNext :
      (random : ℕ) (ds : List ℕ)
      → All (λ d. 0 < d) ds
      → Returns (IsNext ds) (get_next_segment_duration random ds last total stream)
  unfolding get_next_segment_duration get_playable_segment_mpd_index
  get_next_segment_duration-IsNext random ds h =
      Returns-bind (playable_from-IsPlayable 0 ds h) λ found p. picked found p
    where
      picked :
          (found : List ℕ × List ℕ)
          → IsPlayable 0 ds found
          → Returns (IsNext ds) (pick random found)
      picked ([], numbers) p = returns (
          stops refl
            (λ j l usable. let (k, inside, at) = p.complete j l usable in absurd (omega arith)))
      picked (i ∷ indexes, numbers) p =
          let k = random % suc (length indexes) in
          let inside : k < suc (length indexes) = grind arith in
          let (j, below, at, usable, number) = p.sound k inside in
          let here : get_or (i ∷ indexes) k 0 ≡ j = omega (arith, at) in
          rw
            (
              ==_ne (suc (length indexes)) 0 (λ e. absurd (omega (arith, e))),
              load-ok (i ∷ indexes) k 0 inside,
              load-ok numbers k 0 (omega (arith, inside, p.same)),
            )
            (returns (goes_on refl (omega (arith, here, below)) (rw here usable) (rw here number)))

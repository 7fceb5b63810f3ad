-- ===== src/Godash/Player/Logged.antt =====
-- godash/player/player.go: the counters of the log against the list of the rates.
use rlnc_streaming.Base.{
  ℕ, ◌+◌, ◌-◌, ◌≡◌, refl, sym, ap, ◌∙◌, List, [], ◌∷◌, ◌++◌, ◌==◌, if◌then◌else◌, arith,
  append_assoc, Bool, true, false,
}
use rlnc_streaming.Godash.Averages.Mean.{total, total-append}
use rlnc_streaming.Godash.Player.{Settings, Playback, SegmentLog, first_log, next_log}
use rlnc_streaming.Godash.Player.Stalls.{Reached, first, next}

-- How often two neighbours differ.
unfoldable pub switches_in : List ℕ → ℕ
switches_in (x ∷ y ∷ ys) = (if y == x then 0 else 1) + switches_in (y ∷ ys)
switches_in _ = 0

-- The sum of the differences of neighbours.
unfoldable pub variation : List ℕ → ℕ
variation (x ∷ y ∷ ys) = ((y - x) + (x - y)) + variation (y ∷ ys)
variation _ = 0

switches_in-last :
    (xs : List ℕ) (x y : ℕ)
    → switches_in (xs ++ x ∷ y ∷ []) ≡ switches_in (xs ++ x ∷ []) + (if y == x then 0 else 1)
unfolding switches_in
switches_in-last [] x y = omega arith
switches_in-last (a ∷ []) x y = omega arith
switches_in-last (a ∷ b ∷ xs) x y = omega (arith, switches_in-last (b ∷ xs) x y)

variation-last :
    (xs : List ℕ) (x y : ℕ)
    → variation (xs ++ x ∷ y ∷ []) ≡ variation (xs ++ x ∷ []) + ((y - x) + (x - y))
unfolding variation
variation-last [] x y = omega arith
variation-last (a ∷ []) x y = omega arith
variation-last (a ∷ b ∷ xs) x y = omega (arith, variation-last (b ∷ xs) x y)

counted :
    (same : Bool) (n m : ℕ) → n ≡ m → (if same then n else n + 1) ≡ m + (if same then 0 else 1)
counted true n m h = omega (arith, h)
counted false n m h = ap (λ t. t + 1) h

-- The counters are those of the list of the rates, whose last one is the bandwidth.
pub record IsLogged (l : SegmentLog) : Type 0 where
  pub front : List ℕ
  pub last_rate : l.rates ≡ front ++ l.bandwidth ∷ []
  pub sum : l.sum_rates ≡ total l.rates
  pub switched : l.switches ≡ switches_in l.rates
  pub changed : l.sum_changes ≡ variation l.rates
  pub listed : l.sum_changes ≡ total l.changes

-- After any segments, one or more: the log's sum of the rates, its number of switches and its sum of
-- the rate changes are those of its list of rates, and the list of changes adds up to their sum.
pub Reached-IsLogged : (c : Settings) (s : Playback) (l : SegmentLog) → Reached c s l → IsLogged l
unfolding first_log next_log switches_in variation total
Reached-IsLogged c s l (first duration run_time bandwidth) = record {
  front = [];
  last_rate = refl;
  sum = omega arith;
  switched = refl;
  changed = refl;
  listed = refl;
}
Reached-IsLogged c s l (next s0 l0 duration run_time bandwidth r) =
    let before = Reached-IsLogged c s0 l0 r in
    let change = (bandwidth - l0.bandwidth) + (l0.bandwidth - bandwidth) in
    let all : l0.rates ++ bandwidth ∷ [] ≡ before.front ++ l0.bandwidth ∷ bandwidth ∷ [] =
      ap (λ t. t ++ bandwidth ∷ []) before.last_rate
      ∙ append_assoc before.front (l0.bandwidth ∷ []) (bandwidth ∷ []) in
    record {
      front = l0.rates;
      last_rate = refl;
      sum = omega (arith, before.sum, total-append l0.rates (bandwidth ∷ []));
      switched =
          counted (bandwidth == l0.bandwidth) l0.switches
            (switches_in (before.front ++ l0.bandwidth ∷ []))
            (before.switched ∙ ap switches_in before.last_rate)
          ∙ sym (switches_in-last before.front l0.bandwidth bandwidth)
          ∙ ap switches_in (sym all);
      changed =
          ap (λ t. t + change) (before.changed ∙ ap variation before.last_rate)
          ∙ sym (variation-last before.front l0.bandwidth bandwidth)
          ∙ ap variation (sym all);
      listed = omega (arith, before.listed, total-append l0.changes (change ∷ []));
    }

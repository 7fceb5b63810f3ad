-- ===== src/Godash/Averages/Smoothing.antt =====
-- godash/algorithms/conventional.go: how far the smoothed throughput is from the throughputs.
use rlnc_streaming.Base.{
  ℕ, ◌+◌, ◌-◌, length-append, ◌≤◌, ◌≡◌, List, [], ◌∷◌, ◌++◌, Option, none, some, arith, length,
}
use rlnc_streaming.Run.{Run, ok, ◌>>=◌, Returns, returns, Returns-map, Returns-inv}
use rlnc_streaming.Godash.Rates.{select_rep_rate-IsFirstBelow}
use rlnc_streaming.Godash.Averages.{smooth, conventional}

-- One call after the other, for the throughputs `news`; the indices are those of the calls.
unfoldable pub conventional_all : Option ℕ → List ℕ → List ℕ → List ℕ → ℕ → Run (Option ℕ × List ℕ)
conventional_all thr thrs [] bandwidths lowest = ok (thr, thrs)
conventional_all thr thrs (new ∷ news) bandwidths lowest = do
  (thr', thrs', rate) ← conventional thr thrs new bandwidths lowest
  conventional_all thr' thrs' news bandwidths lowest

abbrev pub AllBetween : ℕ → ℕ → List ℕ → Type 0
AllBetween least most [] = Unit {0}
AllBetween least most (x ∷ xs) = ((least ≤ x) × (x ≤ most)) × AllBetween least most xs

-- The variable `thr` is -1 or near the throughputs.
abbrev pub IsNear : ℕ → ℕ → Option ℕ → Type 0
IsNear least most none = Unit {0}
IsNear least most (some thr) = (least ≤ thr + 8) × (thr ≤ most)

AllBetween-append :
    (least most : ℕ) (xs : List ℕ) (x : ℕ)
    → AllBetween least most xs
    → least ≤ x
    → x ≤ most
    → AllBetween least most (xs ++ x ∷ [])
AllBetween-append least most [] x all low high = ((low, high), tt)
AllBetween-append least most (y ∷ xs) x (h, all) low high =
    (h, AllBetween-append least most xs x all low high)

smooth-IsNear :
    (least most : ℕ) (thr : Option ℕ) (new : ℕ)
    → IsNear least most thr
    → least ≤ new
    → new ≤ most
    → (least ≤ smooth thr new + 8) × (smooth thr new ≤ most)
unfolding smooth
smooth-IsNear least most none new near low high = (omega arith, high)
smooth-IsNear least most (some thr) new (l, m) low high = (omega arith, omega arith)

-- For throughputs between two bounds, one after the other, `Conventional` returns normally, and its
-- variable `thr` and all throughputs that it records are at most the upper bound and at most 8 below the
-- lower one, if those before were.
pub conventional_all-IsNear :
    (least most : ℕ) (thr : Option ℕ) (thrs news bandwidths : List ℕ) (lowest : ℕ)
    → IsNear least most thr
    → AllBetween (least - 8) most thrs
    → AllBetween least most news
    → Returns
        (λ (thr', thrs').
          IsNear least most thr'
          × AllBetween (least - 8) most thrs'
          × (length thrs' ≡ length thrs + length news))
        (conventional_all thr thrs news bandwidths lowest)
unfolding conventional_all conventional
conventional_all-IsNear least most thr thrs [] bandwidths lowest near before all =
    returns (near, before, omega arith)
conventional_all-IsNear least most thr thrs (new ∷ news) bandwidths lowest near before
      ((low, high), all) =
    let (rate, run, chosen) =
      Returns-inv (select_rep_rate-IsFirstBelow (smooth thr new) bandwidths lowest) in
    let (l, m) = smooth-IsNear least most thr new near low high in
    rw run (
      Returns-map
        (conventional_all-IsNear least most (some (smooth thr new)) (thrs ++ smooth thr new ∷ [])
          news bandwidths lowest (l, m)
          (AllBetween-append (least - 8) most thrs (smooth thr new) before (omega arith) m) all)
        λ (thr', thrs') (n, b, count).
          (n, b, omega (arith, count, length-append thrs (smooth thr new ∷ []))))

-- ===== src/Tests/Rates.antt =====
-- The choice of a bandwidth, of three.
use rlnc_streaming.Base.{ℕ, ◌≡◌, refl, List, [], ◌∷◌}
use rlnc_streaming.Run.{ok, load, Returns}
use rlnc_streaming.Godash.Rates.{
  rate_loop, select_rep_rate, IsFirstBelow, select_rep_rate-IsFirstBelow,
}

abbrev bandwidths : List ℕ
bandwidths = 900 ∷ 500 ∷ 100 ∷ []

middle_run : select_rep_rate 600 bandwidths 2 ≡ ok 1
unfolding select_rep_rate rate_loop load
middle_run = refl

select_rep_rate-IsFirstBelow_example :
    Returns (IsFirstBelow 0 600 bandwidths 2) (select_rep_rate 600 bandwidths 2)
select_rep_rate-IsFirstBelow_example = select_rep_rate-IsFirstBelow 600 bandwidths 2

-- ===== src/Godash/Hls/Between.antt =====
-- Which levels ChangeBufferLevels of godash/hlsfunc/hlsFunctions.go changes.
use rlnc_streaming.Base.{
  ℕ, zero, suc, ◌+◌, ◌-◌, ◌≡◌, refl, ap, ◌∙◌, ◌≢◌, List, [], ◌∷◌, ◌&&◌, ltb, leb, if◌then◌else◌,
  Option, some, none, get_elem?, arith, ℕ_discrete, leb-false, le→leb, lt→ltb,
}
use rlnc_streaming.Godash.Int.{ℤ, ◌+ℤ◌, opposite}
use rlnc_streaming.Godash.Hls.{lower, lower_from, change_buffer_levels}

abbrev map_option : (ℤ → ℤ) → Option ℤ → Option ℤ
map_option f none = none
map_option f (some x) = some (f x)

lower_self :
    (levels : List ℤ) (i : ℕ) (by : ℤ)
    → get_elem? (lower levels i by) i ≡ map_option (λ x. x +ℤ opposite by) (get_elem? levels i)
unfolding lower
lower_self [] i by = refl
lower_self (x ∷ levels) zero by = refl
lower_self (x ∷ levels) (suc i) by = lower_self levels i by

lower_other :
    (levels : List ℤ) (i j : ℕ) (by : ℤ)
    → i ≢ j
    → get_elem? (lower levels i by) j ≡ get_elem? levels j
unfolding lower
lower_other [] i j by h = refl
lower_other (x ∷ levels) zero zero by h = absurd (h refl)
lower_other (x ∷ levels) zero (suc j) by h = refl
lower_other (x ∷ levels) (suc i) zero by h = refl
lower_other (x ∷ levels) (suc i) (suc j) by h = lower_other levels i j by (λ e. h (ap suc e))

-- The loop lowers each of its segments once, and no other.
lower_from_lem :
    (rounds number j : ℕ) (levels : List ℤ) (by : ℤ)
    → get_elem? (lower_from levels (suc number) rounds by) j ≡ (
        if leb number j && ltb j (number + rounds)
        then map_option (λ x. x +ℤ opposite by) (get_elem? levels j)
        else get_elem? levels j)
unfolding lower_from
lower_from_lem zero number j levels by = ground arith
lower_from_lem (suc rounds) number j levels by =
    ap {A = ℕ} (λ i. get_elem? (lower_from (lower levels i by) (suc (suc number)) rounds by) j)
      (omega arith)
    ∙ lower_from_lem rounds (suc number) j (lower levels number by) by
    ∙ elim (ℕ_discrete number j) [ yes e ↦ first e | no ne ↦ later ne ]
  where
    first :
        number ≡ j
        → (if leb (suc number) j && ltb j (suc number + rounds)
            then map_option (λ x. x +ℤ opposite by) (get_elem? (lower levels number by) j)
            else get_elem? (lower levels number by) j)
          ≡ (if leb number j && ltb j (number + suc rounds)
              then map_option (λ x. x +ℤ opposite by) (get_elem? levels j)
              else get_elem? levels j)
    first e =
        let here : get_elem? (lower levels number by) j
            ≡ map_option (λ x. x +ℤ opposite by) (get_elem? levels j) =
          ap (λ i. get_elem? (lower levels i by) j) e ∙ lower_self levels j by in
        rw
          (
            leb-false (suc number) j (omega (arith, e)),
            le→leb number j (omega (arith, e)),
            lt→ltb j (number + suc rounds) (omega (arith, e)),
          )
          here

    later :
        number ≢ j
        → (if leb (suc number) j && ltb j (suc number + rounds)
            then map_option (λ x. x +ℤ opposite by) (get_elem? (lower levels number by) j)
            else get_elem? (lower levels number by) j)
          ≡ (if leb number j && ltb j (number + suc rounds)
              then map_option (λ x. x +ℤ opposite by) (get_elem? levels j)
              else get_elem? levels j)
    later ne = rw (lower_other levels number j by ne) (ground (arith, ne))

-- Between the chunk that was replaced and the segment, both not included, each buffer level is lowered
-- by the difference, once, and the others are kept.
pub change_buffer_levels_lem :
    (levels : List ℤ) (segment_number chunk_replace j : ℕ) (by : ℤ)
    → get_elem? (change_buffer_levels levels segment_number chunk_replace by) j ≡ (
        if ltb chunk_replace (j + 1) && ltb (j + 1) segment_number
        then map_option (λ x. x +ℤ opposite by) (get_elem? levels j)
        else get_elem? levels j)
unfolding change_buffer_levels
change_buffer_levels_lem levels segment_number chunk_replace j by =
    ap {A = ℕ} (λ n. get_elem? (lower_from levels n (segment_number - (chunk_replace + 1)) by) j)
      (omega arith)
    ∙ lower_from_lem (segment_number - (chunk_replace + 1)) chunk_replace j levels by
    ∙ ground arith

-- ===== src/Godash/Mpd/Values/Settled.antt =====
-- The indexes that GetMPDValues of godash/http/mpdParsing.go returns.
use rlnc_streaming.Base.{
  ℕ, zero, suc, ◌-◌, ◌≤◌, ◌<◌, ◌≡◌, refl, sym, subst, ◌∙◌, inl, inr, List, [], ◌∷◌, map, Bool, ltb,
  length, get_elem?, some, arith, Bool-cases, if◌then◌else◌,
}
use rlnc_streaming.Run.{load→get_elem?, Run, ok, err, app_stopped, ◌>>=◌, bind-inv, load}
use rlnc_streaming.Godash.Int.{ℤ, pos, difference}
use rlnc_streaming.Godash.Mpd.{Representation, AdaptationSet, Mpd, adaptation_set_of}
use rlnc_streaming.Godash.Mpd.Values.{
  height_loop, get_mpd_height_index, load_int, checked_rates, get_mpd_values, Values,
  get_byte_range_segment_details, get_segment_details, max_stream_duration_of,
}
use rlnc_streaming.Godash.Mpd.Values.Height.{IsBest, Found, height_loop-Found}

-- The first index that GetMPDValues returns is that of the first of the highest bandwidth of the
-- representations within the height, and the other is the last, of no higher bandwidth.
pub record IsSettled (mpd : Mpd) (max_height set_index : ℕ) (highest lowest : ℤ)
    (bandwidths : List ℕ) : Type 0 where
  pub set : AdaptationSet
  pub found : adaptation_set_of mpd set_index ≡ ok set
  pub index : ℕ
  pub best : Representation
  pub is_best : IsBest max_height 0 set.representation index best
  pub at_best : highest ≡ pos index
  pub at_last : lowest ≡ pos (length set.representation - 1)
  pub listed : bandwidths ≡ map (λ r. r.band_width) set.representation
  pub last : ℕ
  pub is_last : get_elem? bandwidths (length set.representation - 1) ≡ some last
  pub ordered : last ≤ best.band_width

load-bandwidths :
    (rs : List Representation) (k : ℕ) (r : Representation)
    → get_elem? rs k ≡ some r
    → load (map (λ r. r.band_width) rs) k ≡ ok r.band_width
unfolding load
load-bandwidths [] k r h = cc
load-bandwidths (x ∷ rs) zero r h = cc (h)
load-bandwidths (x ∷ rs) (suc k) r h = load-bandwidths rs k r h

length_positive :
    (rs : List Representation) (k : ℕ) (r : Representation)
    → get_elem? rs k ≡ some r
    → 0 < length rs
length_positive [] k r h = cc
length_positive (x ∷ rs) k r h = omega arith

-- The check for one adaptation set.
abbrev rates_of : AdaptationSet → ℕ → Run (ℤ × ℤ × List ℕ)
rates_of set max_height = do
  let highest = difference (height_loop max_height 0 0 0 set.representation) 1
  let lowest = difference (length set.representation) 1
  let bandwidths = map (λ r. r.band_width) set.representation
  most ← load_int bandwidths highest
  least ← load_int bandwidths lowest
  (if ltb most least then err app_stopped else ok (highest, lowest, bandwidths))

rates_of-checked :
    (mpd : Mpd) (max_height k : ℕ) (set : AdaptationSet)
    → adaptation_set_of mpd k ≡ ok set
    → checked_rates mpd max_height k ≡ rates_of set max_height
unfolding checked_rates
rates_of-checked mpd max_height k set e = rw e refl

set_found :
    (mpd : Mpd) (max_height k : ℕ) (v : ℤ × ℤ × List ℕ)
    → checked_rates mpd max_height k ≡ ok v
    → (set : AdaptationSet) × (adaptation_set_of mpd k ≡ ok set)
unfolding checked_rates
set_found mpd max_height k v h =
    let (highest, e, _) = bind-inv (get_mpd_height_index mpd max_height k) _ v h in
    let (set, found, _) = bind-inv (adaptation_set_of mpd k) _ highest e in (set, found)

-- What a check that passed has compared.
check_passed :
    (bs : List ℕ) (n rate : ℕ) (i : ℕ) (highest lowest : ℤ) (bandwidths : List ℕ)
    → ◌>>=◌ {W = ℤ × ℤ × List ℕ}
        (load bs n)
        (λ least. if ltb rate least then err app_stopped else ok (pos i, pos n, bs))
      ≡ ok (highest, lowest, bandwidths)
    → (last : ℕ) × (get_elem? bs n ≡ some last)
      × (last ≤ rate)
      × (highest ≡ pos i)
      × (lowest ≡ pos n)
      × (bandwidths ≡ bs)
check_passed bs n rate i highest lowest bandwidths h =
    let (last, loaded, kept) = bind-inv (load bs n) _ (highest, lowest, bandwidths) h in
    elim (Bool-cases (ltb rate last)) [
      | inl e ↦ cc (rw e at kept)
      | inr e ↦
          let kept' : ◌≡◌ {A = Run (ℤ × ℤ × List ℕ)} (ok (pos i, pos n, bs))
              (ok (highest, lowest, bandwidths)) =
            rw e at kept in
          (last, load→get_elem? bs n last loaded, ground (arith, e), cc, cc, cc)
    ]

-- The rates that passed the check are in order.
pub checked_rates-IsSettled :
    (mpd : Mpd) (max_height k : ℕ) (highest lowest : ℤ) (bandwidths : List ℕ)
    → checked_rates mpd max_height k ≡ ok (highest, lowest, bandwidths)
    → IsSettled mpd max_height k highest lowest bandwidths
checked_rates-IsSettled mpd max_height k highest lowest bandwidths h =
    let (set, found) = set_found mpd max_height k (highest, lowest, bandwidths) h in
    settled set found (sym (rates_of-checked mpd max_height k set found) ∙ h)
      (height_loop-Found max_height 0 0 0 set.representation)
  where
    settled :
        (set : AdaptationSet)
        → adaptation_set_of mpd k ≡ ok set
        → rates_of set max_height ≡ ok (highest, lowest, bandwidths)
        → Found max_height 0 0 0 set.representation
            (height_loop max_height 0 0 0 set.representation)
        → IsSettled mpd max_height k highest lowest bandwidths
    settled set found h (inl (e, low)) = cc (rw e at h)
    settled set found h (inr (i, best, e, is_best)) =
        let rs = set.representation in
        let nonempty : 0 < length rs = length_positive rs i best is_best.at in
        let at_best : difference (height_loop max_height 0 0 0 rs) 1 ≡ pos i = ground (arith, e) in
        let at_last : difference (length rs) 1 ≡ pos (length rs - 1) = ground (arith, nonempty) in
        let (last, is_last, ordered, hi, lo, listed) =
          check_passed (map (λ r. r.band_width) rs) (length rs - 1) best.band_width i highest lowest
            bandwidths (rw (at_best, at_last, load-bandwidths rs i best is_best.at) at h) in
        record {
          set = set;
          found = found;
          index = i;
          best = best;
          is_best = is_best;
          at_best = hi;
          at_last = lo;
          listed = listed;
          last = last;
          is_last =
              subst (λ (t : List ℕ). get_elem? t (length rs - 1) ≡ some last) (sym listed) is_last;
          ordered = ordered;
        }

-- The rates of the values that were returned, if they were.
abbrev OfReturned : Mpd → ℕ → ℕ → Run Values → Type 0
OfReturned mpd max_height set_index (ok v) =
    IsSettled mpd max_height set_index v.highest_index v.lowest_index v.bandwidths
OfReturned mpd max_height set_index _ = Unit

-- When GetMPDValues returns, for an MPD file and an adaptation set, then the first index that it
-- returns is that of the first of the highest bandwidth, more than 0, of the representations within
-- the height, the other index is the last, of no higher bandwidth, and the bandwidths are all of them.
pub get_mpd_values-IsSettled :
    (mpds : List Mpd) (mpd_index max_height stream_duration max_buffer set_index : ℕ)
    (is_byte_range : Bool) (v : Values)
    → get_mpd_values mpds mpd_index max_height stream_duration max_buffer set_index is_byte_range
      ≡ ok v
    → (mpd : Mpd) × (load mpds mpd_index ≡ ok mpd)
      × IsSettled mpd max_height set_index v.highest_index v.lowest_index v.bandwidths
unfolding get_mpd_values
get_mpd_values-IsSettled mpds mpd_index max_height stream_duration max_buffer set_index
      is_byte_range v h =
    let (mpd, loaded, h1) = bind-inv (load mpds mpd_index) _ v h in
    let (set, found, h2) = bind-inv (adaptation_set_of mpd set_index) _ v h1 in
    let ((n, durations), _, h3) =
      bind-inv
        (if is_byte_range
          then get_byte_range_segment_details mpds mpd_index set_index
          else get_segment_details mpds mpd_index 0)
        _ v h2 in
    let (stream, _, h4) =
      bind-inv (max_stream_duration_of mpd mpd_index stream_duration n durations) _ v h3 in
    let ((highest, lowest, bandwidths), rates, h5) =
      bind-inv (checked_rates mpd max_height set_index) _ v h4 in
    (
      mpd,
      loaded,
      subst (OfReturned mpd max_height set_index) h5
          (checked_rates-IsSettled mpd max_height set_index highest lowest bandwidths rates),
    )

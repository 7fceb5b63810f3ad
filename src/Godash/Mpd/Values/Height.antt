-- ===== src/Godash/Mpd/Values/Height.antt =====
-- GetMPDheightIndex of godash/http/mpdParsing.go, and what it means for GetMPDValues.
use rlnc_streaming.Base.{
  ℕ, zero, suc, ◌+◌, ◌≤◌, ◌<◌, ◌≡◌, refl, subst, ◌⊎◌, inl, inr, List, [], ◌∷◌, get_elem?, some,
  arith, Bool-cases, Option,
}
use rlnc_streaming.Godash.Mpd.{Representation}
use rlnc_streaming.Godash.Mpd.Values.{is_better, height_loop}

module _ (max_height : ℕ) where
  -- Every representation that fits has at most this bandwidth.
  abbrev pub IsLow : ℕ → List Representation → Type 0
  IsLow bitrate rs =
      (m : ℕ) (x : Representation)
      → get_elem? rs m ≡ some x
      → x.height ≤ max_height
      → x.band_width ≤ bitrate

  -- Every representation that fits before index k has a lower bandwidth.
  abbrev pub IsFirst : ℕ → ℕ → List Representation → Type 0
  IsFirst bitrate k rs =
      (m : ℕ) (x : Representation)
      → m < k
      → get_elem? rs m ≡ some x
      → x.height ≤ max_height
      → x.band_width < bitrate

  same_representation :
      (r x : Representation) → ◌≡◌ {A = Option Representation} (some r) (some x) → r ≡ x
  same_representation r x e = cc

  cons-IsLow :
      (bitrate : ℕ) (r : Representation) (rs : List Representation)
      → (r.height ≤ max_height → r.band_width ≤ bitrate)
      → IsLow bitrate rs
      → IsLow bitrate (r ∷ rs)
  cons-IsLow bitrate r rs head low zero x at h =
      subst (λ (y : Representation). y.height ≤ max_height → y.band_width ≤ bitrate)
        (same_representation r x at) head h
  cons-IsLow bitrate r rs head low (suc m) x at h = low m x at h

  cons-IsFirst :
      (bitrate k : ℕ) (r : Representation) (rs : List Representation)
      → (r.height ≤ max_height → r.band_width < bitrate)
      → IsFirst bitrate k rs
      → IsFirst bitrate (suc k) (r ∷ rs)
  cons-IsFirst bitrate k r rs head first zero x l at h =
      subst (λ (y : Representation). y.height ≤ max_height → y.band_width < bitrate)
        (same_representation r x at) head h
  cons-IsFirst bitrate k r rs head first (suc m) x l at h = first m x (omega arith) at h

  -- The representation fits, and is the first of the highest bandwidth of those that fit.
  pub record IsBest (bitrate : ℕ) (rs : List Representation) (k : ℕ) (r : Representation)
      : Type 0 where
    pub at : get_elem? rs k ≡ some r
    pub fits : r.height ≤ max_height
    pub more : bitrate < r.band_width
    pub most : IsLow r.band_width rs
    pub first : IsFirst r.band_width k rs

  -- What the loop found from index `j` on.
  abbrev pub Found : ℕ → ℕ → ℕ → List Representation → ℕ → Type 0
  Found j bitrate index rs found =
      ((found ≡ index) × IsLow bitrate rs)
      ⊎ ((k : ℕ) × (r : Representation) × (found ≡ j + k + 1) × IsBest bitrate rs k r)

  better :
      (j bitrate index : ℕ) (r : Representation) (rs : List Representation) (found : ℕ)
      → r.height ≤ max_height
      → bitrate < r.band_width
      → Found (suc j) r.band_width (j + 1) rs found
      → Found j bitrate index (r ∷ rs) found
  better j bitrate index r rs found fits more (inl (e, low)) = inr (
    0,
    r,
    omega (arith, e),
    record {
      at = refl;
      fits = fits;
      more = more;
      most = cons-IsLow r.band_width r rs (λ h. omega arith) low;
      first = λ m x h. absurd (omega arith);
    },
  )
  better j bitrate index r rs found fits more (inr (k, x, e, best)) = inr (
    suc k,
    x,
    omega (arith, e),
    record {
      at = best.at;
      fits = best.fits;
      more = omega (arith, best.more);
      most = cons-IsLow x.band_width r rs (λ h. omega (arith, best.more)) best.most;
      first = cons-IsFirst x.band_width k r rs (λ h. omega (arith, best.more)) best.first;
    },
  )

  worse :
      (j bitrate index : ℕ) (r : Representation) (rs : List Representation) (found : ℕ)
      → (r.height ≤ max_height → r.band_width ≤ bitrate)
      → Found (suc j) bitrate index rs found
      → Found j bitrate index (r ∷ rs) found
  worse j bitrate index r rs found low_rate (inl (e, low)) =
      inl (e, cons-IsLow bitrate r rs low_rate low)
  worse j bitrate index r rs found low_rate (inr (k, x, e, best)) = inr (
    suc k,
    x,
    omega (arith, e),
    record {
      at = best.at;
      fits = best.fits;
      more = best.more;
      most = cons-IsLow x.band_width r rs (λ h. omega (arith, low_rate h, best.more)) best.most;
      first =
          cons-IsFirst x.band_width k r rs (λ h. omega (arith, low_rate h, best.more)) best.first;
    },
  )

  -- The loop finds the first of the highest bandwidth of the representations that fit, or keeps its
  -- index if none has a higher bandwidth than the bitrate that it starts with.
  pub height_loop-Found :
      (j bitrate index : ℕ) (rs : List Representation)
      → Found j bitrate index rs (height_loop max_height j bitrate index rs)
  unfolding height_loop
  height_loop-Found j bitrate index [] = inl (refl, λ m x at h. cc)
  height_loop-Found j bitrate index (r ∷ rs) = elim (Bool-cases (is_better max_height bitrate r)) [
    | inl e ↦
        rw (e, height_loop)
          (better j bitrate index r rs _ (ground (arith, e)) (ground (arith, e))
            (height_loop-Found (suc j) r.band_width (j + 1) rs))
    | inr e ↦
        rw (e, height_loop)
          (worse j bitrate index r rs _ (λ h. ground (arith, e, h))
            (height_loop-Found (suc j) bitrate index rs))
  ]

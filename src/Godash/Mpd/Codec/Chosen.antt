-- ===== src/Godash/Mpd/Codec/Chosen.antt =====
-- Which adaptation sets are played: GetCodec of godash/http/mpdParsing.go.
use rlnc_streaming.Base.{
  ℕ, suc, ◌≡◌, refl, sym, ap, subst, ◌∙◌, ◌⊎◌, inl, inr, List, [], ◌∷◌, Bool, true, false, ◌||◌,
  ◌==◌, ==_iff, ==_refl, get_elem?, Option, some, none, Bool-cases, if◌then◌else◌,
}
use rlnc_streaming.Run.{ok_inj, load→get_elem?, Run, ok, err, app_stopped, load, bind-inv}
use rlnc_streaming.Godash.Int.{ℤ, pos, negsuc}
use rlnc_streaming.Godash.Text.{Bytes}
use rlnc_streaming.Godash.Mpd.{Representation, AdaptationSet, Period, Mpd}
use rlnc_streaming.Godash.Mpd.Codec.{
  same_text, audio, codec_name, Codecs, is_kept, codec_loop, get_codec, find_in_string_array,
  kept_from, mime_types, is_audio_only,
}

pub same_text-eq : (s t : Bytes) → same_text s t ≡ true → s ≡ t
unfolding same_text
same_text-eq [] [] h = refl
same_text-eq [] (d ∷ t) h = cc
same_text-eq (c ∷ s) [] h = cc
same_text-eq (c ∷ s) (d ∷ t) h = elim (Bool-cases (c == d)) [
  | inl e ↦ cc ((==_iff c d).0 e, same_text-eq s t (rw e at h))
  | inr e ↦ cc (e)
]

pub same_text_refl : (s : Bytes) → same_text s s ≡ true
unfolding same_text
same_text_refl [] = refl
same_text_refl (c ∷ s) = rw (==_refl c) (same_text_refl s)

-- The adaptation set has a first representation, whose codec is the one that is asked for, or audio.
abbrev pub IsWanted : Bytes → AdaptationSet → Type 0
IsWanted codec set =
    (r : Representation) × (get_elem? set.representation 0 ≡ some r)
    × ((codec_name r.codecs ≡ codec) ⊎ (codec_name r.codecs ≡ audio))

-- The indexes from `i` on are those of the wanted sets, in their order.
pub data IsSelection (codec : Bytes) : ℕ → List AdaptationSet → List ℕ → Type 0 where
  none_left : {i : ℕ} → IsSelection codec i [] []
  wanted :
      {i : ℕ} {set : AdaptationSet} {sets : List AdaptationSet} {chosen : List ℕ}
      → IsWanted codec set
      → IsSelection codec (suc i) sets chosen
      → IsSelection codec i (set ∷ sets) (i ∷ chosen)
  unwanted :
      {i : ℕ} {set : AdaptationSet} {sets : List AdaptationSet} {chosen : List ℕ}
      → ¬ IsWanted codec set
      → IsSelection codec (suc i) sets chosen
      → IsSelection codec i (set ∷ sets) chosen

kept-IsWanted :
    (codec : Bytes) (set : AdaptationSet) (r : Representation)
    → get_elem? set.representation 0 ≡ some r
    → is_kept codec (codec_name r.codecs) ≡ true
    → IsWanted codec set
kept-IsWanted codec set r at h = elim (Bool-cases (same_text (codec_name r.codecs) codec)) [
  | inl e ↦ (r, at, inl (same_text-eq (codec_name r.codecs) codec e))
  | inr e ↦ (r, at, inr (same_text-eq (codec_name r.codecs) audio (rw e at h)))
]

or_false : (a b : Bool) → (a || b) ≡ false → (a ≡ false) × (b ≡ false)
or_false true b h = cc
or_false false b h = (refl, h)

same_text_of_eq : (s t : Bytes) → s ≡ t → same_text s t ≡ true
same_text_of_eq s t e = subst (λ u. same_text s u ≡ true) e (same_text_refl s)

same_representation :
    (r x : Representation) → ◌≡◌ {A = Option Representation} (some r) (some x) → r ≡ x
same_representation r x e = cc

unkept_unwanted :
    (codec : Bytes) (set : AdaptationSet) (r : Representation)
    → get_elem? set.representation 0 ≡ some r
    → is_kept codec (codec_name r.codecs) ≡ false
    → ¬ IsWanted codec set
unkept_unwanted codec set r at h (x, at', either) =
    let name : codec_name r.codecs ≡ codec_name x.codecs =
      ap (λ r. codec_name r.codecs) (same_representation r x (sym at ∙ at')) in
    let (not_codec, not_audio) =
      or_false (same_text (codec_name r.codecs) codec) (same_text (codec_name r.codecs) audio) h in
    elim either [
      | inl e ↦ cc (not_codec, same_text_of_eq (codec_name r.codecs) codec (name ∙ e))
      | inr e ↦ cc (not_audio, same_text_of_eq (codec_name r.codecs) audio (name ∙ e))
    ]

codec_loop-IsSelection :
    (codec : Bytes) (j : ℕ) (sets : List AdaptationSet) (found : Codecs)
    → codec_loop codec j sets ≡ ok found
    → IsSelection codec j sets (kept_from j found.indexes)
unfolding codec_loop kept_from
codec_loop-IsSelection codec j [] found h =
    subst (λ (f : Codecs). IsSelection codec j [] (kept_from j f.indexes)) (ok_inj h) none_left
codec_loop-IsSelection codec j (set ∷ sets) found h =
    let (r, loaded, h1) = bind-inv (load set.representation 0) _ found h in
    let (later, loop, h2) = bind-inv (codec_loop codec (suc j) sets) _ found h1 in
    subst (λ (f : Codecs). IsSelection codec j (set ∷ sets) (kept_from j f.indexes)) (ok_inj h2)
      (either r (load→get_elem? set.representation 0 r loaded) later.indexes
        (codec_loop-IsSelection codec (suc j) sets later loop))
  where
    either :
        (r : Representation)
        → get_elem? set.representation 0 ≡ some r
        → (indexes : List ℤ) → IsSelection codec (suc j) sets (kept_from (suc j) indexes)
        → IsSelection codec j (set ∷ sets) (
            kept_from j
              ((if is_kept codec (codec_name r.codecs) then pos j else negsuc 0) ∷ indexes))
    either r at indexes rest = elim (Bool-cases (is_kept codec (codec_name r.codecs))) [
      | inl e ↦ rw (e, kept_from) (wanted (kept-IsWanted codec set r at e) rest)
      | inr e ↦ rw (e, kept_from) (unwanted (unkept_unwanted codec set r at e) rest)
    ]

kept_of :
    (test : Bool) (o : Option ℕ) (kept chosen : List ℕ)
    → ◌≡◌ {A = Run (List ℕ)}
        (if test then ok kept else elim o [ none ↦ err app_stopped | some i ↦ ok kept ])
        (ok chosen)
    → kept ≡ chosen
kept_of true o kept chosen h = ok_inj h
kept_of false none kept chosen h = cc
kept_of false (some i) kept chosen h = ok_inj h

-- The first codecs of GetCodec are those of the first MPD file.
first_codecs :
    (mpds : List Mpd) (codec : Bytes) (codecs : List Codecs) (first : Codecs)
    → get_codec mpds codec ≡ ok codecs
    → load codecs 0 ≡ ok first
    → (mpd : Mpd) × (period : Period) × (load mpds 0 ≡ ok mpd)
      × (load mpd.periods 0 ≡ ok period)
      × (codec_loop codec 0 period.adaptation_set ≡ ok first)
unfolding get_codec load
first_codecs [] codec codecs first all loaded = cc (ap (λ c. load c 0) (ok_inj all), loaded)
first_codecs (mpd ∷ mpds) codec codecs first all loaded =
    let (period, at_period, h1) = bind-inv (load mpd.periods 0) _ codecs all in
    let (found, loop, h2) = bind-inv (codec_loop codec 0 period.adaptation_set) _ codecs h1 in
    let (later, _, h3) = bind-inv (get_codec mpds codec) _ codecs h2 in
    (mpd, period, refl, at_period, loop ∙ ap (λ c. load c 0) (ok_inj h3) ∙ loaded)

-- When `Stream` gets past the choice of the codec, the adaptation sets that it plays are, in their
-- order, all those of the first MPD file whose first representation has the codec that is asked for,
-- or audio.
pub mime_types-IsSelection :
    (mpds : List Mpd) (codec : Bytes) (chosen : List ℕ)
    → mime_types mpds codec ≡ ok chosen
    → (mpd : Mpd) × (period : Period) × (load mpds 0 ≡ ok mpd)
      × (load mpd.periods 0 ≡ ok period)
      × IsSelection codec 0 period.adaptation_set chosen
unfolding mime_types
mime_types-IsSelection mpds codec chosen h =
    let (codecs, all, h1) = bind-inv (get_codec mpds codec) _ chosen h in
    let (first, loaded, h2) = bind-inv (load codecs 0) _ chosen h1 in
    let (name, _, h3) = bind-inv (load first.names 0) _ chosen h2 in
    let (mpd, period, at_mpd, at_period, loop) = first_codecs mpds codec codecs first all loaded in
    (
      mpd,
      period,
      at_mpd,
      at_period,
      subst (IsSelection codec 0 period.adaptation_set)
          (kept_of (is_audio_only first.names) (find_in_string_array first.names codec)
            (kept_from 0 first.indexes) chosen h3)
          (codec_loop-IsSelection codec 0 period.adaptation_set first loop),
    )

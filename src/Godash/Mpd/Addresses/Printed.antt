-- ===== src/Godash/Mpd/Addresses/Printed.antt =====
-- Addresses and ranges in the form that they are printed in, for godash/http/mpdParsing.go.
use mathlib.Core.List.{append_cancel_left, append_cancel_right}
use rlnc_streaming.Base.{
  ℕ, ◌^◌, ◌<◌, ◌≡◌, ◌≢◌, refl, sym, ap, ◌∙◌, List, [], ◌∷◌, ◌++◌, Bool, true, ◌==◌, ==_ne, ==_refl,
  arith,
}
use rlnc_streaming.Run.{ok, load, ok_inj}
use rlnc_streaming.Godash.Int.{ℤ, pos}
use rlnc_streaming.Godash.Text.{
  Bytes, codes, split, join, trim_left, trim_right, put_unless_last, itoa, atoi,
}
use rlnc_streaming.Godash.Text.Cuts.{
  All, All-append, Lacks, split_first, split-Lacks, split-join, replace_all_once,
}
use rlnc_streaming.Godash.Text.Decimal.{itoa-IsDigit, digits-Lacks, atoi-itoa}
use rlnc_streaming.Godash.Mpd.{Mpd, Representation, AdaptationSet, adaptation_set_of}
use rlnc_streaming.Godash.Mpd.Duration.{atoi_or_stop-itoa}
use rlnc_streaming.Godash.Mpd.Addresses.{url_list, split_byte_range, get_next_segment, media_of}

-- A byte range below 2^63 that is printed in digits is read back.
split_byte_range-printed :
    (start end : ℕ)
    → start < 2 ^ 63
    → end < 2 ^ 63
    → split_byte_range (itoa start ++ (b'-' ∷ itoa end)) ≡ ok (pos start, pos end)
unfolding split_byte_range load
split_byte_range-printed start end hs he =
    rw
      (
        split_first b'-' (itoa start) (itoa end)
            (digits-Lacks b'-' (itoa start) refl (itoa-IsDigit start)),
        split-Lacks b'-' (itoa end) (digits-Lacks b'-' (itoa end) refl (itoa-IsDigit end)),
        atoi_or_stop-itoa start hs,
        atoi_or_stop-itoa end he,
      )
      refl

itoa-injective : (m n : ℕ) → m < 2 ^ 63 → n < 2 ^ 63 → itoa m ≡ itoa n → m ≡ n
itoa-injective m n hm hn e =
    let read : ◌≡◌ {A = ℤ × Bool} (pos m, true) (pos n, true) =
      sym (atoi-itoa m hm) ∙ ap atoi e ∙ atoi-itoa n hn in
    cc

module _ (mpd : Mpd) (quality set_index : ℕ) (set : AdaptationSet) (r : Representation)
    (before after : Bytes) (at_set : adaptation_set_of mpd set_index ≡ ok set)
    (at_quality : load set.representation quality ≡ ok r)
    (template : media_of set r ≡ ok (before ++ (codes "$Number$" ++ after)))
    (lacks_before : Lacks b'$' before) (lacks_after : Lacks b'$' after) where
  get_next_segment_lem :
      (number : ℕ)
      → get_next_segment mpd number quality set_index ≡ ok (before ++ (itoa number ++ after))
  unfolding get_next_segment
  get_next_segment_lem number =
      rw
        (
          at_set,
          at_quality,
          template,
          replace_all_once b'$' (codes "Number$") (itoa number) before after lacks_before
              lacks_after,
        )
        refl

  -- For a template that has $Number$ once, and no other $: the address of a segment is the template with
  -- its number in digits, and two segments with numbers below 2^63 have different addresses.
  pub get_next_segment-injective :
      (m n : ℕ)
      → m < 2 ^ 63
      → n < 2 ^ 63
      → (get_next_segment mpd m quality set_index ≡ ok (before ++ (itoa m ++ after)))
        × (get_next_segment mpd m quality set_index ≡ get_next_segment mpd n quality set_index
            → m ≡ n)
  get_next_segment-injective m n hm hn = (
    get_next_segment_lem m,
    λ e. itoa-injective m n hm hn (
        append_cancel_right (itoa m) (itoa n) after (
          append_cancel_left before _ _
            (ok_inj (sym (get_next_segment_lem m) ∙ e ∙ get_next_segment_lem n)))),
  )

put_unless_last-Lacks : (b c : ℕ) (s : Bytes) → c ≢ b → put_unless_last (λ x. x == b) c s ≡ c ∷ s
put_unless_last-Lacks b c [] ne = rw (==_ne c b ne) refl
put_unless_last-Lacks b c (d ∷ s) ne = refl

-- One byte at the end is cut.
trim_right_one : (b : ℕ) (s : Bytes) → Lacks b s → trim_right (λ c. c == b) (s ++ b ∷ []) ≡ s
unfolding trim_right
trim_right_one b [] h = rw (==_refl b) refl
trim_right_one b (c ∷ s) (ne, h) =
    ap (put_unless_last (λ x. x == b) c) (trim_right_one b s h) ∙ put_unless_last-Lacks b c s ne

-- One byte at the start is cut.
trim_left_one : (b : ℕ) (s : Bytes) → Lacks b s → trim_left (λ c. c == b) (b ∷ s) ≡ s
unfolding trim_left
trim_left_one b [] h = rw (==_refl b) refl
trim_left_one b (c ∷ s) (ne, h) = rw (==_refl b, ==_ne c b ne) refl

join-Lacks : (b sep : ℕ) (ps : List Bytes) → sep ≢ b → All (Lacks b) ps → Lacks b (join sep ps)
unfolding join
join-Lacks b sep [] ne h = tt
join-Lacks b sep (p ∷ []) ne (h, _) = h
join-Lacks b sep (p ∷ q ∷ ps) ne (h, hs) =
    All-append (λ c. c ≢ b) p _ h (ne, join-Lacks b sep (q ∷ ps) ne hs)

-- A list of addresses without commas and brackets, joined by commas between brackets, is read back.
url_list-join :
    (urls : List Bytes)
    → urls ≢ []
    → All (Lacks b',') urls
    → All (Lacks b'[') urls
    → All (Lacks b']') urls
    → url_list (b'[' ∷ (join b',' urls ++ codes "]")) ≡ urls
unfolding url_list
url_list-join urls some_url commas opening closing =
    let joined = join b',' urls in
    ap (λ t. split b',' (trim_left (λ c. c == b'[') t))
      (trim_right_one b']' (b'[' ∷ joined)
        (omega arith, join-Lacks b']' b',' urls (omega arith) closing))
    ∙ ap (split b',') (trim_left_one b'[' joined (join-Lacks b'[' b',' urls (omega arith) opening))
    ∙ split-join b',' urls some_url commas

-- ===== src/Godash/Text/Decimal.antt =====
-- Numbers that are printed and read back.
use mathlib.Core.List.{cons-ne-nil}
use rlnc_streaming.Base.{
  ==_ne, lt→ltb, le→leb, leb-false, ℕ, zero, suc, ◌+◌, ◌*◌, ◌/◌, ◌%◌, ◌^◌, ◌<◌, ◌≡◌, refl, ap, ◌∙◌,
  ◌≢◌, [], ◌∷◌, ◌==◌, Bool-cases, inl, inr, true, false, arith,
}
use rlnc_streaming.Godash.Int.{pos, negsuc}
use rlnc_streaming.Godash.Text.{Bytes, is_digit, scan, parse_uint, atoi, digits, itoa, number}
use rlnc_streaming.Godash.Text.Cuts.{All, All-weaken, Lacks}

abbrev pub IsDigit : ℕ → Type 0
IsDigit c = is_digit c ≡ true

scan_digit :
    (d n : ℕ) (s : Bytes)
    → d < 10
    → n * 10 + d < 2 ^ 64
    → scan ((b'0' + d) ∷ s) n ≡ scan s (n * 10 + d)
unfolding scan
scan_digit d n s h k = ground arith

-- Reading the digits of a number, before other bytes, leads to that number.
scan-digits : (f n : ℕ) (out : Bytes) → n < f → n < 2 ^ 64 → scan (digits f n out) 0 ≡ scan out n
unfolding digits
scan-digits zero n out h k = absurd (omega arith)
scan-digits (suc f) n out h k = elim (Bool-cases (n / 10 == 0)) [
  | inl e ↦
      rw e
        (scan_digit (n % 10) 0 out (omega arith) (omega arith) ∙ ap (scan out) (ground (arith, e)))
  | inr e ↦ rw e (
      scan-digits f (n / 10) ((b'0' + n % 10) ∷ out) (ground (arith, e)) (omega arith)
      ∙ scan_digit (n % 10) (n / 10) out (omega arith) (omega arith)
      ∙ ap (scan out) (omega arith))
]

digits-IsDigit : (f n : ℕ) (out : Bytes) → All IsDigit out → All IsDigit (digits f n out)
unfolding digits
digits-IsDigit zero n out h = h
digits-IsDigit (suc f) n out h = elim (Bool-cases (n / 10 == 0)) [
  | inl e ↦ rw e (last, h)
  | inr e ↦ rw e (digits-IsDigit f (n / 10) ((b'0' + n % 10) ∷ out) (last, h))
]
  where
    last : IsDigit (b'0' + n % 10)
    last = ground arith

digits-ne-nil : (f n : ℕ) (out : Bytes) → out ≢ [] → digits f n out ≢ []
unfolding digits
digits-ne-nil zero n out h = h
digits-ne-nil (suc f) n out h = elim (Bool-cases (n / 10 == 0)) [
  | inl e ↦ rw e (cons-ne-nil _ _)
  | inr e ↦ rw e (digits-ne-nil f (n / 10) _ (cons-ne-nil _ _))
]

pub itoa-ne-nil : (n : ℕ) → itoa n ≢ []
unfolding itoa digits
itoa-ne-nil n = elim (Bool-cases (n / 10 == 0)) [
  | inl e ↦ rw e (cons-ne-nil _ _)
  | inr e ↦ rw e (digits-ne-nil n (n / 10) _ (cons-ne-nil _ _))
]

pub itoa-IsDigit : (n : ℕ) → All IsDigit (itoa n)
unfolding itoa scan
itoa-IsDigit n = digits-IsDigit (suc n) n [] tt

pub digits-Lacks : (b : ℕ) (s : Bytes) → is_digit b ≡ false → All IsDigit s → Lacks b s
digits-Lacks b s h = All-weaken s (λ c e q. cc (ap is_digit q))

atoi_number :
    (n : ℕ) (s : Bytes)
    → s ≢ []
    → All IsDigit s
    → scan s 0 ≡ number n
    → n < 2 ^ 63
    → atoi s ≡ (pos n, true)
unfolding atoi parse_uint
atoi_number n [] some_digit h e small = absurd (some_digit refl)
atoi_number n (c ∷ s) some_digit (digit, _) e small =
    rw
      (
        ==_ne c b'-' (λ q. cc (ap is_digit q)),
        ==_ne c b'+' (λ q. cc (ap is_digit q)),
        e,
        lt→ltb n (2 ^ 63) small,
      )
      refl

-- A number below 2^63 that was printed is read back without an error.
pub atoi-itoa : (n : ℕ) → n < 2 ^ 63 → atoi (itoa n) ≡ (pos n, true)
unfolding itoa scan
atoi-itoa n h =
    atoi_number n (itoa n) (itoa-ne-nil n) (itoa-IsDigit n)
      (scan-digits (suc n) n [] (omega arith) (omega arith)) h

minus_parsed :
    (n : ℕ) (s : Bytes)
    → s ≢ []
    → scan s 0 ≡ number (n + 1)
    → n < 2 ^ 63
    → atoi (b'-' ∷ s) ≡ (negsuc n, true)
unfolding atoi parse_uint
minus_parsed n [] some_digit e small = absurd (some_digit refl)
minus_parsed n (c ∷ s) some_digit e small =
    rw (e, le→leb (n + 1) (2 ^ 63) (omega arith), leb-false (n + 1) 0 (omega arith))
      (ap {A = ℕ} (λ k. (negsuc k, true)) (omega arith))

-- So is a negative one.
pub atoi-minus : (n : ℕ) → n < 2 ^ 63 → atoi (b'-' ∷ itoa (n + 1)) ≡ (negsuc n, true)
unfolding itoa scan
atoi-minus n h =
    minus_parsed n (itoa (n + 1)) (itoa-ne-nil (n + 1))
      (scan-digits (suc (n + 1)) (n + 1) [] (omega arith) (omega arith)) h

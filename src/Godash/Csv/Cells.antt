-- ===== src/Godash/Csv/Cells.antt =====
-- The lines that godash/http/mpdParsing.go prints, read back as fields.
use mathlib.Core.List.{cons-ne-nil}
use rlnc_streaming.Base.{
  ℕ, zero, suc, ◌+◌, ◌-◌, ◌<◌, ◌^◌, ◌≡◌, refl, ap, sym, ◌∙◌, ◌≢◌, List, [], ◌∷◌, ◌++◌, true, false,
  ◌==◌, ◌||◌, length, append-nil, arith,
}
use rlnc_streaming.Godash.Int.{ℤ, pos, negsuc}
use rlnc_streaming.Godash.Text.{
  Bytes, split, trim_left, trim_right, trim_space, is_space, is_digit, itoa, atoi,
}
use rlnc_streaming.Godash.Text.Cuts.{All, All-append, All-weaken, Lacks, split-Lacks, split_first}
use rlnc_streaming.Godash.Text.Decimal.{itoa-IsDigit, itoa-ne-nil, atoi-itoa, atoi-minus}
use rlnc_streaming.Godash.Csv.{print_int, spaces, pad, cells, without_empty}

-- A digit or a minus: what numbers are printed with.
abbrev IsPrinted : ℕ → Type 0
IsPrinted c = (is_digit c || (c == b'-')) ≡ true

print_int-IsPrinted : (x : ℤ) → All IsPrinted (print_int x)
print_int-IsPrinted (pos n) = All-weaken (itoa n) (λ c h. cc (h)) (itoa-IsDigit n)
print_int-IsPrinted (negsuc n) =
    (refl, All-weaken (itoa (n + 1)) (λ c h. cc (h)) (itoa-IsDigit (n + 1)))

print_int-ne-nil : (x : ℤ) → print_int x ≢ []
print_int-ne-nil (pos n) = itoa-ne-nil n
print_int-ne-nil (negsuc n) = cons-ne-nil _ _

printed_space : (c : ℕ) → IsPrinted c → is_space c ≡ false
printed_space c h = ground arith

printed_ne : (b c : ℕ) → (is_digit b || (b == b'-')) ≡ false → IsPrinted c → c ≢ b
printed_ne b c k h e = cc (ap (λ x. is_digit x || (x == b'-')) e)

printed-Lacks :
    (b : ℕ) (s : Bytes) → (is_digit b || (b == b'-')) ≡ false → All IsPrinted s → Lacks b s
printed-Lacks b s k h = All-weaken s (λ c p. printed_ne b c k p) h

pub spaces-append : (n : ℕ) (s rest : Bytes) → spaces n s ++ rest ≡ spaces n (s ++ rest)
unfolding spaces
spaces-append zero s rest = refl
spaces-append (suc n) s rest = ap (◌∷◌ 32) (spaces-append n s rest)

pub spaces-Lacks : (b n : ℕ) (s : Bytes) → 32 ≢ b → Lacks b s → Lacks b (spaces n s)
unfolding spaces
spaces-Lacks b zero s ne h = h
spaces-Lacks b (suc n) s ne h = (ne, spaces-Lacks b n s ne h)

trim_left-spaces : (n : ℕ) (s : Bytes) → trim_left is_space (spaces n s) ≡ trim_left is_space s
unfolding trim_left spaces
trim_left-spaces zero s = refl
trim_left-spaces (suc n) s = trim_left-spaces n s

trim_right_blank : (n : ℕ) → trim_right is_space (spaces n []) ≡ []
unfolding trim_right spaces
trim_right_blank zero = refl
trim_right_blank (suc n) = rw (trim_right_blank n) refl

trim_right_printed :
    (s : Bytes) (n : ℕ) → All IsPrinted s → trim_right is_space (s ++ spaces n []) ≡ s
unfolding trim_right
trim_right_printed [] n h = trim_right_blank n
trim_right_printed (c ∷ []) n (p, h) = rw (trim_right_blank n, printed_space c p) refl
trim_right_printed (c ∷ d ∷ s) n (p, h) = rw (trim_right_printed (d ∷ s) n h) refl

trim_right-spaces :
    (n : ℕ) (s : Bytes) (c : ℕ) (t : Bytes)
    → trim_right is_space s ≡ c ∷ t
    → trim_right is_space (spaces n s) ≡ spaces n (c ∷ t)
unfolding trim_right spaces
trim_right-spaces zero s c t e = e
trim_right-spaces (suc zero) s c t e = rw (e) refl
trim_right-spaces (suc (suc n)) s c t e = rw (trim_right-spaces (suc n) s c t e) refl

trim_left_printed : (c : ℕ) (s : Bytes) → IsPrinted c → trim_left is_space (c ∷ s) ≡ c ∷ s
unfolding trim_left
trim_left_printed c s p = rw (printed_space c p) refl

-- Spaces around a number are trimmed.
trim_space_printed :
    (n : ℕ) (s : Bytes) (m : ℕ)
    → s ≢ []
    → All IsPrinted s
    → trim_space (spaces n (s ++ spaces m [])) ≡ s
unfolding trim_space
trim_space_printed n [] m some_byte h = absurd (some_byte refl)
trim_space_printed n (c ∷ s) m some_byte (p, h) =
    rw (trim_right-spaces n _ c s (trim_right_printed (c ∷ s) m (p, h)), trim_left-spaces n (c ∷ s))
      (trim_left_printed c s p)

pub spaces-spaces : (n m : ℕ) (s : Bytes) → spaces n (spaces m s) ≡ spaces (n + m) s
unfolding spaces
spaces-spaces zero m s = ap {A = ℕ} (λ k. spaces k s) (omega arith)
spaces-spaces (suc n) m s =
    let count : suc (n + m) ≡ suc n + m = omega arith in
    ap (◌∷◌ 32) (spaces-spaces n m s) ∙ ap (λ k. spaces k s) count

-- The number is an `int`.
abbrev pub Fits : ℤ → Type 0
Fits (pos n) = n < 2 ^ 63
Fits (negsuc n) = n < 2 ^ 63

atoi-print_int : (x : ℤ) → Fits x → atoi (print_int x) ≡ (x, true)
atoi-print_int (pos n) h = atoi-itoa n h
atoi-print_int (negsuc n) h = atoi-minus n h

-- A number is read from its column.
pub atoi_column :
    (n : ℕ) (x : ℤ) (m : ℕ)
    → Fits x
    → atoi (trim_space (spaces n (pad 8 (print_int x) (spaces m [])))) ≡ (x, true)
atoi_column n x m h =
    rw
      (
        spaces-spaces n (8 - length (print_int x)) (print_int x ++ spaces m []),
        trim_space_printed (n + (8 - length (print_int x))) (print_int x) m (print_int-ne-nil x)
            (print_int-IsPrinted x),
      )
      (atoi-print_int x h)

-- The columns of numbers: `n` spaces before the first, `m` behind the last.
abbrev pub columns_of : ℕ → ℕ → List ℤ → List Bytes
columns_of n m [] = spaces n (spaces m []) ∷ []
columns_of n m (x ∷ []) = spaces n (pad 8 (print_int x) (spaces m [])) ∷ []
columns_of n m (x ∷ y ∷ xs) = spaces n (pad 8 (print_int x) (spaces 0 [])) ∷ columns_of 3 m (y ∷ xs)

number-Lacks :
    (b n : ℕ) (x : ℤ) (s : Bytes)
    → 32 ≢ b
    → (is_digit b || (b == b'-')) ≡ false
    → Lacks b s
    → Lacks b (spaces n (pad 8 (print_int x) s))
number-Lacks b n x s ne k h = spaces-Lacks b n _ ne (
    spaces-Lacks b (8 - length (print_int x)) _ ne (
      All-append (λ c. c ≢ b) (print_int x) s
        (printed-Lacks b (print_int x) k (print_int-IsPrinted x)) h))

pad-append :
    (n : ℕ) (x : ℤ) (rest : Bytes)
    → spaces n (pad 8 (print_int x) rest) ≡ spaces n (pad 8 (print_int x) (spaces 0 [])) ++ rest
unfolding spaces
pad-append n x rest =
    ap (spaces n) (
      ap (spaces (8 - length (print_int x))) (ap (λ t. t ++ rest) (sym (append-nil (print_int x))))
      ∙ sym (spaces-append (8 - length (print_int x)) (print_int x ++ []) rest))
    ∙ sym (spaces-append n _ rest)

pub split-cells :
    (n m : ℕ) (xs : List ℤ) → split b',' (spaces n (cells xs (spaces m []))) ≡ columns_of n m xs
unfolding cells spaces
split-cells n m [] =
    split-Lacks b',' _
      (spaces-Lacks b',' n _ (omega arith) (spaces-Lacks b',' m [] (omega arith) tt))
split-cells n m (x ∷ []) =
    split-Lacks b',' _
      (number-Lacks b',' n x _ (omega arith) refl (spaces-Lacks b',' m [] (omega arith) tt))
split-cells n m (x ∷ y ∷ xs) =
    ap (split b',') (pad-append n x _)
    ∙ split_first b',' (spaces n (pad 8 (print_int x) (spaces 0 []))) _
        (number-Lacks b',' n x [] (omega arith) refl tt)
    ∙ ap (◌∷◌ (spaces n (pad 8 (print_int x) (spaces 0 [])))) (split-cells 3 m (y ∷ xs))

pub length-columns_of :
    (n m k l : ℕ) (xs ys : List ℤ)
    → length xs ≡ length ys
    → length (columns_of n m xs) ≡ length (columns_of k l ys)
length-columns_of n m k l [] [] h = refl
length-columns_of n m k l [] (y ∷ ys) h = absurd (omega arith)
length-columns_of n m k l (x ∷ xs) [] h = absurd (omega arith)
length-columns_of n m k l (x ∷ []) (y ∷ []) h = refl
length-columns_of n m k l (x ∷ []) (y ∷ y' ∷ ys) h = absurd (omega arith)
length-columns_of n m k l (x ∷ x' ∷ xs) (y ∷ []) h = absurd (omega arith)
length-columns_of n m k l (x ∷ x' ∷ xs) (y ∷ y' ∷ ys) h =
    ap suc (length-columns_of 3 m 3 l (x' ∷ xs) (y' ∷ ys) (omega arith))

-- A line of numbers has no line end.
pub cells-Lacks : (n m : ℕ) (xs : List ℤ) → Lacks 10 (spaces n (cells xs (spaces m [])))
unfolding cells spaces
cells-Lacks n m [] = spaces-Lacks 10 n _ (omega arith) (spaces-Lacks 10 m [] (omega arith) tt)
cells-Lacks n m (x ∷ []) =
    number-Lacks 10 n x _ (omega arith) refl (spaces-Lacks 10 m [] (omega arith) tt)
cells-Lacks n m (x ∷ y ∷ xs) =
    number-Lacks 10 n x _ (omega arith) refl (omega arith, cells-Lacks 3 m (y ∷ xs))

-- The first line of a text that is not empty.
pub without_empty_first :
    (c : ℕ) (s rest : Bytes)
    → Lacks 10 (c ∷ s)
    → without_empty (split 10 ((c ∷ s) ++ 10 ∷ rest)) ≡ (c ∷ s) ∷ without_empty (split 10 rest)
unfolding without_empty
without_empty_first c s rest h = rw (split_first 10 (c ∷ s) rest h) refl

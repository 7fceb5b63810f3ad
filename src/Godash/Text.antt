-- ===== src/Godash/Text.antt =====
-- What godash uses of Go's `strings` and `strconv`. A text is the list of its bytes, which are ASCII.
pub mod Cuts
pub mod Decimal
use Prim.Native.Char.{code}
use Prim.Native.String.{String}
use rlnc_streaming.Base.{
  ℕ, zero, suc, ◌+◌, ◌-◌, ◌*◌, ◌/◌, ◌%◌, ◌^◌, ◌≢◌, List, [], ◌∷◌, ◌++◌, Bool, true, false, ◌&&◌,
  ◌||◌, ◌==◌, ltb, leb, length, if◌then◌else◌,
}
use rlnc_streaming.Godash.Int.{ℤ, pos, negsuc, difference}

abbrev pub Bytes : Type 0
Bytes = List ℕ

abbrev pub codes : String → Bytes
codes String.[] = []
codes (String.◌∷◌ c s) = code c ∷ codes s

-- `strings.HasPrefix`
unfoldable pub starts_with : Bytes → Bytes → Bool
starts_with [] s = true
starts_with (p ∷ ps) [] = false
starts_with (p ∷ ps) (c ∷ s) = (c == p) && starts_with ps s

-- `strings.Contains(s, part)`
unfoldable pub contains : Bytes → Bytes → Bool
contains part [] = starts_with part []
contains part (c ∷ s) = starts_with part (c ∷ s) || contains part s

-- `strings.Replace(s, old, new, -1)` for an `old` that is not empty; the number is that of the bytes of
-- an occurrence that are left out.
unfoldable pub replace_from : Bytes → Bytes → ℕ → Bytes → Bytes
replace_from old new skip [] = []
replace_from old new (suc k) (c ∷ s) = replace_from old new k s
replace_from old new zero (c ∷ s) = elim (starts_with old (c ∷ s)) [
  | true ↦ new ++ replace_from old new (length old - 1) s
  | false ↦ c ∷ replace_from old new 0 s
]

unfoldable pub replace_all : Bytes → Bytes → Bytes → Bytes
unfolding replace_from
replace_all old new s = replace_from old new 0 s

-- A byte in front of the first part.
abbrev pub onto_first : ℕ → List Bytes → List Bytes
onto_first c [] = (c ∷ []) ∷ []
onto_first c (p ∷ ps) = (c ∷ p) ∷ ps

-- `strings.Split` for a separator of one byte
unfoldable pub split : ℕ → Bytes → List Bytes
split sep [] = [] ∷ []
split sep (c ∷ s) = let rest = split sep s in if c == sep then [] ∷ rest else onto_first c rest

-- `strings.Join` for a separator of one byte
unfoldable pub join : ℕ → List Bytes → Bytes
join sep [] = []
join sep (p ∷ []) = p
join sep (p ∷ q ∷ ps) = p ++ (sep ∷ join sep (q ∷ ps))

-- `strings.TrimLeft` for the bytes of a test
unfoldable pub trim_left : (ℕ → Bool) → Bytes → Bytes
trim_left cut [] = []
trim_left cut (c ∷ s) = let rest = trim_left cut s in if cut c then rest else c ∷ s

abbrev pub put_unless_last : (ℕ → Bool) → ℕ → Bytes → Bytes
put_unless_last cut c [] = if cut c then [] else c ∷ []
put_unless_last cut c (d ∷ s) = c ∷ d ∷ s

-- `strings.TrimRight`
unfoldable pub trim_right : (ℕ → Bool) → Bytes → Bytes
trim_right cut [] = []
trim_right cut (c ∷ s) = put_unless_last cut c (trim_right cut s)

abbrev pub is_space : ℕ → Bool
is_space c = (c == 32) || (leb 9 c && leb c 13)

-- `strings.TrimSpace`
unfoldable pub trim_space : Bytes → Bytes
unfolding trim_left trim_right
trim_space s = trim_left is_space (trim_right is_space s)

-- What `strconv.ParseUint` finds, in 64 bits.
pub data Parsed : Type 0 where
  number : ℕ → Parsed
  bad_syntax too_big : Parsed

abbrev pub is_digit : ℕ → Bool
is_digit c = leb b'0' c && leb c b'9'

unfoldable pub scan : Bytes → ℕ → Parsed
scan [] n = number n
scan (c ∷ s) n =
    let value = n * 10 + (c - b'0') in
    let rest = scan s value in
    if is_digit c then if ltb value (2 ^ 64) then rest else too_big else bad_syntax

unfoldable pub parse_uint : Bytes → Parsed
unfolding scan
parse_uint [] = bad_syntax
parse_uint (c ∷ s) = scan (c ∷ s) 0

-- The value and whether there is no error, for a text with or without a minus.
abbrev pub signed : Bool → Parsed → ℤ × Bool
signed minus bad_syntax = (pos 0, false)
signed false too_big = (pos (2 ^ 63 - 1), false)
signed true too_big = (difference 0 (2 ^ 63), false)
signed false (number n) = if ltb n (2 ^ 63) then (pos n, true) else (pos (2 ^ 63 - 1), false)
signed true (number n) =
    if leb n (2 ^ 63) then (difference 0 n, true) else (difference 0 (2 ^ 63), false)

-- `strconv.Atoi`
unfoldable pub atoi : Bytes → ℤ × Bool
unfolding parse_uint
atoi [] = (pos 0, false)
atoi (c ∷ s) =
    if c == b'-'
    then signed true (parse_uint s)
    else if c == b'+'
    then signed false (parse_uint s)
    else signed false (parse_uint (c ∷ s))

-- The digits of a number in front of a text; a number below 10 ^ f has `f` digits or fewer.
unfoldable pub digits : ℕ → ℕ → Bytes → Bytes
digits zero n out = out
digits (suc f) n out =
    let out' = (b'0' + n % 10) ∷ out in
    let rest = digits f (n / 10) out' in if n / 10 == 0 then out' else rest

-- `strconv.Itoa` for a number that is not negative
unfoldable pub itoa : ℕ → Bytes
unfolding digits
itoa n = digits (suc n) n []

-- ===== src/Xnc/Transfer/Chunks.antt =====
-- xnc/server.go and xnc/client.go: the loop over the chunks, for either kind of packet.
use native.Mathlib.Nat.{mul-le-mul_left}
use mathlib.Core.List.{flatten}
use rlnc_streaming.Base.{
  ℕ, suc, ◌+◌, ◌-◌, ◌*◌, ◌≤◌, ◌<◌, ◌^◌, ◌≡◌, inl, inr, refl, ap₂, sym, ap, Bool, true, List, [],
  ◌∷◌, ◌++◌, ◌==◌, if◌then◌else◌, length, take, get_or, arith, ==_ne, ==_eq, take_all, append-nil,
  Bool-cases, take_nil, take_past,
}
use rlnc_streaming.Xnc.Sizes.{Sizes}
use rlnc_streaming.Xnc.Transfer.Frames.{Fits}

-- How many bytes of chunk `i` of `num` belong to a file of `total` bytes.
abbrev pub size_of : Sizes → ℕ → ℕ → ℕ → ℕ
size_of z total num i = if i + 1 == num then total - z.chunk * (num - 1) else z.chunk

-- The bytes of the chunks that arrive, joined.
abbrev pub kept_parts : {F : Type 0} → Sizes → (ℕ → Bool) → ℕ → ℕ → ℕ → List (List F) → List F
kept_parts z kept total num i [] = []
kept_parts z kept total num i (c ∷ cs) =
    (if kept i then take (size_of z total num i) c else [])
    ++ kept_parts z kept total num (suc i) cs

-- The file is as long as its chunks say, and its numbers fit the packets.
pub record IsCut (z : Sizes) (total num : ℕ) : Type 0 where
  pub num_fits : num < 2 ^ 32
  pub chunk_fits : z.chunk < 2 ^ 32
  pub enough : total ≤ z.chunk * num
  pub needed : 0 < num → z.chunk * (num - 1) < total

-- The rounds before the last leave more of the file.
full_size :
    (z : Sizes) (total num i : ℕ) → IsCut z total num → i + 1 < num → z.chunk * i + z.chunk < total
full_size z total num i cut h =
    let later : i + 1 ≤ num - 1 = omega arith in
    omega (arith, cut.needed (omega arith), mul-le-mul_left z.chunk later)

last_size :
    (z : Sizes) (total num : ℕ)
    → IsCut z total num
    → 0 < num
    → total - z.chunk * (num - 1) ≤ z.chunk
last_size z total num cut h =
    let next : z.chunk * num ≡ z.chunk * suc (num - 1) =
      ap {A = ℕ} (λ t. z.chunk * t) (omega arith) in
    omega (arith, next, cut.enough)

pub size_of-Fits :
    (z : Sizes) (total num i : ℕ)
    → IsCut z total num
    → i < num
    → Fits z (size_of z total num i) i num
size_of-Fits z total num i cut h = record {
  id_fits = omega (arith, cut.num_fits);
  num_fits = cut.num_fits;
  size_fits = omega (arith, inside, cut.chunk_fits);
  inside = inside;
}
  where
    inside : size_of z total num i ≤ z.chunk
    inside = elim (Bool-cases (i + 1 == num)) [
      | inl e ↦ rw e (last_size z total num cut (omega arith))
      | inr e ↦ rw e (omega arith)
    ]

-- All chunks of a file are the file.
pub kept_parts_all :
    {F : Type 0} (z : Sizes) (total num i : ℕ) (cs : List (List F))
    → IsCut z total num
    → i + length cs ≡ num
    → ((a : ℕ) → a < length cs → length (get_or cs a []) ≡ z.chunk)
    → kept_parts z (λ _. true) total num i cs ≡ take (total - z.chunk * i) (flatten cs)
unfolding flatten
kept_parts_all z total num i [] cut h sizes = sym (take_nil (total - z.chunk * i))
kept_parts_all z total num i (c ∷ []) cut h sizes =
    let at_end : num - 1 ≡ i = omega arith in
    rw (==_eq (i + 1) num (omega arith), at_end, append-nil c)
      (append-nil (take (total - z.chunk * i) c))
kept_parts_all z total num i (c ∷ d ∷ cs) cut h sizes =
    let width : length c ≡ z.chunk = sizes 0 (omega arith) in
    let long : z.chunk * i + z.chunk < total = full_size z total num i cut (omega arith) in
    rw
      (
        ==_ne (i + 1) num (omega arith),
        take_all z.chunk c (omega (arith, width)),
        kept_parts_all z total num (suc i) (d ∷ cs) cut (omega arith)
            (λ a l. sizes (suc a) (omega arith)),
        take_past (total - z.chunk * i) c (d ++ flatten cs) (omega (arith, width, long)),
      )
      (ap {A = ℕ} (λ t. c ++ take t (d ++ flatten cs)) (omega (arith, width, long)))

pub kept_parts_congr :
    {F : Type 0} (z : Sizes) (kept kept' : ℕ → Bool) (total num i : ℕ) (cs : List (List F))
    → ((j : ℕ) → i ≤ j → j < num → kept j ≡ kept' j)
    → i + length cs ≤ num
    → kept_parts z kept total num i cs ≡ kept_parts z kept' total num i cs
kept_parts_congr z kept kept' total num i [] same h = refl
kept_parts_congr z kept kept' total num i (c ∷ cs) same h =
    ap₂ ◌++◌
      (ap (λ t. if t then take (size_of z total num i) c else [])
        (same i (omega arith) (omega arith)))
      (kept_parts_congr z kept kept' total num (suc i) cs (λ j l m. same j (omega arith) m)
        (omega arith))

-- ===== src/Xnc/Split.antt =====
-- xnc/utils.go: the splitting of a file into chunks.
pub mod Chunks
use rlnc_streaming.Base.{
  ℕ, zero, suc, ◌+◌, ◌-◌, List, [], ◌∷◌, ◌++◌, ltb, if◌then◌else◌, length, take, drop, replicate,
}

-- `Min`
abbrev pub min_int : ℕ → ℕ → ℕ
min_int a b = if ltb a b then a else b

module _ {A : Type 0} (pad : A) where
  -- `append(chunkBytes, make([]byte, chunkSize-len(chunkBytes))...)`, if the chunk is short.
  unfoldable pub pad_chunk : ℕ → List A → List A
  pad_chunk size c = if ltb (length c) size then c ++ replicate (size - length c) pad else c

  -- The loop of `SpiltFile` from index `i` on, with fuel.
  unfoldable pub split_from : ℕ → ℕ → ℕ → List A → List (List A)
  split_from zero i size bytes = []
  split_from (suc fuel) i size bytes =
      let end = min_int (i + size) (i + length (drop i bytes)) in
      let rest =
        pad_chunk size (take (end - i) (drop i bytes)) ∷ split_from fuel (i + size) size bytes in
      if ltb i (length bytes) then rest else []

  -- `SpiltFile`. A chunk size of zero does not end in the source; the fuel is one round for each byte
  -- and one for the last test.
  unfoldable pub split_file : List A → ℕ → List (List A)
  split_file bytes size = split_from (length bytes + 1) 0 size bytes

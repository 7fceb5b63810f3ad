-- ===== src/Xnc/Split/Chunks.antt =====
-- xnc/utils.go: the chunks of a file and the file.
use mathlib.Core.List.{flatten}
use rlnc_streaming.Base.{
  ℕ, zero, suc, ◌+◌, ◌-◌, ◌*◌, ◌≤◌, ◌<◌, ◌≡◌, refl, sym, ap, ◌∙◌, subst, List, [], ◌∷◌, ◌++◌,
  length, take, drop, replicate, get_or, arith, length-append, length-take, length-drop,
  length-replicate, take_all, drop_all, drop-drop, take-append-drop, append_assoc, append-nil,
  lt→ltb, ltb-false, dec_lt,
}
use rlnc_streaming.Xnc.Split.{min_int, pad_chunk, split_from, split_file}

-- The end of a slice that starts at `i`, less `i`.
end_whole : (i size n : ℕ) → size ≤ n → min_int (i + size) (i + n) - i ≡ size
end_whole i size n h = ground arith

end_last : (i size n : ℕ) → n < size → min_int (i + size) (i + n) - i ≡ n
end_last i size n h = ground arith

module _ {A : Type 0} (pad : A) where
  -- The chunks are all of the size, and joined they are the bytes and fewer zeros than the size.
  pub record IsChunking (size : ℕ) (bytes : List A) (chunks : List (List A)) : Type 0 where
    pub zeros : ℕ
    pub few : zeros < size
    pub joined : flatten chunks ≡ bytes ++ replicate zeros pad
    pub sizes : (a : ℕ) → a < length chunks → length (get_or chunks a []) ≡ size
    pub count : length chunks * size ≡ length bytes + zeros

  no_chunks : (size : ℕ) → 0 < size → IsChunking size [] []
  unfolding flatten
  no_chunks size h = record {
    zeros = 0;
    few = h;
    joined = refl;
    sizes = λ a l. absurd (omega arith);
    count = omega arith;
  }

  -- A first chunk that needs no padding.
  full_chunk :
      (size : ℕ) (bytes : List A) (chunks : List (List A))
      → size ≤ length bytes
      → IsChunking size (drop size bytes) chunks
      → IsChunking size bytes (take size bytes ∷ chunks)
  unfolding flatten
  full_chunk size bytes chunks h c = record {
    zeros = c.zeros;
    few = c.few;
    joined =
        ap (λ x. take size bytes ++ x) c.joined
        ∙ sym (append_assoc (take size bytes) (drop size bytes) (replicate c.zeros pad))
        ∙ ap (λ x. x ++ replicate c.zeros pad) (take-append-drop size bytes);
    sizes = λ a l.
        elim a
            as (λ a.
              a < length (take size bytes ∷ chunks)
              → length (get_or (take size bytes ∷ chunks) a []) ≡ size) [
                | zero ↦ λ l. omega (arith, length-take size bytes)
                | suc b ↦ λ l. c.sizes b (omega arith)
              ]
          l;
    count = omega (arith, c.count, length-drop size bytes);
  }

  -- The last chunk, which is filled up.
  last_chunk :
      (size : ℕ) (bytes : List A)
      → 0 < length bytes
      → length bytes < size
      → IsChunking size bytes ((bytes ++ replicate (size - length bytes) pad) ∷ [])
  unfolding flatten
  last_chunk size bytes some h = record {
    zeros = size - length bytes;
    few = omega arith;
    joined = append-nil (bytes ++ replicate (size - length bytes) pad);
    sizes = λ a l.
        elim a
            as (λ a.
              a < 1
              → length (get_or ((bytes ++ replicate (size - length bytes) pad) ∷ []) a []) ≡ size) [
                | zero ↦ λ l. omega (
                  arith,
                  length-append bytes (replicate (size - length bytes) pad),
                  length-replicate (size - length bytes) pad,
                )
                | suc b ↦ λ l. absurd (omega arith)
              ]
          l;
    count = omega arith;
  }

  split_from_end :
      (fuel i size : ℕ) (bytes : List A) → length bytes ≤ i → split_from pad fuel i size bytes ≡ []
  unfolding split_from
  split_from_end zero i size bytes h = refl
  split_from_end (suc fuel) i size bytes h = rw (ltb-false i (length bytes) h) refl

  split_from-IsChunking :
      (fuel i size : ℕ) (bytes : List A)
      → 0 < size
      → length bytes < i + fuel
      → IsChunking size (drop i bytes) (split_from pad fuel i size bytes)
  unfolding split_from pad_chunk
  split_from-IsChunking zero i size bytes h l =
      rw (drop_all i bytes (omega arith)) (no_chunks size h)
  split_from-IsChunking (suc fuel) i size bytes h l = elim (dec_lt i (length bytes)) [
    | no q ↦
        rw (ltb-false i (length bytes) (omega arith), drop_all i bytes (omega arith))
          (no_chunks size h)
    | yes q ↦ elim (dec_lt (length (drop i bytes)) size) [
      | yes m ↦
          rw
            (
              lt→ltb i (length bytes) q,
              end_last i size (length (drop i bytes)) m,
              take_all (length (drop i bytes)) (drop i bytes) (omega arith),
              lt→ltb (length (drop i bytes)) size m,
              split_from_end fuel (i + size) size bytes (omega (arith, length-drop i bytes)),
            )
            (last_chunk size (drop i bytes) (omega (arith, length-drop i bytes)) m)
      | no m ↦
          let long : size ≤ length (drop i bytes) = omega arith in
          rw
            (
              lt→ltb i (length bytes) q,
              end_whole i size (length (drop i bytes)) long,
              ltb-false (length (take size (drop i bytes))) size
                  (omega (arith, length-take size (drop i bytes))),
            )
            (full_chunk size (drop i bytes) (split_from pad fuel (i + size) size bytes) long (
              subst (λ t. IsChunking size t (split_from pad fuel (i + size) size bytes))
                (sym (drop-drop i size bytes))
                (split_from-IsChunking fuel (i + size) size bytes h (omega arith))))
    ]
  ]

  -- For a chunk size that is not zero, all chunks of `SpiltFile` have that size, and joined they are
  -- the file followed by zeros, fewer than the size.
  pub split_file-IsChunking :
      (bytes : List A) (size : ℕ) → 0 < size → IsChunking size bytes (split_file pad bytes size)
  unfolding split_file
  split_file-IsChunking bytes size h =
      split_from-IsChunking (length bytes + 1) 0 size bytes h (omega arith)

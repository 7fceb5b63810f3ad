-- ===== src/Xnc/Packet/Layout.antt =====
-- xnc/xnc.go: where the parts of a packet stand.
use rlnc_streaming.Base.{
  ℕ, ◌+◌, ◌*◌, ◌/◌, ◌%◌, ◌^◌, ◌≤◌, ◌<◌, ◌≡◌, sym, ap, ◌∙◌, List, ◌∷◌, ◌++◌, length, take, drop,
  arith, drop-drop,
}
use rlnc_streaming.Run.{ok, slice, slice-ok}
use rlnc_streaming.Xnc.Packet.{put_uint32, get_uint32}

-- A number below 2^32 is read back from its four bytes.
pub get_uint32-put_uint32 : (n : ℕ) → get_uint32 (put_uint32 n) ≡ ok (n % 2 ^ 32)
get_uint32-put_uint32 n = ap ok (omega arith)

-- A frame: the header and what follows it.
abbrev pub frame_of : ℕ → ℕ → ℕ → ℕ → List ℕ → List ℕ
frame_of kind id size num body =
    kind ∷ ((put_uint32 id ++ put_uint32 size ++ put_uint32 num) ++ body)

module _ (kind id size num : ℕ) (body : List ℕ) where
  pub id_slice : slice 1 5 (frame_of kind id size num body) ≡ ok (put_uint32 id)
  id_slice = slice-ok 1 5 (frame_of kind id size num body) (omega arith) (omega arith)

  pub size_slice : slice 5 9 (frame_of kind id size num body) ≡ ok (put_uint32 size)
  size_slice = slice-ok 5 9 (frame_of kind id size num body) (omega arith) (omega arith)

  pub num_slice : slice 9 13 (frame_of kind id size num body) ≡ ok (put_uint32 num)
  num_slice = slice-ok 9 13 (frame_of kind id size num body) (omega arith) (omega arith)

  -- A cut of the part behind the header.
  pub body_slice :
      (lo n : ℕ)
      → lo + n ≤ length body
      → slice (13 + lo) (13 + lo + n) (frame_of kind id size num body) ≡ ok (take n (drop lo body))
  body_slice lo n h =
      slice-ok (13 + lo) (13 + lo + n) (frame_of kind id size num body) (omega arith) (omega arith)
      ∙ ap ok (
          ap {A = ℕ} (λ t. take t (drop (13 + lo) (frame_of kind id size num body))) {y = n}
            (omega arith)
          ∙ ap (take n) (sym (drop-drop 13 lo (frame_of kind id size num body))))

pub word :
    (n : ℕ)
    → n < 2 ^ 32
    → n / 2 ^ 24 % 256 * 2 ^ 24 + n / 2 ^ 16 % 256 * 2 ^ 16 + n / 2 ^ 8 % 256 * 2 ^ 8 + n % 256 ≡ n
word n h = omega arith

-- ===== src/Xnc/Sizes.antt =====
-- xnc/config.go and the variables of xnc/xnc.go.
use rlnc_streaming.Base.{ℕ, ◌+◌, ◌*◌, ◌/◌, ◌^◌, ◌≤◌, ◌≡◌, arith}

-- `CHUNKSIZE`, `VECTORSIZE` and `PIECESIZE`.
pub record Sizes : Type 0 where
  pub chunk : ℕ
  pub vector : ℕ
  pub piece : ℕ

-- Their values: 16384, 16 and 1024.
abbrev pub program_sizes : Sizes
program_sizes = record { chunk = 2 ^ 14; vector = 2 ^ 14 / 1024; piece = 2 ^ 14 / (2 ^ 14 / 1024) }

-- TYPESIZE + IDSIZE + NUMSIZE + FILESIZESIZE
abbrev pub header_size : ℕ
header_size = 13

-- `FRAMESIZE_ENC`
abbrev pub frame_size_enc : Sizes → ℕ
frame_size_enc z = header_size + z.vector + z.piece

-- `FRAMESIZE`
abbrev pub frame_size : Sizes → ℕ
frame_size z = header_size + z.piece

-- `INITSIZE`
abbrev pub init_size : ℕ
init_size = 128

-- `PIECECNT`
abbrev pub piece_cnt : Sizes → ℕ
piece_cnt z = z.vector

-- `CODEDPIECECNT`
abbrev pub coded_piece_cnt : Sizes → ℕ
coded_piece_cnt z = piece_cnt z + 1

abbrev pub type_init_enc : ℕ
type_init_enc = 3

abbrev pub type_init : ℕ
type_init = 4

abbrev pub type_xnc_enc : ℕ
type_xnc_enc = 5

abbrev pub type_xnc : ℕ
type_xnc = 6

abbrev pub type_end : ℕ
type_end = 7

-- What the other parts rely on: a chunk is as many pieces as a coding vector has entries.
pub record IsSane (z : Sizes) : Type 0 where
  pub whole : z.chunk ≡ z.vector * z.piece
  pub two : 2 ≤ z.vector
  pub positive : 1 ≤ z.piece

pub program_sizes-IsSane : IsSane program_sizes
program_sizes-IsSane = omega arith

-- ===== src/Xnc/Transfer/Files.antt =====
-- xnc/server.go and xnc/client.go: whole files.
use native.Mathlib.Nat.{mul-le-mul_left, mul-le-mul_right}
use mathlib.Core.List.{flatten}
use rlnc_streaming.Base.{
  ℕ, suc, ◌-◌, ◌*◌, ◌≤◌, ◌<◌, ◌^◌, ◌≡◌, refl, sym, ap, ◌∙◌, subst, true, false, List, [], ◌++◌,
  none, length, take, replicate, get_or, arith, take_past, append-nil, dec_lt,
}
use rlnc_streaming.Run.{ok}
use rlnc_streaming.Field.{Field}
use rlnc_streaming.Xnc.Sizes.{Sizes, IsSane}
use rlnc_streaming.Xnc.Split.{split_file}
use rlnc_streaming.Xnc.Split.Chunks.{IsChunking, split_file-IsChunking}
use rlnc_streaming.Xnc.Server.{Symbols, send_chunk, send_file}
use rlnc_streaming.Xnc.Client.{ClientState, receive, start}
use rlnc_streaming.Xnc.Transfer.Chunks.{IsCut, size_of, size_of-Fits, kept_parts, kept_parts_all}
use rlnc_streaming.Xnc.Transfer.Frames.{Leads, finished}
use rlnc_streaming.Xnc.Transfer.Loop.{Round, rounds_received}
use rlnc_streaming.Xnc.Transfer.Plain.{plain_frames}

-- The file and the chunk size fit the four bytes that a packet has for them.
pub record IsSmall (z : Sizes) (total : ℕ) : Type 0 where
  pub total_fits : total < 2 ^ 32
  pub chunk_fits : z.chunk < 2 ^ 32

module _ {F : Type 0} ⦃g : Field F⦄ (z : Sizes) (sane : IsSane z) (bytes : List F)
    (small : IsSmall z (length bytes)) where
  abbrev pub chunks_of : List (List F)
  chunks_of = split_file g.zero bytes z.chunk

  chunk_positive : 0 < z.chunk
  chunk_positive =
      omega (arith, sane.whole, sane.two, sane.positive, mul-le-mul_left z.vector sane.positive)

  pub chunking : IsChunking g.zero z.chunk bytes chunks_of
  chunking = split_file-IsChunking g.zero bytes z.chunk chunk_positive

  last_needed : 0 < length chunks_of → z.chunk * (length chunks_of - 1) < length bytes
  last_needed h =
      let next : z.chunk * length chunks_of ≡ z.chunk * suc (length chunks_of - 1) =
        ap {A = ℕ} (λ t. z.chunk * t) (omega arith) in
      omega (arith, next, chunking.count, chunking.few)

  few_chunks : length chunks_of ≤ length bytes
  few_chunks = elim (dec_lt 0 (length chunks_of)) [
    | no h ↦ omega arith
    | yes h ↦ omega (arith, last_needed h, mul-le-mul_right (length chunks_of - 1) chunk_positive)
  ]

  pub file-IsCut : IsCut z (length bytes) (length chunks_of)
  file-IsCut = record {
    num_fits = omega (arith, few_chunks, small.total_fits);
    chunk_fits = small.chunk_fits;
    enough = omega (arith, chunking.count);
    needed = last_needed;
  }

  -- All chunks kept are the file.
  pub all_kept : kept_parts z (λ _. true) (length bytes) (length chunks_of) 0 chunks_of ≡ bytes
  all_kept =
      kept_parts_all z (length bytes) (length chunks_of) 0 chunks_of file-IsCut (omega arith)
        chunking.sizes
      ∙ ap {A = ℕ} (λ t. take t (flatten chunks_of)) {x = length bytes - z.chunk * 0}
          {y = length bytes} (omega arith)
      ∙ ap (take (length bytes)) chunking.joined
      ∙ take_past (length bytes) bytes (replicate chunking.zeros g.zero) (omega arith)
      ∙ ap {A = ℕ} (λ t. bytes ++ take t (replicate chunking.zeros g.zero))
          {x = length bytes - length bytes} {y = 0} (omega arith)
      ∙ append-nil bytes

  module _ (b : Symbols F) (rands : ℕ → ℕ → ℕ → List F) where
    -- Between two chunks the client of a plain transfer holds nothing but the file.
    abbrev IsBetween : ℕ → ClientState F → Type 0
    IsBetween i s = (s.chunk ≡ []) × (s.decoders ≡ none)

    plain-Round :
        (i : ℕ) (s : ClientState F)
        → i < length chunks_of
        → IsBetween i s
        → Round b z false rands (length bytes) chunks_of IsBetween (λ _. true) i s
    unfolding send_chunk
    plain-Round i s h (no_chunk, no_decoders) =
        let size = size_of z (length bytes) (length chunks_of) i in
        let chunk = get_or chunks_of i [] in
        let (fs, sends, leads) =
          plain_frames b z sane size i (length chunks_of)
            (size_of-Fits z (length bytes) (length chunks_of) i file-IsCut h) chunk
            (chunking.sizes i h ∙ sane.whole) s.rfile in
        record {
          frames = fs;
          sends = sends;
          next = record { rfile = s.rfile ++ take size chunk; chunk = []; decoders = none };
          ready = (refl, refl);
          file = refl;
          leads =
              subst
                (λ t. Leads b z false fs t (
                  finished size i (length chunks_of) chunk
                    (record { rfile = s.rfile; chunk = []; decoders = none })))
                (λ k. record {
                  rfile = s.rfile;
                  chunk = sym no_chunk k;
                  decoders = sym no_decoders k;
                })
                leads;
        }

    -- For a chunk size that is as many pieces as a coding vector has entries, and a file below 4 GiB: the
    -- server writes all packets of the file without coding, and the client that reads them returns the
    -- file.
    pub plain_file :
        (receive b z false (send_file b z false rands bytes).frames start ≡ ok bytes)
        × ((send_file b z false rands bytes).ended ≡ ok true)
    unfolding send_file
    plain_file =
        let (file, all) =
          rounds_received b z false rands (length bytes) chunks_of IsBetween (λ _. true) plain-Round
            start (refl, refl) (send_file b z false rands bytes) refl in
        (file ∙ ap ok all_kept, all)

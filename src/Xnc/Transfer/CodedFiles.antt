-- ===== src/Xnc/Transfer/CodedFiles.antt =====
-- xnc/server.go and xnc/client.go: whole files that are encoded.
use native.Mathlib.Nat.{mul-le-mul_left}
use mathlib.Core.List.{flatten}
use rlnc_streaming.Base.{
  ℕ, ◌*◌, ◌≤◌, ◌<◌, ◌≡◌, refl, ap, ◌∙◌, Bool, true, List, [], ◌++◌, if◌then◌else◌, length, take,
  replicate, get_or, arith, length-replicate, get_or-replicate, length-append, take_within,
  leb-false,
}
use rlnc_streaming.Run.{ok, Returns-inv}
use rlnc_streaming.Field.{Field}
use rlnc_streaming.Xnc.Transfer.Frames.{Fits}
use rlnc_streaming.Kodr.Elimination.{range_from}
use rlnc_streaming.Kodr.Full.Decoder.{new_full_decoder, is_decoded}
use rlnc_streaming.Kodr.Full.Decoder.Correct.{new-IsConsistent}
use rlnc_streaming.Kodr.Full.Complete.{SpansRandom, transfer_complete}
use rlnc_streaming.Xnc.Sizes.{Sizes, IsSane, piece_cnt, coded_piece_cnt}
use rlnc_streaming.Xnc.Server.{Symbols, send_chunk, send_pieces, send_file}
use rlnc_streaming.Xnc.Client.{ClientState, decoders_for, receive, start}
use rlnc_streaming.Xnc.Transfer.Chunks.{size_of, size_of-Fits, kept_parts, kept_parts_congr}
use rlnc_streaming.Xnc.Transfer.Loop.{Round, rounds_received}
use rlnc_streaming.Xnc.Transfer.Coded.{Offered, pieces-Offered}
use rlnc_streaming.Xnc.Transfer.Files.{IsSmall, chunks_of, chunking, file-IsCut, all_kept}
use rlnc_streaming.Xnc.Transfer.CodedChunk.{sources, arrives, AllFill-map, CodedChunk, coded_chunk}

module _ {F : Type 0} ⦃g : Field F⦄ (b : Symbols F) (z : Sizes) (sane : IsSane z) (bytes : List F)
    (small : IsSmall z (length bytes)) (rands : ℕ → ℕ → ℕ → List F)
    (fill : (i j k : ℕ) → length (rands i j k) ≡ k) where
  abbrev chunks : List (List F)
  chunks = chunks_of z sane bytes small

  -- The decoders of the chunks from `i` on have taken nothing yet.
  pub record IsReady (i : ℕ) (s : ClientState F) : Type 0 where
    pub number : length (decoders_for z (length chunks) s.decoders) ≡ length chunks
    pub unused :
        (j : ℕ)
        → i ≤ j
        → get_or (decoders_for z (length chunks) s.decoders) j (new_full_decoder (piece_cnt z))
          ≡ new_full_decoder (piece_cnt z)

  start-IsReady : IsReady 0 start
  unfolding decoders_for
  start-IsReady = record {
    number = length-replicate (length chunks) (new_full_decoder (piece_cnt z));
    unused = λ j h. get_or-replicate (length chunks) j (new_full_decoder (piece_cnt z));
  }

  abbrev kept : ℕ → Bool
  kept i = arrives z (rands i) (get_or chunks i [])

  coded-Round :
      (i : ℕ) (s : ClientState F)
      → i < length chunks
      → IsReady i s
      → Round b z true rands (length bytes) chunks IsReady kept i s
  unfolding send_chunk send_pieces
  coded-Round i s h ready = record {
    frames = o.frames;
    sends = rw c.made o.sends;
    next = o.next;
    ready = record {
      number = o.only.same_number ∙ ready.number;
      unused = λ j l. o.only.others j (λ e. omega (arith, e, l)) ∙ ready.unused j (omega arith);
    };
    file =
        o.file
        ∙ rw (c.taken o.decoder o.offered)
            (ap (λ t. s.rfile ++ (if is_decoded o.decoder then t else [])) cut);
    leads = rw (c.taken o.decoder o.offered) o.leads;
  }
    where
      chunk : List F
      chunk = get_or chunks i []

      size : ℕ
      size = size_of z (length bytes) (length chunks) i

      fits : Fits z size i (length chunks)
      fits = size_of-Fits z (length bytes) (length chunks) i (file-IsCut z sane bytes small) h

      width : length chunk ≡ z.chunk
      width = (chunking z sane bytes small).sizes i h

      c : CodedChunk z (rands i) chunk
      c = coded_chunk z (rands i) chunk sane (fill i) (width ∙ sane.whole)

      long : size ≤ length (flatten c.pieces)
      long = omega (
        arith,
        ap length c.joined,
        length-append chunk (replicate c.zeros g.zero),
        fits.inside,
        width,
      )

      cut : take size (flatten c.pieces) ≡ take size chunk
      cut =
          ap (take size) c.joined
          ∙ take_within size chunk (replicate c.zeros g.zero) (omega (arith, fits.inside, width))

      o :
          Offered b z sane size i
            (length chunks)
            fits
            c.pieces
            c.shape
            c.coded
            s
            (new_full_decoder (piece_cnt z))
      o =
          pieces-Offered b z sane size i (length chunks) fits c.pieces c.shape c.coded s
            (new_full_decoder (piece_cnt z)) 0
            (new-IsConsistent c.pieces z.vector z.piece (omega (arith, sane.two))) c.from
            (record {
              inside = omega (arith, ready.number, h);
              current = ready.unused i (omega arith);
            })
            (leb-false z.vector 0 (omega (arith, sane.two))) long

  -- For a chunk size that is as many pieces as a coding vector has entries, a file below 4 GiB and random
  -- bytes that fill what they are asked for: the server writes all packets of the encoded file, and the
  -- client that reads them returns, without an error, the chunks whose coded pieces complete their
  -- decoders, joined in their order. The other chunks are left out.
  pub coded_file_kept :
      (receive b z true (send_file b z true rands bytes).frames start
        ≡ ok (kept_parts z kept (length bytes) (length chunks) 0 chunks))
      × ((send_file b z true rands bytes).ended ≡ ok true)
  unfolding send_file
  coded_file_kept =
      rounds_received b z true rands (length bytes) chunks IsReady kept coded-Round start
        start-IsReady (send_file b z true rands bytes) refl

  -- The same, if the random coding vectors of each chunk span all vectors of their length: the client
  -- returns the file.
  pub coded_file :
      ((i : ℕ) → i < length chunks → SpansRandom z.vector (sources z (rands i)))
      → (receive b z true (send_file b z true rands bytes).frames start ≡ ok bytes)
        × ((send_file b z true rands bytes).ended ≡ ok true)
  coded_file spans = (
    coded_file_kept.0
        ∙ ap ok (
            kept_parts_congr z kept (λ _. true) (length bytes) (length chunks) 0 chunks
              (λ i h l. complete i l) (omega arith)
            ∙ all_kept z sane bytes small),
    coded_file_kept.1,
  )
    where
      complete : (i : ℕ) → i < length chunks → kept i ≡ true
      complete i h =
          let whole : length (get_or chunks i []) ≡ z.vector * z.piece =
            (chunking z sane bytes small).sizes i h ∙ sane.whole in
          let (r, run, arrived) = Returns-inv (
            transfer_complete (get_or chunks i []) z.vector (sources z (rands i)) sane.two
              (omega (arith, whole, mul-le-mul_left z.vector sane.positive))
              (AllFill-map (rands i) (range_from 0 (coded_piece_cnt z)) (fill i)) (spans i h)) in
          rw run arrived.0

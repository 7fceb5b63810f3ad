-- ===== src/Xnc/Transfer/Plain.antt =====
-- xnc/server.go and xnc/client.go: a file that is not encoded.
use native.Mathlib.Nat.{mul-le-mul_right}
use rlnc_streaming.Base.{
  ℕ, zero, suc, ◌+◌, ◌-◌, ◌*◌, ◌≤◌, ◌<◌, ◌≡◌, inr, refl, ap, ◌∙◌, subst, false, List, [], ◌∷◌, ◌++◌,
  map, none, ◌==◌, if◌then◌else◌, length, take, drop, arith, ==_ne, ==_eq, take_all, take-add,
  length-take, length-drop, length-map,
}
use rlnc_streaming.Run.{ok, slice, slice-ok}
use rlnc_streaming.Field.{Field}
use rlnc_streaming.Xnc.Sizes.{Sizes, IsSane, type_xnc}
use rlnc_streaming.Xnc.Packet.{Xnc}
use rlnc_streaming.Xnc.Server.{Symbols, get_xnc_pkt, write_packet, send_plain}
use rlnc_streaming.Xnc.Client.{ClientState, Outcome, finish_chunk, on_frame, on_plain}
use rlnc_streaming.Xnc.Transfer.Frames.{
  Fits, Sends, Sends-nothing, Sends-and_then, Sends-write_packet, packet_frame, map-of_byte,
  finished, finish_chunk-ok, Leads, Leads-on_frame, Leads-append,
}

module _ {F : Type 0} ⦃g : Field F⦄ (b : Symbols F) (z : Sizes) (sane : IsSane z) (size id num : ℕ)
    (fits : Fits z size id num) (chunk : List F) (whole : length chunk ≡ z.vector * z.piece) where
  -- The client has the first `s` pieces of the chunk.
  abbrev halfway : List F → ℕ → ClientState F
  halfway rfile s = record { rfile = rfile; chunk = take (s * z.piece) chunk; decoders = none }

  abbrev after : List F → ClientState F
  after rfile = record { rfile = rfile; chunk = []; decoders = none }

  abbrev piece_at : ℕ → List F
  piece_at s = take z.piece (drop (s * z.piece) chunk)

  abbrev packet_at : ℕ → Xnc
  packet_at s = record {
    kind = type_xnc;
    chunk_id = id;
    chunk_num = num;
    chunk_size = size;
    vector = [];
    piece = map b.to_byte (piece_at s);
    ended = false;
  }

  module _ (s : ℕ) (inside : s < z.vector) where
    room : s * z.piece + z.piece ≤ length chunk
    room = grind (arith, whole)

    slice_piece : slice (s * z.piece) ((s + 1) * z.piece) chunk ≡ ok (piece_at s)
    slice_piece =
        let step : (s + 1) * z.piece - s * z.piece ≡ z.piece = omega arith in
        slice-ok (s * z.piece) ((s + 1) * z.piece) chunk (omega arith) (omega (arith, room))
        ∙ ap {A = ℕ} (λ t. ok (take t (drop (s * z.piece) chunk))) step

    length-piece_at : length (map b.to_byte (piece_at s)) ≡ z.piece
    length-piece_at = omega (
      arith,
      room,
      length-map (piece_at s) b.to_byte,
      length-take z.piece (drop (s * z.piece) chunk),
      length-drop (s * z.piece) chunk,
    )

    joined : take (s * z.piece) chunk ++ piece_at s ≡ take (suc s * z.piece) chunk
    joined = take-add (s * z.piece) z.piece chunk ∙ ap {A = ℕ} (λ t. take t chunk) (omega arith)

    -- The frame of the piece, and what the client makes of it.
    piece_frame :
        (rfile : List F)
        → (f : List ℕ) × (get_xnc_pkt z size id num (map b.to_byte (piece_at s)) ≡ ok f)
          × (on_frame b z false f (halfway rfile s) ≡ (
              if length (take (suc s * z.piece) chunk) == z.chunk
              then finish_chunk (packet_at s) (take (suc s * z.piece) chunk) (after rfile)
              else ok (Outcome.more (halfway rfile (suc s)))))
    unfolding get_xnc_pkt on_frame on_plain
    piece_frame rfile =
        let (f, enc, dec) =
          packet_frame z (packet_at s)
            (record {
              id_fits = fits.id_fits;
              num_fits = fits.num_fits;
              size_fits = fits.size_fits;
              running = refl;
            })
            (inr (refl, refl, length-piece_at)) in
        (f, enc, rw (dec, map-of_byte b (piece_at s), joined) refl)

    middle_piece :
        (rfile : List F)
        → suc s < z.vector
        → (f : List ℕ) × Sends
            (f ∷ [])
            (write_packet (get_xnc_pkt z size id num (map b.to_byte (piece_at s))))
          × Leads b z false (f ∷ []) (halfway rfile s) (Outcome.more (halfway rfile (suc s)))
    middle_piece rfile h =
        let (f, enc, run) = piece_frame rfile in
        (
          f,
          Sends-write_packet _ enc,
          Leads-on_frame b z false f _ _ (
              run
              ∙ rw
                  (==_ne (length (take (suc s * z.piece) chunk)) z.chunk (λ e. omega (
                    arith,
                    mul-le-mul_right z.piece h,
                    e,
                    length-take (suc s * z.piece) chunk,
                    whole,
                    sane.whole,
                    sane.positive,
                  )))
                  refl),
        )

    last_piece :
        (rfile : List F)
        → suc s ≡ z.vector
        → (f : List ℕ) × Sends
            (f ∷ [])
            (write_packet (get_xnc_pkt z size id num (map b.to_byte (piece_at s))))
          × Leads b z false (f ∷ []) (halfway rfile s) (finished size id num chunk (after rfile))
    last_piece rfile h =
        let (f, enc, run) = piece_frame rfile in
        let all : take (suc s * z.piece) chunk ≡ chunk =
          take_all (suc s * z.piece) chunk (omega (arith, whole, ap (λ t. t * z.piece) h)) in
        (
          f,
          Sends-write_packet _ enc,
          Leads-on_frame b z false f _ _ (
              run
              ∙ rw (all, ==_eq (length chunk) z.chunk (omega (arith, whole, sane.whole)))
                  (finish_chunk-ok (packet_at s) chunk (after rfile)
                    (omega (arith, whole, sane.whole, fits.inside)))),
        )

  -- The pieces from `s` on, `n` and one more.
  pieces_frames :
      (n s : ℕ) (rfile : List F)
      → s + suc n ≡ z.vector
      → (fs : List (List ℕ)) × Sends fs (send_plain b z size id num (suc n) s chunk)
        × Leads b z false fs (halfway rfile s) (finished size id num chunk (after rfile))
  unfolding send_plain
  pieces_frames zero s rfile h =
      let (f, sends, leads) = last_piece s (omega arith) rfile (omega arith) in
      rw (slice_piece s (omega arith)) (f ∷ [], Sends-and_then _ _ sends Sends-nothing, leads)
  pieces_frames (suc n) s rfile h =
      let (f, sends, leads) = middle_piece s (omega arith) rfile (omega arith) in
      let (fs, sends', leads') = pieces_frames n (suc s) rfile (omega arith) in
      rw (slice_piece s (omega arith)) (
        f ∷ fs,
        Sends-and_then _ _ sends sends',
        Leads-append b z false (f ∷ []) fs _ _ _ leads leads',
      )

  -- The frames of a chunk bring the client from one chunk to the next.
  pub plain_frames :
      (rfile : List F)
      → (fs : List (List ℕ)) × Sends fs (send_plain b z size id num z.vector 0 chunk)
        × Leads b z false fs (after rfile) (finished size id num chunk (after rfile))
  plain_frames rfile =
      let some : suc (z.vector - 1) ≡ z.vector = omega (arith, sane.two) in
      let none_yet : take (0 * z.piece) chunk ≡ [] =
        ap {A = ℕ} (λ t. take t chunk) {x = 0 * z.piece} {y = 0} (omega arith) in
      subst
        (λ n.
          (fs : List (List ℕ)) × Sends fs (send_plain b z size id num n 0 chunk)
          × Leads b z false fs (after rfile) (finished size id num chunk (after rfile)))
        some
        (subst
          (λ c.
            (fs : List (List ℕ)) × Sends fs
              (send_plain b z size id num (suc (z.vector - 1)) 0 chunk)
            × Leads b z false fs (record { rfile = rfile; chunk = c; decoders = none })
                (finished size id num chunk (after rfile)))
          none_yet (pieces_frames (z.vector - 1) 0 rfile (omega (arith, sane.two))))

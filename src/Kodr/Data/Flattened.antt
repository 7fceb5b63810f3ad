-- ===== src/Kodr/Data/Flattened.antt =====
-- `Flatten` and `CodedPiecesForRecoding` of kodr/data.go.
use native.Mathlib.Nat.{div-eq_of_lt-le}
use rlnc_streaming.Base.{
  ℕ, suc, ◌+◌, ◌-◌, ◌*◌, ◌/◌, ◌<◌, ◌≡◌, refl, sym, ap, ◌∙◌, List, [], ◌∷◌, ◌++◌, map, length, take,
  drop, arith, length-append, length-drop, take-append, drop-append, drop-drop, lt→ltb, ==_refl,
  ==_ne, take_all,
}
use rlnc_streaming.Run.{ok, slice-ok}
use rlnc_streaming.Kodr.Data.{
  CodedPiece, flatten, pieces_from, cut_piece, cut_pieces, coded_pieces_for_recoding,
}

module _ {F : Type 0} where
  -- The flattened pieces, one behind the other.
  unfoldable pub joined : List (CodedPiece F) → List F
  joined [] = []
  joined (p ∷ ps) = flatten p ++ joined ps

  -- All pieces have coding vectors of `k` symbols and parts of `w`.
  abbrev pub AllSized : ℕ → ℕ → List (CodedPiece F) → Type 0
  AllSized k w [] = Unit {0}
  AllSized k w (p ∷ ps) = ((length p.vector ≡ k) × (length p.piece ≡ w)) × AllSized k w ps

  length-flatten :
      (k w : ℕ) (p : CodedPiece F)
      → (length p.vector ≡ k) × (length p.piece ≡ w)
      → length (flatten p) ≡ k + w
  unfolding flatten
  length-flatten k w p (hv, hp) = omega (arith, length-append p.vector p.piece)

  length-joined :
      (k w : ℕ) (ps : List (CodedPiece F))
      → AllSized k w ps
      → length (joined ps) ≡ (k + w) * length ps
  unfolding joined
  length-joined k w [] all = omega arith
  length-joined k w (p ∷ ps) (h, all) = grind (
    arith,
    length-append (flatten p) (joined ps),
    length-flatten k w p h,
    length-joined k w ps all,
  )

  -- The slices are the flattened pieces.
  pieces_from-joined :
      (k w i : ℕ) (bytes : List F) (ps : List (CodedPiece F))
      → AllSized k w ps
      → 0 < k + w
      → drop ((k + w) * i) bytes ≡ joined ps
      → pieces_from (length ps) i (k + w) bytes ≡ ok (map flatten ps)
  unfolding pieces_from joined
  pieces_from-joined k w i bytes [] all pos h = refl
  pieces_from-joined k w i bytes (p ∷ ps) (e, all) pos h =
      let size = k + w in
      let long : length bytes - size * i ≡ size + length (joined ps) =
        sym (length-drop (size * i) bytes)
        ∙ ap length h
        ∙ length-append (flatten p) (joined ps)
        ∙ ap {A = ℕ} (λ t. t + length (joined ps)) (length-flatten k w p e) in
      let first : take (size * (i + 1) - size * i) (drop (size * i) bytes) ≡ flatten p =
        ap (take (size * (i + 1) - size * i)) h
        ∙ ap {A = ℕ} (λ t. take t (flatten p ++ joined ps)) (omega (arith, length-flatten k w p e))
        ∙ take-append (flatten p) (joined ps) in
      let next : drop (size * suc i) bytes ≡ joined ps =
        ap {A = ℕ} (λ t. drop t bytes) (omega (arith, length-flatten k w p e))
        ∙ sym (drop-drop (size * i) (length (flatten p)) bytes)
        ∙ ap (drop (length (flatten p))) h
        ∙ drop-append (flatten p) (joined ps) in
      rw
        (
          slice-ok (size * i) (size * (i + 1)) bytes (omega arith) (omega (arith, long)),
          first,
          pieces_from-joined k w (suc i) bytes ps all pos next,
        )
        refl

  cut_piece-flatten :
      (k w : ℕ) (p : CodedPiece F)
      → (length p.vector ≡ k) × (length p.piece ≡ w)
      → cut_piece k (flatten p) ≡ ok p
  unfolding cut_piece flatten
  cut_piece-flatten k w p (hv, hp) =
      let bytes = p.vector ++ p.piece in
      let total : length bytes ≡ k + w = omega (arith, length-append p.vector p.piece) in
      let front : take (k - 0) bytes ≡ p.vector =
        ap {A = ℕ} (λ t. take t bytes) (omega (arith, hv)) ∙ take-append p.vector p.piece in
      let back : take (length bytes - k) (drop k bytes) ≡ p.piece =
        ap (take (length bytes - k))
          (ap {A = ℕ} (λ t. drop t bytes) (sym hv) ∙ drop-append p.vector p.piece)
        ∙ take_all (length bytes - k) p.piece (omega (arith, total)) in
      rw
        (
          slice-ok 0 k bytes (omega arith) (omega (arith, total)),
          slice-ok k (length bytes) bytes (omega (arith, total)) (omega arith),
          front,
          back,
        )
        refl

  cut_pieces-flatten :
      (k w : ℕ) (ps : List (CodedPiece F)) → AllSized k w ps → cut_pieces k (map flatten ps) ≡ ok ps
  unfolding cut_pieces
  cut_pieces-flatten k w [] all = refl
  cut_pieces-flatten k w (p ∷ ps) (h, all) =
      rw (cut_piece-flatten k w p h, cut_pieces-flatten k w ps all) refl

  -- For one or more coded pieces, their coding vectors of one length and their parts of one length
  -- that is not zero, `CodedPiecesForRecoding` reads them back from their flattened bytes.
  pub coded_pieces_for_recoding-joined :
      (k w : ℕ) (ps : List (CodedPiece F))
      → AllSized k w ps
      → 0 < w
      → 0 < length ps
      → coded_pieces_for_recoding (joined ps) (length ps) k ≡ ok ps
  unfolding coded_pieces_for_recoding
  coded_pieces_for_recoding-joined k w ps all hw hp =
      let total : length (joined ps) ≡ (k + w) * length ps = length-joined k w ps all in
      let size : (k + w) * length ps / length ps ≡ k + w =
        div-eq_of_lt-le (length ps) (omega arith) (grind arith) in
      rw
        (
          total,
          size,
          ==_ne (length ps) 0 (λ e. omega (arith, e, hp)),
          ==_refl ((k + w) * length ps),
          lt→ltb k (k + w) (omega arith),
          pieces_from-joined k w 0 (joined ps) ps all (omega arith)
              (ap {A = ℕ} (λ t. drop t (joined ps)) {x = (k + w) * 0} {y = 0} (omega arith)),
        )
        (cut_pieces-flatten k w ps all)

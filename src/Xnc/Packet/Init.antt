-- ===== src/Xnc/Packet/Init.antt =====
-- xnc/xnc.go: the INIT packet, `EncodeInit` and `DecodeInit`.
use rlnc_streaming.Base.{
  take-append, ℕ, zero, suc, ◌+◌, ◌-◌, ◌≤◌, ◌<◌, ◌^◌, ◌≡◌, ◌⊎◌, inl, inr, refl, sym, ap, ◌∙◌, subst,
  List, [], ◌∷◌, ◌++◌, length, take, drop, set, get_or, replicate, false, ◌&&◌, ◌==◌, not, arith,
  length-set, length-append, drop_all, take-append-drop, get_or∷drop, append_assoc, dec_lt, lt→ltb,
  ltb-false,
}
use rlnc_streaming.Run.{ok, panic, ◌>>=◌, load, load-ok, store, store-ok, slice, slice-ok}
use rlnc_streaming.Xnc.Sizes.{type_init, type_init_enc}
use rlnc_streaming.Xnc.Packet.{XncInit, put_uint32, write_name, encode_init, decode_init}
use rlnc_streaming.Xnc.Packet.Layout.{word}

take-set :
    (j : ℕ) (xs : List ℕ) (v : ℕ) → j < length xs → take (suc j) (set xs j v) ≡ take j xs ++ v ∷ []
take-set j [] v h = absurd (omega arith)
take-set zero (x ∷ xs) v h = refl
take-set (suc j) (x ∷ xs) v h = ap (◌∷◌ x) (take-set j xs v (omega arith))

drop-set : (k j : ℕ) (xs : List ℕ) (v : ℕ) → j < k → drop k (set xs j v) ≡ drop k xs
drop-set k j [] v h = refl
drop-set zero j (x ∷ xs) v h = absurd (omega arith)
drop-set (suc k) zero (x ∷ xs) v h = refl
drop-set (suc k) (suc j) (x ∷ xs) v h = drop-set k j xs v (omega arith)

-- One byte more is written.
stepped :
    (i : ℕ) (name pkt : List ℕ)
    → i < length name
    → 5 + length name ≤ length pkt
    → take (5 + suc i) (set pkt (5 + i) (get_or name i 0))
        ++ (drop (suc i) name ++ drop (5 + length name) (set pkt (5 + i) (get_or name i 0)))
      ≡ take (5 + i) pkt ++ (drop i name ++ drop (5 + length name) pkt)
stepped i name pkt h fits =
    let next : 5 + suc i ≡ suc (5 + i) = omega arith in
    rw
      (
        next,
        take-set (5 + i) pkt (get_or name i 0) (omega arith),
        drop-set (5 + length name) (5 + i) pkt (get_or name i 0) (omega arith),
      )
      (append_assoc (take (5 + i) pkt) (get_or name i 0 ∷ []) _
        ∙ ap (λ t. take (5 + i) pkt ++ (t ++ drop (5 + length name) pkt)) (get_or∷drop i name 0 h))

-- A name that fits is written behind the first five bytes.
write_name_fits :
    (n i : ℕ) (name pkt : List ℕ)
    → i + n ≡ length name
    → 5 + length name ≤ length pkt
    → write_name n i name pkt ≡ ok (take (5 + i) pkt ++ (drop i name ++ drop (5 + length name) pkt))
unfolding write_name
write_name_fits zero i name pkt h fits =
    let all : 5 + length name ≡ 5 + i = omega arith in
    ap ok (sym (rw (drop_all i name (omega arith), all) (take-append-drop (5 + i) pkt)))
write_name_fits (suc n) i name pkt h fits =
    rw
      (
        load-ok name i 0 (omega arith),
        store-ok pkt (5 + i) (get_or name i 0) (omega arith),
        write_name_fits n (suc i) name (set pkt (5 + i) (get_or name i 0)) (omega arith)
            (omega (arith, length-set pkt (5 + i) (get_or name i 0))),
      )
      (ap ok (stepped i name pkt (omega arith) (omega arith)))

write_name_long :
    (n i : ℕ) (name pkt : List ℕ)
    → i + n ≡ length name
    → 5 + i ≤ length pkt
    → length pkt < 5 + length name
    → write_name n i name pkt ≡ panic
unfolding write_name store
write_name_long zero i name pkt h room long = absurd (omega arith)
write_name_long (suc n) i name pkt h room long = elim (dec_lt (5 + i) (length pkt)) [
  | yes q ↦
      rw (load-ok name i 0 (omega arith), lt→ltb (5 + i) (length pkt) q)
        (write_name_long n (suc i) name (set pkt (5 + i) (get_or name i 0)) (omega arith)
          (omega (arith, length-set pkt (5 + i) (get_or name i 0)))
          (omega (arith, length-set pkt (5 + i) (get_or name i 0))))
  | no q ↦ rw (load-ok name i 0 (omega arith), ltb-false (5 + i) (length pkt) (omega arith)) refl
]

-- The packet before the name is written.
abbrev blank : XncInit → List ℕ
blank x = x.kind ∷ (put_uint32 x.len ++ replicate 123 0)

abbrev pub IsInit : XncInit → Type 0
IsInit x = ((x.kind ≡ type_init) ⊎ (x.kind ≡ type_init_enc)) × (x.len ≡ length x.filename)

-- The first byte of an INIT packet passes the test of `DecodeInit`.
known_kind :
    (k : ℕ)
    → (k ≡ type_init) ⊎ (k ≡ type_init_enc)
    → (not (k == type_init_enc) && not (k == type_init)) ≡ false
known_kind k (inl e) = rw e refl
known_kind k (inr e) = rw e refl

-- `DecodeInit` of a packet whose header is written and whose name stands behind it.
decode_written :
    (k : ℕ) (name rest : List ℕ)
    → (k ≡ type_init) ⊎ (k ≡ type_init_enc)
    → length name < 2 ^ 32
    → decode_init (k ∷ (put_uint32 (length name) ++ (name ++ rest)))
      ≡ ok (record { kind = k; len = length name; filename = name })
unfolding decode_init load
decode_written k name rest kind short =
    let bytes = k ∷ (put_uint32 (length name) ++ (name ++ rest)) in
    let size : 5 + length name - 5 ≡ length name = omega arith in
    let header : slice 1 5 bytes ≡ ok (put_uint32 (length name)) =
      slice-ok 1 5 bytes (omega arith) (omega arith) in
    let body : slice 5 (5 + length name) bytes ≡ ok name =
      slice-ok 5 (5 + length name) bytes (omega arith) (omega (arith, length-append name rest))
      ∙ ap ok (ap (λ t. take t (name ++ rest)) size ∙ take-append name rest) in
    rw (known_kind k kind, header, word (length name) short, body) refl

abbrev init_of : ℕ → List ℕ → XncInit
init_of k name = record { kind = k; len = length name; filename = name }

decode-init_of :
    (k : ℕ) (name : List ℕ)
    → (k ≡ type_init) ⊎ (k ≡ type_init_enc)
    → length name ≤ 123
    → (encode_init (init_of k name) >>= decode_init) ≡ ok (init_of k name)
unfolding encode_init
decode-init_of k name kind h =
    ap (λ r. r >>= decode_init)
      (write_name_fits (length name) 0 name (blank (init_of k name)) (omega arith) (omega arith))
    ∙ decode_written k name (drop (5 + length name) (blank (init_of k name))) kind (omega arith)

-- `DecodeInit` reads back what `EncodeInit` writes of an INIT packet of either type, whose length is
-- that of its name, at most 123 bytes.
pub decode-encode_init :
    (x : XncInit) → IsInit x → length x.filename ≤ 123 → (encode_init x >>= decode_init) ≡ ok x
decode-encode_init x (kind, len) h =
    subst (λ l. (encode_init (record x { len = l }) >>= decode_init) ≡ ok (record x { len = l }))
      (sym len) (decode-init_of x.kind x.filename kind h)

-- `EncodeInit` panics for every packet whose length is that of its name, more than 123 bytes.
pub encode_init_long :
    (x : XncInit) → x.len ≡ length x.filename → 123 < length x.filename → encode_init x ≡ panic
unfolding encode_init
encode_init_long x len h =
    rw len
      (write_name_long (length x.filename) 0 x.filename _ (omega arith) (omega arith) (omega arith))

-- ===== src/Run.antt =====
-- How a call ends, and the rules for calls that end well. The errors are those of kodr/errors.go and
-- of the packet functions of xnc/xnc.go; a run-time panic of Go is a value of its own.
use rlnc_streaming.Base.{
  ℕ, ◌≤◌, ◌<◌, ◌≡◌, refl, Bool, true, false, List, if◌then◌else◌, ltb, leb, lt→ltb, le→leb, ◌-◌,
  ◌/◌, ◌==◌, ==_ne, ◌&&◌, length, get_elem?, some, get_or, set, take, drop, arith, suc, zero, [],
  ◌∷◌,
}

-- `kodr/errors.go`, the errors made by `fmt.Errorf` in xnc/xnc.go, the end of the process by
-- `utils.StopApp` or `os.Exit` in godash, and a call that waits without end.
pub data Error : Type 0 where
  matrix_dimension_mismatch all_useful_pieces_received more_useful_pieces_required : Error
  copy_failed piece_count_more_than_total_bytes zero_piece_size bad_piece_count : Error
  coded_data_length_mismatch coding_vector_length_mismatch : Error
  piece_not_decoded_yet piece_out_of_bound : Error
  bad_packet_type bad_packet_size unknown_packet_type : Error
  app_stopped never_returns : Error

-- A panic, a returned error, or a returned value.
pub data Run {ℓ} (V : Type ℓ) : Type ℓ where
  panic : Run V
  err : Error → Run V
  ok : V → Run V

infixl 5 ◌>>=◌
abbrev pub ◌>>=◌ {ℓ κ} : {V : Type ℓ} {W : Type κ} → Run V → (V → Run W) → Run W
panic >>= next = panic
err e >>= next = err e
ok v >>= next = next v

-- What a run that returned has gone through.
pub bind-inv {ℓ κ} :
    {V : Type ℓ} {W : Type κ} (run : Run V) (next : V → Run W) (w : W)
    → (run >>= next) ≡ ok w
    → (v : V) × (run ≡ ok v) × (next v ≡ ok w)
bind-inv panic next w h = cc
bind-inv (err e) next w h = cc
bind-inv (ok v) next w h = (v, refl, h)

-- The run returns normally, with a value that satisfies `P`.
pub data Returns {ℓ κ} {V : Type ℓ} (P : V → Type κ) : Run V → Type (ℓ ⊔ κ) where
  returns : {v : V} → P v → Returns P (ok v)

-- What is known of the value, if there is one.
abbrev OfValue {ℓ κ} : {V : Type ℓ} → (V → Type κ) → Run V → Type κ
OfValue P panic = Unit
OfValue P (err e) = Unit
OfValue P (ok v) = P v

value_holds {ℓ κ} : {V : Type ℓ} {P : V → Type κ} {run : Run V} → Returns P run → OfValue P run
value_holds (returns p) = p

module _ {ℓ κ} {V : Type ℓ} {P : V → Type κ} where
  -- The value that a run returned.
  pub Returns-inv : {run : Run V} → Returns P run → (v : V) × (run ≡ ok v) × P v
  Returns-inv (returns p) = (_, refl, p)

  -- A branch on a test, which each side knows the result of.
  pub Returns-if :
      {yes_run no_run : Run V} (test : Bool)
      → (test ≡ true → Returns P yes_run)
      → (test ≡ false → Returns P no_run)
      → Returns P (if test then yes_run else no_run)
  Returns-if false on_true on_false = on_false refl
  Returns-if true on_true on_false = on_true refl

  pub Returns-map {κ'} :
      {Q : V → Type κ'} {run : Run V} → Returns P run → ((v : V) → P v → Q v) → Returns Q run
  Returns-map (returns p) weaken = returns (weaken _ p)

  pub Returns-both {κ'} :
      {Q : V → Type κ'} {run : Run V} → Returns P run → Returns Q run → Returns (λ v. P v × Q v) run
  Returns-both (returns p) q = returns (p, value_holds q)

  pub Returns-bind {ℓ' κ'} :
      {W : Type ℓ'} {Q : W → Type κ'} {run : Run V} {next : V → Run W}
      → Returns P run
      → ((v : V) → P v → Returns Q (next v))
      → Returns Q (run >>= next)
  Returns-bind (returns p) after = after _ p

pub ok_inj {ℓ} : {V : Type ℓ} {v w : V} → ◌≡◌ {A = Run V} (ok v) (ok w) → v ≡ w
ok_inj e = cc

-- The division of integers that are not negative.
unfoldable pub divide : ℕ → ℕ → Run ℕ
divide a b = if b == 0 then panic else ok (a / b)

pub divide-ok : (a b : ℕ) → 0 < b → divide a b ≡ ok (a / b)
unfolding divide
divide-ok a b h = rw (==_ne b 0 (λ e. omega (arith, e, h)))

module _ {ℓ} {A : Type ℓ} where
  -- `xs[i]`
  unfoldable pub load : List A → ℕ → Run A
  load [] i = panic
  load (x ∷ xs) zero = ok x
  load (x ∷ xs) (suc i) = load xs i

  pub load→get_elem? : (xs : List A) (i : ℕ) (v : A) → load xs i ≡ ok v → get_elem? xs i ≡ some v
  unfolding load
  load→get_elem? [] i v h = cc
  load→get_elem? (x ∷ xs) zero v h = cc
  load→get_elem? (x ∷ xs) (suc i) v h = load→get_elem? xs i v h

  -- `xs[i] = v`
  unfoldable pub store : List A → ℕ → A → Run (List A)
  store xs i v = if ltb i (length xs) then ok (set xs i v) else panic

  -- `xs[lo:hi]`; a slice that ends past the length, within the capacity, counts as a panic.
  unfoldable pub slice : ℕ → ℕ → List A → Run (List A)
  slice lo hi xs =
      if leb lo hi && leb hi (length xs) then ok (take (hi - lo) (drop lo xs)) else panic

  pub load-ok : (xs : List A) (i : ℕ) (d : A) → i < length xs → load xs i ≡ ok (get_or xs i d)
  unfolding load
  load-ok [] i d h = absurd (omega arith)
  load-ok (x ∷ xs) zero d h = refl
  load-ok (x ∷ xs) (suc i) d h = load-ok xs i d (omega arith)

  pub store-ok : (xs : List A) (i : ℕ) (v : A) → i < length xs → store xs i v ≡ ok (set xs i v)
  unfolding store
  store-ok xs i v h = rw (lt→ltb i (length xs) h)

  pub slice-ok :
      (lo hi : ℕ) (xs : List A)
      → lo ≤ hi
      → hi ≤ length xs
      → slice lo hi xs ≡ ok (take (hi - lo) (drop lo xs))
  unfolding slice
  slice-ok lo hi xs h k = rw (le→leb lo hi h, le→leb hi (length xs) k)

-- ===== src/Field/Sum.antt =====
-- Finite sums over the field, indexed by natural numbers.
use rlnc_streaming.Base.{ℕ, zero, suc, ◌<◌, ◌≡◌, ◌≢◌, refl, sym, ap, ap₂, ◌∙◌, ℕ_discrete, arith}
use rlnc_streaming.Field.{Field, add-zero, zero-mul, add-mul, add_interchange}

module _ {F : Type 0} ⦃g : Field F⦄ where
  -- f 0 + … + f (n - 1)
  unfoldable pub sum : ℕ → (ℕ → F) → F
  sum zero f = g.zero
  sum (suc n) f = g.add (sum n f) (f n)

  pub sum_congr : (n : ℕ) (f h : ℕ → F) → ((k : ℕ) → k < n → f k ≡ h k) → sum n f ≡ sum n h
  unfolding sum
  sum_congr zero f h e = refl
  sum_congr (suc n) f h e =
      ap₂ g.add (sum_congr n f h (λ k l. e k (omega arith))) (e n (omega arith))

  pub sum-add : (n : ℕ) (f h : ℕ → F) → sum n (λ k. g.add (f k) (h k)) ≡ g.add (sum n f) (sum n h)
  unfolding sum
  sum-add zero f h = sym (g.zero-add g.zero)
  sum-add (suc n) f h = rw (sum, sum-add n f h) (add_interchange _ _ _ _)

  pub sum-zero : (n : ℕ) → ◌≡◌ {A = F} (sum n (λ _. g.zero)) g.zero
  unfolding sum
  sum-zero zero = refl
  sum-zero (suc n) = add-zero _ ∙ sum-zero n

  pub sum-mul : (n : ℕ) (f : ℕ → F) (a : F) → sum n (λ k. g.mul (f k) a) ≡ g.mul (sum n f) a
  unfolding sum
  sum-mul zero f a = sym (zero-mul a)
  sum-mul (suc n) f a = rw (sum, sum-mul n f a) (sym (add-mul (sum n f) (f n) a))

  pub sum_comm :
      (n m : ℕ) (h : ℕ → ℕ → F) → sum n (λ a. sum m (λ b. h a b)) ≡ sum m (λ b. sum n (λ a. h a b))
  unfolding sum
  sum_comm zero m h = sym (sum-zero m)
  sum_comm (suc n) m h = rw (sum, sum_comm n m h) (sym (sum-add m (λ b. sum n (λ a. h a b)) (h n)))

  sum_vanish : (n : ℕ) (f : ℕ → F) → ((k : ℕ) → k < n → f k ≡ g.zero) → sum n f ≡ g.zero
  sum_vanish n f e = sum_congr n f (λ _. g.zero) e ∙ sum-zero n

  -- A sum whose terms vanish except at `i` is the term at `i`.
  pub sum_single :
      (n : ℕ) (i : ℕ) (f : ℕ → F) → i < n → ((k : ℕ) → k < n → k ≢ i → f k ≡ g.zero) → sum n f ≡ f i
  unfolding sum
  sum_single zero i f h e = absurd (omega arith)
  sum_single (suc n) i f h e = elim (ℕ_discrete n i) [
    | yes p ↦
        rw (sum, sum_vanish n f (λ k l. e k (omega arith) (omega arith)))
          (g.zero-add (f n) ∙ ap f p)
    | no p ↦
        rw (sum, sum_single n i f (omega arith) (λ k l. e k (omega arith)), e n (omega arith) p)
          (add-zero (f i))
  ]

  -- The first term split off.
  pub sum-front : (n : ℕ) (f : ℕ → F) → sum (suc n) f ≡ g.add (f 0) (sum n (λ k. f (suc k)))
  unfolding sum
  sum-front zero f = g.add_comm g.zero (f 0)
  sum-front (suc n) f =
      ap (λ x. g.add x (f (suc n))) (sum-front n f)
      ∙ g.add_assoc (f 0) (sum n (λ k. f (suc k))) (f (suc n))

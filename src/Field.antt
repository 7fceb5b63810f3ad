-- ===== src/Field.antt =====
-- The finite field of the coding layer. GF(2^8) comes from github.com/cloud9-tools/go-galoisfield,
-- which is not part of the repository: it is a parameter here. `F` is the type of one symbol (the
-- source's byte), `add`, `mul` and `div` are the methods that the source calls, `beq` is the built-in
-- `==` on bytes, and the laws are those of a field of characteristic two.
pub mod Sum
use rlnc_streaming.Base.{◌≡◌, refl, sym, ap, ◌∙◌, ◌↔◌, Bool, true, false, Bool-cases}

pub record Field (F : Type 0) : Type 0 where
  pub zero : F
  pub one : F
  pub add : F → F → F
  pub mul : F → F → F
  pub div : F → F → F
  pub beq : F → F → Bool
  pub beq_iff : (a b : F) → (beq a b ≡ true) ↔ (a ≡ b)
  pub add_assoc : (a b c : F) → add (add a b) c ≡ add a (add b c)
  pub add_comm : (a b : F) → add a b ≡ add b a
  pub zero-add : (a : F) → add zero a ≡ a
  pub add_self : (a : F) → add a a ≡ zero
  pub mul_assoc : (a b c : F) → mul (mul a b) c ≡ mul a (mul b c)
  pub mul_comm : (a b : F) → mul a b ≡ mul b a
  pub one-mul : (a : F) → mul one a ≡ a
  pub mul-add : (a b c : F) → mul a (add b c) ≡ add (mul a b) (mul a c)
  pub mul-div : (a b : F) → beq b zero ≡ false → mul b (div a b) ≡ a
  pub nontrivial : beq one zero ≡ false

module _ {F : Type 0} ⦃g : Field F⦄ where
  -- The source's `x == 0`.
  abbrev pub is_zero : F → Bool
  is_zero x = g.beq x g.zero

  pub is_zero→eq : (x : F) → is_zero x ≡ true → x ≡ g.zero
  is_zero→eq x h = (g.beq_iff x g.zero).0 h

  pub eq→is_zero : (x : F) → x ≡ g.zero → is_zero x ≡ true
  eq→is_zero x h = (g.beq_iff x g.zero).1 h

  pub add-zero : (a : F) → g.add a g.zero ≡ a
  add-zero a = g.add_comm a g.zero ∙ g.zero-add a

  -- An element that is its own double is zero.
  pub mul-zero : (a : F) → g.mul a g.zero ≡ g.zero
  mul-zero a =
      ap (g.mul a) (sym (g.add_self g.zero))
      ∙ g.mul-add a g.zero g.zero
      ∙ g.add_self (g.mul a g.zero)

  pub zero-mul : (a : F) → g.mul g.zero a ≡ g.zero
  zero-mul a = g.mul_comm g.zero a ∙ mul-zero a

  pub mul-one : (a : F) → g.mul a g.one ≡ a
  mul-one a = g.mul_comm a g.one ∙ g.one-mul a

  pub add-mul : (a b c : F) → g.mul (g.add a b) c ≡ g.add (g.mul a c) (g.mul b c)
  add-mul a b c = rw (g.mul_comm (g.add a b) c, g.mul_comm a c, g.mul_comm b c) (g.mul-add c a b)

  pub add_interchange :
      (a b c d : F) → g.add (g.add a b) (g.add c d) ≡ g.add (g.add a c) (g.add b d)
  add_interchange a b c d =
      g.add_assoc a b (g.add c d)
      ∙ ap (g.add a) (sym (g.add_assoc b c d) ∙ ap (λ x. g.add x d) (g.add_comm b c))
      ∙ ap (g.add a) (g.add_assoc c b d)
      ∙ sym (g.add_assoc a c (g.add b d))

  -- Adding the multiple `x / y` of `y` to `x` gives zero: the step of the elimination.
  pub add-mul-div : (x y : F) → is_zero y ≡ false → g.add x (g.mul y (g.div x y)) ≡ g.zero
  add-mul-div x y h = ap (g.add x) (g.mul-div x y h) ∙ g.add_self x

  -- A quotient of zero is zero.
  pub div-zero : (y : F) → is_zero y ≡ false → g.div g.zero y ≡ g.zero
  div-zero y h =
      sym (g.one-mul (g.div g.zero y))
      ∙ ap (λ x. g.mul x (g.div g.zero y))
          (sym (g.mul-div g.one y h) ∙ g.mul_comm y (g.div g.one y))
      ∙ g.mul_assoc (g.div g.one y) y (g.div g.zero y)
      ∙ ap (g.mul (g.div g.one y)) (g.mul-div g.zero y h)
      ∙ mul-zero (g.div g.one y)

  -- Two elements with sum zero are equal.
  pub add-eq_zero : (x y : F) → g.add y x ≡ g.zero → x ≡ y
  add-eq_zero x y h =
      sym (g.zero-add x)
      ∙ ap (λ t. g.add t x) (sym (g.add_self y))
      ∙ g.add_assoc y y x
      ∙ ap (g.add y) h
      ∙ add-zero y

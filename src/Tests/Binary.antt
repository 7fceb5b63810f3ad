-- ===== src/Tests/Binary.antt =====
-- The field of two elements: addition is exclusive or, multiplication is conjunction.
use rlnc_streaming.Base.{◌≡◌, refl, ◌↔◌, Bool, true, false, ◌&&◌, not, arith}
use rlnc_streaming.Field.{Field}

abbrev pub plus : Bool → Bool → Bool
plus true b = not b
plus false b = b

abbrev pub same : Bool → Bool → Bool
same a b = not (plus a b)

pub same_iff : (a b : Bool) → (same a b ≡ true) ↔ (a ≡ b)
same_iff true true = (λ h. refl, λ h. refl)
same_iff true false = (λ h. cc, λ h. cc)
same_iff false true = (λ h. cc, λ h. cc)
same_iff false false = (λ h. refl, λ h. refl)

pub plus_assoc : (a b c : Bool) → plus (plus a b) c ≡ plus a (plus b c)
plus_assoc a b c = ground arith

pub plus_comm : (a b : Bool) → plus a b ≡ plus b a
plus_comm a b = ground arith

pub plus_self : (a : Bool) → plus a a ≡ false
plus_self a = ground arith

pub and_assoc : (a b c : Bool) → (a && b) && c ≡ a && (b && c)
and_assoc a b c = ground arith

pub and_comm : (a b : Bool) → a && b ≡ b && a
and_comm a b = ground arith

pub and-plus : (a b c : Bool) → a && plus b c ≡ plus (a && b) (a && c)
and-plus a b c = ground arith

pub and-div : (a b : Bool) → same b false ≡ false → b && a ≡ a
and-div a b h = ground arith

instance abbrev pub binary : Field Bool
binary = record {
  zero = false;
  one = true;
  add = plus;
  mul = ◌&&◌;
  div = λ a b. a;
  beq = same;
  beq_iff = same_iff;
  add_assoc = plus_assoc;
  add_comm = plus_comm;
  zero-add = λ a. refl;
  add_self = plus_self;
  mul_assoc = and_assoc;
  mul_comm = and_comm;
  one-mul = λ a. refl;
  mul-add = and-plus;
  mul-div = and-div;
  nontrivial = refl;
}

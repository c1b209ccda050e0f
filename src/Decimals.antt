-- ===== src/Decimals.antt =====
-- Python's `Decimal` as the money code uses it: exact comparison, and subtraction, multiplication
-- and division that round to the context's precision. The laws hold under every rounding mode:
-- rounding is monotone and keeps the sign. `a > b` is `not (leb a b)`, and `a >= b` is `leb b a`.
use Prim.Native.String.{◌++◌ as append}
use nivara.Prelude.{
  ℕ, zero, suc, ◌+◌, ◌-◌, ◌*◌, ◌/◌, ◌≤◌, ◌<◌, String, ◌≡◌, Bool, true, false, arith, leb, ◌==◌,
}

pub record Decimals : Type 1 where
  pub Num : Type 0
  pub Float : Type 0
  pub zero : Num
  pub one : Num
  -- `a == b`
  pub eq : Num → Num → Bool
  pub add : Num → Num → Num
  pub neg : Num → Num
  pub abs : Num → Num
  pub leb : Num → Num → Bool
  pub sub : Num → Num → Num
  pub mul : Num → Num → Num
  pub div : Num → Num → Num
  -- `quantize(Decimal("0.00000001"), rounding=ROUND_DOWN)`
  pub quantize_down : Num → Num
  -- `float(value)`
  pub to_float : Num → Float
  -- `str(value)`
  pub text : Num → String
  pub leb_refl : (a : Num) → leb a a ≡ true
  pub leb_trans : (a b c : Num) → leb a b ≡ true → leb b c ≡ true → leb a c ≡ true
  -- The sign of a difference is that of the comparison.
  pub sub_nonpos : (a b : Num) → leb (sub a b) zero ≡ leb a b
  pub sub_anti : (a b c : Num) → leb a b ≡ true → leb (sub c b) (sub c a) ≡ true
  pub div_mono :
      (a b c : Num) → leb c zero ≡ false → leb a b ≡ true → leb (div a c) (div b c) ≡ true

pub leb-sub_zero : (a b : ℕ) → leb (a - b) 0 ≡ leb a b
leb-sub_zero a b = ground arith

pub leb-sub : (a b c : ℕ) → leb a b ≡ true → leb (c - b) (c - a) ≡ true
leb-sub a b c h = ground arith

div_le_div : (a b c : ℕ) → 0 < c → a ≤ b → a / c ≤ b / c
div_le_div a b c p h = grind arith

pub leb-div :
    (a b c : ℕ) → leb c 0 ≡ false → leb a b ≡ true → leb (a * 100 / c) (b * 100 / c) ≡ true
leb-div a b c p h = ground (arith, div_le_div (a * 100) (b * 100) c)

pub leb_self : (a : ℕ) → leb a a ≡ true
leb_self a = ground arith

pub leb_chain : (a b c : ℕ) → leb a b ≡ true → leb b c ≡ true → leb a c ≡ true
leb_chain a b c p q = ground arith

abbrev pub tally : ℕ → String
tally zero = ""
tally (suc n) = append "i" (tally n)

-- Amounts that are never negative, in hundredths: an instance that meets the laws.
abbrev pub hundredths : Decimals
hundredths = record {
  Num = ℕ;
  Float = ℕ;
  zero = 0;
  one = 100;
  eq = ◌==◌;
  add = λ a b. a + b;
  neg = λ a. 0;
  abs = λ a. a;
  leb = leb;
  sub = λ a b. a - b;
  mul = λ a b. a * b / 100;
  div = λ a b. a * 100 / b;
  quantize_down = λ a. a;
  to_float = λ a. a;
  text = tally;
  leb_refl = leb_self;
  leb_trans = leb_chain;
  sub_nonpos = leb-sub_zero;
  sub_anti = leb-sub;
  div_mono = leb-div;
}

-- ===== src/Floats.antt =====
-- Python's `float` as the analysis code uses it, and the texts that its format specifications give.
use Prim.Native.String.{◌++◌ as append}
use nivara.Prelude.{
  ℕ, zero, suc, ◌+◌, ◌-◌, ◌*◌, ◌/◌, ◌<◌, String, ◌≡◌, refl, arith, Bool, true, false, not, List, [],
  ◌∷◌, leb,
}

pub record Floats : Type 1 where
  pub Num : Type 0
  pub Decimal : Type 0
  -- `float(value)` of a `Decimal`
  pub of_decimal : Decimal → Num
  pub zero : Num
  pub leb : Num → Num → Bool
  -- `a < b`; both comparisons are false at a NaN
  pub ltb : Num → Num → Bool
  -- the literal with this numerator and denominator
  pub ratio : ℕ → ℕ → Num
  pub add : Num → Num → Num
  pub sub : Num → Num → Num
  pub mul : Num → Num → Num
  pub div : Num → Num → Num
  pub neg : Num → Num
  pub abs : Num → Num
  -- `round(x, 1)`
  pub round_1 : Num → Num
  -- the mean of a column, which is NaN at no rows
  pub mean : List Num → Num
  -- `float(n)`
  pub of_nat : ℕ → Num
  -- `(b - a).total_seconds()` of the times a and b
  pub seconds : ℕ → ℕ → Num
  -- `math.isfinite`
  pub finite : Num → Bool
  -- `{x:.1f}`, `{x:.2f}`, `{x:+.2f}`, `{x:g}` and `{x}`
  pub fixed_1 : Num → String
  pub fixed_2 : Num → String
  pub signed_2 : Num → String
  pub general : Num → String
  pub text : Num → String

-- What the order of the floats keeps, also where a NaN or an infinity takes part.
pub record IsOrdered (f : Floats) : Type 0 where
  pub leb_of_ltb : (a b : f.Num) → f.ltb a b ≡ true → f.leb a b ≡ true
  pub not_leb_of_ltb : (a b : f.Num) → f.ltb a b ≡ true → f.leb b a ≡ false
  pub leb-ltb : (a b c : f.Num) → f.leb a b ≡ true → f.ltb b c ≡ true → f.ltb a c ≡ true
  pub leb_refl : (a : f.Num) → f.finite a ≡ true → f.leb a a ≡ true
  -- Finite numbers can be compared, and a number between two of them is finite.
  pub ltb_finite :
      (a b : f.Num) → f.finite a ≡ true → f.finite b ≡ true → f.ltb a b ≡ not (f.leb b a)
  pub finite_between :
      (a b c : f.Num)
      → f.finite a ≡ true
      → f.finite c ≡ true
      → f.leb a b ≡ true
      → f.leb b c ≡ true
      → f.finite b ≡ true
  -- What is above some number is no NaN.
  pub leb_of_not_ltb :
      (a b c : f.Num) → f.ltb a b ≡ true → f.finite c ≡ true → f.ltb c b ≡ false → f.leb b c ≡ true
  -- The difference of finite numbers is no NaN.
  pub sub_finite :
      (a b c : f.Num)
      → f.finite a ≡ true
      → f.finite b ≡ true
      → f.finite c ≡ true
      → (f.ltb (f.sub a b) c ≡ not (f.leb c (f.sub a b)))
        × (f.ltb c (f.sub a b) ≡ not (f.leb (f.sub a b) c))
  pub ratio_finite : (n m : ℕ) → f.finite (f.ratio n (suc m)) ≡ true
  pub zero_finite : f.finite f.zero ≡ true
  pub neg_finite : (a : f.Num) → f.finite a ≡ true → f.finite (f.neg a) ≡ true
  -- A numerator over a hundred, and its opposite, against zero.
  pub percent_pos : (n : ℕ) → 0 < n → f.ltb f.zero (f.ratio n 100) ≡ true
  pub neg_percent : (n : ℕ) → f.leb (f.neg (f.ratio n 100)) (f.ratio n 100) ≡ true
  pub add_pos :
      (a b : f.Num)
      → f.leb f.zero a ≡ true
      → f.ltb f.zero b ≡ true
      → f.ltb f.zero (f.add a b) ≡ true

-- Rounding to one decimal keeps the order, and 0 and 100 as they are.
pub record IsRounding (f : Floats) : Type 0 where
  pub round_mono : (a b : f.Num) → f.leb a b ≡ true → f.leb (f.round_1 a) (f.round_1 b) ≡ true
  pub round_zero : f.round_1 f.zero ≡ f.zero
  pub round_hundred : f.round_1 (f.ratio 10000 100) ≡ f.ratio 10000 100

-- Numbers in hundredths that are never negative.
abbrev sum : List ℕ → ℕ
sum [] = 0
sum (x ∷ xs) = x + sum xs

abbrev count : List ℕ → ℕ
count [] = 0
count (x ∷ xs) = suc (count xs)

abbrev tally : ℕ → String
tally zero = ""
tally (suc n) = append "i" (tally n)

abbrev pub hundredth_floats : Floats
hundredth_floats = record {
  Num = ℕ;
  Decimal = ℕ;
  of_decimal = λ x. x;
  zero = 0;
  leb = leb;
  ltb = λ a b. not (leb b a);
  ratio = λ n m. n * 100 / m;
  add = λ a b. a + b;
  sub = λ a b. a - b;
  mul = λ a b. a * b / 100;
  div = λ a b. a * 100 / b;
  neg = λ a. 0;
  abs = λ a. a;
  round_1 = λ a. a;
  mean = λ xs. sum xs / count xs;
  of_nat = λ n. n * 100;
  seconds = λ a b. (b - a) * 100;
  finite = λ a. true;
  fixed_1 = tally;
  fixed_2 = tally;
  signed_2 = tally;
  general = tally;
  text = tally;
}

pub hundredth_floats-IsOrdered : IsOrdered hundredth_floats
hundredth_floats-IsOrdered = record {
  leb_of_ltb = λ a b h. ground arith;
  not_leb_of_ltb = λ a b h. ground arith;
  leb-ltb = λ a b c h k. ground arith;
  leb_refl = λ a h. ground arith;
  ltb_finite = λ a b h k. refl;
  finite_between = λ a b c h k l m. refl;
  leb_of_not_ltb = λ a b c h k l. ground arith;
  sub_finite = λ a b c h k l. (refl, refl);
  ratio_finite = λ n m. refl;
  zero_finite = refl;
  neg_finite = λ a h. refl;
  percent_pos = λ n h. ground arith;
  neg_percent = λ n. ground arith;
  add_pos = λ a b h k. ground arith;
}

pub hundredth_floats-IsRounding : IsRounding hundredth_floats
hundredth_floats-IsRounding = record {
  round_mono = λ a b h. h;
  round_zero = refl;
  round_hundred = refl;
}

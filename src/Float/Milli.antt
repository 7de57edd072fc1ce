-- ===== src/Float/Milli.antt =====
-- Thousandths, signed, with no NaN and no infinity: a small instance of the float interface on
-- which the definitions run. `negsuc n` is -(n + 1) thousandths.
use accumulator.Common.{
  ℕ, zero, suc, ◌+◌, ◌-◌, ◌*◌, ◌/◌, Bool, true, arith, ltb, leb, ◌==◌, if◌then◌else◌,
}
use accumulator.Float.Defs.{Float, IsIeee}

pub data Milli : Type 0 where
  pos : ℕ → Milli
  negsuc : ℕ → Milli

abbrev pos_part : Milli → ℕ
pos_part (pos n) = n
pos_part (negsuc n) = 0

abbrev neg_part : Milli → ℕ
neg_part (pos n) = 0
neg_part (negsuc n) = suc n

abbrev sub_ℕ : ℕ → ℕ → Milli
sub_ℕ a b = if leb b a then pos (a - b) else negsuc (b - a - 1)

-- The sign of a product or a quotient of two signed numbers.
abbrev signed : (ℕ → ℕ → ℕ) → Milli → Milli → Milli
signed f (pos a) (pos b) = pos (f a b)
signed f (pos a) (negsuc b) = sub_ℕ 0 (f a (suc b))
signed f (negsuc a) (pos b) = sub_ℕ 0 (f (suc a) b)
signed f (negsuc a) (negsuc b) = pos (f (suc a) (suc b))

abbrev lt_milli : Milli → Milli → Bool
lt_milli a b = ltb (pos_part a + neg_part b) (pos_part b + neg_part a)

abbrev le_milli : Milli → Milli → Bool
le_milli a b = leb (pos_part a + neg_part b) (pos_part b + neg_part a)

abbrev eq_milli : Milli → Milli → Bool
eq_milli a b = pos_part a + neg_part b == pos_part b + neg_part a

abbrev ceil_milli : Milli → Milli
ceil_milli (pos n) = pos ((n + 999) / 1000 * 1000)
ceil_milli (negsuc n) = sub_ℕ 0 (suc n / 1000 * 1000)

abbrev to_usize_milli : Milli → ℕ
to_usize_milli a = pos_part a / 1000

-- The power for a whole exponent; a fraction of the exponent is dropped.
abbrev whole_power : Milli → ℕ → Milli
whole_power a zero = pos 1000
whole_power a (suc n) = signed (λ x y. x * y / 1000) a (whole_power a n)

abbrev pub milli : Float
milli = record {
  F = Milli;
  literal = λ n d. pos (n * 1000 / d);
  of_nat = λ n. pos (n * 1000);
  to_usize = to_usize_milli;
  add = λ a b. sub_ℕ (pos_part a + pos_part b) (neg_part a + neg_part b);
  sub = λ a b. sub_ℕ (pos_part a + neg_part b) (neg_part a + pos_part b);
  mul = signed (λ a b. a * b / 1000);
  div = signed (λ a b. a * 1000 / b);
  neg = λ a. sub_ℕ (neg_part a) (pos_part a);
  max_of = λ a b. if lt_milli a b then b else a;
  ceil = ceil_milli;
  powf = λ a b. whole_power a (to_usize_milli b);
  lt = lt_milli;
  le = le_milli;
  eq = eq_milli;
  is_finite = λ a. true;
}

pub milli-IsIeee : IsIeee milli
milli-IsIeee = record {
  lt_asymm = λ a b h. ground arith;
  lt-not_ge = λ a b h. ground arith;
  to_usize-max_one = λ a. ground arith;
}

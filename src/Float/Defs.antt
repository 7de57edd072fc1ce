-- ===== src/Float/Defs.antt =====
-- The interface itself, and what IEEE 754 and the language say of its comparisons and casts.
use accumulator.Common.{ℕ, ◌/◌, ◌%◌, ◌<◌, ◌≡◌, Bool, true, false}

pub record Float : Type 1 where
  pub F : Type 0
  -- The decimal literal `numerator / denominator`, such as 0.35 for 35 and 100.
  pub literal : ℕ → ℕ → F
  -- `n as f64`, and `x as usize`, which saturates and takes NaN to 0.
  pub of_nat : ℕ → F
  pub to_usize : F → ℕ
  pub add : F → F → F
  pub sub : F → F → F
  pub mul : F → F → F
  pub div : F → F → F
  pub neg : F → F
  pub max_of : F → F → F
  pub ceil : F → F
  pub powf : F → F → F
  pub lt : F → F → Bool
  pub le : F → F → Bool
  pub eq : F → F → Bool
  pub is_finite : F → Bool

-- `Duration::as_secs_f64` of a count of nanoseconds.
abbrev pub as_secs_f64 : (fl : Float) → ℕ → fl.F
as_secs_f64 fl nanos =
    fl.add (fl.of_nat (nanos / 1000000000))
      (fl.div (fl.of_nat (nanos % 1000000000)) (fl.of_nat 1000000000))

-- These hold of NaN and the infinities too. `max` ignores a NaN and the cast saturates, so
-- `x.max(1.0) as usize` is never 0.
pub record IsIeee (fl : Float) : Type 0 where
  pub lt_asymm : (a b : fl.F) → fl.lt a b ≡ true → fl.lt b a ≡ false
  pub lt-not_ge : (a b : fl.F) → fl.lt a b ≡ true → fl.le b a ≡ false
  pub to_usize-max_one : (a : fl.F) → 0 < fl.to_usize (fl.max_of a (fl.of_nat 1))

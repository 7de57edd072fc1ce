-- ===== src/Common/Words.antt =====
-- Machine words: `usize` and `u64` of a 64-bit target.
use Prim.Native.Nat.{ℕ, ◌+◌, ◌-◌, ◌*◌, ◌/◌, ◌%◌, min}

abbrev pub word_max : ℕ
word_max = 18446744073709551615

-- `a.saturating_add(b)`.
abbrev pub saturating_add : ℕ → ℕ → ℕ
saturating_add a b = min (a + b) word_max

-- `a.saturating_mul(b)`.
abbrev pub saturating_mul : ℕ → ℕ → ℕ
saturating_mul a b = min (a * b) word_max

-- `a.saturating_sub(b)` is `a - b`: subtraction on ℕ stops at 0.

-- `counter.fetch_add(n)` on an atomic word wraps around.
abbrev pub fetch_add : ℕ → ℕ → ℕ
fetch_add a n = (a + n) % 18446744073709551616

-- `a.div_ceil(b)` for `b` not 0.
abbrev pub div_ceil : ℕ → ℕ → ℕ
div_ceil a b = (a + b - 1) / b

-- `counter.fetch_sub(n)` on an atomic word wraps around.
abbrev pub fetch_sub : ℕ → ℕ → ℕ
fetch_sub a n = (a + (18446744073709551616 - n)) % 18446744073709551616

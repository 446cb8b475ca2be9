-- ===== src/Base/Int.antt =====
-- Python's integers, which may be negative.
use recruiter_pilot.Base.Library.{Option, max, none, some, suc, zero, ℕ, ◌+◌, ◌-◌}

pub data ℤ : Type 0 where
  pos negsuc : ℕ → ℤ

-- `max(n, x)`
abbrev pub at_least : ℕ → ℤ → ℕ
at_least n (pos m) = max n m
at_least n (negsuc m) = n

-- `x or n`: None and 0 count as absent
abbrev pub or_int : Option ℤ → ℤ → ℤ
or_int none n = n
or_int (some (pos zero)) n = n
or_int (some x) n = x

-- `max(0, n - x)`
abbrev pub minus_int : ℕ → ℤ → ℕ
minus_int n (pos m) = n - m
minus_int n (negsuc m) = n + suc m

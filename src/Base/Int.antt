-- ===== src/Base/Int.antt =====
-- The C++ `int`, as a signed integer over the native numbers: options may be negative.
use windbg_agent.Base.{ℕ, Bool, true, leb}

-- `negsuc n` is -(n + 1).
pub data ℤ : Type 0 where
  pos : ℕ → ℤ
  negsuc : ℕ → ℤ

-- The rounds of `for (int i = 0; i < n; ++i)`.
abbrev pub to_ℕ : ℤ → ℕ
to_ℕ (pos n) = n
to_ℕ (negsuc n) = 0

-- `n >= limit`, for a count `n`.
abbrev pub reaches : ℕ → ℤ → Bool
reaches n (pos m) = leb m n
reaches n (negsuc m) = true

-- ===== src/Trace/CallTarget/Reads.antt =====
-- The script's reads and its 64-bit arithmetic, against the manual's.
use windbg_agent.Base.{ℕ, zero, suc, ◌+◌, ◌*◌, ◌/◌, ◌%◌, ◌^◌, ◌<◌, ◌≡◌, ap, ◌∙◌, some, arith}
use windbg_agent.Trace.CallTarget.{Machine, add64, read_u32, sign_ext8, sign_ext32, shl64}
use windbg_agent.Trace.CallTarget.Manual.{extended, le32, Holds}

pub sign_ext8-extended : (v : ℕ) → v < 2 ^ 8 → sign_ext8 v ≡ extended 8 v
unfolding sign_ext8
sign_ext8-extended v h = ground arith

pub sign_ext32-extended : (v : ℕ) → v < 2 ^ 32 → sign_ext32 v ≡ extended 32 v
unfolding sign_ext32
sign_ext32-extended v h = ground arith

pub add64-add64 : (a i j : ℕ) → add64 (add64 a i) j ≡ add64 a (i + j)
add64-add64 a i j = omega arith

-- Doubling k times is the product with 2 ^ k.
pub add64-shl64 : (a v k : ℕ) → k < 4 → add64 a (shl64 v k) ≡ add64 a (v * 2 ^ k)
unfolding shl64
add64-shl64 a v zero h = omega arith
add64-shl64 a v (suc zero) h = omega arith
add64-shl64 a v (suc (suc zero)) h = omega arith
add64-shl64 a v (suc (suc (suc zero))) h = omega arith
add64-shl64 a v (suc (suc (suc (suc k)))) h = absurd (omega arith)

le32_value :
    (d : ℕ)
    → d < 2 ^ 32
    → d % 256 + 256 * (d / 256 % 256) + 65536 * (d / 65536 % 256) + 16777216 * (d / 16777216) ≡ d
le32_value d h = omega arith

-- Four bytes in memory are read back as the number that they were written for.
pub read_u32-le32 :
    (m : Machine) (a d : ℕ) → d < 2 ^ 32 → Holds m a (le32 d) → read_u32 m a ≡ some d
unfolding read_u32
read_u32-le32 m a d h (h0, (h1, (h2, (h3, _)))) =
    let e2 : m.byte (add64 a 2) ≡ some (d / 65536 % 256) = ap m.byte (omega arith) ∙ h2 in
    let e3 : m.byte (add64 a 3) ≡ some (d / 16777216) = ap m.byte (omega arith) ∙ h3 in
    rw (h0, h1, e2, e3) (ap some (le32_value d h))

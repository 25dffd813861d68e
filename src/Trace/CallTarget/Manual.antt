-- ===== src/Trace/CallTarget/Manual.antt =====
-- The near calls of the x86-64 manual that dbg_trace.cpp names, as data: their bytes, and the
-- address that each goes to. Independent of the decoder.
use windbg_agent.Base.{
  ℕ, ◌+◌, ◌-◌, ◌*◌, ◌/◌, ◌%◌, ◌^◌, ◌<◌, ◌≡◌, ◌≢◌, [], ◌∷◌, Option, none, some, ltb, if◌then◌else◌,
  Bytes,
}
use windbg_agent.Trace.CallTarget.{Machine, word, read_u64}

-- The displacement of an operand; a number stands for its two's complement pattern.
pub data Disp : Type 0 where
  no_disp : Disp
  disp8 : ℕ → Disp
  disp32 : ℕ → Disp

-- Registers are numbered from 0 to 15. `scaled r k` is r * 2 ^ k. Without an index the two bits of the
-- scale are free.
pub data Index : Type 0 where
  no_index : ℕ → Index
  scaled : ℕ → ℕ → Index

pub data Call : Type 0 where
  relative : ℕ → Call
  through_reg : ℕ → Call
  rip_relative : ℕ → Call
  simple : ℕ → Disp → Call
  sib : ℕ → Index → Disp → Call
  sib_absolute : Index → ℕ → Call

-- A number that a pattern of w bits stands for, as a 64-bit pattern.
abbrev pub extended : ℕ → ℕ → ℕ
extended w v = if ltb v (2 ^ (w - 1)) then v else word - 2 ^ w + v

abbrev pub disp_value : Disp → ℕ
disp_value no_disp = 0
disp_value (disp8 d) = extended 8 d
disp_value (disp32 d) = extended 32 d

abbrev pub index_value : Machine → Index → ℕ
index_value m (no_index k) = 0
index_value m (scaled r k) = m.reg r * 2 ^ k

-- Where the call with this length at `rip` goes.
unfoldable pub target : Machine → ℕ → ℕ → Call → Option ℕ
target m rip len (relative d) = some ((rip + len + extended 32 d) % word)
target m rip len (through_reg r) = some (m.reg r)
target m rip len (rip_relative d) = read_u64 m ((rip + len + extended 32 d) % word)
target m rip len (simple r d) = read_u64 m ((m.reg r + disp_value d) % word)
target m rip len (sib b i d) = read_u64 m ((m.reg b + index_value m i + disp_value d) % word)
target m rip len (sib_absolute i d) = read_u64 m ((extended 32 d + index_value m i) % word)

abbrev pub le32 : ℕ → Bytes
le32 d = (d % 256) ∷ (d / 256 % 256) ∷ (d / 65536 % 256) ∷ (d / 16777216) ∷ []

abbrev pub disp_bytes : Disp → Bytes
disp_bytes no_disp = []
disp_bytes (disp8 d) = d ∷ []
disp_bytes (disp32 d) = le32 d

-- The mode field of ModRM.
abbrev pub disp_mode : Disp → ℕ
disp_mode no_disp = 0
disp_mode (disp8 d) = 1
disp_mode (disp32 d) = 2

abbrev pub index_low : Index → ℕ
index_low (no_index k) = 4
index_low (scaled r k) = r % 8

abbrev pub index_high : Index → ℕ
index_high (no_index k) = 0
index_high (scaled r k) = r / 8

abbrev pub index_scale : Index → ℕ
index_scale (no_index k) = k
index_scale (scaled r k) = k

-- A REX prefix has the low bits W, R, X and B. The manual ignores W and R in a near call, B where no
-- register is extended by it, and X where there is no SIB byte.
abbrev pub Fits : ℕ → Call → Type 0
Fits p (relative d) = Unit
Fits p (through_reg r) = p % 2 ≡ r / 8
Fits p (rip_relative d) = Unit
Fits p (simple r d) = p % 2 ≡ r / 8
Fits p (sib b i d) = (p % 2 ≡ b / 8) × (p / 2 % 2 ≡ index_high i)
Fits p (sib_absolute i d) = p / 2 % 2 ≡ index_high i

-- The opcode with what follows it.
abbrev pub body : Call → Bytes
body (relative d) = 0xe8 ∷ le32 d
body (through_reg r) = 0xff ∷ (0xd0 + r % 8) ∷ []
body (rip_relative d) = 0xff ∷ 0x15 ∷ le32 d
body (simple r d) = 0xff ∷ (disp_mode d * 64 + 16 + r % 8) ∷ disp_bytes d
body (sib b i d) =
    0xff
    ∷ (disp_mode d * 64 + 16 + 4)
    ∷ (index_scale i * 64 + index_low i * 8 + b % 8)
    ∷ disp_bytes d
body (sib_absolute i d) = 0xff ∷ 0x14 ∷ (index_scale i * 64 + index_low i * 8 + 5) ∷ le32 d

-- A call alone, or behind a REX prefix with these low bits.
abbrev pub encode : Option ℕ → Call → Bytes
encode none call = body call
encode (some p) call = (0x40 + p) ∷ body call

abbrev pub IsDisp : Disp → Type 0
IsDisp no_disp = Unit
IsDisp (disp8 d) = d < 2 ^ 8
IsDisp (disp32 d) = d < 2 ^ 32

-- Register 4 (rsp) cannot be an index.
abbrev pub IsIndex : Index → Type 0
IsIndex (no_index k) = k < 4
IsIndex (scaled r k) = (r < 16) × (r ≢ 4) × (k < 4)

-- What the encoding can express: rsp and r12 as a base take a SIB byte, rbp and r13 a displacement.
abbrev pub IsCall : Call → Type 0
IsCall (relative d) = d < 2 ^ 32
IsCall (through_reg r) = r < 16
IsCall (rip_relative d) = d < 2 ^ 32
IsCall (simple r d) = (r < 16) × (r % 8 ≢ 4) × IsDisp d × (d ≡ no_disp → r % 8 ≢ 5)
IsCall (sib b i d) = (b < 16) × IsIndex i × IsDisp d × (d ≡ no_disp → b % 8 ≢ 5)
IsCall (sib_absolute i d) = IsIndex i × (d < 2 ^ 32)

abbrev pub IsPrefix : Option ℕ → Call → Type 0
IsPrefix none call = Fits 0 call
IsPrefix (some p) call = (p < 16) × Fits p call

-- The bytes stand in memory from `a` on; addresses wrap.
abbrev pub Holds : Machine → ℕ → Bytes → Type 0
Holds m a [] = Unit
Holds m a (b ∷ bs) = (m.byte a ≡ some b) × Holds m ((a + 1) % word) bs

-- ===== src/Trace/CallTarget.antt =====
-- dbg_trace.cpp: the decoder of x86-64 calls in the embedded script `kStepTraceJS`. An exception of
-- the host (unreadable memory) is `none`. Addresses and register values are 64-bit patterns.
pub mod Operands
pub mod Manual
pub mod Reads
pub mod Decodes
pub mod Sound
pub mod Tests
use windbg_agent.Base.{
  ℕ, zero, suc, ◌+◌, ◌*◌, ◌/◌, ◌%◌, ◌^◌, not, ◌&&◌, Option, none, some, ◌==◌, leb, ltb,
  if◌then◌else◌,
}

-- What the script sees of the target: its memory by bytes, and its sixteen general registers in the
-- order of `regNames`. `readMemoryValues(addr, 1, n)` reads n bytes, the low byte first.
pub record Machine : Type 0 where
  pub byte : ℕ → Option ℕ
  pub reg : ℕ → ℕ

infixl 5 ◌>>=◌
abbrev pub ◌>>=◌ {ℓ κ} : {A : Type ℓ} {B : Type κ} → Option A → (A → Option B) → Option B
none >>= f = none
some a >>= f = f a

abbrev pub word : ℕ
word = 2 ^ 64

-- `Int64.add`
abbrev pub add64 : ℕ → ℕ → ℕ
add64 a b = (a + b) % word

unfoldable pub read_u8 : Machine → ℕ → Option ℕ
read_u8 m a = m.byte a

unfoldable pub read_u32 : Machine → ℕ → Option ℕ
read_u32 m a = do
  b0 ← m.byte a
  b1 ← m.byte (add64 a 1)
  b2 ← m.byte (add64 a 2)
  b3 ← m.byte (add64 a 3)
  some (b0 + 256 * b1 + 65536 * b2 + 16777216 * b3)

unfoldable pub read_u64 : Machine → ℕ → Option ℕ
unfolding read_u32
read_u64 m a = do lo ← read_u32 m a; hi ← read_u32 m (add64 a 4); some (lo + 2 ^ 32 * hi)

unfoldable pub sign_ext8 : ℕ → ℕ
sign_ext8 v = if leb v 0x7f then v else add64 0xffff_ffff_ffff_ff00 v

unfoldable pub sign_ext32 : ℕ → ℕ
sign_ext32 v = if leb v 0x7fff_ffff then v else add64 0xffff_ffff_0000_0000 v

-- `for (var i = 0; i < bits; i++) r = r.add(r);`
unfoldable pub shl64 : ℕ → ℕ → ℕ
shl64 val zero = val
shl64 val (suc bits) = shl64 (add64 val val) bits

-- `regs()[regNames[idx & 0xF]]`
unfoldable pub get_reg : Machine → ℕ → ℕ
get_reg m idx = m.reg (idx % 16)

-- The displacement that follows the ModRM and SIB bytes.
pub displaced : Machine → ℕ → ℕ → ℕ → Option ℕ
displaced m mode cursor addr =
    if mode == 1
    then (do d ← read_u8 m cursor; some (add64 addr (sign_ext8 d)))
    else if mode == 2
    then (do d ← read_u32 m cursor; some (add64 addr (sign_ext32 d)))
    else some addr

-- `if (!(index == 4 && rexX == 0)) …`
pub indexed : Machine → ℕ → ℕ → ℕ → ℕ → ℕ
indexed m index rex_x scale addr =
    if not (index == 4 && rex_x == 0)
    then add64 addr (
        if ltb 0 scale
        then shl64 (get_reg m (index + 8 * rex_x)) scale
        else get_reg m (index + 8 * rex_x))
    else addr

-- The operand with a SIB byte; `cursor` stands behind that byte. `base | (rexB << 3)` is a sum, as
-- `base` is below 8.
pub sib_address : Machine → ℕ → ℕ → ℕ → ℕ → ℕ → Option ℕ
sib_address m mode rex_b rex_x sib cursor =
    let base = sib % 8 in
    let index = sib / 8 % 8 in
    let scale = sib / 64 % 4 in
    if mode == 0 && base == 5
    then (do
      d ← read_u32 m cursor
      displaced m mode (add64 cursor 4) (indexed m index rex_x scale (sign_ext32 d)))
    else displaced m mode cursor (indexed m index rex_x scale (get_reg m (base + 8 * rex_b)))

-- The memory operand; `has_rex` is 1 if there is a REX prefix. The test `rex ? 1 : 0` is the same,
-- as a prefix is never 0.
pub effective : Machine → ℕ → ℕ → ℕ → ℕ → ℕ → ℕ → ℕ → Option ℕ
effective m rip has_rex rex_b rex_x mode rm cursor =
    if rm == 4
    then (do sib ← read_u8 m cursor; sib_address m mode rex_b rex_x sib (add64 cursor 1))
    else if mode == 0 && rm == 5
    then (do d ← read_u32 m cursor; some (add64 (add64 rip (has_rex + 1 + 1 + 4)) (sign_ext32 d)))
    else displaced m mode cursor (get_reg m (rm + 8 * rex_b))

-- `FF /2`, from its ModRM byte on.
pub indirect : Machine → ℕ → ℕ → ℕ → ℕ → ℕ → Option (Option ℕ)
indirect m rip has_rex rex pos modrm =
    let mode = modrm / 64 % 4 in
    let reg_op = modrm / 8 % 8 in
    let rm = modrm % 8 in
    let rex_b = rex % 2 in
    let rex_x = rex / 2 % 2 in
    if not (reg_op == 2)
    then some none
    else if mode == 3
    then some (some (get_reg m (rm + 8 * rex_b)))
    else (do
      addr ← effective m rip has_rex rex_b rex_x mode rm (add64 pos 2)
      target ← read_u64 m addr
      some (some target))

-- The opcode `b0` at `pos`, behind the optional prefix.
pub opcode : Machine → ℕ → ℕ → ℕ → ℕ → ℕ → Option (Option ℕ)
opcode m rip has_rex rex pos b0 =
    if b0 == 0xe8
    then (do d ← read_u32 m (add64 pos 1); some (some (add64 (add64 pos 5) (sign_ext32 d))))
    else if not (b0 == 0xff)
    then some none
    else (do modrm ← read_u8 m (add64 pos 1); indirect m rip has_rex rex pos modrm)

-- The target of the call at `rip`, or `some none` if the instruction there is no call.
unfoldable pub resolve_call_target : Machine → ℕ → Option (Option ℕ)
unfolding opcode indirect effective sib_address displaced indexed
resolve_call_target m rip = do
  b ← read_u8 m rip
  if leb 0x40 b && leb b 0x4f
      then (do b0 ← read_u8 m (add64 rip 1); opcode m rip 1 b (add64 rip 1) b0)
      else opcode m rip 0 0 rip b

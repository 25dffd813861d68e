-- ===== src/Trace/CallTarget/Decodes.antt =====
-- `resolveCallTarget` of the script in dbg_trace.cpp finds the target of every near call.
use windbg_agent.Trace.CallTarget.Operands.{
  HasWords, get_reg-split, modrm_fields, disp_mode_lt, Holds-two, effective-simple, effective-sib,
  effective-absolute, effective-rip,
}
use mathlib.Core.Option
use native.Mathlib.Nat.{zero-add}
use windbg_agent.Base.{
  ℕ, suc, ◌+◌, ◌*◌, ◌/◌, ◌%◌, ◌<◌, ◌≡◌, refl, ap, ◌∷◌, Option, none, some, true, false, leb, arith,
  length, ◌&&◌, ◌==◌,
}
use windbg_agent.Trace.CallTarget.{
  Machine, word, add64, read_u8, read_u64, effective, indirect, opcode, resolve_call_target, ◌>>=◌,
}
use windbg_agent.Trace.CallTarget.Manual.{
  Call, relative, through_reg, rip_relative, simple, sib, sib_absolute, target, le32, disp_bytes,
  disp_mode, index_low, index_scale, Fits, body, encode, IsCall, IsPrefix, Holds,
}
use windbg_agent.Trace.CallTarget.Reads.{sign_ext32-extended, read_u32-le32}

fetched : (o : Option ℕ) → (o >>= λ t. some (some t)) ≡ Option.map some o
fetched none = refl
fetched (some t) = refl

indirect_memory :
    (m : Machine) (rip has_rex rex pos mode rm addr : ℕ)
    → mode < 3
    → rm < 8
    → effective m rip has_rex (rex % 2) (rex / 2 % 2) mode rm (add64 pos 2) ≡ some addr
    → indirect m rip has_rex rex pos (mode * 64 + 16 + rm) ≡ Option.map some (read_u64 m addr)
unfolding indirect
indirect_memory m rip has_rex rex pos mode rm addr h k e =
    let (f0, f1, f2) = modrm_fields mode rm (omega arith) k in
    let e3 : (mode == 3) ≡ false = ground arith in
    rw (f0, f1, f2, e3, e) (fetched (read_u64 m addr))

indirect-through_reg :
    (m : Machine) (rip has_rex rex pos r : ℕ)
    → r < 16
    → rex % 2 ≡ r / 8
    → indirect m rip has_rex rex pos (208 + r % 8) ≡ some (some (m.reg r))
unfolding indirect
indirect-through_reg m rip has_rex rex pos r v eb =
    let f0 : (208 + r % 8) / 64 % 4 ≡ 3 = omega arith in
    let f1 : (208 + r % 8) / 8 % 8 ≡ 2 = omega arith in
    let f2 : (208 + r % 8) % 8 ≡ r % 8 = omega arith in rw (f0, f1, f2, eb, get_reg-split m r v)

abbrev first_byte : Call → ℕ
first_byte (relative d) = 0xe8
first_byte _ = 0xff

-- The opcode of a call that stands behind its prefix is decoded to the call's target.
module _ (m : Machine) (rip has_rex rex pos : ℕ) (w : HasWords m)
    (at_pos : (i : ℕ) → add64 pos i ≡ add64 rip (has_rex + i)) where
  opcode-indirect :
      (call : Call) (b : ℕ)
      → m.byte ((pos + 1) % word) ≡ some b
      → indirect m rip has_rex rex pos b
        ≡ Option.map some (target m rip (has_rex + length (body call)) call)
      → opcode m rip has_rex rex pos 0xff
        ≡ Option.map some (target m rip (has_rex + length (body call)) call)
  unfolding opcode read_u8
  opcode-indirect call b h e = rw h e

  opcode-body :
      (call : Call)
      → IsCall call
      → Fits rex call
      → Holds m pos (body call)
      → opcode m rip has_rex rex pos (first_byte call)
        ≡ Option.map some (target m rip (has_rex + length (body call)) call)
  unfolding target
  opcode-body (relative d) v f (h0, hs) =
      unfold opcode in
      rw (read_u32-le32 m (add64 pos 1) d v hs, sign_ext32-extended d v, at_pos 5)
        (ap (λ t. some (some t)) (omega arith))
  opcode-body (through_reg r) v f (h0, (h1, hs)) =
      opcode-indirect (through_reg r) _ h1 (indirect-through_reg m rip has_rex rex pos r v f)
  opcode-body (rip_relative d) v f (h0, (h1, hs)) = opcode-indirect (rip_relative d) _ h1 (
      indirect_memory m rip has_rex rex pos 0 5 _ (omega arith) (omega arith) (
        effective-rip m rip has_rex (rex % 2) (rex / 2 % 2) d (add64 pos 2) v
          (Holds-two m pos (le32 d) hs)))
  opcode-body (simple r d) v f (h0, (h1, hs)) = opcode-indirect (simple r d) _ h1 (
      indirect_memory m rip has_rex rex pos (disp_mode d) (r % 8) _ (disp_mode_lt d) (omega arith) (
        rw f (
          effective-simple m rip has_rex (rex / 2 % 2) r d (add64 pos 2) w v
            (Holds-two m pos (disp_bytes d) hs))))
  opcode-body (sib b i d) v f (h0, (h1, hs)) = opcode-indirect (sib b i d) _ h1 (
      indirect_memory m rip has_rex rex pos (disp_mode d) 4 _ (disp_mode_lt d) (omega arith) (
        rw (f.0, f.1)
          (effective-sib m rip has_rex b i d (add64 pos 2) w v
            (Holds-two m pos ((index_scale i * 64 + index_low i * 8 + b % 8) ∷ disp_bytes d) hs))))
  opcode-body (sib_absolute i d) v f (h0, (h1, hs)) = opcode-indirect (sib_absolute i d) _ h1 (
      indirect_memory m rip has_rex rex pos 0 4 _ (omega arith) (omega arith) (
        rw f (
          effective-absolute m rip has_rex (rex % 2) i d (add64 pos 2) v
            (Holds-two m pos ((index_scale i * 64 + index_low i * 8 + 5) ∷ le32 d) hs))))

-- The whole prefix byte has the same bits X and B.
Fits-add : (p : ℕ) (call : Call) → Fits p call → Fits (0x40 + p) call
Fits-add p (relative d) f = tt
Fits-add p (through_reg r) f = omega (arith, f)
Fits-add p (rip_relative d) f = tt
Fits-add p (simple r d) f = omega (arith, f)
Fits-add p (sib b i d) f = (omega (arith, f.0), omega (arith, f.1))
Fits-add p (sib_absolute i d) f = omega (arith, f)

Holds-first :
    (m : Machine) (a : ℕ) (call : Call) → Holds m a (body call) → m.byte a ≡ some (first_byte call)
Holds-first m a (relative d) h = h.0
Holds-first m a (through_reg r) h = h.0
Holds-first m a (rip_relative d) h = h.0
Holds-first m a (simple r d) h = h.0
Holds-first m a (sib b i d) h = h.0
Holds-first m a (sib_absolute i d) h = h.0

first_byte_plain :
    (call : Call) → (leb 0x40 (first_byte call) && leb (first_byte call) 0x4f) ≡ false
first_byte_plain (relative d) = refl
first_byte_plain _ = refl

-- Wherever the bytes of a near call of the manual stand in memory, alone or behind one REX prefix (any
-- that encodes this call), the script computes the address that the call goes to; it fails only if the
-- pointer to that address cannot be read. Calls behind other prefixes are not among these.
pub resolve_call_target-encode :
    (m : Machine) (rip : ℕ) (prefix : Option ℕ) (call : Call)
    → HasWords m
    → IsCall call
    → IsPrefix prefix call
    → Holds m rip (encode prefix call)
    → resolve_call_target m rip ≡ Option.map some (target m rip (length (encode prefix call)) call)
unfolding resolve_call_target read_u8
resolve_call_target-encode m rip none call w v p h =
    rw (Holds-first m rip call h, first_byte_plain call)
      (rw zero-add at (opcode-body m rip 0 0 rip w (λ i. omega arith) call v p h))
resolve_call_target-encode m rip (some p) call w v (low, f) (h0, hs) =
    let byte = 0x40 + p in
    let in_range : (leb 0x40 byte && leb byte 0x4f) ≡ true = ground arith in
    let counted : suc (length (body call)) ≡ 1 + length (body call) = omega arith in
    rw (h0, in_range, Holds-first m ((rip + 1) % word) call hs, counted)
      (opcode-body m rip 1 byte (add64 rip 1) w (λ i. omega arith) call v (Fits-add p call f) hs)

-- ===== src/Trace/CallTarget/Operands.antt =====
-- The operands that `resolveCallTarget` of the script in dbg_trace.cpp decodes.
use windbg_agent.Base.{
  ℕ, ◌+◌, ◌*◌, ◌/◌, ◌%◌, ◌^◌, ◌<◌, ◌≡◌, ◌≢◌, refl, ap, ◌∙◌, ◌∷◌, some, false, Bytes, arith, ◌&&◌,
  ◌==◌,
}
use windbg_agent.Trace.CallTarget.{
  Machine, word, add64, read_u8, get_reg, displaced, indexed, sib_address, effective,
}
use windbg_agent.Trace.CallTarget.Manual.{
  Disp, no_disp, disp8, disp32, Index, no_index, scaled, simple, sib, sib_absolute, disp_value,
  index_value, le32, disp_bytes, disp_mode, index_low, index_high, index_scale, IsDisp, IsIndex,
  IsCall, Holds, extended,
}
use windbg_agent.Trace.CallTarget.Reads.{
  sign_ext8-extended, sign_ext32-extended, add64-shl64, read_u32-le32,
}

-- Registers hold 64 bits.
abbrev pub HasWords : Machine → Type 0
HasWords m = (r : ℕ) → m.reg r < word

pub get_reg-split : (m : Machine) (r : ℕ) → r < 16 → get_reg m (r % 8 + 8 * (r / 8)) ≡ m.reg r
unfolding get_reg
get_reg-split m r h = ap m.reg (omega arith)

displaced_value :
    (m : Machine) (d : Disp) (cursor addr : ℕ)
    → IsDisp d
    → addr < word
    → Holds m cursor (disp_bytes d)
    → displaced m (disp_mode d) cursor addr ≡ some (add64 addr (disp_value d))
unfolding displaced read_u8
displaced_value m no_disp cursor addr v w h = ap some (omega arith)
displaced_value m (disp8 d) cursor addr v w h = rw (h.0, sign_ext8-extended d v)
displaced_value m (disp32 d) cursor addr v w h =
    rw (read_u32-le32 m cursor d v h, sign_ext32-extended d v)

indexed_value :
    (m : Machine) (i : Index) (addr : ℕ)
    → IsIndex i
    → addr < word
    → indexed m (index_low i) (index_high i) (index_scale i) addr ≡ add64 addr (index_value m i)
unfolding indexed
indexed_value m (no_index k) addr v w = omega arith
indexed_value m (scaled r k) addr v w =
    rw (get_reg-split m r v.0) (ground (arith, add64-shl64 addr (m.reg r) k v.2))

pub index_fields :
    (i : Index) → IsIndex i → (index_low i < 8) × (index_high i < 2) × (index_scale i < 4)
index_fields (no_index k) v = omega arith
index_fields (scaled r k) v = omega arith

-- The three fields of a SIB byte.
sib_fields :
    (i : Index) (low : ℕ)
    → IsIndex i
    → low < 8
    → let s = index_scale i * 64 + index_low i * 8 + low in
      (s % 8 ≡ low) × (s / 8 % 8 ≡ index_low i) × (s / 64 % 4 ≡ index_scale i)
sib_fields i low v h = omega (arith, index_fields i v)

has_base : (b : ℕ) (d : Disp) → (d ≡ no_disp → b % 8 ≢ 5) → (disp_mode d == 0 && b % 8 == 5) ≡ false
has_base b no_disp h = let h5 : b % 8 ≢ 5 = h refl in ground arith
has_base b (disp8 d) h = refl
has_base b (disp32 d) h = refl

add64-lt : (a b : ℕ) → add64 a b < word
add64-lt a b = omega arith

regroup : (a b c : ℕ) → add64 (add64 a b) c ≡ (a + b + c) % word
regroup a b c = omega arith

sib_address-base :
    (m : Machine) (b : ℕ) (i : Index) (d : Disp) (cursor : ℕ)
    → HasWords m
    → IsCall (sib b i d)
    → Holds m cursor (disp_bytes d)
    → sib_address m
        (disp_mode d)
        (b / 8)
        (index_high i)
        (index_scale i * 64 + index_low i * 8 + b % 8)
        cursor
      ≡ some ((m.reg b + index_value m i + disp_value d) % word)
unfolding sib_address
sib_address-base m b i d cursor r (vb, vi, vd, ok) h =
    let (f0, f1, f2) = sib_fields i (b % 8) vi (omega arith) in
    rw
      (
        f0,
        f1,
        f2,
        has_base b d ok,
        get_reg-split m b vb,
        indexed_value m i (m.reg b) vi (r b),
        displaced_value m d cursor (add64 (m.reg b) (index_value m i)) vd
            (add64-lt (m.reg b) (index_value m i)) h,
      )
      (ap some (regroup (m.reg b) (index_value m i) (disp_value d)))

settle : (a b : ℕ) → add64 (add64 a b) 0 ≡ (a + b) % word
settle a b = omega arith

extended_lt : (d : ℕ) → d < 2 ^ 32 → extended 32 d < word
extended_lt d h = ground arith

sib_address-absolute :
    (m : Machine) (b : ℕ) (i : Index) (d : ℕ) (cursor : ℕ)
    → IsCall (sib_absolute i d)
    → Holds m cursor (le32 d)
    → sib_address m 0 b (index_high i) (index_scale i * 64 + index_low i * 8 + 5) cursor
      ≡ some ((extended 32 d + index_value m i) % word)
unfolding sib_address
sib_address-absolute m b i d cursor (vi, vd) h =
    let (f0, f1, f2) = sib_fields i 5 vi (omega arith) in
    rw
      (
        f0,
        f1,
        f2,
        read_u32-le32 m cursor d vd h,
        sign_ext32-extended d vd,
        indexed_value m i (extended 32 d) vi (extended_lt d vd),
      )
      (displaced_value m no_disp (add64 cursor 4) (add64 (extended 32 d) (index_value m i)) tt
          (add64-lt (extended 32 d) (index_value m i)) tt
        ∙ ap some (settle (extended 32 d) (index_value m i)))

-- The ModRM byte of a memory operand.
pub modrm_fields :
    (mode rm : ℕ)
    → mode < 4
    → rm < 8
    → let b = mode * 64 + 16 + rm in (b / 64 % 4 ≡ mode) × (b / 8 % 8 ≡ 2) × (b % 8 ≡ rm)
modrm_fields mode rm h k = omega arith

pub disp_mode_lt : (d : Disp) → disp_mode d < 3
disp_mode_lt no_disp = omega arith
disp_mode_lt (disp8 d) = omega arith
disp_mode_lt (disp32 d) = omega arith

-- The cursor of the script and the place where the encoding puts a byte.
pub Holds-two :
    (m : Machine) (pos : ℕ) (bs : Bytes)
    → Holds m (((pos + 1) % word + 1) % word) bs
    → Holds m (add64 pos 2) bs
Holds-two m pos bs h =
    let e : ((pos + 1) % word + 1) % word ≡ (pos + 2) % word = omega arith in rw (← e) h

pub effective-simple :
    (m : Machine) (rip has_rex x r : ℕ) (d : Disp) (cursor : ℕ)
    → HasWords m
    → IsCall (simple r d)
    → Holds m cursor (disp_bytes d)
    → effective m rip has_rex (r / 8) x (disp_mode d) (r % 8) cursor
      ≡ some ((m.reg r + disp_value d) % word)
unfolding effective
effective-simple m rip has_rex x r d cursor w (vr, no_sib, vd, ok) h =
    let e4 : (r % 8 == 4) ≡ false = ground arith in
    rw (e4, has_base r d ok, get_reg-split m r vr, displaced_value m d cursor (m.reg r) vd (w r) h)

pub effective-sib :
    (m : Machine) (rip has_rex b : ℕ) (i : Index) (d : Disp) (cursor : ℕ)
    → HasWords m
    → IsCall (sib b i d)
    → Holds m cursor ((index_scale i * 64 + index_low i * 8 + b % 8) ∷ disp_bytes d)
    → effective m rip has_rex (b / 8) (index_high i) (disp_mode d) 4 cursor
      ≡ some ((m.reg b + index_value m i + disp_value d) % word)
unfolding effective read_u8
effective-sib m rip has_rex b i d cursor w v h =
    rw h.0 (sib_address-base m b i d (add64 cursor 1) w v h.1)

pub effective-absolute :
    (m : Machine) (rip has_rex b : ℕ) (i : Index) (d cursor : ℕ)
    → IsCall (sib_absolute i d)
    → Holds m cursor ((index_scale i * 64 + index_low i * 8 + 5) ∷ le32 d)
    → effective m rip has_rex b (index_high i) 0 4 cursor
      ≡ some ((extended 32 d + index_value m i) % word)
unfolding effective read_u8
effective-absolute m rip has_rex b i d cursor v h =
    rw h.0 (sib_address-absolute m b i d (add64 cursor 1) v h.1)

pub effective-rip :
    (m : Machine) (rip has_rex b x d cursor : ℕ)
    → d < 2 ^ 32
    → Holds m cursor (le32 d)
    → effective m rip has_rex b x 0 5 cursor ≡ some ((rip + (has_rex + 6) + extended 32 d) % word)
unfolding effective
effective-rip m rip has_rex b x d cursor v h =
    rw (read_u32-le32 m cursor d v h, sign_ext32-extended d v) (ap some (omega arith))

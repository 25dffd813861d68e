-- ===== src/Trace/CallTarget/Sound.antt =====
-- `resolveCallTarget` of the script in dbg_trace.cpp takes nothing else for a call.
use windbg_agent.Base.{
  ℕ, ◌≤◌, subst, ◌/◌, ◌%◌, ◌≡◌, refl, Option, none, some, arith, ◌==◌, ◌&&◌, leb, ◌⊎◌, inl, inr,
  if◌then◌else◌, Bool-cases, ==_iff,
}
use windbg_agent.Trace.CallTarget.{
  Machine, add64, read_u8, read_u32, indirect, opcode, sign_ext32, resolve_call_target, ◌>>=◌,
}

-- The bytes at `pos` begin a near call, direct or through ModRM with the operation /2.
abbrev pub IsNearCall : Machine → ℕ → Type 0
IsNearCall m pos =
    (m.byte pos ≡ some 0xe8)
    ⊎ ((m.byte pos ≡ some 0xff) × (b : ℕ) × (m.byte (add64 pos 1) ≡ some b) × (b / 8 % 8 ≡ 2))

abbrev FindsNearCall : Machine → ℕ → Option (Option ℕ) → Type 0
FindsNearCall m pos (some (some t)) = IsNearCall m pos
FindsNearCall m pos _ = Unit

indirect-FindsNearCall :
    (m : Machine) (rip has_rex rex pos b : ℕ)
    → m.byte pos ≡ some 0xff
    → m.byte (add64 pos 1) ≡ some b
    → FindsNearCall m pos (indirect m rip has_rex rex pos b)
unfolding indirect
indirect-FindsNearCall m rip has_rex rex pos b h k = elim (Bool-cases (b / 8 % 8 == 2)) [
  | inr other ↦ rw other tt
  | inl call ↦
      found (indirect m rip has_rex rex pos b) (inr (h, b, k, (==_iff (b / 8 % 8) 2).0 call))
]
  where
    found : (r : Option (Option ℕ)) → IsNearCall m pos → FindsNearCall m pos r
    found (some (some t)) c = c
    found (some none) c = tt
    found none c = tt

opcode-FindsNearCall :
    (m : Machine) (rip has_rex rex pos b : ℕ)
    → m.byte pos ≡ some b
    → FindsNearCall m pos (opcode m rip has_rex rex pos b)
unfolding opcode read_u8
opcode-FindsNearCall m rip has_rex rex pos b h = elim (Bool-cases (b == 0xe8)) [
  | inl direct ↦ rw direct (found (read_u32 m (add64 pos 1)) (rw ((==_iff b 0xe8).0 direct) at h))
  | inr other ↦ rw other (elim (Bool-cases (b == 0xff)) [
    | inr neither ↦ rw neither tt
    | inl through ↦
        rw through (modrm (m.byte (add64 pos 1)) refl (rw ((==_iff b 0xff).0 through) at h))
  ])
]
  where
    found :
        (r : Option ℕ)
        → m.byte pos ≡ some 0xe8
        → FindsNearCall m pos (r >>= λ d. some (some (add64 (add64 pos 5) (sign_ext32 d))))
    found none e = tt
    found (some d) e = inl e

    modrm :
        (r : Option ℕ)
        → m.byte (add64 pos 1) ≡ r
        → m.byte pos ≡ some 0xff
        → FindsNearCall m pos (r >>= λ b. indirect m rip has_rex rex pos b)
    modrm none e f = tt
    modrm (some d) e f = indirect-FindsNearCall m rip has_rex rex pos d f e

-- The script reports a call only where one stands: at the instruction pointer, or behind one prefix
-- byte from 0x40 to 0x4f.
pub resolve_call_target_sound :
    (m : Machine) (rip t : ℕ)
    → resolve_call_target m rip ≡ some (some t)
    → IsNearCall m rip
      ⊎ ((p : ℕ) × (m.byte rip ≡ some p) × (0x40 ≤ p) × (p ≤ 0x4f) × IsNearCall m (add64 rip 1))
unfolding resolve_call_target read_u8
resolve_call_target_sound m rip t h = first (m.byte rip) refl h
  where
    behind :
        (p : ℕ) (r : Option ℕ)
        → m.byte (add64 rip 1) ≡ r
        → (r >>= λ b. opcode m rip 1 p (add64 rip 1) b) ≡ some (some t)
        → IsNearCall m (add64 rip 1)
    behind p none e g = cc
    behind p (some b) e g =
        subst (FindsNearCall m (add64 rip 1)) g (opcode-FindsNearCall m rip 1 p (add64 rip 1) b e)

    first :
        (r : Option ℕ)
        → m.byte rip ≡ r
        → (r >>= λ b.
            if leb 0x40 b && leb b 0x4f
            then m.byte (add64 rip 1) >>= (λ b0. opcode m rip 1 b (add64 rip 1) b0)
            else opcode m rip 0 0 rip b)
          ≡ some (some t)
        → IsNearCall m rip
          ⊎ ((p : ℕ) × (m.byte rip ≡ some p) × (0x40 ≤ p) × (p ≤ 0x4f) × IsNearCall m (add64 rip 1))
    first none e g = cc
    first (some b) e g = elim (Bool-cases (leb 0x40 b && leb b 0x4f)) [
      | inr plain ↦
          inl (subst (FindsNearCall m rip) (rw plain at g) (opcode-FindsNearCall m rip 0 0 rip b e))
      | inl rex ↦
          inr (b, e, ground arith, ground arith, behind b (m.byte (add64 rip 1)) refl (rw rex at g))
    ]

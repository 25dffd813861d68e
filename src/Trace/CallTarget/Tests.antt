-- ===== src/Trace/CallTarget/Tests.antt =====
-- Calls decoded by the script in dbg_trace.cpp, and the theorems about them at concrete inputs.
use mathlib.Core.Option
use windbg_agent.Base.{ℕ, ◌≤◌, ◌≡◌, ◌⊎◌, refl, [], ◌∷◌, none, some, arith, get_elem?, length}
use windbg_agent.Trace.CallTarget.{
  Machine, add64, read_u8, read_u32, read_u64, get_reg, shl64, sign_ext8, sign_ext32,
  resolve_call_target,
}
use windbg_agent.Trace.CallTarget.Decodes.{resolve_call_target-encode}
use windbg_agent.Trace.CallTarget.Manual.{Call, sib, scaled, disp8, encode, target}
use windbg_agent.Trace.CallTarget.Sound.{IsNearCall, resolve_call_target_sound}

-- `call [r12 + rcx*2 - 8]` at address 0, every register at 5, and the pointer at address 7.
abbrev indirect_call : Machine
indirect_call = record {
  byte =
      get_elem?
        (0x41 ∷ 0xff ∷ 0x54 ∷ 0x4c ∷ 0xf8 ∷ 0 ∷ 0 ∷ 0x78 ∷ 0x56 ∷ 0x34 ∷ 0x12 ∷ 0 ∷ 0 ∷ 0 ∷ 0 ∷ []);
  reg = λ r. 5;
}

abbrev the_call : Call
the_call = sib 12 (scaled 1 1) (disp8 0xf8)

resolves : resolve_call_target indirect_call 0 ≡ some (some 0x1234_5678)
unfolding resolve_call_target read_u8 read_u32 read_u64 get_reg shl64 sign_ext8 sign_ext32
resolves = refl

-- `jmp [rip + 0]` and unreadable memory.
no_call :
    (resolve_call_target (record indirect_call { byte = get_elem? (0xff ∷ 0x25 ∷ []) }) 0
      ≡ some none)
    × (resolve_call_target (record indirect_call { byte = get_elem? (0xff ∷ []) }) 0 ≡ none)
unfolding resolve_call_target read_u8 read_u32 read_u64 get_reg shl64 sign_ext8 sign_ext32
no_call = (refl, refl)

-- `call [rax]` behind a prefix of the segment GS, and `call +16` behind `F2`: calls that are not seen.
prefixed_calls :
    (resolve_call_target (record indirect_call { byte = get_elem? (0x65 ∷ 0xff ∷ 0x10 ∷ []) }) 0
      ≡ some none)
    × (resolve_call_target
          (record indirect_call { byte = get_elem? (0xf2 ∷ 0xe8 ∷ 16 ∷ 0 ∷ 0 ∷ 0 ∷ []) })
          0
        ≡ some none)
unfolding resolve_call_target read_u8 read_u32 read_u64 get_reg shl64 sign_ext8 sign_ext32
prefixed_calls = (refl, refl)

resolve_call_target-encode_example :
    resolve_call_target indirect_call 0
    ≡ Option.map some (target indirect_call 0 (length (encode (some 1) the_call)) the_call)
resolve_call_target-encode_example =
    resolve_call_target-encode indirect_call 0 (some 1) the_call (λ r. omega arith)
      (omega arith, (omega arith, λ e. cc, omega arith), omega arith, λ e. cc) (omega arith)
      (refl, (refl, (refl, (refl, (refl, tt)))))

resolve_call_target_sound_example :
    IsNearCall indirect_call 0
    ⊎ ((p : ℕ) × (indirect_call.byte 0 ≡ some p)
        × (0x40 ≤ p)
        × (p ≤ 0x4f)
        × IsNearCall indirect_call (add64 0 1))
resolve_call_target_sound_example = resolve_call_target_sound indirect_call 0 0x1234_5678 resolves

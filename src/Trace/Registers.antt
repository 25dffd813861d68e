-- ===== src/Trace/Registers.antt =====
-- dbg_trace.cpp: what a trace reads of the debugged thread (`ReadRegistersViaApi`,
-- `DisassembleOneViaApi` and the instruction pointer), and how it prints it.
pub mod Tests
use windbg_agent.Base.Decimal.{to_string, padded}
use windbg_agent.Base.Hex.{hex_digits}
use windbg_agent.Base.{
  ℕ, zero, suc, ◌+◌, ◌%◌, ◌^◌, Bool, true, false, not, ◌&&◌, ◌||◌, List, [], ◌∷◌, ◌++◌, Option,
  none, some, Bytes, codes, equals, ◌==◌, if◌then◌else◌, is_some,
}
use windbg_agent.Trace.LogFile.{fmt}

-- A `DEBUG_VALUE`: of the type `DEBUG_VALUE_INT32`, or of another one, read as a 64-bit integer.
pub data DebugValue : Type 0 where
  int32 : ℕ → DebugValue
  other : ℕ → DebugValue

-- `(val.Type == DEBUG_VALUE_INT32) ? val.I32 : val.I64`
abbrev pub number : DebugValue → ℕ
number (int32 n) = n
number (other n) = n

-- An interface to the registers, `IDebugRegisters` or `IDebugRegisters2`: `GetIndexByName`, and
-- `GetValue` or `GetValues2` with the debuggee as the source. `none` is a failure.
pub record Registers : Type 0 where
  pub index : Bytes → Option ℕ
  pub value : ℕ → Option DebugValue

-- The lambda `get_reg`.
unfoldable pub get_reg : Registers → Bytes → Option ℕ
get_reg regs name = elim (regs.index name) [
  | none ↦ none
  | some idx ↦ elim (regs.value idx) [ none ↦ none | some val ↦ some (number val) ]
]

unfoldable pub reg_text : Bool → Bytes → ℕ → Bytes
unfolding padded hex_digits equals
reg_text is_x64 name val =
    if is_x64 && not (equals name (codes "efl"))
    then padded b' ' 3 name ++ (codes "=" ++ hex_digits 16 val)
    else padded b' ' 3 name ++ (codes "=" ++ hex_digits 8 (val % 2 ^ 32))

-- The inner loop: the registers of a group that can be read, with blanks between them.
unfoldable pub group_text : Registers → Bool → Bool → List Bytes → Bytes
unfolding get_reg reg_text
group_text regs is_x64 first [] = []
group_text regs is_x64 first (name ∷ names) = elim (get_reg regs name) [
  | none ↦ group_text regs is_x64 first names
  | some val ↦
      (if first then [] else codes " ")
      ++ (reg_text is_x64 name val ++ group_text regs is_x64 false names)
]

unfoldable pub groups_text : Registers → Bool → List (List Bytes) → Bytes
unfolding group_text
groups_text regs is_x64 [] = []
groups_text regs is_x64 (names ∷ groups) =
    group_text regs is_x64 true names ++ (codes "\n" ++ groups_text regs is_x64 groups)

abbrev pub x64_groups : List (List Bytes)
x64_groups =
    (codes "rax" ∷ codes "rbx" ∷ codes "rcx" ∷ [])
    ∷ (codes "rdx" ∷ codes "rsi" ∷ codes "rdi" ∷ [])
    ∷ (codes "rip" ∷ codes "rsp" ∷ codes "rbp" ∷ [])
    ∷ (codes "r8" ∷ codes "r9" ∷ codes "r10" ∷ [])
    ∷ (codes "r11" ∷ codes "r12" ∷ codes "r13" ∷ [])
    ∷ (codes "r14" ∷ codes "r15" ∷ [])
    ∷ (codes "efl" ∷ [])
    ∷ []

abbrev pub x86_groups : List (List Bytes)
x86_groups =
    (codes "eax" ∷ codes "ebx" ∷ codes "ecx" ∷ [])
    ∷ (codes "edx" ∷ codes "esi" ∷ codes "edi" ∷ [])
    ∷ (codes "eip" ∷ codes "esp" ∷ codes "ebp" ∷ [])
    ∷ (codes "efl" ∷ [])
    ∷ []

-- `ReadRegistersViaApi`: `none` where the interface cannot be had.
unfoldable pub read_registers : Option Registers → Bytes
unfolding groups_text
read_registers none = []
read_registers (some regs) =
    let is_x64 = is_some (regs.index (codes "rip")) in
    groups_text regs is_x64 (if is_x64 then x64_groups else x86_groups)

-- The ends of lines at the end of a text are taken off.
unfoldable pub chomped : Bytes → Bytes
chomped [] = []
chomped (c ∷ s) = elim (chomped s) [
  | [] ↦ if c == b'\n' || c == b'\r' then [] else c ∷ []
  | d ∷ rest ↦ c ∷ d ∷ rest
]

-- `DisassembleOneViaApi`, with the text that `Disassemble` wrote, if it succeeded and wrote one.
unfoldable pub disassemble_one : Option Bytes → ℕ → Bytes
unfolding chomped fmt
disassemble_one none addr = fmt addr
disassemble_one (some written) addr = chomped written

-- An entry of the log: `fprintf(log_fp, "step %5d:\n%s\n%s\n", …)`.
unfoldable pub step_text : ℕ → Bytes → Bytes → Bytes
unfolding padded to_string
step_text step_count disasm regs =
    codes "step "
    ++ (padded b' ' 5 (to_string step_count)
        ++ (codes ":\n" ++ (disasm ++ (codes "\n" ++ (regs ++ codes "\n")))))

-- The index of the instruction pointer: `rip`, or else `eip`.
unfoldable pub ip_index : Registers → Option ℕ
ip_index regs = elim (regs.index (codes "rip")) [
  | some idx ↦ some idx
  | none ↦ regs.index (codes "eip")
]

-- The instruction pointer by one interface, where there is one.
unfoldable pub read_ip_by : Option Registers → Option ℕ
unfolding ip_index
read_ip_by none = none
read_ip_by (some regs) = elim (ip_index regs) [
  | none ↦ none
  | some idx ↦ elim (regs.value idx) [ none ↦ none | some val ↦ some (number val) ]
]

-- The lambda `read_ip`: by the target's registers, by the cached ones, and at last by the value of
-- the expression `@$ip`.
unfoldable pub read_ip : Option Registers → Option Registers → Option ℕ → Option ℕ
unfolding read_ip_by
read_ip regs2 regs evaluated = elim (read_ip_by regs2) [
  | some ip ↦ some ip
  | none ↦ elim (read_ip_by regs) [ some ip ↦ some ip | none ↦ evaluated ]
]

-- The start address of a kernel-mode trace: a failure of `GetValue` leaves the zero.
unfoldable pub start_ip_by : Option Registers → ℕ
unfolding ip_index
start_ip_by none = 0
start_ip_by (some regs) = elim (ip_index regs) [
  | none ↦ 0
  | some idx ↦ elim (regs.value idx) [ none ↦ 0 | some v ↦ number v ]
]

-- ===== src/Trace/Registers/Tests.antt =====
-- Registers as dbg_trace.cpp prints them.
use windbg_agent.Base.Int.{pos}
use windbg_agent.Base.{◌≡◌, refl, ◌++◌, none, some, codes, equals, All, arith, if◌then◌else◌, ◌==◌}
use windbg_agent.Trace.Fits.{Fits, AllFit, sprintf-Fits}
use windbg_agent.Trace.KernelTrace.{set_counter}
use windbg_agent.Trace.LogFile.{SystemTime, time_stamp, fmt}
use windbg_agent.Trace.Registers.{
  Registers, int32, read_registers, disassemble_one, step_text, read_ip, x64_groups, x86_groups,
}

-- A thread of a 32-bit program that has only `eax` and `eip`.
abbrev small : Registers
small = record {
  index = λ name.
      if equals name (codes "eax")
      then some 0
      else if equals name (codes "eip")
      then some 1
      else none;
  value = λ i. if i == 0 then some (int32 0xbeef) else some (int32 0x401000);
}

small_text : read_registers (some small) ≡ codes "eax=0000beef\n\neip=00401000\n\n"
unfolding read_registers equals
small_text = refl

-- The target's registers cannot be had, so the cached ones are read.
cached_ip : read_ip none (some small) none ≡ some 0x401000
unfolding read_ip equals
cached_ip = refl

evaluated_ip : read_ip none none (some 7) ≡ some 7
unfolding read_ip
evaluated_ip = refl

entry :
    step_text 12 (disassemble_one (some (codes "nop\r\n")) 0) (codes "eax=1\n")
    ≡ codes "step    12:\nnop\neax=1\n\n"
unfolding step_text disassemble_one
entry = refl

-- The largest time that the structure holds.
abbrev pub latest : SystemTime
latest = record {
  year = 65535;
  month = 65535;
  day = 65535;
  hour = 65535;
  minute = 65535;
  second = 65535;
}

sprintf-Fits_example :
    Fits 20 (fmt 0xffff_f803_0000_1abc)
    × Fits 24 (fmt 0xffff_f803_0000_1abc)
    × All AllFit (x64_groups ++ x86_groups)
    × Fits 32 (time_stamp latest)
    × Fits 64 (set_counter (pos 20000))
sprintf-Fits_example =
    sprintf-Fits 0xffff_f803_0000_1abc latest (pos 20000) (omega arith) (omega arith)

-- ===== src/Trace/KernelTrace.antt =====
-- dbg_trace.cpp: `WinDbgClient::TraceKD_Script`, which writes a script for a kernel-mode trace and has
-- the debugger run it. What it does to the debugger and to the disk is a list of effects.
pub mod Globals
pub mod Launch
pub mod Reading
pub mod Stepping
pub mod Tests
pub mod Verbose
use windbg_agent.Agent.TraceOptions.{TraceParams}
use windbg_agent.Base.Decimal.{to_string_ℤ}
use windbg_agent.Base.Hex.{to_hex}
use windbg_agent.Base.Int.{ℤ, pos, negsuc}
use windbg_agent.Base.{
  ℕ, ◌+◌, ◌-◌, ◌^◌, Bool, true, false, not, List, [], ◌∷◌, ◌++◌, Option, Bytes, codes, joined,
  if◌then◌else◌,
}
use windbg_agent.Trace.LogFile.{traces_dir, log_base, opened_path, js_str, fmt}
use windbg_agent.Trace.Registers.{Registers, start_ip_by}

-- `ran`: `ExecuteCommandSilent`. `shown`: `control_->Output`. `wrote`: a file that was opened for
-- writing, its path and what it then holds. `launched`: `control_->Execute` for all clients.
pub data Effect : Type 0 where
  ran : Bytes → Effect
  shown : Bytes → Effect
  wrote : Bytes → Bytes → Effect
  launched : Bytes → Effect

-- What the function finds: the path of the extension, the target's name, what `.logopen` prints, the
-- registers, and whether the script's file can be opened.
pub record Host : Type 0 where
  pub dll_path : Bytes
  pub target_name : Bytes
  pub logopen_out : Bytes
  pub registers : Option Registers
  pub opens : Bool

-- `%x` of an `int`.
abbrev pub as_unsigned : ℤ → ℕ
as_unsigned (pos n) = n
as_unsigned (negsuc n) = 2 ^ 32 - 1 - n

-- The end of a trace in the verbose script, with why it ended.
unfoldable pub done_command : Bytes → Bytes → Bytes
done_command why log_path =
    codes ".logclose; .echo [tracealyzer] "
    ++ (why ++ (codes ".; .echo [tracealyzer] Log: " ++ log_path))

-- StepNPrint.txt
unfoldable pub step_n_print : ℕ → Bytes → Bytes → Bytes
unfolding joined
step_n_print end_ip log_path script_path = joined (
    codes "r\n"
    ∷ codes ".if (@rip == 0x"
    ∷ to_hex end_ip
    ∷ codes ") { "
    ∷ done_command (codes "Target address reached") log_path
    ∷ codes " }"
    ∷ codes " .else { .if (@$t0 > 0) { r $t0 = @$t0 - 1; t \"$<"
    ∷ js_str script_path
    ∷ codes "\" }"
    ∷ codes " .else { "
    ∷ done_command (codes "Max steps reached") log_path
    ∷ codes " } }\n"
    ∷ [])

-- The command that sets the counter of the verbose script.
unfoldable pub set_counter : ℤ → Bytes
set_counter max_steps = codes "r $t0 = 0x" ++ to_hex (as_unsigned max_steps)

-- The elements of `g_skipAddrs`, in the order in which the set yields them.
unfoldable pub skip_items : Bool → List ℕ → Bytes
skip_items first [] = []
skip_items first (a ∷ skip_addrs) =
    (if not first then codes ", " else [])
    ++ (codes "\"0x" ++ (to_hex a ++ (codes "\"" ++ skip_items false skip_addrs)))

-- The first line, whose dash is written in UTF-8.
abbrev pub banner : Bytes
banner =
    codes "// Auto-generated by windbg_agent " ++ (0xe2 ∷ 0x80 ∷ 0x94 ∷ codes " do not edit.\n")

-- The globals at the head of StepTraceAuto.js.
unfoldable pub globals : ℕ → ℤ → Bytes → Bytes → List ℕ → Bytes
unfolding joined
globals end_ip max_steps log_path js_path skip_addrs = joined (
    banner
    ∷ codes "var g_endIp      = \"0x"
    ∷ to_hex end_ip
    ∷ codes "\";\n"
    ∷ codes "var g_maxSteps   = "
    ∷ to_string_ℤ max_steps
    ∷ codes ";\n"
    ∷ codes "var g_logPath    = \""
    ∷ js_str log_path
    ∷ codes "\";\n"
    ∷ codes "var g_scriptPath = \""
    ∷ js_str js_path
    ∷ codes "\";\n"
    ∷ codes "var g_skipAddrs  = ["
    ∷ skip_items true skip_addrs
    ∷ codes "];\n"
    ∷ [])

-- The line that goes to the console and the open log.
unfoldable pub header : ℕ → ℕ → ℤ → Bytes
unfolding joined
header start_ip end_ip max_steps = joined (
    codes "[tracealyzer] Tracing from "
    ∷ fmt start_ip
    ∷ codes " to "
    ∷ fmt end_ip
    ∷ codes " (max "
    ∷ to_string_ℤ max_steps
    ∷ codes " steps)\n"
    ∷ [])

-- The effects, and the text that is returned. `template` is `kStepTraceJS`.
module _ (template : Bytes) (host : Host) (params : TraceParams) (end_ip : ℕ)
    (skip_addrs : List ℕ) where
  unfoldable pub base_path : Bytes
  base_path = log_base host.dll_path host.target_name

  unfoldable pub log_path : Bytes
  log_path = opened_path base_path host.logopen_out

  unfoldable pub script_path : Bytes
  script_path = traces_dir host.dll_path ++ codes "\\StepNPrint.txt"

  unfoldable pub js_path : Bytes
  js_path = traces_dir host.dll_path ++ codes "\\StepTraceAuto.js"

  -- The log is opened and the header printed.
  unfoldable pub opening : List Effect
  opening =
      ran (codes ".logopen /t " ++ base_path)
      ∷ shown (header (start_ip_by host.registers) end_ip params.max_steps)
      ∷ []

  unfoldable pub run_verbose : List Effect × Bytes
  run_verbose =
      if not host.opens
      then (
        ran (codes ".logclose") ∷ [],
        codes "[tracealyzer] Error: could not write StepNPrint.txt\n",
      )
      else (
        wrote script_path (step_n_print end_ip log_path script_path)
            ∷ ran (set_counter params.max_steps)
            ∷ shown (codes "[tracealyzer] Running " ++ (script_path ++ codes "\n"))
            ∷ launched (codes "$$><" ++ script_path)
            ∷ [],
        [],
      )

  unfoldable pub run_script : List Effect × Bytes
  run_script =
      if not host.opens
      then (
        ran (codes ".logclose") ∷ [],
        codes "[tracealyzer] Error: could not write StepTrace.js\n",
      )
      else (
        wrote js_path (globals end_ip params.max_steps log_path js_path skip_addrs ++ template)
            ∷ shown (codes "[tracealyzer] Running " ++ (js_path ++ codes "\n"))
            ∷ launched (codes ".scriptrun " ++ js_path)
            ∷ [],
        [],
      )

  unfoldable pub trace_kd_script : List Effect × Bytes
  unfolding opening run_verbose run_script
  trace_kd_script =
      let (effects, text) = if params.more_verbose then run_verbose else run_script in
      (opening ++ effects, text)

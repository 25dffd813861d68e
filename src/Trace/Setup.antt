-- ===== src/Trace/Setup.antt =====
-- dbg_trace.cpp: `WinDbgClient::Trace` as a whole: the step filter, the addresses, the way to the start,
-- and the trace itself, in user mode or in kernel mode.
pub mod Commanded
pub mod Composed
pub mod Skips
pub mod Tests
use windbg_agent.Agent.TraceOptions.{TraceParams, Message}
use windbg_agent.Base.{
  ℕ, Bool, not, List, [], ◌∷◌, ◌++◌, map, Option, none, some, Bytes, codes, is_empty, ◌==◌,
  if◌then◌else◌,
}
use windbg_agent.DmlOutput.{normal, warning}
use windbg_agent.Trace.KernelTrace.{Host, Effect, header, trace_kd_script}
use windbg_agent.Trace.LogFile.{SystemTime, open_trace_log}
use windbg_agent.Trace.Loop.{
  Engine, Trace, contains, user_trace, stop_reason, entries_text, progress,
}
use windbg_agent.Trace.StepFilter.{filter_commands, warned}

-- The debugger engine behind `client_` and `control_`, and the process and the disk around it. `engine`
-- is what the loop of a user-mode trace uses; its clock starts with the loop.
pub record Target : Type 1 where
  pub engine : Engine
  pub has_control : Bool
  pub evaluate : engine.Debugger → Bytes → Option ℕ
  pub is_kernel : Bool
  pub kernel : engine.Debugger → Host
  pub template : Bytes
  pub dll_path : Bytes
  pub target_name : engine.Debugger → Bytes
  pub local_time : engine.Debugger → SystemTime
  pub opens_log : Bool

-- `resolve(sym, a) && a != 0`
unfoldable pub resolved : (Bytes → Option ℕ) → Bytes → Option ℕ
resolved evaluate sym = elim (evaluate sym) [
  | none ↦ none
  | some a ↦ if a == 0 then none else some a
]

-- `skip_addrs.insert(a)`, on the set as a list without duplicates.
unfoldable pub insert : Option ℕ → List ℕ → List ℕ
unfolding contains
insert none set = set
insert (some a) set = if contains a set then set else a ∷ set

unfoldable pub skip_addresses : (Bytes → Option ℕ) → List ℕ → List Bytes → List ℕ
skip_addresses evaluate set [] = set
skip_addresses evaluate set (sym ∷ syms) =
    skip_addresses evaluate (insert (resolved evaluate sym) set) syms

-- The symbols that are ignored with a warning.
unfoldable pub unresolved : (Bytes → Option ℕ) → List Bytes → List Bytes
unfolding resolved
unresolved evaluate [] = []
unresolved evaluate (sym ∷ syms) =
    let rest = unresolved evaluate syms in
    elim (resolved evaluate sym) [ none ↦ sym ∷ rest | some a ↦ rest ]

-- `if (p && !p->empty())`
unfoldable pub given : Option Bytes → Option Bytes
given none = none
given (some s) = if is_empty s then none else some s

-- The commands that lead to the start address.
unfoldable pub start_commands : Bool → TraceParams → List Bytes
unfolding given
start_commands is_kernel p = elim (given p.start_address) [
  | none ↦ []
  | some start ↦
      let scope : Bytes = elim (given p.eprocess_addr) [
        | none ↦ []
        | some eprocess ↦ if is_kernel then codes "/p " ++ (eprocess ++ codes " ") else []
      ] in
      (codes "bp /1 " ++ (scope ++ start)) ∷ codes "g" ∷ []
]

abbrev pub hex_warning : Bytes → Message
hex_warning sym = record {
  mask = warning;
  text =
      codes "[tracealyzer] Warning: skip '"
      ++ (sym
          ++ codes
              "' is a hex address - .step_filter requires symbol names; address-based skip will be used in user-mode only.\n");
}

abbrev pub unresolved_warning : Bytes → Message
unresolved_warning sym = record {
  mask = warning;
  text =
      codes "[tracealyzer] Warning: could not resolve skip symbol '"
      ++ (sym ++ codes "' - ignored.\n");
}

abbrev pub shows : Bytes → Message
shows text = record { mask = normal; text = text }

module _ (t : Target) where
  open t use {engine, evaluate}

  -- How far a trace came: it was refused, it was handed to the script of a kernel-mode trace, or it ran
  -- in user mode and left a log with this path and text.
  pub data Course : Type 0 where
    refused : Course
    scripted : List Effect → Course
    stepped : Bytes → Bytes → Trace engine → Course

  -- The debugger is that before the loop or the script.
  pub record Outcome : Type 0 where
    pub text : Bytes
    pub messages : List Message
    pub debugger : engine.Debugger
    pub course : Course

  unfoldable pub execute_all : List Bytes → engine.Debugger → engine.Debugger
  execute_all [] d = d
  execute_all (command ∷ rest) d = execute_all rest (engine.execute command d)

  abbrev pub refuses : Bytes → List Message → engine.Debugger → Outcome
  refuses text messages d = record {
    text = text;
    messages = messages;
    debugger = d;
    course = refused;
  }

  -- The trace in user mode, from the opening of the log on.
  unfoldable pub run_user : TraceParams → ℕ → List ℕ → List Message → engine.Debugger → Outcome
  unfolding open_trace_log
  run_user p end_ip skip_addrs messages d =
      let (calls, log_path, opened) =
        open_trace_log t.dll_path (t.target_name d) (t.local_time d) t.opens_log in
      let start_ip : ℕ = elim (engine.read_ip d) [ none ↦ 0 | some ip ↦ ip ] in
      let head = header start_ip end_ip p.max_steps in
      let (text, trace) = user_trace engine end_ip skip_addrs p.timeout_ms p.max_steps log_path d in
      let entries = entries_text trace.steps in
      let end = stop_reason engine end_ip skip_addrs p.timeout_ms p.max_steps trace in
      if not opened
      then refuses
          (codes "[tracealyzer] Error: Could not open log file: " ++ (log_path ++ codes "\n"))
          messages d
      else record {
        text = text;
        messages = messages ++ shows head ∷ map shows (progress trace.steps);
        debugger = d;
        course = stepped log_path (head ++ (entries ++ end)) trace;
      }

  unfoldable pub run_kernel : TraceParams → ℕ → List ℕ → List Message → engine.Debugger → Outcome
  run_kernel p end_ip skip_addrs messages d =
      let (effects, text) = trace_kd_script t.template (t.kernel d) p end_ip skip_addrs in
      record { text = text; messages = messages; debugger = d; course = scripted effects }

  -- Behind the resolution of the end address.
  unfoldable pub run_from : TraceParams → ℕ → List Message → engine.Debugger → Outcome
  unfolding run_user run_kernel
  run_from p end_ip messages d =
      let skip_addrs = skip_addresses (evaluate d) [] p.skip_symbols in
      let all_messages =
        messages ++ map unresolved_warning (unresolved (evaluate d) p.skip_symbols) in
      let started = execute_all (start_commands t.is_kernel p) d in
      if t.is_kernel
      then run_kernel p end_ip skip_addrs all_messages started
      else run_user p end_ip skip_addrs all_messages started

  -- `WinDbgClient::Trace`
  unfoldable pub trace : TraceParams → engine.Debugger → Outcome
  unfolding run_from
  trace p d =
      let filtered = execute_all (filter_commands p.skip_symbols) d in
      let messages = map hex_warning (warned p.skip_symbols) in
      if not t.has_control
      then refuses (codes "[tracealyzer] Error: No debugger control available\n") [] d
      else if is_empty p.end_address
      then refuses (codes "[tracealyzer] Error: end_address is required\n") [] d
      else elim (evaluate filtered p.end_address) [
        | none ↦
            refuses
              (codes "[tracealyzer] Error: Could not resolve end address: "
                ++ (p.end_address ++ codes "\n"))
              messages filtered
        | some end_ip ↦ run_from p end_ip messages filtered
      ]

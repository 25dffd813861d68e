-- ===== src/WindbgClient.antt =====
-- windbg_client.cpp: commands to the debugger and questions about its target.
pub mod Object
pub mod Executing
pub mod States
pub mod Status
pub mod Tests
use windbg_agent.Agent.Servers.{is_negative}
use windbg_agent.Base.Decimal.{to_string, to_string_ℤ}
use windbg_agent.Base.Int.{ℤ}
use windbg_agent.Base.{
  ℕ, zero, suc, ◌+◌, Bool, true, false, not, ◌||◌, ◌&&◌, List, [], ◌∷◌, ◌++◌, Option, none, some,
  Bytes, codes, is_empty, ◌==◌, leb, if◌then◌else◌,
}
use windbg_agent.DmlOutput.{DmlOutput, Emission, output_error}
use windbg_agent.OutputCapture.Forwarding.{Round, output_all}
use windbg_agent.OutputCapture.{
  Client, Capture, StackState, at_rest, empty, install, uninstall, destroy, get_and_clear,
}

-- The engine while one command runs: the result of `Execute`, what is printed meanwhile, what each
-- call of `GetExecutionStatus` gives (`none` if it fails), and what is printed in each `Sleep`.
-- `installs` and `uninstalls` are whether the two calls of `SetOutputCallbacks` succeed.
pub record Engine : Type 0 where
  pub installs : Bool
  pub uninstalls : Bool
  pub hr : ℤ
  pub printed : List Round
  pub status : ℕ → Option ℕ
  pub arrives : ℕ → List Round

-- The loop is left at this reading.
unfoldable pub settles : Option ℕ → Bool
settles none = true
settles (some status) =
    status == Status.break || (status == Status.no_debuggee || status == Status.out_of_sync)

pub record Executed : Type 0 where
  pub result : Bytes
  pub client : Client
  pub emitted : List Emission

module _ (e : Engine) where
  -- What the capture holds after what is printed: it gets its calls of `Output` if it was installed.
  abbrev pub collect : List Round → Capture × StackState → Capture × StackState
  collect rs p = let (c, s, forwarded) = output_all rs p in if e.installs then (c, s) else p

  -- The loop that polls the status, from the reading with this number on.
  unfoldable pub poll : ℕ → ℕ → Capture × StackState → Option (Capture × StackState)
  unfolding settles output_all
  poll zero n p = none
  poll (suc fuel) n p =
      let rest = poll fuel (n + 1) (collect (e.arrives n) p) in
      if settles (e.status n) then some p else rest

  -- The end of `ExecuteCommand`, with what the capture holds.
  unfoldable pub conclude : DmlOutput → Capture → Client → Executed
  unfolding get_and_clear uninstall destroy output_error to_string_ℤ
  conclude dml c k =
      let (c1, text) = get_and_clear c in
      let (c2, k2, hr) = uninstall e.uninstalls c1 k in
      let failure = codes "Error executing command: hr=" ++ to_string_ℤ e.hr in
      if is_negative e.hr
      then record {
        result = failure;
        client = destroy e.uninstalls c2 k2;
        emitted = output_error dml failure;
      }
      else record {
        result = if is_empty text then codes "(No output)" else text;
        client = destroy e.uninstalls c2 k2;
        emitted = [];
      }

  abbrev pub deliver : DmlOutput → Client → Option (Capture × StackState) → Option Executed
  deliver dml k none = none
  deliver dml k (some (c, s)) = some (conclude dml c k)

  -- `ExecuteCommand`, with fuel for the readings of the status: `none` if it runs out.
  unfoldable pub execute_command : ℕ → Bool → DmlOutput → Client → Option Executed
  unfolding install poll conclude
  execute_command fuel has_control dml k =
      let (c, k1, hr) = install e.installs empty k in
      let ran = collect e.printed (c, at_rest) in
      let polled = if is_negative e.hr then some ran else poll fuel 0 ran in
      if not has_control
      then some (record {
        result = codes "Error: No debugger control available";
        client = k;
        emitted = [];
      })
      else deliver dml k1 polled

  -- `ExecuteCommandSilent`
  unfoldable pub execute_command_silent : Bool → Client → Bytes × Client
  unfolding install get_and_clear uninstall destroy
  execute_command_silent has_control k =
      let (c, k1, hr) = install e.installs empty k in
      let (c1, text) = get_and_clear (collect e.printed (c, at_rest)).0 in
      let (c2, k2, hr2) = uninstall e.uninstalls c1 k1 in
      if not has_control then ([], k) else (text, destroy e.uninstalls c2 k2)

-- `GetTargetState`, with the reading of the status.
unfoldable pub get_target_state : Option ℕ → Bytes
get_target_state none = codes "Unknown"
get_target_state (some status) =
    if status == Status.no_debuggee
    then codes "No target"
    else if status == Status.step_into
        || (status == Status.step_over || status == Status.step_branch)
    then codes "Stepping"
    else if status == Status.go || (status == Status.go_handled || status == Status.go_not_handled)
    then codes "Running"
    else if status == Status.break
    then codes "Break"
    else if status == Status.out_of_sync
    then codes "Out of sync"
    else if status == Status.wait_input
    then codes "Waiting for input"
    else if status == Status.timeout
    then codes "Timeout"
    else codes "Unknown"

-- `GetTargetArchitecture`, with the type of the processor.
unfoldable pub get_target_architecture : Option ℕ → Bytes
unfolding to_string
get_target_architecture none = []
get_target_architecture (some proc_type) =
    if proc_type == 0x014c
    then codes "x86"
    else if proc_type == 0x8664
    then codes "x64"
    else if proc_type == 0xaa64
    then codes "ARM64"
    else if proc_type == 0x01c0 || proc_type == 0x01c4
    then codes "ARM"
    else codes "Unknown (" ++ (to_string proc_type ++ codes ")")

-- `GetTargetName`: the dump file, or the executable of the process, where they can be had.
unfoldable pub get_target_name : Option Bytes → Option Bytes → Bytes
get_target_name (some (c ∷ dump_file)) exe_name = c ∷ dump_file
get_target_name _ (some exe_name) = exe_name
get_target_name _ none = []

-- `s.find(part) != npos`
unfoldable pub starts_with : Bytes → Bytes → Bool
starts_with [] s = true
starts_with (p ∷ ps) [] = false
starts_with (p ∷ ps) (c ∷ s) = p == c && starts_with ps s

unfoldable pub has_part : Bytes → Bytes → Bool
unfolding starts_with
has_part part [] = starts_with part []
has_part part (c ∷ s) = starts_with part (c ∷ s) || has_part part s

abbrev to_lower : ℕ → ℕ
to_lower c = if leb b'A' c && leb c b'Z' then c + 32 else c

abbrev lower : Bytes → Bytes
lower [] = []
lower (c ∷ s) = to_lower c ∷ lower s

-- `GetDebuggerType`, with the path of the process.
unfoldable pub get_debugger_type : Option Bytes → Bytes
unfolding has_part
get_debugger_type none = codes "Windows Debugger"
get_debugger_type (some module_path) =
    let path = lower module_path in
    if has_part (codes "dbgx") path || has_part (codes "windbg") path
    then codes "WinDbg"
    else if has_part (codes "cdb") path
    then codes "CDB"
    else if has_part (codes "ntsd") path
    then codes "NTSD"
    else if has_part (codes "kd") path
    then codes "KD"
    else codes "Windows Debugger"

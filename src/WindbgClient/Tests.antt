-- ===== src/WindbgClient/Tests.antt =====
-- A command to the debugger, through windbg_client.cpp, at a concrete input.
use windbg_agent.Base.Int.{pos, negsuc}
use windbg_agent.Base.Decimal.{to_string_ℤ}
use windbg_agent.Base.{
  ℕ, ◌<◌, none, false, ◌≡◌, ◌↔◌, refl, true, [], ◌∷◌, ◌++◌, some, codes, is_empty, ◌==◌, ltb,
  if◌then◌else◌, arith,
}
use windbg_agent.DmlOutput.{DmlOutput, output_error}
use windbg_agent.OutputCapture.Forwarding.{rounds_texts}
use windbg_agent.OutputCapture.{Client, nobody, other}
use windbg_agent.WindbgClient.Object.{construct, is_kernel_mode, show_error}
use windbg_agent.WindbgClient.Executing.{
  SettlesAfter, arrived, execute_command-settles, execute_command-fails,
}
use windbg_agent.WindbgClient.States.{WaitsFor, execute_command-returns_iff}
use windbg_agent.WindbgClient.{
  Engine, Executed, settles, get_debugger_type, has_part, execute_command,
}

-- `g` that runs for two readings and then hits a breakpoint.
abbrev going : Engine
going = record {
  installs = true;
  uninstalls = true;
  hr = pos 0;
  printed = [];
  status = λ n. if ltb n 2 then some 1 else some 6;
  arrives = λ n.
      if n == 1
      then ([], record { mask = 1; text = some (codes "Breakpoint 0 hit\n") }) ∷ []
      else [];
}

abbrev refused : Engine
refused = record going { hr = negsuc 5 }

-- A client as `CreateClient` gives it, without callbacks of its own.
abbrev secondary : Client
secondary = record { output_callbacks = nobody; client_refs = 1; callback_refs = 0 }

abbrev console : Client
console = record { output_callbacks = other 3; client_refs = 2; callback_refs = 1 }

abbrev plain : DmlOutput
plain = record { has_control = true; dml_supported = true }

in_windbg : get_debugger_type (some (codes "C:\\DbgX.Shell.exe")) ≡ codes "WinDbg"
unfolding get_debugger_type has_part
in_windbg = refl

going-SettlesAfter : SettlesAfter going 2 0
unfolding settles
going-SettlesAfter = (refl, (refl, refl))

execute_command-settles_example :
    let printed = rounds_texts going.printed ++ arrived going 2 0 in
    execute_command going 3 true plain console
    ≡ some (record {
      result = if is_empty printed then codes "(No output)" else printed;
      client = console;
      emitted = [];
    })
execute_command-settles_example =
    execute_command-settles going 3 2 plain console refl refl refl refl (omega arith)
      going-SettlesAfter

execute_command-fails_example :
    let failure = codes "Error executing command: hr=" ++ to_string_ℤ refused.hr in
    execute_command refused 3 true plain secondary
    ≡ some (record { result = failure; client = secondary; emitted = output_error plain failure })
execute_command-fails_example = execute_command-fails refused 3 plain secondary refl refl

execute_command-returns_iff_example :
    ((r : Executed) × (execute_command going 3 true plain console ≡ some r))
    ↔ ((n : ℕ) × (n < 3) × WaitsFor going n 0)
execute_command-returns_iff_example = execute_command-returns_iff going 3 plain console refl

kernel_target : is_kernel_mode (construct true true none 0) (some 1) ≡ true
unfolding is_kernel_mode construct
kernel_target = refl

no_control : show_error (construct true false none 0) (codes "lost") ≡ []
unfolding show_error construct
no_control = refl

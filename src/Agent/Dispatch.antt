-- ===== src/Agent/Dispatch.antt =====
-- main.cpp: `agent_impl` and the life of the agent's state.
pub mod Stops
pub mod Subcommands
pub mod References
pub mod Served
pub mod Starts
pub mod Counting
pub mod Faults
pub mod Histories
pub mod Tests
use windbg_agent.Agent.Stopping.{run_stop, uninitialize}
use windbg_agent.Agent.Starting.{headless, run_http, run_mcp}
use windbg_agent.Agent.World.{
  s_ok, e_fail, e_invalidarg, Host, World, Outcome, finished, crashed, undefined, say, leave,
}
use windbg_agent.Agent.Args.{split_args}
use windbg_agent.Agent.Servers.{stop, listen_ends}
use windbg_agent.Agent.TraceOptions.{
  Message, TraceCommand, usage, out_of_range, refused, tracing, trace_command,
}
use windbg_agent.Base.Decimal.{to_string, to_string_ℤ}
use windbg_agent.Base.{
  ℕ, ◌+◌, ◌-◌, Bool, false, not, List, [], ◌∷◌, ◌++◌, Option, none, some, Bytes, codes, joined,
  equals, is_empty, ◌==◌, if◌then◌else◌,
}
use windbg_agent.DmlOutput.{
  normal, error, DmlOutput, Emission, output_command, output_command_result,
}

abbrev pub say_all : List Message → World → World
say_all ms w = record w { output = w.output ++ ms }

-- `!agent trace`
unfoldable pub finish_trace : Host → TraceCommand → World → Outcome
unfolding to_string_ℤ joined
finish_trace h usage w =
    leave
      (say normal
        (codes "Usage: !agent trace <end_addr> [start_addr=<addr>] [steps=<N>] "
          ++ codes "[skip=sym1,sym2] [timeout=<ms>] [eprocess=<addr>] [more_verbose=1]\n")
        w)
      s_ok
finish_trace h out_of_range w = undefined
finish_trace h (refused ms) w = leave (say_all ms w) e_invalidarg
finish_trace h (tracing ms p) w =
    leave
      (say normal (h.trace p ++ codes "\n") (
        say normal
          (joined (
            codes "[trace] Tracing to "
            ∷ p.end_address
            ∷ codes " (max "
            ∷ to_string_ℤ p.max_steps
            ∷ codes " steps)...\n"
            ∷ []))
          (say_all ms w)))
      s_ok

abbrev help_text : Bytes
help_text = joined (
    codes "WinDbg Agent - Debugger server extension\n"
    ∷ codes "\n"
    ∷ codes "Usage: !agent <command> [args]\n"
    ∷ codes "\n"
    ∷ codes "Commands:\n"
    ∷ codes "  help                  Show this help\n"
    ∷ codes "  version               Show version information\n"
    ∷ codes "  http [bind_addr]      Start HTTP server (headless, returns immediately)\n"
    ∷ codes "  mcp  [bind_addr]      Start MCP server (headless, returns immediately)\n"
    ∷ codes "  stop                  Stop any running server\n"
    ∷ codes
        "  trace <end> [opts]    Trace to end addr; opts: start_addr, steps, skip, timeout, eprocess (KD), more_verbose (KD)\n"
    ∷ codes "\n"
    ∷ codes "The server runs entirely on background threads so WinDbg remains\n"
    ∷ codes "fully interactive.  Execution commands (g, t, p, ...) sent by an\n"
    ∷ codes "LLM will run the target normally and return output when it stops.\n"
    ∷ codes "\n"
    ∷ codes "Examples:\n"
    ∷ codes "  !agent http           (start HTTP server on localhost)\n"
    ∷ codes "  !agent http 0.0.0.0   (start HTTP server on all interfaces)\n"
    ∷ codes "  !agent mcp            (start MCP server on localhost)\n"
    ∷ codes "  !agent stop           (stop the running server)\n"
    ∷ [])

abbrev version_text : Host → Bytes
version_text h = joined (
    codes "WinDbg Agent v"
    ∷ to_string h.version_major
    ∷ codes "."
    ∷ to_string h.version_minor
    ∷ codes "."
    ∷ to_string h.version_patch
    ∷ codes "\n"
    ∷ [])

unfoldable pub dispatch : Host → Bytes → Bytes → World → Outcome
unfolding run_http run_mcp run_stop finish_trace trace_command equals
dispatch h subcmd rest w =
    if is_empty subcmd
    then leave (say normal help_text w) s_ok
    else if equals subcmd (codes "help")
    then leave (say normal help_text w) s_ok
    else if equals subcmd (codes "version")
    then leave (say normal (version_text h) w) s_ok
    else if equals subcmd (codes "http")
    then run_http h rest w
    else if equals subcmd (codes "mcp")
    then run_mcp h rest w
    else if equals subcmd (codes "stop")
    then run_stop w
    else if equals subcmd (codes "trace")
    then finish_trace h (trace_command rest) w
    else leave
        (say normal (codes "Use '!agent help' for usage information.\n")
          (say error (codes "Unknown subcommand: " ++ (subcmd ++ codes "\n")) w))
        s_ok

-- `Args ? Args : ""`
abbrev pub text_of : Option Bytes → Bytes
text_of none = []
text_of (some s) = s

-- `agent_impl`
unfoldable pub agent_impl : Host → Option Bytes → World → Outcome
unfolding dispatch split_args
agent_impl h args w =
    if not h.control
    then finished w e_fail
    else (let (subcmd, rest) = split_args (text_of args) in
        dispatch h subcmd rest (record w { control_refs = w.control_refs + 1 }))

-- What happens to the extension: a command, `POST /shutdown`, the end of the HTTP server by itself,
-- or the unloading.
pub data Event : Type 0 where
  command : Host → Option Bytes → Event
  shutdown_posted http_ends unloaded : Event

unfoldable pub happen : Event → World → Outcome
unfolding agent_impl uninitialize stop listen_ends
happen (command h args) w = agent_impl h args w
happen shutdown_posted w = finished (record w { http = stop w.http }) s_ok
happen http_ends w = finished (record w { http = listen_ends w.http }) s_ok
happen unloaded w = finished (uninitialize w) s_ok

unfoldable pub run : List Event → World → Outcome
unfolding happen
run [] w = finished w s_ok
run (e ∷ es) w = elim (happen e w) [
  | finished w' r ↦ run es w'
  | crashed ↦ crashed
  | undefined ↦ undefined
]

-- A call of an exec callback: its output and its result, or an access through pointers to a state
-- that is gone.
pub data Called : Type 0 where
  answered : List Emission → Bytes → Called
  dangling : Called

abbrev same_state : Option ℕ → Option ℕ → Bool
same_state (some g) (some l) = g == l
same_state _ _ = false

-- The callback that `make_exec_cb` builds, with the state that it captured, the output object and
-- the debugger's `ExecuteCommand`.
unfoldable pub exec_cb : Option ℕ → DmlOutput → (Bytes → Bytes) → Bytes → World → Called
unfolding output_command output_command_result
exec_cb captured dml execute_command cmd w =
    if same_state captured w.live
    then (let result = execute_command cmd in
        answered (output_command dml cmd ++ output_command_result dml result) result)
    else dangling

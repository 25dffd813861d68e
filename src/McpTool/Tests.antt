-- ===== src/McpTool/Tests.antt =====
-- A call of the tool of mcp_server.cpp.
use windbg_agent.Base.Int.{pos, negsuc}
use windbg_agent.Base.Json.{ok, field, Field, text, flag}
use windbg_agent.Base.{
  equals, none, some, is_empty, ◌≡◌, ◌∷◌, Bytes, refl, map, List, [], false, true, not, codes,
  if◌then◌else◌,
}
use windbg_agent.Cli.EndToEnd.{command_doc}
use windbg_agent.Cli.Tests.{small_json, small_json-IsJson, queue}
use windbg_agent.HttpRoutes.{exec_handler}
use windbg_agent.CommandQueue.{Callback, answered, Outcome, State, done, started, run, step}
use windbg_agent.McpTool.Calls.{Answers, dbg_exec-Answers}
use windbg_agent.McpTool.Queue.{
  McpEvent, call, loop, tests, pushes_command, leaves_wait, checks, waits, runs_command,
  notifies_waiter, mcp_texts, event, mcp_run-event,
}
use windbg_agent.McpTool.Agreement.{dbg_exec-exec_handler}
use windbg_agent.McpTool.Schema.{dbg_exec-meets}
use windbg_agent.McpTool.Start.{
  dbg_exec_tool, exec_input_schema, start, start_result, after_start, sse_of, start_mcp-start,
}
use windbg_agent.Agent.Servers.{Server, start_mcp}
use windbg_agent.McpTool.{ToolResult, dbg_exec, find_free_port}

some_port : find_free_port true true 5000 ≡ pos 5000
unfolding find_free_port
some_port = refl

-- The two documents as the small library writes them.
abbrev request : Bytes
request = 0 ∷ 7 ∷ codes "commandk"

abbrev body : Bytes
body = 1 ∷ 6 ∷ 7 ∷ codes "outputsuccessChild-SP"

same_answer :
    let r = queue (codes "k") in
    let t : ToolResult = record { content = r.payload; is_error = not r.success } in
    (dbg_exec queue small_json (command_doc small_json small_json-IsJson queue true (codes "k"))
      ≡ ok t)
    × (exec_handler queue true small_json request
        ≡ record { status = if t.is_error then 503 else 200; body = body })
same_answer =
    dbg_exec-exec_handler small_json small_json-IsJson queue true (codes "k") request body refl refl
      refl

abbrev shell : List Bytes → Bytes → Callback
shell session input = answered (codes "Child-SP")

abbrev one_call : List McpEvent
one_call =
    call 0 (tests (codes "k"))
    ∷ call 0 pushes_command
    ∷ loop (checks false)
    ∷ loop waits
    ∷ loop runs_command
    ∷ loop notifies_waiter
    ∷ call 0 leaves_wait
    ∷ []

abbrev state_of : Outcome → State
state_of (done s) = s
state_of _ = started

abbrev served : State
served = state_of (run mcp_texts shell (map event one_call) started)

dbg_exec-Answers_example :
    (t : ToolResult) × (dbg_exec queue small_json
        (command_doc small_json small_json-IsJson queue true (codes "k"))
      ≡ ok t)
    × Answers shell served.session (codes "k") t
unfolding run step event field
dbg_exec-Answers_example =
    dbg_exec-Answers shell small_json
      (command_doc small_json small_json-IsJson queue true (codes "k")) queue one_call 0 served
      (codes "k") (mcp_run-event shell one_call started) refl refl refl

abbrev fields : List (Bytes × Field)
fields = (codes "command", text (codes "k")) ∷ (codes "verbose", flag true) ∷ []

dbg_exec-meets_example :
    (cmd : Bytes) × (field (codes "command") fields ≡ some (text cmd))
    × (dbg_exec queue small_json (small_json.object fields)
        ≡ ok (
            if is_empty cmd
            then record { content = codes "Error: missing command"; is_error = true }
            else record { content = (queue cmd).payload; is_error = not (queue cmd).success }))
unfolding dbg_exec_tool exec_input_schema field
dbg_exec-meets_example =
    dbg_exec-meets small_json queue fields small_json-IsJson (unfold equals in refl)

abbrev stopped_server : Server
stopped_server = record {
  running = false;
  port = pos 0;
  bind_addr = codes "127.0.0.1";
  exec_gen = none;
  break_gen = none;
  joinable = false;
}

refused_start :
    (start_result
        (start false (pos 0) (λ a. negsuc 0) (sse_of true (pos 6000)) (pos 0) (codes "127.0.0.1"))
      ≡ negsuc 0)
    × (start_mcp (pos 6000) true (pos 6000) (codes "::1") (some 1) stopped_server
        ≡ after_start
            (codes "::1")
            (some 1)
            stopped_server
            (start false (pos 0) (λ a. pos 6000) (sse_of true (pos 6000)) (pos 0) (codes "::1")))
unfolding start_result start
refused_start =
    (refl, start_mcp-start (pos 6000) true (pos 6000) (codes "::1") (some 1) stopped_server)

-- ===== src/Agent/Starting.antt =====
-- main.cpp: `!agent http` and `!agent mcp`.
use windbg_agent.Agent.World.{
  s_ok, e_fail, Host, World, Outcome, crashed, say, reset, setup_agent_state, leave,
}
use windbg_agent.Agent.Args.{is_blank, skip_blanks}
use windbg_agent.Agent.Info.{format_http_info, format_mcp_info}
use windbg_agent.Agent.Servers.{Server, is_positive, start_http, start_mcp, set_break_callback}
use windbg_agent.Base.Decimal.{to_string_ℤ}
use windbg_agent.Base.Int.{ℤ}
use windbg_agent.Base.{
  not, ◌&&◌, [], ◌∷◌, ◌++◌, none, some, Bytes, codes, equals, is_empty, if◌then◌else◌,
}
use windbg_agent.DmlOutput.{normal, error, warning}

unfoldable pub trim_end : Bytes → Bytes
trim_end [] = []
trim_end (c ∷ s) = let t = trim_end s in if is_blank c && is_empty t then [] else c ∷ t

-- The bind address: by default the loopback; a text of blanks only stays as it is.
unfoldable pub bind_address : Bytes → Bytes
unfolding trim_end skip_blanks
bind_address rest =
    if is_empty rest
    then codes "127.0.0.1"
    else if is_empty (skip_blanks rest)
    then rest
    else trim_end (skip_blanks rest)

unfoldable pub warn_non_loopback : Bytes → World → World
unfolding equals
warn_non_loopback addr w =
    if not (equals addr (codes "127.0.0.1"))
    then say warning
        (codes "WARNING: Binding to non-loopback address '"
          ++ (addr ++ codes "'. The server has no authentication.\n"))
        w
    else w

abbrev pub headless : Bytes
headless =
    codes "Server running in headless mode - WinDbg is fully interactive.\n"
    ++ codes "Use '!agent stop' or POST /shutdown to stop the server.\n"

-- The information on the server that runs now, and the end of the command.
unfoldable pub announce : Host → Bytes → World → Outcome
announce h info w =
    let w1 = say normal (info ++ codes "\n") w in
    let w2 = if h.clipboard then say normal (codes "[Copied to clipboard]\n") w1 else w1 in
    leave (say normal headless w2) s_ok

unfoldable pub http_info : Host → Server → Bytes
unfolding format_http_info to_string_ℤ
http_info h s =
    format_http_info h.target h.pid h.target_state
      (codes "http://" ++ (s.bind_addr ++ (codes ":" ++ to_string_ℤ s.port)))

-- `!agent http` after `start` has returned.
unfoldable pub http_started : Host → ℤ → World → Outcome
unfolding reset set_break_callback http_info announce
http_started h port w =
    if not (is_positive port)
    then leave (say error (codes "Failed to start HTTP server.\n") (reset w)) e_fail
    else (let s = set_break_callback w.live w.http in
        announce h (http_info h s) (record w { http = s }))

unfoldable pub run_http : Host → Bytes → World → Outcome
unfolding bind_address warn_non_loopback setup_agent_state start_http http_started
run_http h rest w =
    if w.http.running
    then leave
        (say error (codes "HTTP server already running. Use '!agent stop' to stop it first.\n") w)
        e_fail
    else (let addr = bind_address rest in
        let (w2, ok) = setup_agent_state h (warn_non_loopback addr w) in
        if not ok then leave w2 e_fail else elim (start_http h.assigned_port addr w2.live w2.http) [
          | none ↦ crashed
          | some (s, port) ↦ http_started h port (record w2 { http = s })
        ])

unfoldable pub mcp_info : Host → Bytes → ℤ → Bytes
unfolding format_mcp_info to_string_ℤ
mcp_info h addr port =
    format_mcp_info h.target h.pid h.target_state
      (codes "http://" ++ (addr ++ (codes ":" ++ to_string_ℤ port)))

unfoldable pub mcp_started : Host → Bytes → ℤ → World → Outcome
unfolding reset mcp_info announce
mcp_started h addr port w =
    if not (is_positive port)
    then leave (say error (codes "Failed to start MCP server.\n") (reset w)) e_fail
    else announce h (mcp_info h addr port) w

unfoldable pub run_mcp : Host → Bytes → World → Outcome
unfolding bind_address warn_non_loopback setup_agent_state start_mcp mcp_started
run_mcp h rest w =
    if w.mcp.running
    then leave
        (say error (codes "MCP server already running. Use '!agent stop' to stop it first.\n") w)
        e_fail
    else (let addr = bind_address rest in
        let (w2, ok) = setup_agent_state h (warn_non_loopback addr w) in
        if not ok
        then leave w2 e_fail
        else elim (start_mcp h.free_port h.sse_starts h.sse_port addr w2.live w2.mcp) [
          | none ↦ crashed
          | some (s, port) ↦ mcp_started h addr port (record w2 { mcp = s })
        ])

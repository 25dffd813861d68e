-- ===== src/Agent/Stopping.antt =====
-- main.cpp: `!agent stop` and `DebugExtensionUninitialize`.
use windbg_agent.Agent.World.{s_ok, World, Outcome, say, reset, leave}
use windbg_agent.Agent.Servers.{stop}
use windbg_agent.Base.{not, ◌&&◌, codes, if◌then◌else◌}
use windbg_agent.DmlOutput.{normal}

-- `!agent stop`
unfoldable pub stop_http : World → World
unfolding stop reset
stop_http w =
    if w.http.running
    then say normal (codes "HTTP server stopped.\n") (reset (record w { http = stop w.http }))
    else w

unfoldable pub stop_mcp : World → World
unfolding stop reset
stop_mcp w =
    if w.mcp.running
    then say normal (codes "MCP server stopped.\n") (reset (record w { mcp = stop w.mcp }))
    else w

unfoldable pub run_stop : World → Outcome
unfolding stop_http stop_mcp
run_stop w =
    let w2 = stop_mcp (stop_http w) in
    if not w.http.running && not (stop_http w).mcp.running
    then leave (say normal (codes "No server is currently running.\n") w2) s_ok
    else leave w2 s_ok

-- `DebugExtensionUninitialize`
unfoldable pub halt_http : World → World
unfolding stop
halt_http w = if w.http.running then record w { http = stop w.http } else w

unfoldable pub halt_mcp : World → World
unfolding stop
halt_mcp w = if w.mcp.running then record w { mcp = stop w.mcp } else w

unfoldable pub uninitialize : World → World
unfolding halt_http halt_mcp reset
uninitialize w = reset (halt_mcp (halt_http w))

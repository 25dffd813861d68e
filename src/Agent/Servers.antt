-- ===== src/Agent/Servers.antt =====
-- http_server.cpp and mcp_server.cpp as main.cpp uses them: whether a server runs, what its
-- callbacks refer to, and whether its threads were joined.
use windbg_agent.Base.Int.{ℤ, pos, negsuc}
use windbg_agent.Base.{
  ℕ, zero, suc, Bool, true, false, not, Option, none, some, Bytes, if◌then◌else◌,
}

-- The callbacks hold pointers into the agent's state: `exec_gen` and `break_gen` are the numbers of
-- the states that they captured. `joinable` is whether a thread was started and not joined yet.
pub record Server : Type 0 where
  pub running : Bool
  pub port : ℤ
  pub bind_addr : Bytes
  pub exec_gen : Option ℕ
  pub break_gen : Option ℕ
  pub joinable : Bool

abbrev pub is_negative : ℤ → Bool
is_negative (pos n) = false
is_negative (negsuc n) = true

abbrev pub is_positive : ℤ → Bool
is_positive (pos zero) = false
is_positive (pos (suc n)) = true
is_positive (negsuc n) = false

abbrev pub with_exec : Bytes → Option ℕ → Server → Server
with_exec addr gen s = record s { exec_gen = gen; bind_addr = addr }

abbrev pub launched : ℤ → Server → Server
launched port s = record s { running = true; port = port; joinable = true }

-- `HttpServer::start`, with the result of `bind_to_any_port`. A `std::thread` that is assigned while
-- it is joinable ends the program: `none`.
unfoldable pub start_http : ℤ → Bytes → Option ℕ → Server → Option (Server × ℤ)
start_http assigned_port addr gen s =
    if s.running
    then some (s, s.port)
    else if is_negative assigned_port
    then some (with_exec addr gen s, negsuc 0)
    else if s.joinable
    then none
    else some (launched assigned_port (with_exec addr gen s), assigned_port)

-- `MCPServer::start` with port 0: what `find_free_port` gives, whether the SSE server starts, and
-- its port.
unfoldable pub start_mcp : ℤ → Bool → ℤ → Bytes → Option ℕ → Server → Option (Server × ℤ)
start_mcp free_port sse_starts sse_port addr gen s =
    if s.running
    then some (s, s.port)
    else if not (is_positive free_port)
    then some (with_exec addr gen s, negsuc 0)
    else if not sse_starts
    then some (with_exec addr gen s, negsuc 0)
    else if s.joinable
    then none
    else some (launched sse_port (with_exec addr gen s), sse_port)

-- `set_break_callback`
unfoldable pub set_break_callback : Option ℕ → Server → Server
set_break_callback gen s = record s { break_gen = gen }

-- `stop`, which joins the threads.
unfoldable pub stop : Server → Server
stop s = record s { running = false; joinable = false }

-- The end of the server thread of HttpServer where `listen_after_bind` returns by itself.
unfoldable pub listen_ends : Server → Server
listen_ends s = record s { running = false }

-- ===== src/McpTool/Start.antt =====
-- mcp_server.cpp: `MCPServer::start`, with the tool that it registers and the server that it builds.
use windbg_agent.Agent.Servers.{Server, is_positive, with_exec, launched, start_mcp}
use windbg_agent.Base.Int.{ℤ, pos, negsuc}
use windbg_agent.Base.{
  ℕ, zero, ◌≡◌, Bool, true, false, not, List, [], ◌∷◌, Option, none, some, Bytes, codes,
  if◌then◌else◌, arith,
}

-- A JSON document, as the program writes it.
mutual
  pub data Json : Type 0 where
    text : Bytes → Json
    truth : Bool → Json
    array : Items → Json
    object : Members → Json

  pub data Items : Type 0 where
    no_item : Items
    item : Json → Items → Items

  pub data Members : Type 0 where
    no_member : Members
    member : Bytes → Json → Members → Members

abbrev pub one_member : Bytes → Json → Json
one_member key value = object (member key value no_member)

-- `exec_input_schema`
unfoldable pub exec_input_schema : Json
exec_input_schema = object (
    member (codes "type") (text (codes "object")) (
      member (codes "properties")
        (one_member (codes "command") (
          object (
            member (codes "type") (text (codes "string")) (
              member (codes "description")
                (text (
                  codes "WinDbg/CDB debugger command to execute (e.g., 'kb', '!analyze -v', 'dt')"))
                no_member))))
        (member (codes "required") (array (item (text (codes "command")) no_item)) no_member)))

-- `exec_output_schema`
unfoldable pub exec_output_schema : Json
exec_output_schema = object (
    member (codes "type") (text (codes "object")) (
      member (codes "properties")
        (object (
          member (codes "output") (one_member (codes "type") (text (codes "string"))) (
            member (codes "success") (one_member (codes "type") (text (codes "boolean")))
              no_member)))
        no_member))

pub record Tool : Type 0 where
  pub name : Bytes
  pub input_schema : Json
  pub output_schema : Json
  pub description : Bytes

abbrev pub exec_description : Bytes
exec_description = codes "Execute a WinDbg/CDB debugger command and return its output"

unfoldable pub dbg_exec_tool : Tool
unfolding exec_input_schema exec_output_schema
dbg_exec_tool = record {
  name = codes "dbg_exec";
  input_schema = exec_input_schema;
  output_schema = exec_output_schema;
  description = exec_description;
}

-- The MCP handler and the SSE server around it.
pub record Service : Type 0 where
  pub name : Bytes
  pub version : Bytes
  pub tools : List Tool
  pub descriptions : List (Bytes × Bytes)
  pub bind_addr : Bytes
  pub port : ℤ
  pub sse_path : Bytes
  pub message_path : Bytes

unfoldable pub service : Bytes → ℤ → Service
unfolding dbg_exec_tool
service bind_addr port = record {
  name = codes "windbg-agent";
  version = codes "1.0.0";
  tools = dbg_exec_tool ∷ [];
  descriptions = (codes "dbg_exec", exec_description) ∷ [];
  bind_addr = bind_addr;
  port = port;
  sse_path = codes "/sse";
  message_path = codes "/messages";
}

-- How far a start came: the server ran already, there was no free port, the SSE server did not start,
-- or it serves at a port, with the command thread started.
pub data Start : Type 0 where
  already : ℤ → Start
  no_port : Start
  failed : Service → Start
  serving : Service → ℤ → Start

-- Whether the SSE server starts, and then its port.
unfoldable pub listens : (Service → Option ℤ) → Service → Start
listens sse s = elim (sse s) [ none ↦ failed s | some port ↦ serving s port ]

abbrev pub is_zero : ℤ → Bool
is_zero (pos zero) = true
is_zero _ = false

-- `start`, on a server that runs or not, with the `port_` that it has, `find_free_port`, and the SSE
-- server.
unfoldable pub start : Bool → ℤ → (Bytes → ℤ) → (Service → Option ℤ) → ℤ → Bytes → Start
unfolding listens service
start running port_ free sse port bind_addr =
    if running
    then already port_
    else if is_zero port
    then (if not (is_positive (free bind_addr))
        then no_port
        else listens sse (service bind_addr (free bind_addr)))
    else listens sse (service bind_addr port)

-- What a start returns.
unfoldable pub start_result : Start → ℤ
start_result (already port) = port
start_result no_port = negsuc 0
start_result (failed s) = negsuc 0
start_result (serving s port) = port

-- What it makes of the server as main.cpp sees it: the callback and the address are stored unless the
-- server runs already; a thread is assigned only where the SSE server started.
abbrev pub after_start : Bytes → Option ℕ → Server → Start → Option (Server × ℤ)
after_start addr gen s (already port) = some (s, port)
after_start addr gen s no_port = some (with_exec addr gen s, negsuc 0)
after_start addr gen s (failed v) = some (with_exec addr gen s, negsuc 0)
after_start addr gen s (serving v port) =
    if s.joinable then none else some (launched port (with_exec addr gen s), port)

abbrev pub sse_of : Bool → ℤ → Service → Option ℤ
sse_of starts port s = if starts then some port else none

-- The start that main.cpp sees, with port 0, is this one.
pub start_mcp-start :
    (free : ℤ) (starts : Bool) (sse_port : ℤ) (addr : Bytes) (gen : Option ℕ) (s : Server)
    → start_mcp free starts sse_port addr gen s
      ≡ after_start addr gen s
          (start s.running s.port (λ a. free) (sse_of starts sse_port) (pos 0) addr)
unfolding start_mcp start listens
start_mcp-start free starts sse_port addr gen s = ground arith

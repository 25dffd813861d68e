-- ===== src/McpTool.antt =====
-- mcp_server.cpp: the tool `dbg_exec` and the port of the MCP server.
pub mod Agreement
pub mod Calls
pub mod Queue
pub mod Schema
pub mod Start
pub mod Tests
use windbg_agent.Base.Int.{ℤ, pos, negsuc}
use windbg_agent.Base.Json.{Result, ok, ◌>>=◌, JsonLibrary}
use windbg_agent.Base.{ℕ, Bool, true, not, [], Bytes, codes, is_empty, if◌then◌else◌}
use windbg_agent.CommandQueue.{QueueResult}

-- `{"content": [{"type": "text", "text": …}], "isError": …}`
pub record ToolResult : Type 0 where
  pub content : Bytes
  pub is_error : Bool

-- The handler of `dbg_exec`, with the queue, the library and the arguments of the call.
unfoldable pub dbg_exec : (Bytes → QueueResult) → (j : JsonLibrary) → j.Doc → Result ToolResult
dbg_exec queue_and_wait j args = do
  cmd ← j.value args (codes "command") []
  if is_empty cmd
      then ok (record { content = codes "Error: missing command"; is_error = true })
      else (let result = queue_and_wait cmd in
          ok (record { content = result.payload; is_error = not result.success }))

-- `find_free_port`: whether `socket` and `bind` succeed, and the port that was bound.
unfoldable pub find_free_port : Bool → Bool → ℕ → ℤ
find_free_port has_socket binds port =
    if not has_socket then negsuc 0 else if not binds then negsuc 0 else pos port

-- ===== src/McpTool/Calls.antt =====
-- What a call of the tool of mcp_server.cpp answers, whatever its threads do.
use windbg_agent.Base.Json.{ok, JsonLibrary}
use windbg_agent.Base.{
  ◌≡◌, ℕ, refl, true, false, not, List, [], Bytes, codes, is_empty, ◌⊎◌, inl, inr, ◌∙◌, ap, sym,
  map,
}
use windbg_agent.CommandQueue.Results.{Ran, Reports, queue_and_wait-Reports}
use windbg_agent.CommandQueue.{QueueResult, Callback, State, done, returned, started}
use windbg_agent.McpTool.Queue.{mcp_texts, McpEvent, event, mcp_run, mcp_run-event}
use windbg_agent.McpTool.{ToolResult, dbg_exec}

module _ (exec : List Bytes → Bytes → Callback) where
  -- An error with one of the two texts of the server; or no error, and the debugger's answer to this
  -- command, or the text of a stopped server.
  abbrev pub Answers : List Bytes → Bytes → ToolResult → Type 0
  Answers session cmd t =
      ((t.is_error ≡ true)
        × ((t.content ≡ mcp_texts.not_running) ⊎ (t.content ≡ mcp_texts.stopped)))
      ⊎ ((t.is_error ≡ false)
          × ((t.content ≡ mcp_texts.stopped) ⊎ Ran mcp_texts exec session cmd t.content))

  Reports-Answers :
      (session : List Bytes) (cmd : Bytes) (q : QueueResult)
      → Reports mcp_texts exec session cmd q
      → Answers session cmd (record { content = q.payload; is_error = not q.success })
  Reports-Answers session cmd q (inl f) = inl (ap not f.0, f.1)
  Reports-Answers session cmd q (inr r) = inr (ap not r.0, r.1)

  -- In every interleaving of the threads of the MCP server, with a stop at any time: where the tool
  -- `dbg_exec` is called with a command that is not empty, and a call of the queue with that command has
  -- returned what the queue gives the tool for it, whatever the queue gives for other commands, the tool
  -- answers with a result, and throws nothing. The result is an error with a text of the server
  -- that is not running or was stopped; or it is no error, and its text is the debugger's answer to this
  -- very command at some point of its session, or that of a stopped server.
  pub dbg_exec-Answers :
      (j : JsonLibrary) (args : j.Doc) (queue_and_wait : Bytes → QueueResult) (es : List McpEvent)
      (k : ℕ) (s : State) (cmd : Bytes)
      → mcp_run exec es started ≡ done s
      → s.callers k ≡ returned cmd (queue_and_wait cmd)
      → j.value args (codes "command") [] ≡ ok cmd
      → is_empty cmd ≡ false
      → (t : ToolResult) × (dbg_exec queue_and_wait j args ≡ ok t) × Answers s.session cmd t
  unfolding dbg_exec
  dbg_exec-Answers j args queue_and_wait es k s cmd h e v n =
      let q = queue_and_wait cmd in
      let ran = sym (mcp_run-event exec es started) ∙ h in
      let reports = queue_and_wait-Reports mcp_texts exec (map event es) k ran e in
      (
        record { content = q.payload; is_error = not q.success },
        rw (v, n) refl,
        Reports-Answers s.session cmd q reports,
      )

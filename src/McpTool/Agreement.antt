-- ===== src/McpTool/Agreement.antt =====
-- The tool of mcp_server.cpp and the route /exec of http_server.cpp say the same.
use windbg_agent.Base.Json.{ok, text, JsonLibrary, IsJson, field}
use windbg_agent.Base.{
  ℕ, ◌≡◌, refl, ◌∙◌, Bool, true, false, not, [], ◌∷◌, Bytes, codes, is_empty, equals, if◌then◌else◌,
}
use windbg_agent.Cli.EndToEnd.{command_doc, result_doc, exec_handler-command}
use windbg_agent.CommandQueue.{QueueResult}
use windbg_agent.HttpRoutes.{Response, exec_handler}
use windbg_agent.McpTool.{ToolResult, dbg_exec}

module _ (j : JsonLibrary) (laws : IsJson j) (queue_and_wait : Bytes → QueueResult)
    (break_cb : Bool) where
  -- A command that is not empty gives the same answer by either way, if it and the answer can be
  -- written as JSON: the tool's text and its error flag are the payload and the success of the
  -- queue, and the route answers with these two, and with 503 exactly where the tool reports an
  -- error.
  pub dbg_exec-exec_handler :
      (cmd request body : Bytes)
      → is_empty cmd ≡ false
      → j.dump (command_doc j laws queue_and_wait break_cb cmd) ≡ ok request
      → j.dump (result_doc j laws queue_and_wait break_cb (queue_and_wait cmd)) ≡ ok body
      → let r = queue_and_wait cmd in
        let t : ToolResult = record { content = r.payload; is_error = not r.success } in
        (dbg_exec queue_and_wait j (command_doc j laws queue_and_wait break_cb cmd) ≡ ok t)
        × (exec_handler queue_and_wait break_cb j request
            ≡ record { status = if t.is_error then 503 else 200; body = body })
  unfolding dbg_exec
  dbg_exec-exec_handler cmd request body n dc dr =
      let v : j.value (command_doc j laws queue_and_wait break_cb cmd) (codes "command") []
          ≡ ok cmd =
        laws.value_present ((codes "command", text cmd) ∷ []) (codes "command") [] cmd
          (unfold field in unfold equals in refl) in
      (
        rw (v, n) refl,
        exec_handler-command j laws queue_and_wait break_cb cmd request body n dc dr
            ∙ swap (queue_and_wait cmd).success,
      )
    where
      answered : ℕ → Response
      answered status = record { status = status; body = body }

      swap : (b : Bool) → answered (if b then 200 else 503) ≡ answered (if not b then 503 else 200)
      swap true = refl
      swap false = refl

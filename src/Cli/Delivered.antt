-- ===== src/Cli/Delivered.antt =====
-- A command from cli/main.cpp through the route /exec of http_server.cpp and the queue to the debugger,
-- and its answer back, whatever the threads of the server do.
use windbg_agent.Base.Json.{ok, JsonLibrary, IsJson}
use windbg_agent.Base.{
  ℕ, ◌≡◌, refl, Bool, false, List, [], ◌∷◌, ◌++◌, ◌⊎◌, inl, inr, Option, Bytes, codes, is_empty,
}
use windbg_agent.Cli.EndToEnd.{server, command_doc, result_doc, main-exec_handler}
use windbg_agent.Cli.{Exit, join_args, get_url, main}
use windbg_agent.CommandQueue.Results.{Ran, Reports, queue_and_wait-Reports}
use windbg_agent.CommandQueue.{
  QueueResult, Callback, Texts, State, Event, done, returned, run, started,
}

abbrev pub http_texts : Texts
http_texts = record {
  not_running = codes "Error: HTTP server is not running";
  stopped = codes "Error: HTTP server stopped";
}

module _ (j : JsonLibrary) (laws : IsJson j) (exec : List Bytes → Bytes → Callback)
    (break_cb : Bool) where
  -- The client printed the debugger's answer to this command, or the text of a stopped server, and
  -- reports a success; or it printed nothing but the failure of the request.
  abbrev pub Delivered : List Bytes → Bytes → Bytes → Exit → Type 0
  Delivered session cmd url e =
      ((e.code ≡ 0)
        × (e.err ≡ [])
        × ((e.out ≡ http_texts.stopped) ⊎ Ran http_texts exec session cmd e.out))
      ⊎ ((e.code ≡ 1)
          × (e.out ≡ [])
          × (e.err ≡ codes "Error: Request failed\nURL: " ++ (url ++ codes "\n")))

  Reports-Delivered :
      (env : Option Bytes) (args : List Bytes) (request body : Bytes)
      (queue_and_wait : Bytes → QueueResult) (session : List Bytes)
      → Reports http_texts exec session (join_args [] args) (queue_and_wait (join_args [] args))
      → is_empty (join_args [] args) ≡ false
      → j.dump (command_doc j laws queue_and_wait break_cb (join_args [] args)) ≡ ok request
      → j.dump (result_doc j laws queue_and_wait break_cb (queue_and_wait (join_args [] args)))
        ≡ ok body
      → Delivered session
          (join_args [] args)
          (get_url env args)
          (main (server j laws queue_and_wait break_cb) j env (codes "exec" ∷ args))
  Reports-Delivered env args request body queue_and_wait session (inl failed) n dc dr =
      rw (main-exec_handler j laws queue_and_wait break_cb env args request body n dc dr, failed.0)
        (inr (refl, refl, refl))
  Reports-Delivered env args request body queue_and_wait session (inr done_so) n dc dr =
      rw (main-exec_handler j laws queue_and_wait break_cb env args request body n dc dr, done_so.0)
        (inl (refl, refl, done_so.1))

  -- In every interleaving of the threads of the HTTP server, with stops and restarts: where a call of
  -- `queue_and_wait` with the command that the arguments of `windbg_agent exec …` give has returned what
  -- the queue gives the route for it, whatever the queue gives for other commands, the client either prints the
  -- debugger's answer to this very command at some point of its session, or the text of a stopped
  -- server, as a success; or it says that the request failed. The command is not empty, and it and the
  -- answer can be written as JSON.
  pub main-Delivered :
      (env : Option Bytes) (args : List Bytes) (request body : Bytes)
      (queue_and_wait : Bytes → QueueResult) (es : List Event) (k : ℕ) (s : State)
      → run http_texts exec es started ≡ done s
      → s.callers k ≡ returned (join_args [] args) (queue_and_wait (join_args [] args))
      → is_empty (join_args [] args) ≡ false
      → j.dump (command_doc j laws queue_and_wait break_cb (join_args [] args)) ≡ ok request
      → j.dump (result_doc j laws queue_and_wait break_cb (queue_and_wait (join_args [] args)))
        ≡ ok body
      → Delivered s.session
          (join_args [] args)
          (get_url env args)
          (main (server j laws queue_and_wait break_cb) j env (codes "exec" ∷ args))
  main-Delivered env args request body queue_and_wait es k s h e n dc dr =
      Reports-Delivered env args request body queue_and_wait s.session
        (queue_and_wait-Reports http_texts exec es k h e) n dc dr

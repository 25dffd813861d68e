-- ===== src/Cli/EndToEnd.antt =====
-- cli/main.cpp against the route /exec of http_server.cpp.
use windbg_agent.Base.Json.{ok, thrown, text, flag, JsonLibrary, IsJson, field}
use windbg_agent.Base.{
  ◌≡◌, refl, ◌∙◌, Bool, false, List, [], ◌∷◌, ◌++◌, Option, some, Bytes, codes, is_empty, equals,
  if◌then◌else◌, inl, inr, Bool-cases,
}
use windbg_agent.Cli.{Transport, exec, exec_result, join_args, get_url, run_command, main}
use windbg_agent.CommandQueue.{QueueResult}
use windbg_agent.HttpRoutes.{respond, answer, exec_body, exec_handler, route}

module _ (j : JsonLibrary) (laws : IsJson j) (queue_and_wait : Bytes → QueueResult)
    (break_cb : Bool) where
  open j use {Doc, parse, value, object, dump}

  -- The network in front of this server.
  abbrev pub server : Transport
  server url m path body = some (route queue_and_wait break_cb j m path body)

  abbrev pub command_doc : Bytes → Doc
  command_doc cmd = object ((codes "command", text cmd) ∷ [])

  abbrev pub result_doc : QueueResult → Doc
  result_doc r = object ((codes "output", text r.payload) ∷ (codes "success", flag r.success) ∷ [])

  abbrev pub error_doc : Bytes → Doc
  error_doc what = object ((codes "error", text what) ∷ (codes "success", flag false) ∷ [])

  -- The route gets the command that the client was given.
  exec_body-command :
      (cmd body : Bytes)
      → is_empty cmd ≡ false
      → dump (command_doc cmd) ≡ ok body
      → exec_body queue_and_wait break_cb j body
        ≡ answer queue_and_wait break_cb j (queue_and_wait cmd)
  unfolding exec_body
  exec_body-command cmd body n d =
      rw
        (
          laws.parse-dump (command_doc cmd) body d,
          laws.value_present ((codes "command", text cmd) ∷ []) (codes "command") [] cmd
              (unfold field in unfold equals in refl),
          n,
        )
        refl

  -- What the client reads from an answer of the route.
  exec_result-answer :
      (r : QueueResult) (body : Bytes)
      → dump (result_doc r) ≡ ok body
      → exec_result server j (record { status = if r.success then 200 else 503; body = body })
        ≡ (if r.success then ok r.payload else thrown (codes "Request failed"))
  unfolding exec_result
  exec_result-answer r body d = elim (Bool-cases r.success) [
    | inl e ↦
        rw
          (
            e,
            laws.parse-dump (result_doc r) body d,
            laws.value_present
                ((codes "output", text r.payload) ∷ (codes "success", flag r.success) ∷ [])
                (codes "output") [] r.payload (unfold field in unfold equals in refl),
          )
          refl
    | inr e ↦
        rw
          (
            e,
            laws.parse-dump (result_doc r) body d,
            laws.value_missing
                ((codes "output", text r.payload) ∷ (codes "success", flag r.success) ∷ [])
                (codes "error") (codes "Request failed") (unfold field in unfold equals in refl),
          )
          refl
  ]

  pub exec_handler-command :
      (cmd request body : Bytes)
      → is_empty cmd ≡ false
      → dump (command_doc cmd) ≡ ok request
      → dump (result_doc (queue_and_wait cmd)) ≡ ok body
      → exec_handler queue_and_wait break_cb j request
        ≡ record { status = if (queue_and_wait cmd).success then 200 else 503; body = body }
  unfolding exec_handler
  exec_handler-command cmd request body n dc dr =
      let e : exec_body queue_and_wait break_cb j request
          ≡ ok
              (record { status = if (queue_and_wait cmd).success then 200 else 503; body = body }) =
        exec_body-command cmd request n dc ∙ (unfold answer in rw dr refl) in
      rw (exec_handler, e) refl

  exec_lem :
      (url cmd request body : Bytes)
      → is_empty cmd ≡ false
      → dump (command_doc cmd) ≡ ok request
      → dump (result_doc (queue_and_wait cmd)) ≡ ok body
      → exec server j url cmd ≡ (
          if (queue_and_wait cmd).success
          then ok (queue_and_wait cmd).payload
          else thrown (codes "Request failed"))
  unfolding exec route equals
  exec_lem url cmd request body n dc dr =
      rw (dc, exec_handler-command cmd request body n dc dr)
        (exec_result-answer (queue_and_wait cmd) body dr)

  -- `windbg_agent exec …` against the server: if the command, which is what the arguments give with
  -- spaces between them, is not empty, and it and the debugger's answer can be written as JSON, then
  -- the client prints the answer as it is, and nothing else, and ends with 0 where the queue reports
  -- a success. Where the queue reports a failure, the client ends with 1, and the queue's message is
  -- lost: the client says only that the request failed.
  pub main-exec_handler :
      (env : Option Bytes) (args : List Bytes) (request body : Bytes)
      → is_empty (join_args [] args) ≡ false
      → dump (command_doc (join_args [] args)) ≡ ok request
      → dump (result_doc (queue_and_wait (join_args [] args))) ≡ ok body
      → let r = queue_and_wait (join_args [] args) in
        main server j env (codes "exec" ∷ args) ≡ (
          if r.success then record { code = 0; out = r.payload; err = [] } else record {
            code = 1;
            out = [];
            err = codes "Error: Request failed\nURL: " ++ (get_url env args ++ codes "\n");
          })
  unfolding main run_command equals get_url
  main-exec_handler env args request body n dc dr =
      rw (n, exec_lem (get_url env args) (join_args [] args) request body n dc dr)
        (elim (Bool-cases (queue_and_wait (join_args [] args)).success) [
          | inl e ↦ rw e refl
          | inr e ↦ rw e refl
        ])

  -- Where the debugger's answer cannot be written as JSON, because it is not UTF-8, the client
  -- reports the exception of the library, though the command was run.
  pub exec_of_undumpable :
      (url cmd request body what : Bytes)
      → is_empty cmd ≡ false
      → dump (command_doc cmd) ≡ ok request
      → dump (result_doc (queue_and_wait cmd)) ≡ thrown what
      → dump (error_doc what) ≡ ok body
      → exec server j url cmd ≡ thrown what
  unfolding exec route equals exec_handler exec_result respond
  exec_of_undumpable url cmd request body what n dc dr de =
      let e : exec_body queue_and_wait break_cb j request ≡ thrown what =
        exec_body-command cmd request n dc ∙ (unfold answer in rw dr refl) in
      let f : exec_handler queue_and_wait break_cb j request
          ≡ record { status = 500; body = body } =
        rw (exec_handler, e) (rw (respond, de) refl) in
      rw (dc, f)
        (rw
          (
            exec_result,
            laws.parse-dump (error_doc what) body de,
            laws.value_present ((codes "error", text what) ∷ (codes "success", flag false) ∷ [])
                (codes "error") (codes "Request failed") what (unfold field in refl),
          )
          refl)

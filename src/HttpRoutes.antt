-- ===== src/HttpRoutes.antt =====
-- http_server.cpp: the routes that `HttpServer::start` registers.
use windbg_agent.Base.Json.{Result, ok, thrown, ◌>>=◌, Field, text, flag, JsonLibrary}
use windbg_agent.Base.{
  ℕ, Bool, true, false, List, [], ◌∷◌, Bytes, codes, is_empty, equals, if◌then◌else◌,
}
use windbg_agent.CommandQueue.{QueueResult}

-- A route that sets no status answers with 200.
pub record Response : Type 0 where
  pub status : ℕ
  pub body : Bytes

pub data Method : Type 0 where
  get post : Method

-- `queue_and_wait`, whether a break callback is set, and the library.
module _ (queue_and_wait : Bytes → QueueResult) (break_cb : Bool) (j : JsonLibrary) where
  open j use {Doc, parse, value, object, dump}

  -- Where a route throws, the HTTP library answers with 500 and no body.
  unfoldable pub respond : ℕ → List (Bytes × Field) → Response
  respond status fields = elim (dump (object fields)) [
    | ok s ↦ record { status = status; body = s }
    | thrown what ↦ record { status = 500; body = [] }
  ]

  -- `res.set_content(response.dump(), …)`
  unfoldable pub answer : QueueResult → Result Response
  answer r = do
    s ← dump (object ((codes "output", text r.payload) ∷ (codes "success", flag r.success) ∷ []))
    ok (record { status = if r.success then 200 else 503; body = s })

  -- What stands inside the `try` of `/exec`.
  unfoldable pub exec_body : Bytes → Result Response
  unfolding answer
  exec_body body = do
    json ← parse body
    cmd ← value json (codes "command") []
    if is_empty cmd
        then ok (record {
          status = 400;
          body = codes "{\"error\":\"missing command\",\"success\":false}";
        })
        else answer (queue_and_wait cmd)

  unfoldable pub exec_handler : Bytes → Response
  unfolding exec_body respond
  exec_handler body = elim (exec_body body) [
    | ok r ↦ r
    | thrown what ↦ respond 500 ((codes "error", text what) ∷ (codes "success", flag false) ∷ [])
  ]

  unfoldable pub status_handler : Response
  unfolding respond
  status_handler =
      respond 200 ((codes "status", text (codes "ready")) ∷ (codes "success", flag true) ∷ [])

  -- The server stops 100 ms later, on a thread of its own.
  unfoldable pub shutdown_handler : Response
  unfolding respond
  shutdown_handler =
      respond 200 ((codes "status", text (codes "stopping")) ∷ (codes "success", flag true) ∷ [])

  unfoldable pub break_handler : Response
  unfolding respond
  break_handler =
      if break_cb
      then respond 200
          ((codes "status", text (codes "break_requested")) ∷ (codes "success", flag true) ∷ [])
      else respond 503 (
          (codes "error", text (codes "no break callback set"))
          ∷ (codes "success", flag false)
          ∷ [])

  unfoldable pub route : Method → Bytes → Bytes → Response
  unfolding exec_handler status_handler shutdown_handler break_handler equals
  route post path body =
      if equals path (codes "/exec")
      then exec_handler body
      else if equals path (codes "/shutdown")
      then shutdown_handler
      else if equals path (codes "/break")
      then break_handler
      else record { status = 404; body = [] }
  route get path body =
      if equals path (codes "/status") then status_handler else record { status = 404; body = [] }

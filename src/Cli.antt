-- ===== src/Cli.antt =====
-- cli/main.cpp: the command-line client of the HTTP server.
pub mod Delivered
pub mod EndToEnd
pub mod Exits
pub mod Url
pub mod Tests
use windbg_agent.Base.Json.{Result, ok, thrown, ◌>>=◌, text, JsonLibrary}
use windbg_agent.Base.{
  ℕ, not, List, [], ◌∷◌, ◌++◌, Option, none, some, Bytes, codes, is_empty, equals, ◌==◌,
  if◌then◌else◌,
}
use windbg_agent.HttpRoutes.{Response, Method, get, post}

-- `arg.rfind(prefix, 0) == 0`, and the rest behind the prefix.
unfoldable pub after_prefix : Bytes → Bytes → Option Bytes
after_prefix [] s = some s
after_prefix (p ∷ ps) [] = none
after_prefix (p ∷ ps) (c ∷ s) = let rest = after_prefix ps s in if c == p then rest else none

abbrev pub url_flag : Bytes → Option Bytes
url_flag = after_prefix (codes "--url=")

-- `get_url`, with the arguments behind the program's name and the environment's `WINDBG_AGENT_URL`.
unfoldable pub get_url : Option Bytes → List Bytes → Bytes
unfolding after_prefix
get_url (some env) [] = env
get_url none [] = codes "http://127.0.0.1:9999"
get_url env (arg ∷ args) =
    let rest = get_url env args in elim (url_flag arg) [ some url ↦ url | none ↦ rest ]

-- `args += " "`, except in front of the first.
unfoldable pub join_args : Bytes → List Bytes → Bytes
join_args args [] = args
join_args args (a ∷ more) =
    join_args ((if is_empty args then args else args ++ codes " ") ++ a) more

-- The network: `none` where there is no answer.
abbrev pub Transport : Type 0
Transport = Bytes → Method → Bytes → Bytes → Option Response

abbrev pub no_connection : Bytes
no_connection = codes "Connection failed - is HTTP server running?"

-- The end of a run: the exit code, and what was written to the two streams.
pub record Exit : Type 0 where
  pub code : ℕ
  pub out : Bytes
  pub err : Bytes

abbrev pub usage : Bytes
usage =
    codes "Usage: windbg_agent.exe [--url=URL] <command> [args]\n\n"
    ++ (codes "Commands:\n"
        ++ (codes "  exec <cmd>       Run debugger command, return raw output\n"
            ++ (codes "  status           Check server status\n"
                ++ (codes "  shutdown         Stop HTTP server\n\n"
                    ++ (codes "Environment:\n"
                        ++ codes
                            "  WINDBG_AGENT_URL     HTTP server URL (default: http://127.0.0.1:9999)\n")))))

module _ (transport : Transport) (j : JsonLibrary) where
  open j use {Doc, parse, value, object, dump}

  abbrev pub reply : Option Response → (Response → Result Bytes) → Result Bytes
  reply none f = thrown no_connection
  reply (some res) f = f res

  -- What `HttpClient::exec` makes of an answer.
  unfoldable pub exec_result : Response → Result Bytes
  exec_result res =
      if not (res.status == 200)
      then (do
        json ← parse res.body
        what ← value json (codes "error") (codes "Request failed")
        thrown what)
      else (do json ← parse res.body; value json (codes "output") [])

  unfoldable pub exec : Bytes → Bytes → Result Bytes
  unfolding exec_result
  exec url cmd = do
    body ← dump (object ((codes "command", text cmd) ∷ []))
    reply (transport url post (codes "/exec") body) exec_result

  unfoldable pub status : Bytes → Result Bytes
  status url = reply (transport url get (codes "/status") []) (λ res. ok res.body)

  unfoldable pub shutdown : Bytes → Result Bytes
  shutdown url = reply (transport url post (codes "/shutdown") []) (λ res. ok [])

  -- The `catch` of `main`, and the print of a result.
  abbrev pub finish : Bytes → Result Bytes → (Bytes → Bytes) → Exit
  finish url (ok s) print = record { code = 0; out = print s; err = [] }
  finish url (thrown what) print = record {
    code = 1;
    out = [];
    err = codes "Error: " ++ (what ++ (codes "\nURL: " ++ (url ++ codes "\n")));
  }

  unfoldable pub run_command : Bytes → Bytes → Bytes → Exit
  unfolding exec status shutdown equals
  run_command url cmd args =
      if equals cmd (codes "exec")
      then (if is_empty args
          then record { code = 1; out = []; err = codes "Error: exec requires a command\n" }
          else finish url (exec url args) (λ s. s))
      else if equals cmd (codes "status")
      then finish url (status url) (λ s. s ++ codes "\n")
      else if equals cmd (codes "shutdown")
      then finish url (shutdown url) (λ s. codes "HTTP server stopped.\n")
      else record {
        code = 1;
        out = [];
        err = codes "Unknown command: " ++ (cmd ++ (codes "\n" ++ usage));
      }

  abbrev pub from_command : Bytes → List Bytes → Exit
  from_command url [] = record { code = 1; out = []; err = usage }
  from_command url (cmd ∷ args) = run_command url cmd (join_args [] args)

  -- `main`. The first argument is skipped if it is the flag.
  unfoldable pub main : Option Bytes → List Bytes → Exit
  unfolding get_url join_args run_command
  main env [] = record { code = 1; out = []; err = usage }
  main env (arg ∷ args) = elim (url_flag arg) [
    | some url ↦ from_command (get_url env (arg ∷ args)) args
    | none ↦ from_command (get_url env (arg ∷ args)) (arg ∷ args)
  ]

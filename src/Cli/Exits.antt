-- ===== src/Cli/Exits.antt =====
-- How a run of cli/main.cpp ends.
use windbg_agent.Base.Json.{Result, ok, thrown, ◌>>=◌, text, JsonLibrary}
use windbg_agent.Base.{
  ◌≡◌, ◌≢◌, refl, sym, subst, true, false, List, [], ◌∷◌, ◌++◌, Option, none, some, Bytes, codes,
  is_empty, equals, equals_iff, ◌==◌, if-holds, ◌⊎◌, inl, inr, arith, Bool-cases,
}
use windbg_agent.Cli.{
  Transport, Exit, reply, exec_result, exec, status, shutdown, finish, run_command, from_command,
  get_url, join_args, url_flag, main,
}
use windbg_agent.HttpRoutes.{Response, get, post}

abbrev throw : Bytes → Result Bytes
throw what = thrown what

-- A computation that ends with a throw has no result.
throws-ne-ok : (r : Result Bytes) (s : Bytes) → (r >>= throw) ≢ ok s
throws-ne-ok (ok a) s h = cc
throws-ne-ok (thrown what) s h = cc

>>=-eq-ok :
    {A : Type 0} (r : Result A) (f : A → Result Bytes) (s : Bytes)
    → (r >>= f) ≡ ok s
    → (a : A) × (r ≡ ok a) × (f a ≡ ok s)
>>=-eq-ok (ok a) f s h = (a, refl, h)
>>=-eq-ok (thrown what) f s h = cc

-- The arguments without the flag in front.
abbrev pub words : List Bytes → List Bytes
words [] = []
words (arg ∷ args) = elim (url_flag arg) [ some url ↦ args | none ↦ arg ∷ args ]

module _ (transport : Transport) (j : JsonLibrary) where
  open j use {Doc, parse, value, object, dump}

  reply-eq-ok :
      (o : Option Response) (f : Response → Result Bytes) (s : Bytes)
      → reply transport j o f ≡ ok s
      → (res : Response) × (o ≡ some res) × (f res ≡ ok s)
  reply-eq-ok none f s h = cc
  reply-eq-ok (some res) f s h = (res, refl, h)

  -- The server answered the command with 200, and what is printed is the output in that answer.
  abbrev pub Executed : Bytes → Bytes → Bytes → Type 0
  Executed url cmd out =
      (body : Bytes) × (res : Response) × (dump (object ((codes "command", text cmd) ∷ []))
        ≡ ok body)
      × (transport url post (codes "/exec") body ≡ some res)
      × (res.status ≡ 200)
      × ((parse res.body >>= λ json. value json (codes "output") []) ≡ ok out)

  exec_result-eq-ok :
      (res : Response) (s : Bytes)
      → exec_result transport j res ≡ ok s
      → (res.status ≡ 200) × ((parse res.body >>= λ json. value json (codes "output") []) ≡ ok s)
  unfolding exec_result
  exec_result-eq-ok res s h = elim (Bool-cases (res.status == 200)) [
    | inl e ↦ (ground (arith, e), rw e at h)
    | inr e ↦
        (let k : (parse res.body >>= λ json.
        value json (codes "error") (codes "Request failed") >>= throw)
              ≡ ok s =
            rw e at h in
          let (json, p, q) = >>=-eq-ok (parse res.body) _ s k in absurd (throws-ne-ok _ s q))
  ]

  exec-eq-ok : (url cmd s : Bytes) → exec transport j url cmd ≡ ok s → Executed url cmd s
  unfolding exec
  exec-eq-ok url cmd s h =
      let (body, d, r) = >>=-eq-ok (dump (object ((codes "command", text cmd) ∷ []))) _ s h in
      let (res, o, e) = reply-eq-ok (transport url post (codes "/exec") body) _ s r in
      let (ok200, out) = exec_result-eq-ok res s e in (body, res, d, o, ok200, out)

  -- What a success means, for the words of the command and what is printed.
  pub data Succeeds (url : Bytes) : List Bytes → Bytes → Type 0 where
    executed :
        (args : List Bytes) (out : Bytes)
        → is_empty (join_args [] args) ≡ false
        → Executed url (join_args [] args) out
        → Succeeds url (codes "exec" ∷ args) out
    told_status :
        (args : List Bytes) (res : Response)
        → transport url get (codes "/status") [] ≡ some res
        → Succeeds url (codes "status" ∷ args) (res.body ++ codes "\n")
    told_shutdown :
        (args : List Bytes) (res : Response)
        → transport url post (codes "/shutdown") [] ≡ some res
        → Succeeds url (codes "shutdown" ∷ args) (codes "HTTP server stopped.\n")

  -- A success prints nothing to the error stream; a failure prints something there, and nothing else.
  abbrev pub Reported : Bytes → List Bytes → Exit → Type 0
  Reported url ws e =
      ((e.code ≡ 0) × (e.err ≡ []) × Succeeds url ws e.out)
      ⊎ ((e.code ≡ 1) × (e.out ≡ []) × (is_empty e.err ≡ false))

  finish-Reported :
      (url : Bytes) (ws : List Bytes) (r : Result Bytes) (print : Bytes → Bytes)
      → ((s : Bytes) → r ≡ ok s → Succeeds url ws (print s))
      → Reported url ws (finish transport j url r print)
  finish-Reported url ws (ok s) print h = inl (refl, refl, h s refl)
  finish-Reported url ws (thrown what) print h = inr (refl, refl, refl)

  exec-Reported :
      (url : Bytes) (args : List Bytes)
      → is_empty (join_args [] args) ≡ false
      → Reported url
          (codes "exec" ∷ args)
          (finish transport j url (exec transport j url (join_args [] args)) (λ s. s))
  exec-Reported url args n =
      finish-Reported url _ _ (λ s. s) (λ s e. executed args s n (exec-eq-ok url _ s e))

  status-Reported :
      (url : Bytes) (args : List Bytes)
      → Reported url
          (codes "status" ∷ args)
          (finish transport j url (status transport j url) (λ s. s ++ codes "\n"))
  unfolding status
  status-Reported url args =
      finish-Reported url _ _ (λ s. s ++ codes "\n")
        (λ s e.
          let (res, o, same) =
            reply-eq-ok (transport url get (codes "/status") []) (λ res. ok res.body) s e in
          let printed : res.body ≡ s = cc in
          subst (λ b. Succeeds url (codes "status" ∷ args) (b ++ codes "\n")) printed
            (told_status args res o))

  shutdown-Reported :
      (url : Bytes) (args : List Bytes)
      → Reported url
          (codes "shutdown" ∷ args)
          (finish transport j url (shutdown transport j url) (λ s. codes "HTTP server stopped.\n"))
  unfolding shutdown
  shutdown-Reported url args =
      finish-Reported url _ _ (λ s. codes "HTTP server stopped.\n")
        (λ s e.
          let (res, o, same) =
            reply-eq-ok (transport url post (codes "/shutdown") []) (λ res. ok []) s e in
          told_shutdown args res o)

  run_command-Reported :
      (url cmd : Bytes) (args : List Bytes)
      → Reported url (cmd ∷ args) (run_command transport j url cmd (join_args [] args))
  unfolding run_command
  run_command-Reported url cmd args =
      let at_name =
        λ (name : Bytes) (e : Exit) (r : Reported url (name ∷ args) e) (h : equals cmd name ≡ true).
          subst (λ c. Reported url (c ∷ args) e) (sym ((equals_iff cmd name).0 h)) r in
      let R = Reported url (cmd ∷ args) in
      if-holds R (equals cmd (codes "exec")) _ _
        (λ h.
          if-holds R (is_empty (join_args [] args)) _ _ (λ n. inr (refl, refl, refl))
            (λ n. at_name (codes "exec") _ (exec-Reported url args n) h))
        (λ _.
          if-holds R (equals cmd (codes "status")) _ _
            (λ h. at_name (codes "status") _ (status-Reported url args) h)
            (λ _.
              if-holds R (equals cmd (codes "shutdown")) _ _
                (λ h. at_name (codes "shutdown") _ (shutdown-Reported url args) h)
                (λ _. inr (refl, refl, refl))))

  from_command-Reported :
      (url : Bytes) (ws : List Bytes) → Reported url ws (from_command transport j url ws)
  from_command-Reported url [] = inr (refl, refl, refl)
  from_command-Reported url (cmd ∷ args) = run_command-Reported url cmd args

  -- With the flag or without it.
  flagged-Reported :
      (url arg : Bytes) (args : List Bytes) (flag : Option Bytes)
      → Reported url
          (elim flag [ some u ↦ args | none ↦ arg ∷ args ])
          (elim flag [
            | some u ↦ from_command transport j url args
            | none ↦ from_command transport j url (arg ∷ args)
          ])
  flagged-Reported url arg args (some u) = from_command-Reported url args
  flagged-Reported url arg args none = from_command-Reported url (arg ∷ args)

  -- Whatever the arguments, the environment and the answers of the network are: the client ends with 0
  -- or 1. With 0 it prints nothing to the error stream, and the server answered: to `exec`, with the
  -- status 200 and the printed output; to `status`, with the printed body; to `shutdown`, somehow,
  -- whatever the status of that answer is. With 1 it prints a text to the error stream, and nothing
  -- else.
  pub main-Reported :
      (env : Option Bytes) (args : List Bytes)
      → Reported (get_url env args) (words args) (main transport j env args)
  unfolding main
  main-Reported env [] = inr (refl, refl, refl)
  main-Reported env (arg ∷ args) =
      flagged-Reported (get_url env (arg ∷ args)) arg args (url_flag arg)

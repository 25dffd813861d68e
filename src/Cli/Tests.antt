-- ===== src/Cli/Tests.antt =====
-- The client of cli/main.cpp at concrete inputs, with a JSON library that writes what is needed.
use windbg_agent.Base.Json.{Result, ok, thrown, Field, text, flag, JsonLibrary, IsJson, field}
use windbg_agent.Base.{
  ℕ, zero, suc, ◌==◌, ◌||◌, ◌≡◌, inl, inr, Bool-cases, sym, refl, Bool, true, false, List, [], ◌∷◌,
  ◌++◌, Option, none, some, Bytes, codes, is_empty, length, take, drop, take-append, drop-append,
  if◌then◌else◌,
}
use windbg_agent.Cli.Delivered.{http_texts, Delivered, main-Delivered}
use windbg_agent.Cli.EndToEnd.{server, main-exec_handler, exec_of_undumpable}
use windbg_agent.Cli.Exits.{Reported, words as given, main-Reported}
use windbg_agent.Cli.Url.{default_url, url_option, HasNoUrl, get_url_lem, late_flag_is_sent}
use windbg_agent.Cli.{get_url, join_args, main, exec, finish, after_prefix}
use windbg_agent.CommandQueue.{
  QueueResult, Callback, answered, Event, enters, pushes, tops, polls, finishes, notifies, wakes,
  Outcome, State, done, started, run, step,
}

-- A document is a list of fields. Objects of one text, or of a text and a flag, are written; an
-- object whose text holds the byte 255 is not.
abbrev Doc : Type 0
Doc = List (Bytes × Field)

abbrev value_of : Option Field → Bytes → Result Bytes
value_of none default = ok default
value_of (some (text s)) default = ok s
value_of (some (flag b)) default = thrown (codes "type must be string")

abbrev is_bad : Bytes → Bool
is_bad [] = false
is_bad (c ∷ s) = is_bad s || c == 255

abbrev tag : Bool → ℕ
tag true = 1
tag false = 2

abbrev write : Bytes → Bytes → Result Bytes
write s out = if is_bad s then thrown (codes "invalid UTF-8 byte") else ok out

abbrev dump : Doc → Result Bytes
dump ((k, text s) ∷ []) = write s (0 ∷ length k ∷ (k ++ s))
dump ((k, text s) ∷ (l, flag b) ∷ []) = write s (tag b ∷ length k ∷ length l ∷ (k ++ (l ++ s)))
dump _ = thrown (codes "unsupported")

abbrev parse : Bytes → Result Doc
parse (zero ∷ n ∷ r) = ok ((take n r, text (drop n r)) ∷ [])
parse (suc zero ∷ n ∷ m ∷ r) =
    ok ((take n r, text (drop m (drop n r))) ∷ (take m (drop n r), flag true) ∷ [])
parse (suc (suc zero) ∷ n ∷ m ∷ r) =
    ok ((take n r, text (drop m (drop n r))) ∷ (take m (drop n r), flag false) ∷ [])
parse _ = thrown (codes "parse error")

abbrev pub small_json : JsonLibrary
small_json = record {
  Doc = Doc;
  parse = parse;
  value = λ d key default. value_of (field key d) default;
  object = λ fs. fs;
  dump = dump;
}

written : (s out t : Bytes) → write s out ≡ ok t → out ≡ t
written s out t h = elim (Bool-cases (is_bad s)) [
  | inl e ↦ (let k : thrown (codes "invalid UTF-8 byte") ≡ ok t = rw e at h in cc)
  | inr e ↦ (let k : ok out ≡ ok t = rw e at h in cc)
]

parse-dump : (d : Doc) (t : Bytes) → dump d ≡ ok t → parse t ≡ ok d
parse-dump ((k, text s) ∷ []) t h =
    rw (sym (written s _ t h)) (rw (take-append k s, drop-append k s) refl)
parse-dump ((k, text s) ∷ (l, flag true) ∷ []) t h =
    rw (sym (written s _ t h))
      (rw (take-append k (l ++ s), drop-append k (l ++ s), take-append l s, drop-append l s) refl)
parse-dump ((k, text s) ∷ (l, flag false) ∷ []) t h =
    rw (sym (written s _ t h))
      (rw (take-append k (l ++ s), drop-append k (l ++ s), take-append l s, drop-append l s) refl)
parse-dump [] t h = cc
parse-dump ((k, flag b) ∷ d) t h = cc
parse-dump ((k, text s) ∷ (l, text u) ∷ d) t h = cc
parse-dump ((k, text s) ∷ (l, flag b) ∷ e ∷ d) t h = cc

pub small_json-IsJson : IsJson small_json
small_json-IsJson = record {
  parse-dump = parse-dump;
  value_present = λ fs key default s e. rw e refl;
  value_missing = λ fs key default e. rw e refl;
}

-- A queue whose debugger answers every command, and one whose debugger answers with a byte that is
-- no text.
abbrev pub queue : Bytes → QueueResult
queue cmd =
    if is_empty cmd
    then record { success = false; payload = codes "none" }
    else record { success = true; payload = codes "Child-SP" }

abbrev bytes_queue : Bytes → QueueResult
bytes_queue cmd = record { success = true; payload = 255 ∷ [] }

abbrev words : List Bytes
words = codes "k" ∷ codes "5" ∷ []

main-exec_handler_example :
    let r = queue (codes "k 5") in
    main (server small_json small_json-IsJson queue true) small_json none (codes "exec" ∷ words) ≡ (
      if r.success then record { code = 0; out = r.payload; err = [] } else record {
        code = 1;
        out = [];
        err = codes "Error: Request failed\nURL: " ++ (get_url none words ++ codes "\n");
      })
unfolding join_args
main-exec_handler_example =
    main-exec_handler small_json small_json-IsJson queue true none words _ _ refl refl refl

undumpable :
    exec
      (server small_json small_json-IsJson bytes_queue true)
      small_json
      (codes "http://h")
      (codes "db")
    ≡ thrown (codes "invalid UTF-8 byte")
undumpable =
    exec_of_undumpable small_json small_json-IsJson bytes_queue true (codes "http://h") (codes "db")
      _ _ (codes "invalid UTF-8 byte") refl refl refl refl

no_url : HasNoUrl words
unfolding after_prefix
no_url = (refl, (refl, tt))

url_of_words :
    (get_url none words ≡ default_url none)
    × ((url : Bytes) (after : List Bytes) → get_url none (words ++ url_option url ∷ after) ≡ url)
url_of_words = get_url_lem none words no_url

late_flag :
    main
      (server small_json small_json-IsJson queue true)
      small_json
      none
      (codes "exec" ∷ (words ++ url_option (codes "http://h") ∷ []))
    ≡ finish
        (server small_json small_json-IsJson queue true)
        small_json
        (codes "http://h")
        (exec
          (server small_json small_json-IsJson queue true)
          small_json
          (codes "http://h")
          (join_args [] (words ++ url_option (codes "http://h") ∷ [])))
        (λ s. s)
unfolding join_args
late_flag =
    late_flag_is_sent (server small_json small_json-IsJson queue true) small_json none words []
      (codes "http://h") no_url refl

abbrev shell : List Bytes → Bytes → Callback
shell session input = answered (codes "Child-SP")

abbrev one_call : List Event
one_call =
    enters 0 (codes "k 5") ∷ pushes 0 ∷ tops false ∷ polls ∷ finishes ∷ notifies ∷ wakes 0 ∷ []

abbrev state_of : Outcome → State
state_of (done s) = s
state_of _ = started

abbrev served : State
served = state_of (run http_texts shell one_call started)

main-Delivered_example :
    Delivered small_json small_json-IsJson shell true served.session
      (codes "k 5")
      (get_url none words)
      (main (server small_json small_json-IsJson queue true) small_json none (codes "exec" ∷ words))
unfolding join_args run step
main-Delivered_example =
    main-Delivered small_json small_json-IsJson shell true none words _ _ queue one_call 0 served
      refl refl refl refl refl

main-Reported_example :
    Reported
      (server small_json small_json-IsJson queue true)
      small_json
      (get_url none (codes "exec" ∷ words))
      (given (codes "exec" ∷ words))
      (main (server small_json small_json-IsJson queue true) small_json none (codes "exec" ∷ words))
main-Reported_example =
    main-Reported (server small_json small_json-IsJson queue true) small_json none
      (codes "exec" ∷ words)

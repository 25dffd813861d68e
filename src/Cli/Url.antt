-- ===== src/Cli/Url.antt =====
-- cli/main.cpp: which server the client talks to.
use windbg_agent.Base.Json.{JsonLibrary}
use windbg_agent.Base.{
  ◌≡◌, refl, false, List, [], ◌∷◌, ◌++◌, Option, none, some, Bytes, codes, is_empty, equals, All,
}
use windbg_agent.Cli.{
  Transport, url_flag, after_prefix, get_url, join_args, exec, run_command, finish, main,
}

abbrev pub HasNoUrl : List Bytes → Type 0
HasNoUrl = All (λ a. url_flag a ≡ none)

abbrev pub default_url : Option Bytes → Bytes
default_url none = codes "http://127.0.0.1:9999"
default_url (some env) = env

abbrev pub url_option : Bytes → Bytes
url_option url = codes "--url=" ++ url

url_flag-url_option : (url : Bytes) → url_flag (url_option url) ≡ some url
unfolding after_prefix
url_flag-url_option url = refl

get_url-none :
    (env : Option Bytes) (args : List Bytes) → HasNoUrl args → get_url env args ≡ default_url env
unfolding get_url
get_url-none none [] h = refl
get_url-none (some e) [] h = refl
get_url-none none (a ∷ args) h = rw h.0 (get_url-none none args h.1)
get_url-none (some e) (a ∷ args) h = rw h.0 (get_url-none (some e) args h.1)

get_url-url_option :
    (env : Option Bytes) (before after : List Bytes) (url : Bytes)
    → HasNoUrl before
    → get_url env (before ++ url_option url ∷ after) ≡ url
unfolding get_url
get_url-url_option none [] after url h = unfold after_prefix in refl
get_url-url_option (some e) [] after url h = unfold after_prefix in refl
get_url-url_option none (a ∷ before) after url h =
    rw h.0 (get_url-url_option none before after url h.1)
get_url-url_option (some e) (a ∷ before) after url h =
    rw h.0 (get_url-url_option (some e) before after url h.1)

-- The server is the one of the first flag, wherever it stands among the arguments; without a flag,
-- the one that the environment names; and without that, the default.
pub get_url_lem :
    (env : Option Bytes) (before : List Bytes)
    → HasNoUrl before
    → (get_url env before ≡ default_url env)
      × ((url : Bytes) (after : List Bytes) → get_url env (before ++ url_option url ∷ after) ≡ url)
get_url_lem env before h =
    (get_url-none env before h, λ url after. get_url-url_option env before after url h)

-- A flag behind the command `exec` chooses the server, and is sent to it as a part of the command.
pub late_flag_is_sent :
    (transport : Transport) (j : JsonLibrary) (env : Option Bytes) (before after : List Bytes)
    (url : Bytes)
    → HasNoUrl before
    → is_empty (join_args [] (before ++ url_option url ∷ after)) ≡ false
    → main transport j env (codes "exec" ∷ (before ++ url_option url ∷ after))
      ≡ finish transport j url
          (exec transport j url (join_args [] (before ++ url_option url ∷ after)))
          (λ s. s)
unfolding main run_command equals get_url
late_flag_is_sent transport j env before after url h n =
    rw (n, get_url-url_option env before after url h) refl

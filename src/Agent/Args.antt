-- ===== src/Agent/Args.antt =====
-- main.cpp: how `agent_impl` takes its arguments apart.
use windbg_agent.Base.Decimal.{is_space}
use windbg_agent.Base.{
  ℕ, ◌+◌, ◌≡◌, refl, ap, ◌∙◌, Bool, true, false, ◌||◌, List, [], ◌∷◌, ◌++◌, append-nil,
  append_assoc, none, some, Bytes, ◌==◌, if◌then◌else◌, is_empty, find, take, drop, All,
}

abbrev pub is_blank : ℕ → Bool
is_blank c = c == b' ' || c == 9

-- The text from `find_first_not_of(" \t")` on.
unfoldable pub skip_blanks : Bytes → Bytes
skip_blanks [] = []
skip_blanks (c ∷ s) = let rest = skip_blanks s in if is_blank c then rest else c ∷ s

-- `if (start != npos) s = s.substr(start)`: a text of blanks only stays as it is.
unfoldable pub trim_start : Bytes → Bytes
unfolding skip_blanks
trim_start s = let t = skip_blanks s in if is_empty t then s else t

-- The subcommand and the rest.
unfoldable pub split_args : Bytes → Bytes × Bytes
unfolding trim_start find
split_args args =
    let s = trim_start args in
    elim (find b' ' s) [
      | none ↦ (s, [])
      | some space ↦ (take space s, trim_start (drop (space + 1) s))
    ]

-- `while (ss >> tok)`, where `tok` holds `cur` already.
unfoldable pub tokens_from : Bytes → Bytes → List Bytes
tokens_from cur [] = if is_empty cur then [] else cur ∷ []
tokens_from cur (c ∷ s) = elim (is_space c) [
  | true ↦ let rest = tokens_from [] s in if is_empty cur then rest else cur ∷ rest
  | false ↦ tokens_from (cur ++ c ∷ []) s
]

unfoldable pub tokens : Bytes → List Bytes
unfolding tokens_from
tokens s = tokens_from [] s

-- A token: not empty, and without whitespace.
abbrev pub IsToken : Bytes → Type 0
IsToken t = (is_empty t ≡ false) × All (λ c. is_space c ≡ false) t

-- Each token behind a space.
abbrev pub spaced : List Bytes → Bytes
spaced [] = []
spaced (t ∷ ts) = b' ' ∷ (t ++ spaced ts)

tokens_from-append :
    (p rest cur : Bytes)
    → All (λ c. is_space c ≡ false) p
    → is_empty (cur ++ p) ≡ false
    → tokens_from cur (p ++ b' ' ∷ rest) ≡ (cur ++ p) ∷ tokens_from [] rest
unfolding tokens_from
tokens_from-append [] rest cur h n =
    let e : is_empty cur ≡ false = rw append-nil at n in rw (append-nil, e)
tokens_from-append (c ∷ p) rest cur h n =
    rw (h.0, tokens_from)
      (tokens_from-append p rest (cur ++ c ∷ []) h.1 (rw append_assoc n)
        ∙ ap (λ t. t ∷ tokens_from [] rest) (append_assoc cur (c ∷ []) p))

tokens_from_end :
    (p cur : Bytes)
    → All (λ c. is_space c ≡ false) p
    → is_empty (cur ++ p) ≡ false
    → tokens_from cur p ≡ (cur ++ p) ∷ []
unfolding tokens_from
tokens_from_end [] cur h n = let e : is_empty cur ≡ false = rw append-nil at n in rw (append-nil, e)
tokens_from_end (c ∷ p) cur h n =
    rw (h.0, tokens_from)
      (tokens_from_end p (cur ++ c ∷ []) h.1 (rw append_assoc n)
        ∙ ap (λ t. t ∷ []) (append_assoc cur (c ∷ []) p))

tokens_from-spaced :
    (ts : List Bytes) (t : Bytes)
    → IsToken t
    → All IsToken ts
    → tokens_from [] (t ++ spaced ts) ≡ t ∷ ts
tokens_from-spaced [] t h v = rw append-nil (tokens_from_end t [] h.1 h.0)
tokens_from-spaced (u ∷ ts) t h v =
    tokens_from-append t (u ++ spaced ts) [] h.1 h.0 ∙ ap (◌∷◌ t) (tokens_from-spaced ts u v.0 v.1)

-- Tokens behind each other with spaces between them are read back.
pub tokens-spaced :
    (t : Bytes) (ts : List Bytes) → IsToken t → All IsToken ts → tokens (t ++ spaced ts) ≡ t ∷ ts
unfolding tokens
tokens-spaced t ts h v = tokens_from-spaced ts t h v

-- The two lemmas on what is left of the blanks.
pub skip_blanks-none : (s : Bytes) → All (λ c. is_blank c ≡ true) s → skip_blanks s ≡ []
unfolding skip_blanks
skip_blanks-none [] h = refl
skip_blanks-none (c ∷ s) h = rw h.0 (skip_blanks-none s h.1)

pub tokens-none : (s : Bytes) → All (λ c. is_space c ≡ true) s → tokens s ≡ []
unfolding tokens tokens_from
tokens-none [] h = refl
tokens-none (c ∷ s) h = rw (h.0, tokens, tokens_from) (tokens-none s h.1)

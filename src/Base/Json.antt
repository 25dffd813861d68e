-- ===== src/Base/Json.antt =====
-- The JSON library nlohmann/json, outside this repository, as the servers and the client use it.
use windbg_agent.Base.Tests.{if◌then◌else◌}
use windbg_agent.Base.Text.{Bytes, equals}
use windbg_agent.Base.{Bool, List, [], ◌∷◌, Option, none, some, ◌≡◌}

-- The result of a call that may throw, with the text of the exception.
pub data Result {ℓ} (A : Type ℓ) : Type ℓ where
  ok : A → Result A
  thrown : Bytes → Result A

infixl 5 ◌>>=◌
abbrev pub ◌>>=◌ {ℓ κ} : {A : Type ℓ} {B : Type κ} → Result A → (A → Result B) → Result B
ok a >>= f = f a
thrown what >>= f = thrown what

-- What the program puts into an object.
pub data Field : Type 0 where
  text : Bytes → Field
  flag : Bool → Field

-- `json::parse(s)`, `doc.value(key, default)` for a text, the object with these fields, and
-- `doc.dump()`, which throws on a text that is not UTF-8.
pub record JsonLibrary : Type 1 where
  pub Doc : Type 0
  pub parse : Bytes → Result Doc
  pub value : Doc → Bytes → Bytes → Result Bytes
  pub object : List (Bytes × Field) → Doc
  pub dump : Doc → Result Bytes

unfoldable pub field : Bytes → List (Bytes × Field) → Option Field
unfolding equals
field key [] = none
field key ((k, f) ∷ fs) = let rest = field key fs in if equals k key then some f else rest

-- The library's documentation: a document that was dumped is parsed back, and `value` gives the
-- text of a field, or the default where the field is missing.
pub record IsJson (j : JsonLibrary) : Type 0 where
  pub parse-dump : (d : j.Doc) (s : Bytes) → j.dump d ≡ ok s → j.parse s ≡ ok d
  pub value_present :
      (fs : List (Bytes × Field)) (key default s : Bytes)
      → field key fs ≡ some (text s)
      → j.value (j.object fs) key default ≡ ok s
  pub value_missing :
      (fs : List (Bytes × Field)) (key default : Bytes)
      → field key fs ≡ none
      → j.value (j.object fs) key default ≡ ok default

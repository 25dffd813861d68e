-- ===== src/McpTool/Schema.antt =====
-- The schemas of the tool `dbg_exec` of mcp_server.cpp, as JSON Schema reads them, and the tool.
use windbg_agent.Base.Json.{ok, Field, text, flag, JsonLibrary, IsJson, field}
use windbg_agent.Base.{
  Bool-cases, inl, inr, ◌≡◌, refl, Bool, true, false, not, ◌&&◌, List, [], Option, none, some,
  Bytes, codes, equals, is_empty, is_some, if◌then◌else◌,
}
use windbg_agent.CommandQueue.{QueueResult}
use windbg_agent.McpTool.Start.{
  Json, array, object, Items, no_item, item, Members, no_member, member, exec_input_schema,
  dbg_exec_tool,
}
use windbg_agent.McpTool.Start.Json.{text as word}
use windbg_agent.McpTool.{dbg_exec}

-- The schema of JSON Schema that a member is: the text under a key.
abbrev lookup : Bytes → Members → Option Json
lookup key no_member = none
lookup key (member k value ms) =
    let rest = lookup key ms in if equals k key then some value else rest

-- The type that JSON Schema gives to a field's value.
abbrev type_of : Field → Bytes
type_of (text s) = codes "string"
type_of (flag b) = codes "boolean"

-- A value has the type that its schema names, where it names one.
abbrev has_type : Option Json → Bytes → Bool
has_type (some (word t)) actual = equals t actual
has_type _ actual = true

abbrev meets_value : Json → Field → Bool
meets_value (object ms) f = has_type (lookup (codes "type") ms) (type_of f)
meets_value _ f = true

-- `properties`: each of them that is there meets its schema.
abbrev meets_properties : Members → List (Bytes × Field) → Bool
meets_properties no_member fs = true
meets_properties (member key schema ms) fs =
    (elim (field key fs) [ none ↦ true | some f ↦ meets_value schema f ]) && meets_properties ms fs

-- `required`: each of these keys is there.
abbrev has_required : Items → List (Bytes × Field) → Bool
has_required no_item fs = true
has_required (item (word key) ks) fs = is_some (field key fs) && has_required ks fs
has_required (item _ ks) fs = has_required ks fs

abbrev properties_of : Option Json → List (Bytes × Field) → Bool
properties_of (some (object ms)) fs = meets_properties ms fs
properties_of _ fs = true

abbrev required_of : Option Json → List (Bytes × Field) → Bool
required_of (some (array ks)) fs = has_required ks fs
required_of _ fs = true

-- An object with these fields meets the schema.
abbrev pub meets : Json → List (Bytes × Field) → Bool
meets (object ms) fs =
    has_type (lookup (codes "type") ms) (codes "object")
    && properties_of (lookup (codes "properties") ms) fs
    && required_of (lookup (codes "required") ms) fs
meets _ fs = true

meets-command :
    (fs : List (Bytes × Field))
    → meets dbg_exec_tool.input_schema fs ≡ true
    → (cmd : Bytes) × (field (codes "command") fs ≡ some (text cmd))
unfolding dbg_exec_tool exec_input_schema equals
meets-command fs h = go (field (codes "command") fs) refl
  where
    go : (f : Option Field) → field (codes "command") fs ≡ f → (cmd : Bytes) × (f ≡ some (text cmd))
    go none e = (let k : false ≡ true = rw e at h in cc)
    go (some (text cmd)) e = (cmd, refl)
    go (some (flag b)) e = (let k : false ≡ true = rw e at h in cc)

-- Arguments that meet the input schema of the tool: the tool does not throw. They hold a command, and
-- the tool answers with what the queue returns for it, as an error exactly where the queue reports a
-- failure; or with the error of a missing command, where it is empty, which the schema allows.
pub dbg_exec-meets :
    (j : JsonLibrary) (queue_and_wait : Bytes → QueueResult) (fs : List (Bytes × Field))
    → IsJson j
    → meets dbg_exec_tool.input_schema fs ≡ true
    → (cmd : Bytes) × (field (codes "command") fs ≡ some (text cmd))
      × (dbg_exec queue_and_wait j (j.object fs)
          ≡ ok (
              if is_empty cmd
              then record { content = codes "Error: missing command"; is_error = true }
              else record {
                content = (queue_and_wait cmd).payload;
                is_error = not (queue_and_wait cmd).success;
              }))
unfolding dbg_exec
dbg_exec-meets j queue_and_wait fs laws h =
    let (cmd, e) = meets-command fs h in
    (
      cmd,
      e,
      rw (laws.value_present fs (codes "command") [] cmd e)
          (elim (Bool-cases (is_empty cmd)) [ inl n ↦ rw n refl | inr n ↦ rw n refl ]),
    )

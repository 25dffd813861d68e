-- ===== src/DmlOutput.antt =====
-- dml_output.hpp and dml_output.cpp: coloured output to the debugger, in its markup language (DML)
-- where the engine prefers that, and plain otherwise.
pub mod Visible
pub mod Tests
use Prim.Native.Nat.{bit_and}
use windbg_agent.Base.{
  ℕ, Bool, true, false, not, List, [], ◌∷◌, ◌++◌, Option, none, some, Bytes, codes, ◌==◌,
  if◌then◌else◌, take,
}

-- The masks of dbgeng that the program uses.
pub data Mask : Type 0 where
  normal error warning : Mask

-- A call of `Output` or, with DML, of `ControlledOutput`, with its text formatted.
pub data Emission : Type 0 where
  plain : Mask → Bytes → Emission
  markup : Mask → Bytes → Emission

pub record DmlOutput : Type 0 where
  pub has_control : Bool
  pub dml_supported : Bool

-- The constructor; `engine_options` is what `GetEngineOptions` gives, or `none` if it fails.
unfoldable pub make : Bool → Option ℕ → DmlOutput
make false engine_options = record { has_control = false; dml_supported = false }
make true none = record { has_control = true; dml_supported = false }
make true (some options) = record {
  has_control = true;
  dml_supported = not (bit_and options 0x0004_0000 == 0);
}

-- What `EscapeDml` appends for one character.
unfoldable pub escape_char : ℕ → Bytes
escape_char c =
    if c == b'&'
    then codes "&amp;"
    else if c == b'<'
    then codes "&lt;"
    else if c == b'>'
    then codes "&gt;"
    else if c == b'"'
    then codes "&quot;"
    else c ∷ []

unfoldable pub escape_dml : Bytes → Bytes
unfolding escape_char
escape_dml [] = []
escape_dml (c ∷ s) = escape_char c ++ escape_dml s

-- `vsnprintf` into `char buffer[4096]`, which keeps the last byte for the end of the string.
unfoldable pub buffered : Bytes → Bytes
buffered text = take 4095 text

module _ (d : DmlOutput) where
  unfoldable pub output : Bytes → List Emission
  unfolding buffered
  output text = if not d.has_control then [] else plain normal (buffered text) ∷ []

  unfoldable pub output_colored : Bytes → Bytes → List Emission
  unfolding buffered escape_dml
  output_colored color text =
      if not d.has_control
      then []
      else if d.dml_supported
      then markup normal (
          codes "<col fg=\""
          ++ (color ++ (codes "\">" ++ (escape_dml (buffered text) ++ codes "</col>"))))
        ∷ []
      else plain normal (buffered text) ∷ []

  unfoldable pub output_command : Bytes → List Emission
  unfolding escape_dml
  output_command cmd =
      if not d.has_control
      then []
      else if d.dml_supported
      then markup normal (codes "<col fg=\"subfg\">$ " ++ (escape_dml cmd ++ codes "</col>\n")) ∷ []
      else plain normal (codes "$ " ++ (cmd ++ codes "\n")) ∷ []

  unfoldable pub output_command_result : Bytes → List Emission
  unfolding escape_dml
  output_command_result result =
      if not d.has_control
      then []
      else if d.dml_supported
      then markup normal (codes "<col fg=\"subfg\">" ++ (escape_dml result ++ codes "</col>\n"))
        ∷ []
      else plain normal (result ++ codes "\n") ∷ []

  unfoldable pub output_error : Bytes → List Emission
  unfolding escape_dml
  output_error msg =
      if not d.has_control
      then []
      else if d.dml_supported
      then markup error (codes "<col fg=\"errfg\">" ++ (escape_dml msg ++ codes "</col>\n")) ∷ []
      else plain error (msg ++ codes "\n") ∷ []

  unfoldable pub output_warning : Bytes → List Emission
  unfolding escape_dml
  output_warning msg =
      if not d.has_control
      then []
      else if d.dml_supported
      then markup warning (codes "<col fg=\"warnfg\">" ++ (escape_dml msg ++ codes "</col>\n")) ∷ []
      else plain warning (msg ++ codes "\n") ∷ []

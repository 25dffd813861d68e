-- ===== src/DmlOutput/Visible.antt =====
-- What a reader of DML sees: tags leave nothing, and an entity its character. dml_output.cpp shows
-- the same text with and without DML.
use windbg_agent.Base.{
  ℕ, true, false, List, [], ◌∷◌, ◌++◌, append-nil, append_assoc, Option, none, some, Bytes, codes,
  ◌==◌, ◌≡◌, ◌≢◌, if◌then◌else◌, equals, arith, refl, ap, ◌∙◌, Lacks, All-append, sym, Bool-cases,
  inl, inr,
}
use windbg_agent.DmlOutput.{
  Mask, normal, error, warning, Emission, plain, markup, DmlOutput, escape_char, escape_dml,
  buffered, output_colored, output_command, output_command_result, output_error, output_warning,
}

-- The character of an entity; any other name is an error.
abbrev entity : Bytes → Option ℕ
entity name =
    if equals name (codes "amp")
    then some b'&'
    else if equals name (codes "lt")
    then some b'<'
    else if equals name (codes "gt")
    then some b'>'
    else if equals name (codes "quot")
    then some b'"'
    else none

pub data Mode : Type 0 where
  text in_tag : Mode
  in_entity : Bytes → Mode

infixl 5 ◌>>=◌
abbrev ◌>>=◌ : Option Bytes → (Bytes → Option Bytes) → Option Bytes
none >>= f = none
some a >>= f = f a

abbrev emit : Option ℕ → Option Bytes → Option Bytes
emit none rest = none
emit (some c) rest = do r ← rest; some (c ∷ r)

-- The text that a reader of the markup sees, or `none` if the markup is malformed.
pub view : Mode → Bytes → Option Bytes
view text [] = some []
view in_tag [] = none
view (in_entity name) [] = none
view text (c ∷ s) = elim (c == b'<') [
  | true ↦ view in_tag s
  | false ↦ elim (c == b'&') [ true ↦ view (in_entity []) s | false ↦ emit (some c) (view text s) ]
]
view in_tag (c ∷ s) = elim (c == b'>') [ true ↦ view text s | false ↦ view in_tag s ]
view (in_entity name) (c ∷ s) = elim (c == b';') [
  | true ↦ emit (entity name) (view text s)
  | false ↦ view (in_entity (name ++ c ∷ [])) s
]

-- The text that the user sees.
pub visible : Emission → Option Bytes
unfolding view
visible (plain mask s) = some s
visible (markup mask s) = view text s

-- An escaped character is seen as itself.
view-escape_char :
    (c : ℕ) (rest : Bytes) → view text (escape_char c ++ rest) ≡ emit (some c) (view text rest)
unfolding view escape_char equals
view-escape_char c rest = ground arith

view-escape_dml :
    (s rest out : Bytes)
    → view text rest ≡ some out
    → view text (escape_dml s ++ rest) ≡ some (s ++ out)
unfolding escape_dml
view-escape_dml [] rest out h = h
view-escape_dml (c ∷ s) rest out h =
    rw (append_assoc (escape_char c), view-escape_char, view-escape_dml s rest out h)

-- Of the markup that has no tag and no entity of its own, all is seen.
view-in_tag : (s rest : Bytes) → Lacks b'>' s → view in_tag (s ++ b'>' ∷ rest) ≡ view text rest
unfolding view
view-in_tag [] rest h = refl
view-in_tag (c ∷ s) rest h = ground (arith, view-in_tag s rest h.1)

-- The rest of an opening tag whose colour is a variable.
view-tagged :
    (color s : Bytes)
    → Lacks b'>' color
    → view text (codes "<col fg=\"" ++ (color ++ (codes "\">" ++ (escape_dml s ++ codes "</col>"))))
      ≡ some s
view-tagged color s h =
    unfold view in
    (ap (view in_tag) (sym (append_assoc color (codes "\"") _))
      ∙ view-in_tag (color ++ codes "\"") _
          (All-append (λ x. x ≢ b'>') color (codes "\"") h (omega arith))
      ∙ view-escape_dml s (codes "</col>") [] refl
      ∙ rw append-nil)

-- What one emission shows.
abbrev pub Shows : Bytes → List Emission → Type 0
Shows s (e ∷ []) = visible e ≡ some s
Shows s _ = ⊥

Shows-markup : (mask : Mask) (m s : Bytes) → view text m ≡ some s → Shows s (markup mask m ∷ [])
unfolding visible
Shows-markup mask m s h = h

Shows-plain : (mask : Mask) (s : Bytes) → Shows s (plain mask s ∷ [])
unfolding visible
Shows-plain mask s = refl

view-closing : (s : Bytes) → view text (escape_dml s ++ codes "</col>\n") ≡ some (s ++ codes "\n")
view-closing s = view-escape_dml s (codes "</col>\n") (codes "\n") (unfold view in refl)

module _ (d : DmlOutput) where
  command-Shows :
      (cmd : Bytes)
      → d.has_control ≡ true
      → Shows (codes "$ " ++ (cmd ++ codes "\n")) (output_command d cmd)
  unfolding output_command
  command-Shows cmd h = elim (Bool-cases d.dml_supported) [
    | inr e ↦ rw (h, e) (Shows-plain normal (codes "$ " ++ (cmd ++ codes "\n")))
    | inl e ↦ rw (h, e) (Shows-markup normal _ _ (unfold view in rw (view-closing cmd) refl))
  ]

  result-Shows :
      (result : Bytes)
      → d.has_control ≡ true
      → Shows (result ++ codes "\n") (output_command_result d result)
  unfolding output_command_result
  result-Shows result h = elim (Bool-cases d.dml_supported) [
    | inr e ↦ rw (h, e) (Shows-plain normal (result ++ codes "\n"))
    | inl e ↦ rw (h, e) (Shows-markup normal _ _ (unfold view in view-closing result))
  ]

  error-Shows :
      (msg : Bytes) → d.has_control ≡ true → Shows (msg ++ codes "\n") (output_error d msg)
  unfolding output_error
  error-Shows msg h = elim (Bool-cases d.dml_supported) [
    | inr e ↦ rw (h, e) (Shows-plain error (msg ++ codes "\n"))
    | inl e ↦ rw (h, e) (Shows-markup error _ _ (unfold view in view-closing msg))
  ]

  warning-Shows :
      (msg : Bytes) → d.has_control ≡ true → Shows (msg ++ codes "\n") (output_warning d msg)
  unfolding output_warning
  warning-Shows msg h = elim (Bool-cases d.dml_supported) [
    | inr e ↦ rw (h, e) (Shows-plain warning (msg ++ codes "\n"))
    | inl e ↦ rw (h, e) (Shows-markup warning _ _ (unfold view in view-closing msg))
  ]

  colored-Shows :
      (color msg : Bytes)
      → d.has_control ≡ true
      → Lacks b'>' color
      → Shows (buffered msg) (output_colored d color msg)
  unfolding output_colored
  colored-Shows color msg h k = elim (Bool-cases d.dml_supported) [
    | inr e ↦ rw (h, e) (Shows-plain normal (buffered msg))
    | inl e ↦ rw (h, e) (Shows-markup normal _ _ (view-tagged color (buffered msg) k))
  ]

  -- With a debugger control, every text that the program shows is seen by the user exactly as it is,
  -- with and without DML, whatever characters it holds; coloured output is cut to the buffer's 4095
  -- bytes, and its colour may not hold a `>`.
  pub dml-transparent :
      (color msg : Bytes)
      → d.has_control ≡ true
      → Lacks b'>' color
      → Shows (codes "$ " ++ (msg ++ codes "\n")) (output_command d msg)
        × Shows (msg ++ codes "\n") (output_command_result d msg)
        × Shows (msg ++ codes "\n") (output_error d msg)
        × Shows (msg ++ codes "\n") (output_warning d msg)
        × Shows (buffered msg) (output_colored d color msg)
  dml-transparent color msg h k = (
    command-Shows msg h,
    result-Shows msg h,
    error-Shows msg h,
    warning-Shows msg h,
    colored-Shows color msg h k,
  )

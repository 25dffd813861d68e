-- ===== src/WindbgClient/Object.antt =====
-- windbg_client.cpp: the construction of a `WinDbgClient`, its messages, and the plain questions.
use windbg_agent.Base.Int.{ℤ, pos}
use windbg_agent.Base.{
  ℕ, ◌+◌, ◌-◌, ◌≡◌, refl, Bool, true, false, not, List, [], ◌∷◌, ◌++◌, Option, none, some, Bytes,
  codes, ◌==◌, if◌then◌else◌, arith,
}
use windbg_agent.DmlOutput.Visible.{Shows, dml-transparent}
use windbg_agent.DmlOutput.{
  DmlOutput, Emission, plain, normal, error, warning, make, output_error, output_warning,
}

-- `client_`, `control_` and `dml_`, and the references to the control that are held.
pub record ClientObject : Type 0 where
  pub has_client : Bool
  pub has_control : Bool
  pub dml : Option DmlOutput
  pub control_refs : ℕ

-- The constructor: whether there is a client, whether it has the interface `IDebugControl`, and what
-- `GetEngineOptions` gives. `QueryInterface` adds a reference to what it finds.
unfoldable pub construct : Bool → Bool → Option ℕ → ℕ → ClientObject
construct false has_interface options refs = record {
  has_client = false;
  has_control = false;
  dml = none;
  control_refs = refs;
}
construct true false options refs = record {
  has_client = true;
  has_control = false;
  dml = none;
  control_refs = refs;
}
construct true true options refs = record {
  has_client = true;
  has_control = true;
  dml = some (make true options);
  control_refs = refs + 1;
}

-- The destructor.
unfoldable pub destruct : ClientObject → ClientObject
destruct c =
    if c.has_control then record c { has_control = false; control_refs = c.control_refs - 1 } else c

-- `Output`
unfoldable pub output : ClientObject → Bytes → List Emission
output c message = if c.has_control then plain normal message ∷ [] else []

-- `OutputError` and `OutputWarning`.
unfoldable pub show_error : ClientObject → Bytes → List Emission
show_error c message = elim c.dml [
  | some dml ↦ output_error dml message
  | none ↦ if c.has_control then plain error (message ++ codes "\n") ∷ [] else []
]

unfoldable pub show_warning : ClientObject → Bytes → List Emission
show_warning c message = elim c.dml [
  | some dml ↦ output_warning dml message
  | none ↦ if c.has_control then plain warning (message ++ codes "\n") ∷ [] else []
]

-- `hr == S_OK`
abbrev is_ok : ℤ → Bool
is_ok (pos n) = n == 0
is_ok _ = false

-- `IsInterrupted`, with what `GetInterrupt` returns.
unfoldable pub is_interrupted : ClientObject → ℤ → Bool
is_interrupted c hr = if not c.has_control then false else is_ok hr

-- `IsKernelMode`, with the class that `GetDebuggeeType` gives; `DEBUG_CLASS_KERNEL` is 1.
unfoldable pub is_kernel_mode : ClientObject → Option ℕ → Bool
is_kernel_mode c none = false
is_kernel_mode c (some debuggee_class) = if not c.has_control then false else debuggee_class == 1

-- `GetProcessId`, with the number that the system objects give.
unfoldable pub get_process_id : ClientObject → Option ℕ → ℕ
get_process_id c none = 0
get_process_id c (some pid) = if not c.has_client then 0 else pid

-- A client that was constructed and destroyed has given back its reference to the control.
pub construct-destruct :
    (has_client has_interface : Bool) (options : Option ℕ) (refs : ℕ)
    → (destruct (construct has_client has_interface options refs)).control_refs ≡ refs
unfolding construct destruct
construct-destruct false has_interface options refs = refl
construct-destruct true false options refs = refl
construct-destruct true true options refs = omega arith

make-has_control : (options : Option ℕ) → (make true options).has_control ≡ true
unfolding make
make-has_control none = refl
make-has_control (some options) = refl

-- With a control, the errors and warnings of a client are seen by the user as they are, with and
-- without DML.
pub show_error-Shows :
    (options : Option ℕ) (refs : ℕ) (message : Bytes)
    → let c = construct true true options refs in
      Shows (message ++ codes "\n") (show_error c message)
      × Shows (message ++ codes "\n") (show_warning c message)
unfolding construct show_error show_warning
show_error-Shows options refs message =
    let shown = dml-transparent (make true options) [] message (make-has_control options) tt in
    (shown.2, shown.3)

-- ===== src/OutputCapture/Counting.antt =====
-- output_capture.cpp: the references to an `OutputCapture`, which the program keeps on the stack.
use windbg_agent.Base.{
  ℕ, zero, suc, ◌+◌, ◌-◌, ◌≡◌, Bool, true, false, List, [], ◌∷◌, Option, none, some, ◌==◌,
  if◌then◌else◌, arith,
}

-- `InterfaceId`: one of the two that the class implements, or another one.
pub data InterfaceId : Type 0 where
  unknown output_callbacks another : InterfaceId

-- `ref_count_`, or `none` where `delete this` was reached.
abbrev pub Counted : Type 0
Counted = Option ℕ

-- `AddRef`
unfoldable pub add_ref : ℕ → ℕ
add_ref count = count + 1

-- `Release`
unfoldable pub release : ℕ → Counted
release count = if count == 1 then none else some (count - 1)

-- `QueryInterface`, with whether it returned `S_OK`.
unfoldable pub query_interface : InterfaceId → ℕ → ℕ × Bool
unfolding add_ref
query_interface unknown count = (add_ref count, true)
query_interface output_callbacks count = (add_ref count, true)
query_interface another count = (count, false)

-- What the engine may do with the capture while it is installed.
pub data ComCall : Type 0 where
  queries : InterfaceId → ComCall
  adds releases : ComCall

unfoldable pub com_call : ComCall → ℕ → Counted
unfolding query_interface add_ref release
com_call (queries id) count = some (query_interface id count).0
com_call adds count = some (add_ref count)
com_call releases count = release count

unfoldable pub com_calls : List ComCall → ℕ → Counted
com_calls [] count = some count
com_calls (c ∷ calls) count = elim (com_call c count) [ none ↦ none | some n ↦ com_calls calls n ]

-- The references that the engine holds behind these calls, by the rules of COM: a successful query and
-- `AddRef` give one, and only a reference that is held is released.
abbrev pub holding : List ComCall → ℕ → Option ℕ
holding [] held = some held
holding (queries another ∷ calls) held = holding calls held
holding (queries id ∷ calls) held = holding calls (held + 1)
holding (adds ∷ calls) held = holding calls (held + 1)
holding (releases ∷ calls) zero = none
holding (releases ∷ calls) (suc held) = holding calls held

com_calls-from :
    (calls : List ComCall) (held : ℕ) {left : ℕ}
    → holding calls held ≡ some left
    → com_calls calls (held + 1) ≡ some (left + 1)
unfolding com_calls com_call
com_calls-from [] held h = ground arith
com_calls-from (queries unknown ∷ calls) held h = com_calls-from calls (held + 1) h
com_calls-from (queries output_callbacks ∷ calls) held h = com_calls-from calls (held + 1) h
com_calls-from (queries another ∷ calls) held h = com_calls-from calls held h
com_calls-from (adds ∷ calls) held h = com_calls-from calls (held + 1) h
com_calls-from (releases ∷ calls) zero h = cc
com_calls-from (releases ∷ calls) (suc held) h = ground (arith, com_calls-from calls held h)

-- An engine that keeps the rules of COM never makes the capture delete itself, though it lives on the
-- stack: the count is one more than the references that the engine holds.
pub com_calls_lem :
    (calls : List ComCall) {left : ℕ}
    → holding calls 0 ≡ some left
    → com_calls calls 1 ≡ some (left + 1)
com_calls_lem calls h = com_calls-from calls 0 h

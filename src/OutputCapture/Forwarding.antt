-- ===== src/OutputCapture/Forwarding.antt =====
-- `Output` of output_capture.cpp: what is captured, and what reaches the original callbacks.
use windbg_agent.Base.{
  ℕ, ◌+◌, ◌-◌, ◌≡◌, refl, ◌∙◌, List, [], ◌∷◌, ◌++◌, map, append-nil, append_assoc, some, Bytes,
  arith,
}
use windbg_agent.OutputCapture.{
  present, Capture, StackState, at_rest, Call, Forwarded, text_of, note, leave, nest_all, flush,
  output,
}

-- The texts of calls, one behind the other.
abbrev pub texts_of : List Call → Bytes
texts_of [] = []
texts_of (call ∷ calls) = text_of call.text ++ texts_of calls

add-sub_one : (n : ℕ) → n + 1 - 1 ≡ n
add-sub_one n = omega arith

-- Nested calls add to both buffers and leave the depth and the mask alone.
nest_all_lem :
    (calls : List Call) (c : Capture) (s : StackState) (m : ℕ)
    → s.mask ≡ some m
    → nest_all calls (c, s) ≡ (
      record c { captured_output = c.captured_output ++ texts_of calls },
      record s { buffer = s.buffer ++ texts_of calls },
    )
unfolding nest_all note leave
nest_all_lem [] c s m e = simp append-nil
nest_all_lem (call ∷ calls) c s m e =
    nest_all_lem calls _ _ m (rw e) ∙ simp (e, append_assoc, add-sub_one)

-- An outermost call, with whatever calls come in while it is flushed.
abbrev pub Round : Type 0
Round = List Call × Call

abbrev pub rounds_texts : List Round → Bytes
rounds_texts [] = []
rounds_texts ((inner, call) ∷ rs) = text_of call.text ++ (texts_of inner ++ rounds_texts rs)

-- What the original callbacks should get of an outermost call.
abbrev pub outer : Round → Forwarded
outer (inner, call) = record { mask = call.mask; text = text_of call.text }

flush_lem :
    (inner : List Call) (mask : ℕ) (c : Capture) (s : StackState) (m : ℕ)
    → present c.original_callbacks ≡ 1
    → s.mask ≡ some m
    → s.depth ≡ 1
    → flush inner mask (c, s) ≡ (
      record c { captured_output = c.captured_output ++ texts_of inner },
      at_rest,
      record { mask = m; text = s.buffer } ∷ [],
    )
unfolding flush
flush_lem inner mask c s m h e d = ground (arith, nest_all_lem inner c s m)

-- An outermost call puts its text and those of the calls that come in during the flush into the
-- captured output, leaves the thread's state at rest, and forwards its own mask and text only.
output_lem :
    (inner : List Call) (call : Call) (c : Capture)
    → present c.original_callbacks ≡ 1
    → output inner call (c, at_rest) ≡ (
      record c { captured_output = c.captured_output ++ (text_of call.text ++ texts_of inner) },
      at_rest,
      outer (inner, call) ∷ [],
    )
unfolding output note
output_lem inner call c h = flush_lem inner call.mask _ _ call.mask h refl refl ∙ simp append_assoc

-- A client that only prints: one outermost call after the other.
unfoldable pub output_all :
    List Round → Capture × StackState → Capture × StackState × List Forwarded
output_all [] (c, s) = (c, s, [])
output_all ((inner, call) ∷ rs) p =
    let (c, s, here) = output inner call p in
    let (c', s', later) = output_all rs (c, s) in (c', s', here ++ later)

-- Over any sequence of outermost calls, nested ones included: the capture holds every text in the
-- order in which it came, the next call starts from a clean state, and the original callbacks get
-- one call for each outermost call, with its mask and text. The texts of nested calls never reach
-- the original callbacks: they come in while the buffer is being forwarded, and are cleared with it.
pub output_all_lem :
    (rs : List Round) (c : Capture)
    → present c.original_callbacks ≡ 1
    → output_all rs (c, at_rest)
      ≡ (record c { captured_output = c.captured_output ++ rounds_texts rs }, at_rest, map outer rs)
unfolding output_all
output_all_lem [] c h = simp append-nil
output_all_lem ((inner, call) ∷ rs) c h = rw (output_lem inner call c h) (
    rw
      (output_all_lem rs
        (record c { captured_output = c.captured_output ++ (text_of call.text ++ texts_of inner) })
        h)
      (simp append_assoc))

-- ===== src/OutputCapture.antt =====
-- output_capture.hpp and output_capture.cpp: collects the debugger's output, and forwards it to the
-- callbacks that were installed before.
pub mod Counting
pub mod Forwarding
pub mod Keeping
pub mod Installing
pub mod Tests
use windbg_agent.Base.{
  ℕ, suc, ◌+◌, ◌-◌, Bool, true, false, List, [], ◌∷◌, ◌++◌, Option, none, some, Bytes, ltb,
  if◌then◌else◌,
}

pub data HResult : Type 0 where
  s_ok e_fail e_no_interface : HResult

-- Who gets the output of a client: nobody, this capture, or the callbacks with this number.
pub data Callbacks : Type 0 where
  nobody this : Callbacks
  other : ℕ → Callbacks

-- The client's side: its output callbacks, and the references to the client and to those callbacks
-- that a capture holds.
pub record Client : Type 0 where
  pub output_callbacks : Callbacks
  pub client_refs : ℕ
  pub callback_refs : ℕ

-- `client` is whether `client_` is set; `original_callbacks` is `nobody` for a null pointer.
pub record Capture : Type 0 where
  pub client : Bool
  pub original_callbacks : Callbacks
  pub captured_output : Bytes

unfoldable pub empty : Capture
empty = record { client = false; original_callbacks = nobody; captured_output = [] }

abbrev pub present : Callbacks → ℕ
present nobody = 0
present _ = 1

-- `GetOutputCallbacks` takes a reference to what it hands out. `accepts` is whether
-- `SetOutputCallbacks` succeeds.
unfoldable pub install : Bool → Capture → Client → Capture × Client × HResult
install accepts c k = if c.client then (c, k, e_fail) else (
  record c { client = true; original_callbacks = k.output_callbacks },
  record {
    output_callbacks = if accepts then this else k.output_callbacks;
    client_refs = k.client_refs + 1;
    callback_refs = k.callback_refs + present k.output_callbacks;
  },
  if accepts then s_ok else e_fail,
)

unfoldable pub uninstall : Bool → Capture → Client → Capture × Client × HResult
uninstall accepts c k =
    if c.client
    then (
      record c { client = false; original_callbacks = nobody },
      record {
        output_callbacks = if accepts then c.original_callbacks else k.output_callbacks;
        client_refs = k.client_refs - 1;
        callback_refs = k.callback_refs - present c.original_callbacks;
      },
      if accepts then s_ok else e_fail,
    )
    else (c, k, e_fail)

-- The destructor.
unfoldable pub destroy : Bool → Capture → Client → Client
unfolding uninstall
destroy accepts c k = if c.client then (uninstall accepts c k).1 else k

unfoldable pub get_and_clear : Capture → Capture × Bytes
get_and_clear c = (record c { captured_output = [] }, c.captured_output)

-- `thread_local StackState state`; `mask` is `none` if `mask_set` is false.
pub record StackState : Type 0 where
  pub depth : ℕ
  pub buffer : Bytes
  pub mask : Option ℕ

abbrev pub at_rest : StackState
at_rest = record { depth = 0; buffer = []; mask = none }

-- A call of `Output`, whose text may be a null pointer.
pub record Call : Type 0 where
  pub mask : ℕ
  pub text : Option Bytes

-- A call that reached the original callbacks.
pub record Forwarded : Type 0 where
  pub mask : ℕ
  pub text : Bytes

abbrev pub text_of : Option Bytes → Bytes
text_of none = []
text_of (some s) = s

abbrev mask_or : Option ℕ → ℕ → ℕ
mask_or none m = m
mask_or (some n) m = n

-- Everything up to the test of the depth.
unfoldable pub note : Call → Capture × StackState → Capture × StackState
note call (c, s) = (
  record c { captured_output = c.captured_output ++ text_of call.text },
  record {
    depth = s.depth + 1;
    buffer = s.buffer ++ text_of call.text;
    mask = some (mask_or s.mask call.mask);
  },
)

-- The end of a nested call.
unfoldable pub leave : Capture × StackState → Capture × StackState
leave (c, s) = (c, record s { depth = s.depth - 1 })

-- A call that comes in while the original callbacks handle an outer one, on the same thread.
unfoldable pub nested : Call → Capture × StackState → Capture × StackState
unfolding note leave
nested call p = leave (note call p)

unfoldable pub nest_all : List Call → Capture × StackState → Capture × StackState
unfolding nested
nest_all [] p = p
nest_all (call ∷ calls) p = nest_all calls (nested call p)

-- The flush of the outermost call: the original callbacks get the buffer, and call `Output` again
-- with `inner` while they handle it.
unfoldable pub flush : List Call → ℕ → Capture × StackState → Capture × StackState × List Forwarded
unfolding nest_all
flush inner mask (c, s) = elim c.original_callbacks [
  | nobody ↦ (c, record { depth = s.depth - 1; buffer = []; mask = none }, [])
  | _ ↦
      let (c', s') = nest_all inner (c, s) in
      (
        c',
        record { depth = s'.depth - 1; buffer = []; mask = none },
        record { mask = mask_or s.mask mask; text = s.buffer } ∷ [],
      )
]

-- `Output`. The original callbacks call it again only if they are called at all.
unfoldable pub output :
    List Call → Call → Capture × StackState → Capture × StackState × List Forwarded
unfolding note leave flush
output inner call p =
    let q = note call p in
    if ltb 1 (q.1).depth then (let (c, s) = leave q in (c, s, [])) else flush inner call.mask q

-- ===== src/OutputCapture/Keeping.antt =====
-- `Output` of output_capture.cpp leaves alone what `Install` set.
use windbg_agent.Base.{ℕ, none, ◌-◌, ◌≡◌, refl, ◌∙◌, List, [], ◌∷◌, ltb, if-holds}
use windbg_agent.OutputCapture.Forwarding.{Round, output_all}
use windbg_agent.OutputCapture.{
  nobody, this, other, Capture, StackState, Call, Forwarded, note, leave, nested, nest_all, flush,
  mask_or, output,
}

-- The capture is still installed, or still not, with the same callbacks to give back.
abbrev pub Keeps : Capture → Capture → Type 0
Keeps c c' = (c'.client ≡ c.client) × (c'.original_callbacks ≡ c.original_callbacks)

nest_all-Keeps : (calls : List Call) (p : Capture × StackState) → Keeps p.0 (nest_all calls p).0
unfolding nest_all nested note leave
nest_all-Keeps [] p = (refl, refl)
nest_all-Keeps (call ∷ calls) p = nest_all-Keeps calls (nested call p)

flush-Keeps :
    (inner : List Call) (mask : ℕ) (p : Capture × StackState) → Keeps p.0 (flush inner mask p).0
unfolding flush
flush-Keeps inner mask p =
    let (c, s) = p in
    elim c.original_callbacks
      as (λ o.
        Keeps c
          (elim o as (λ _. Capture × StackState × List Forwarded) [
            | nobody ↦ (c, record { depth = s.depth - 1; buffer = []; mask = none }, [])
            | _ ↦
                let (c', s') = nest_all inner (c, s) in
                (
                  c',
                  record { depth = s'.depth - 1; buffer = []; mask = none },
                  record { mask = mask_or s.mask mask; text = s.buffer } ∷ [],
                )
          ]).0) [
            | nobody ↦ (refl, refl)
            | this ↦ nest_all-Keeps inner p
            | other n ↦ nest_all-Keeps inner p
          ]

output-Keeps :
    (inner : List Call) (call : Call) (p : Capture × StackState) → Keeps p.0 (output inner call p).0
unfolding output note leave
output-Keeps inner call p =
    let q = note call p in
    if-holds (λ (r : Capture × StackState × List Forwarded). Keeps p.0 r.0) (ltb 1 (q.1).depth) _ _
      (λ _. (refl, refl)) (λ _. flush-Keeps inner call.mask q)

pub output_all-Keeps : (rs : List Round) (p : Capture × StackState) → Keeps p.0 (output_all rs p).0
unfolding output_all
output_all-Keeps [] p = (refl, refl)
output_all-Keeps ((inner, call) ∷ rs) p =
    let here = output-Keeps inner call p in
    let r = output inner call p in
    let later = output_all-Keeps rs (r.0, r.1) in (later.0 ∙ here.0, later.1 ∙ here.1)

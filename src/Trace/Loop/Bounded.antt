-- ===== src/Trace/Loop/Bounded.antt =====
-- What the user-mode loop of dbg_trace.cpp does to the debugger, what it logs, and why it ends.
use windbg_agent.Base.{
  ℕ, zero, suc, ◌+◌, ◌-◌, ◌≤◌, ◌<◌, ◌≡◌, ◌≢◌, refl, ap, ◌∙◌, true, false, List, [], ◌∷◌, Option,
  none, some, Bytes, codes, ◌==◌, if◌then◌else◌, length, arith, ◌⊎◌, inl, inr, Bool-cases,
  Option-cases, ==_iff,
}
use windbg_agent.Base.Int.{ℤ, reaches}
use windbg_agent.Trace.Loop.{
  Engine, Step, Reason, timeout, interrupted, no_ip, reached_end, wait_failed, contains, remaining,
  Trace, stop, step_command, logged, prepend, step_once, trace_loop,
}

-- The steps are numbered one by one from n on.
abbrev pub Numbered : ℕ → List Step → Type 0
Numbered n [] = Unit
Numbered n (s ∷ ss) = (s.number ≡ n) × Numbered (n + 1) ss

module _ (e : Engine) (end_ip : ℕ) (skip : List ℕ) (timeout_ms : ℤ) where
  open e use {
    Debugger, elapsed, is_interrupted, read_ip, disassemble, registers, execute, wait, wait_error,
  }

  -- The command that a step at this address is made by.
  abbrev pub mover : ℕ → Bytes
  mover ip = if contains ip skip then codes "gu" else codes "t"

  -- The debugger behind the command, and behind the wait for the rest of the time.
  abbrev pub moved : Debugger → ℕ → Debugger
  moved d ip = execute (mover ip) d

  abbrev pub left : Debugger → ℕ
  left d1 = remaining timeout_ms (elapsed d1)

  -- The debugger stands at the address of the step, which is not the end; there is time left and no
  -- interrupt; and the entry shows what can be read there.
  abbrev pub IsStep : Debugger → Step → Type 0
  IsStep d s =
      (reaches (elapsed d) timeout_ms ≡ false)
      × (is_interrupted d ≡ false)
      × (read_ip d ≡ some s.ip)
      × (s.ip ≢ end_ip)
      × (s.disasm ≡ disassemble d s.ip)
      × (s.regs ≡ registers d)

  -- Why the loop ended in front of a step, with this many rounds left.
  abbrev pub Between : Option Reason → ℕ → Debugger → Type 0
  Between (some timeout) rounds d = reaches (elapsed d) timeout_ms ≡ true
  Between (some interrupted) rounds d = is_interrupted d ≡ true
  Between (some no_ip) rounds d = read_ip d ≡ none
  Between (some reached_end) rounds d = read_ip d ≡ some end_ip
  Between (some (wait_failed hr)) rounds d = ⊥
  Between none rounds d = rounds ≡ 0

  -- Why it ended behind the command of a step, and where.
  abbrev pub Within : Option Reason → Debugger → Debugger → Type 0
  Within none d1 last = (reaches (elapsed d1) timeout_ms ≡ true) × (last ≡ d1)
  Within (some (wait_failed hr)) d1 last =
      (reaches (elapsed d1) timeout_ms ≡ false)
      × (wait_error (left d1) d1 ≡ some hr)
      × (last ≡ wait (left d1) d1)
  Within (some _) d1 last = ⊥

  -- The wait succeeded, so that the loop goes on.
  abbrev pub GoesOn : Debugger → Type 0
  GoesOn d1 = (reaches (elapsed d1) timeout_ms ≡ false) × (wait_error (left d1) d1 ≡ none)

  -- The path of the debugger: at each step it runs the step's command, and waits. The path ends in
  -- front of a step, or within its last one.
  abbrev pub Follows : ℕ → Debugger → List Step → Option Reason → Debugger → Type 0
  Follows rounds d [] reason last = (last ≡ d) × Between reason rounds d
  Follows rounds d (s ∷ ss) reason last =
      (0 < rounds)
      × IsStep d s
      × (((ss ≡ []) × Within reason (moved d s.ip) last)
          ⊎ (GoesOn (moved d s.ip)
              × Follows (rounds - 1) (wait (left (moved d s.ip)) (moved d s.ip)) ss reason last))

  pub record IsRun (rounds count : ℕ) (d : Debugger) (t : Trace e) : Type 0 where
    pub counted : t.step_count ≡ count + length t.steps
    pub bounded : length t.steps ≤ rounds
    pub numbered : Numbered (count + 1) t.steps
    pub path : Follows rounds d t.steps t.reason t.debugger

  stop-IsRun :
      (reason : Option Reason) (rounds count : ℕ) (d : Debugger)
      → Between reason rounds d
      → IsRun rounds count d (stop e reason count d)
  unfolding stop
  stop-IsRun reason rounds count d h = record {
    counted = omega arith;
    bounded = omega arith;
    numbered = tt;
    path = (refl, h);
  }

  -- A round, from a debugger where a step is made.
  module _ (rounds count ip : ℕ) (d : Debugger) (h : IsStep d (logged e (count + 1) d ip)) where
    prepend-IsRun :
        (t : Trace e)
        → GoesOn (moved d ip)
        → IsRun rounds (count + 1) (wait (left (moved d ip)) (moved d ip)) t
        → IsRun (suc rounds) count d (prepend e (logged e (count + 1) d ip) t)
    unfolding prepend logged
    prepend-IsRun t g r = record {
      counted = omega (arith, r.counted);
      bounded = omega (arith, r.bounded);
      numbered = (refl, r.numbered);
      path = (
        omega arith,
        h,
        inr (g, (let one : suc rounds - 1 ≡ rounds = omega arith in rw one r.path)),
      );
    }

    stepped-IsRun :
        (reason : Option Reason) (last : Debugger)
        → Within reason (moved d ip) last
        → IsRun
            (suc rounds)
            count
            d
            (prepend e (logged e (count + 1) d ip) (stop e reason (count + 1) last))
    unfolding prepend logged stop
    stepped-IsRun reason last w = record {
      counted = omega arith;
      bounded = omega arith;
      numbered = (refl, tt);
      path = (omega arith, h, inl (refl, w));
    }

  module _ (rounds count : ℕ) (rest : Debugger → Trace e)
      (later : (d : Debugger) → IsRun rounds (count + 1) d (rest d)) where
    waited : ℤ → Debugger → Trace e
    waited hr d1 = stop e (some (wait_failed hr)) (count + 1) (wait (left d1) d1)

    step_once-IsRun :
        (d : Debugger) (ip : ℕ)
        → reaches (elapsed d) timeout_ms ≡ false
        → is_interrupted d ≡ false
        → read_ip d ≡ some ip
        → IsRun (suc rounds) count d (step_once e end_ip skip timeout_ms rest count d ip)
    unfolding step_once step_command logged
    step_once-IsRun d ip early quiet found = elim (Bool-cases (ip == end_ip)) [
      | inl at_end ↦ rw at_end (
          stop-IsRun (some reached_end) (suc rounds) count d
            (found ∙ ap some ((==_iff ip end_ip).0 at_end)))
      | inr going ↦
          (let h : IsStep d (logged e (count + 1) d ip) =
              (early, quiet, found, λ h. cc ((==_iff ip end_ip).1 h, going), refl, refl) in
            rw going (elim (Bool-cases (reaches (elapsed (moved d ip)) timeout_ms)) [
              | inl late ↦
                  rw late (stepped-IsRun rounds count ip d h none (moved d ip) (late, refl))
              | inr time ↦
                  rw time (elim (Option-cases (wait_error (left (moved d ip)) (moved d ip))) [
                    | inl fine ↦ rw fine (
                        prepend-IsRun rounds count ip d h
                          (rest (wait (left (moved d ip)) (moved d ip))) (time, fine)
                          (later (wait (left (moved d ip)) (moved d ip))))
                    | inr (hr, bad) ↦ rw bad (
                        stepped-IsRun rounds count ip d h (some (wait_failed hr))
                          (wait (left (moved d ip)) (moved d ip)) (time, bad, refl))
                  ])
            ]))
    ]

  pub trace_loop-IsRun :
      (rounds count : ℕ) (d : Debugger)
      → IsRun rounds count d (trace_loop e end_ip skip timeout_ms rounds count d)
  unfolding trace_loop
  trace_loop-IsRun zero count d = stop-IsRun none zero count d refl
  trace_loop-IsRun (suc rounds) count d = elim (Bool-cases (reaches (elapsed d) timeout_ms)) [
    | inl late ↦ rw late (stop-IsRun (some timeout) (suc rounds) count d late)
    | inr early ↦ rw early (elim (Bool-cases (is_interrupted d)) [
      | inl broken ↦ rw broken (stop-IsRun (some interrupted) (suc rounds) count d broken)
      | inr quiet ↦ rw quiet (elim (Option-cases (read_ip d)) [
        | inl lost ↦ rw lost (stop-IsRun (some no_ip) (suc rounds) count d lost)
        | inr (ip, found) ↦ rw found (
            step_once-IsRun rounds count (trace_loop e end_ip skip timeout_ms rounds (count + 1))
              (trace_loop-IsRun rounds (count + 1)) d ip early quiet found)
      ])
    ])
  ]

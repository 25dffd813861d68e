-- ===== src/WindbgClient/Executing.antt =====
-- `ExecuteCommand` of windbg_client.cpp: when it returns, and with what.
use windbg_agent.Agent.Servers.{is_negative}
use windbg_agent.Base.Decimal.{to_string_ℤ}
use windbg_agent.Base.{
  ℕ, zero, suc, ◌+◌, ◌<◌, ◌≡◌, refl, ap, ◌-◌, ◌∙◌, true, false, List, [], ◌++◌, append-nil,
  append_assoc, some, Bytes, codes, is_empty, if◌then◌else◌, if-holds, arith,
}
use windbg_agent.DmlOutput.{DmlOutput, output_error}
use windbg_agent.OutputCapture.Keeping.{Keeps, output_all-Keeps}
use windbg_agent.OutputCapture.Forwarding.{Round, rounds_texts, output_all_lem}
use windbg_agent.OutputCapture.{
  Client, Capture, present, StackState, at_rest, empty, install, uninstall, destroy, get_and_clear,
}
use windbg_agent.WindbgClient.{Engine, settles, collect, poll, conclude, deliver, execute_command}

module _ (e : Engine) where
  -- From reading i on, the first reading that leaves the loop is the n-th after it.
  abbrev pub SettlesAfter : ℕ → ℕ → Type 0
  SettlesAfter zero i = settles (e.status i) ≡ true
  SettlesAfter (suc n) i = (settles (e.status i) ≡ false) × SettlesAfter n (i + 1)

  -- What is printed in the sleeps between these readings.
  abbrev pub arrived : ℕ → ℕ → Bytes
  arrived zero i = []
  arrived (suc n) i = rounds_texts (e.arrives i) ++ arrived n (i + 1)

  collect_lem :
      (rs : List Round) (c : Capture)
      → e.installs ≡ true
      → present c.original_callbacks ≡ 1
      → collect e rs (c, at_rest)
        ≡ (record c { captured_output = c.captured_output ++ rounds_texts rs }, at_rest)
  collect_lem rs c i h = rw (i, output_all_lem rs c h) refl

  poll_lem :
      (fuel n i : ℕ) (c : Capture)
      → n < fuel
      → e.installs ≡ true
      → present c.original_callbacks ≡ 1
      → SettlesAfter n i
      → poll e fuel i (c, at_rest)
        ≡ some (record c { captured_output = c.captured_output ++ arrived n i }, at_rest)
  unfolding poll
  poll_lem zero n i c f on h s = absurd (omega arith)
  poll_lem (suc fuel) zero i c f on h s = rw s (simp append-nil)
  poll_lem (suc fuel) (suc n) i c f on h s =
      rw (s.0, collect_lem (e.arrives i) c on h)
        (poll_lem fuel n (i + 1) _ (omega arith) on h s.1 ∙ simp append_assoc)

  -- The references and callbacks of a client that is given back.
  given_back :
      (k : Client)
      → record {
        output_callbacks = k.output_callbacks;
        client_refs = k.client_refs + 1 - 1;
        callback_refs = k.callback_refs + present k.output_callbacks - present k.output_callbacks;
      }
        ≡ k
  given_back k = ground arith

  accepted_lem :
      (dml : DmlOutput) (k : Client) (t : Bytes)
      → is_negative e.hr ≡ false
      → e.uninstalls ≡ true
      → some (
          conclude e dml
            (record (install e.installs empty k).0 { captured_output = t })
            (install e.installs empty k).1)
        ≡ some (record {
          result = if is_empty t then codes "(No output)" else t;
          client = k;
          emitted = [];
        })
  unfolding conclude install uninstall destroy get_and_clear empty
  accepted_lem dml k t a off =
      rw (a, off)
        (ap
          (λ k'. some (record {
            result = if is_empty t then codes "(No output)" else t;
            client = k';
            emitted = [];
          }))
          (given_back k))

  refused_lem :
      (dml : DmlOutput) (k : Client) (c : Capture)
      → is_negative e.hr ≡ true
      → e.uninstalls ≡ true
      → Keeps (install e.installs empty k).0 c
      → let failure = codes "Error executing command: hr=" ++ to_string_ℤ e.hr in
        some (conclude e dml c (install e.installs empty k).1)
        ≡ some (record { result = failure; client = k; emitted = output_error dml failure })
  unfolding conclude install uninstall destroy get_and_clear empty
  refused_lem dml k c a off kept =
      let failure = codes "Error executing command: hr=" ++ to_string_ℤ e.hr in
      rw (a, off, kept.0, kept.1)
        (ap
          (λ k'.
            some (record { result = failure; client = k'; emitted = output_error dml failure }))
          (given_back k))

  -- A command that the engine accepts: if the status settles at some reading, then `ExecuteCommand`
  -- returns. It returns everything that was printed by the command and until that reading, in its
  -- order, or "(No output)" if there was nothing; and it leaves the client with the callbacks and the
  -- references that it had. The client has callbacks of its own, `SetOutputCallbacks` succeeds both
  -- times, and the fuel exceeds the number of readings.
  pub execute_command-settles :
      (fuel n : ℕ) (dml : DmlOutput) (k : Client)
      → is_negative e.hr ≡ false
      → e.installs ≡ true
      → e.uninstalls ≡ true
      → present k.output_callbacks ≡ 1
      → n < fuel
      → SettlesAfter n 0
      → let printed = rounds_texts e.printed ++ arrived n 0 in
        execute_command e fuel true dml k
        ≡ some (record {
          result = if is_empty printed then codes "(No output)" else printed;
          client = k;
          emitted = [];
        })
  unfolding execute_command
  execute_command-settles fuel n dml k a on off h f s =
      let (c, k1, hr) = install e.installs empty k in
      let p : present c.original_callbacks ≡ 1 = unfold install in unfold empty in h in
      let ran = collect_lem e.printed c on p in
      let settled : poll e fuel 0 (collect e e.printed (c, at_rest)) ≡ some _ =
        ap (poll e fuel 0) ran
        ∙ poll_lem fuel n 0
            (record c { captured_output = c.captured_output ++ rounds_texts e.printed }) f on p s in
      ap
        (λ b. deliver e dml k1 (
          if b
          then some (collect e e.printed (c, at_rest))
          else poll e fuel 0 (collect e e.printed (c, at_rest))))
        a
      ∙ ap (deliver e dml k1) settled
      ∙ (unfold empty in accepted_lem dml k (rounds_texts e.printed ++ arrived n 0) a off)

  collect-Keeps : (rs : List Round) (p : Capture × StackState) → Keeps p.0 (collect e rs p).0
  collect-Keeps rs p =
      if-holds (λ (q : Capture × StackState). Keeps p.0 q.0) e.installs _ _
        (λ _. output_all-Keeps rs p) (λ _. (refl, refl))

  -- A command that the engine refuses: `ExecuteCommand` returns at once with the error and nothing of
  -- what was printed, shows the error to the user, and leaves the client as it was, if the callbacks
  -- can be given back.
  pub execute_command-fails :
      (fuel : ℕ) (dml : DmlOutput) (k : Client)
      → is_negative e.hr ≡ true
      → e.uninstalls ≡ true
      → let failure = codes "Error executing command: hr=" ++ to_string_ℤ e.hr in
        execute_command e fuel true dml k
        ≡ some (record { result = failure; client = k; emitted = output_error dml failure })
  unfolding execute_command
  execute_command-fails fuel dml k a off =
      let (c, k1, hr) = install e.installs empty k in
      ap
        (λ b. deliver e dml k1 (
          if b
          then some (collect e e.printed (c, at_rest))
          else poll e fuel 0 (collect e e.printed (c, at_rest))))
        a
      ∙ refused_lem dml k (collect e e.printed (c, at_rest)).0 a off
          (collect-Keeps e.printed (c, at_rest))

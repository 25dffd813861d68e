-- ===== src/Trace/KernelTrace/Verbose.antt =====
-- dbg_trace.cpp: the script StepNPrint.txt of a verbose kernel-mode trace, as the debugger reads and runs
-- it. `$<` runs a file line by line, and `t "…"` runs the quoted command behind the step.
use windbg_agent.Base.Hex.{hex_digit, hex_onto, to_hex, hex_value, hex_value-to_hex}
use windbg_agent.Base.Int.{ℤ}
use windbg_agent.Base.{
  ℕ, zero, suc, ◌/◌, ◌%◌, ◌≡◌, ◌≢◌, refl, subst, false, [], ◌∷◌, ◌++◌, append_assoc, Option, some,
  Bytes, codes, joined, All-append, Lacks, arith,
}
use windbg_agent.Trace.KernelTrace.Globals.{cut-append}
use windbg_agent.Trace.KernelTrace.Reading.{expect, cut, ◌>>=◌}
use windbg_agent.Trace.KernelTrace.{as_unsigned, done_command, step_n_print, set_counter}
use windbg_agent.Trace.LogFile.Paths.{IsPath, read_literal, read_literal-js_str}

-- The address at which the trace ends, the command for that case, the file that the step runs next, and
-- the command where the counter is used up.
pub record StepScript : Type 0 where
  pub end_ip : ℕ
  pub on_target : Bytes
  pub next_file : Bytes
  pub on_limit : Bytes

-- The debugger reads `.if (…) { … } .else { … }` up to the closing braces, and a quoted command with
-- escaped backslashes.
unfoldable pub read_step_script : Bytes → Option StepScript
read_step_script text = do
  s1 ← expect (codes "r\n.if (@rip == 0x") text
  (digits, s2) ← cut b')' s1
  end_ip ← hex_value 0 digits
  s3 ← expect (codes " { ") s2
  (on_target, s4) ← cut b'}' s3
  s5 ← expect (codes " .else { .if (@$t0 > 0) { r $t0 = @$t0 - 1; t \"$<") s4
  (next_file, s6) ← read_literal false s5
  s7 ← expect (codes " } .else { ") s6
  (on_limit, s8) ← cut b'}' s7
  end ← expect (codes " }\n") s8
  some (record {
    end_ip = end_ip;
    on_target = on_target;
    next_file = next_file;
    on_limit = on_limit;
  })

-- The value that the command gives to the counter `$t0`.
unfoldable pub read_counter : Bytes → Option ℕ
read_counter command = do digits ← expect (codes "r $t0 = 0x") command; hex_value 0 digits

hex_onto-Lacks : (fuel n : ℕ) (out : Bytes) → Lacks b')' out → Lacks b')' (hex_onto fuel n out)
unfolding hex_onto
hex_onto-Lacks zero n out h = h
hex_onto-Lacks (suc f) n out h =
    ground (arith, hex_onto-Lacks f (n / 16) (hex_digit (n % 16) ∷ out))

to_hex-Lacks : (n : ℕ) → Lacks b')' (to_hex n)
unfolding to_hex
to_hex-Lacks n = hex_onto-Lacks (suc n) n [] tt

done_command-Lacks :
    (why path : Bytes) → Lacks b'}' why → Lacks b'}' path → Lacks b'}' (done_command why path)
unfolding done_command
done_command-Lacks why path hw hp =
    All-append (λ x. x ≢ b'}') (codes ".logclose; .echo [tracealyzer] ")
      (why ++ (codes ".; .echo [tracealyzer] Log: " ++ path)) (ground arith)
      (All-append (λ x. x ≢ b'}') why (codes ".; .echo [tracealyzer] Log: " ++ path) hw
        (All-append (λ x. x ≢ b'}') (codes ".; .echo [tracealyzer] Log: ") path (ground arith) hp))

-- A command up to a blank and a brace.
cut-block :
    (s t : Bytes) → Lacks b'}' s → cut b'}' (s ++ b' ' ∷ b'}' ∷ t) ≡ some (s ++ b' ' ∷ [], t)
cut-block s t h =
    subst (λ x. cut b'}' x ≡ some (s ++ b' ' ∷ [], t)) (append_assoc s (b' ' ∷ []) (b'}' ∷ t))
      (cut-append b'}' (s ++ b' ' ∷ []) t
        (All-append (λ x. x ≢ b'}') s (b' ' ∷ []) h (ground arith)))

-- The script that is written is read by the debugger as what it was written for.
pub read_step_script-step_n_print :
    (end_ip : ℕ) (log path : Bytes)
    → Lacks b'}' log
    → IsPath path
    → read_step_script (step_n_print end_ip log path)
      ≡ some (record {
        end_ip = end_ip;
        on_target = done_command (codes "Target address reached") log ++ codes " ";
        next_file = path;
        on_limit = done_command (codes "Max steps reached") log ++ codes " ";
      })
unfolding read_step_script step_n_print joined expect
read_step_script-step_n_print end_ip log path hl hp =
    rw
      (
        cut-append b')' (to_hex end_ip) _ (to_hex-Lacks end_ip),
        hex_value-to_hex end_ip,
        cut-block (done_command (codes "Target address reached") log) _
            (done_command-Lacks (codes "Target address reached") log (ground arith) hl),
        read_literal-js_str path _ hp,
        cut-block (done_command (codes "Max steps reached") log) _
            (done_command-Lacks (codes "Max steps reached") log (ground arith) hl),
      )
      refl

pub read_counter-set_counter :
    (max_steps : ℤ) → read_counter (set_counter max_steps) ≡ some (as_unsigned max_steps)
unfolding read_counter set_counter expect
read_counter-set_counter max_steps = hex_value-to_hex (as_unsigned max_steps)

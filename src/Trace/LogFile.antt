-- ===== src/Trace/LogFile.antt =====
-- dbg_trace.cpp: the names and texts of the log files and scripts.
pub mod Folder
pub mod Names
pub mod Paths
pub mod Tests
use windbg_agent.Base.Decimal.{to_string, padded}
use windbg_agent.Base.Hex.{hex_digits}
use windbg_agent.Base.{
  ℕ, zero, suc, ◌+◌, ◌/◌, ◌%◌, ◌^◌, Bool, ◌||◌, List, [], ◌∷◌, ◌++◌, map, none, some, Bytes, codes,
  is_empty, find, rfind, take, drop, ◌==◌, if◌then◌else◌,
}

-- `auto b = s.rfind(c); if (b != npos) s = s.substr(b + 1);`
unfoldable pub after_last : ℕ → Bytes → Bytes
unfolding rfind
after_last c s = elim (rfind c s) [ none ↦ s | some b ↦ drop (b + 1) s ]

-- `auto d = s.rfind(c); if (d != npos) s = s.substr(0, d);`
unfoldable pub before_last : ℕ → Bytes → Bytes
unfolding rfind
before_last c s = elim (rfind c s) [ none ↦ s | some d ↦ take d s ]

unfoldable pub is_forbidden : ℕ → Bool
is_forbidden c =
    c == b'/'
    || (c == b':'
        || (c == b'*' || (c == b'?' || (c == b'"' || (c == b'<' || (c == b'>' || c == b'|'))))))

unfoldable pub sanitized : ℕ → ℕ
unfolding is_forbidden
sanitized c = if is_forbidden c then b'_' else c

-- The part of the file's name that the target gives.
unfoldable pub target_part : Bytes → Bytes
unfolding after_last before_last sanitized
target_part target_name =
    let target = map sanitized (before_last b'.' (after_last b'\\' target_name)) in
    if is_empty target then codes "unknown" else target

unfoldable pub traces_dir : Bytes → Bytes
unfolding before_last
traces_dir dll_path = before_last b'\\' dll_path ++ codes "\\traces"

-- `SYSTEMTIME`, of which each field is a `WORD`.
pub record SystemTime : Type 0 where
  pub year : ℕ
  pub month : ℕ
  pub day : ℕ
  pub hour : ℕ
  pub minute : ℕ
  pub second : ℕ

-- `sprintf_s(ts, sizeof(ts), "%04d%02d%02d_%02d%02d%02d", …)`
unfoldable pub time_stamp : SystemTime → Bytes
unfolding padded to_string
time_stamp st =
    let two = λ (n : ℕ). padded b'0' 2 (to_string n) in
    padded b'0' 4 (to_string st.year)
    ++ (two st.month
        ++ (two st.day ++ (codes "_" ++ (two st.hour ++ (two st.minute ++ two st.second)))))

-- The log of a user-mode trace; `ts` is the formatted time.
unfoldable pub log_name : Bytes → Bytes → Bytes → Bytes
unfolding traces_dir target_part
log_name dll_path target_name ts =
    traces_dir dll_path
    ++ (codes "\\" ++ (target_part target_name ++ (codes "_" ++ (ts ++ codes ".log"))))

-- What the making of a log does to the disk: `CreateDirectoryA`, and `fopen_s` for writing.
pub data DiskCall : Type 0 where
  makes_folder opens : Bytes → DiskCall

-- `OpenTraceLog`, with the path of the extension, the time, and whether the file can be opened: its
-- calls, the path, and whether there is a file.
unfoldable pub open_trace_log : Bytes → Bytes → SystemTime → Bool → List DiskCall × Bytes × Bool
unfolding log_name time_stamp traces_dir
open_trace_log dll_path target_name st can_open =
    let path = log_name dll_path target_name (time_stamp st) in
    (makes_folder (traces_dir dll_path) ∷ opens path ∷ [], path, can_open)

-- The log of a kernel-mode trace, before `.logopen /t` adds the time.
unfoldable pub log_base : Bytes → Bytes → Bytes
unfolding traces_dir target_part
log_base dll_path target_name =
    traces_dir dll_path ++ (codes "\\" ++ (target_part target_name ++ codes ".log"))

-- The path between the first two quotes of what `.logopen` prints, or else the guess.
unfoldable pub opened_path : Bytes → Bytes → Bytes
unfolding find
opened_path base logopen_out =
    let path : Bytes = elim (find b'\'' logopen_out) [
      | none ↦ []
      | some q1 ↦ elim (find b'\'' (drop (q1 + 1) logopen_out)) [
        | none ↦ []
        | some n ↦ take n (drop (q1 + 1) logopen_out)
      ]
    ] in
    if is_empty path then base else path

-- `js_str`; the loop for `esc_script` does the same.
unfoldable pub js_str : Bytes → Bytes
js_str [] = []
js_str (c ∷ s) = let rest = js_str s in if c == b'\\' then codes "\\\\" ++ rest else c ∷ rest

-- `%08x`%08x` of an address.
unfoldable pub fmt : ℕ → Bytes
unfolding hex_digits
fmt a = hex_digits 8 (a / 2 ^ 32 % 2 ^ 32) ++ (codes "`" ++ hex_digits 8 (a % 2 ^ 32))

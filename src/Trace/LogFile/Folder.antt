-- ===== src/Trace/LogFile/Folder.antt =====
-- Where `OpenTraceLog` of dbg_trace.cpp puts the log of a user-mode trace.
use windbg_agent.Base.Decimal.{IsDigit, to_string, padded, padded-AllDigits}
use windbg_agent.Base.Split.{is_empty-append_left}
use windbg_agent.Base.{
  ℕ, ◌≡◌, refl, Bool, false, [], ◌∷◌, ◌++◌, Bytes, codes, is_empty, arith, All, All-append,
  All-mono,
}
use windbg_agent.Trace.LogFile.Names.{IsNameChar, target_part_lem}
use windbg_agent.Trace.LogFile.{
  SystemTime, time_stamp, traces_dir, target_part, makes_folder, opens, open_trace_log,
  is_forbidden, log_name,
}

IsDigit-IsNameChar : (c : ℕ) → IsDigit c → IsNameChar c
unfolding is_forbidden
IsDigit-IsNameChar c h = ground arith

number : (w n : ℕ) → All IsNameChar (padded b'0' w (to_string n))
number w n = All-mono IsDigit IsNameChar _ IsDigit-IsNameChar (padded-AllDigits w n)

joined_names : (s t : Bytes) → All IsNameChar s → All IsNameChar t → All IsNameChar (s ++ t)
joined_names = All-append IsNameChar

time_stamp-IsNameChar : (st : SystemTime) → All IsNameChar (time_stamp st)
unfolding time_stamp is_forbidden
time_stamp-IsNameChar st = joined_names _ _ (number 4 st.year) (
    joined_names _ _ (number 2 st.month) (
      joined_names _ _ (number 2 st.day) (
        joined_names (codes "_") _ (ground arith) (
          joined_names _ _ (number 2 st.hour)
            (joined_names _ _ (number 2 st.minute) (number 2 st.second))))))

-- `OpenTraceLog` makes the folder `traces` beside the extension, and opens one file, directly in that
-- folder: its name is not empty and holds none of the nine characters \ / : * ? " < > | whatever
-- the target is called and whatever the time is. The path that it gives back is that of the file.
pub open_trace_log-InFolder :
    (dll_path target_name : Bytes) (st : SystemTime) (can_open : Bool)
    → let folder = traces_dir dll_path in
      (name : Bytes) × (is_empty name ≡ false)
      × All IsNameChar name
      × (open_trace_log dll_path target_name st can_open ≡ (
        makes_folder folder ∷ opens (folder ++ (codes "\\" ++ name)) ∷ [],
        folder ++ (codes "\\" ++ name),
        can_open,
      ))
unfolding open_trace_log log_name is_forbidden
open_trace_log-InFolder dll_path target_name st can_open =
    let (full, ok) = target_part_lem target_name in
    let rest = codes "_" ++ (time_stamp st ++ codes ".log") in
    (
      target_part target_name ++ rest,
      is_empty-append_left 0 (target_part target_name) rest full,
      joined_names _ _ ok (
          joined_names (codes "_") _ (ground arith)
            (joined_names _ _ (time_stamp-IsNameChar st) (ground arith))),
      refl,
    )

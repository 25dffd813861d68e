-- ===== src/Trace/LogFile/Tests.antt =====
-- The names and paths of dbg_trace.cpp at concrete inputs.
use windbg_agent.Base.{
  [], ◌∷◌, true, ◌≡◌, refl, false, ◌++◌, Bytes, codes, is_empty, find, arith, All,
}
use windbg_agent.Trace.LogFile.Folder.{open_trace_log-InFolder}
use windbg_agent.Trace.LogFile.Names.{IsNameChar, target_part_lem}
use windbg_agent.Trace.LogFile.Paths.{opened_path_lem}
use windbg_agent.Trace.LogFile.{
  SystemTime, target_part, traces_dir, opened_path, fmt, makes_folder, opens, open_trace_log,
}

abbrev latest : SystemTime
latest = record { year = 2025; month = 12; day = 31; hour = 23; minute = 59; second = 59 }

abbrev app : Bytes
app = codes "C:\\apps\\note?pad.v2.exe"

sanitized_name : target_part app ≡ codes "note_pad.v2"
unfolding target_part
sanitized_name = refl

kernel_address : fmt 0xffff_f803_0000_1abc ≡ codes "fffff803`00001abc"
unfolding fmt
kernel_address = refl

-- The user's name cuts the path.
cut_path :
    opened_path (codes "t.log") (codes "Opened log file 'C:\\Users\\O'Brien\\t.log'")
    ≡ codes "C:\\Users\\O"
unfolding opened_path find
cut_path = refl

file_name : (is_empty (target_part app) ≡ false) × All IsNameChar (target_part app)
file_name = target_part_lem app

opened_path_lem_example :
    (opened_path (codes "t.log") (codes "log '" ++ codes "C:\\t.log'\n") ≡ codes "C:\\t.log")
    × (opened_path (codes "t.log") (codes "log ") ≡ codes "t.log")
    × (opened_path (codes "t.log") (codes "log '" ++ codes "C:\\t.log") ≡ codes "t.log")
opened_path_lem_example =
    opened_path_lem (codes "t.log") (codes "log ") (codes "C:\\t.log") (codes "\n") (ground arith)
      (ground arith)

open_trace_log-InFolder_example :
    let folder = traces_dir (codes "C:\\w\\agent.dll") in
    (name : Bytes) × (is_empty name ≡ false)
    × All IsNameChar name
    × (open_trace_log (codes "C:\\w\\agent.dll") app latest true ≡ (
      makes_folder folder ∷ opens (folder ++ (codes "\\" ++ name)) ∷ [],
      folder ++ (codes "\\" ++ name),
      true,
    ))
open_trace_log-InFolder_example = open_trace_log-InFolder (codes "C:\\w\\agent.dll") app latest true

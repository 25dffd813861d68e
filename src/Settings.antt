-- ===== src/Settings.antt =====
-- settings.cpp: the folder and the file of the settings.
pub mod Kept
pub mod Tests
use windbg_agent.Base.{Bool, ◌++◌, Option, none, some, Bytes, codes, equals, is_some, if◌then◌else◌}

-- `GetSettingsDir`, with the environment's USERPROFILE and HOME.
unfoldable pub get_settings_dir : Option Bytes → Option Bytes → Bytes
get_settings_dir (some home) _ = home ++ codes "\\.windbg_agent"
get_settings_dir none (some home) = home ++ codes "\\.windbg_agent"
get_settings_dir none none = codes ".windbg_agent"

-- `GetSettingsPath`
unfoldable pub get_settings_path : Bytes → Bytes
get_settings_path dir = dir ++ codes "\\settings.json"

pub data Node : Type 0 where
  folder : Node
  file : Bytes → Node

-- What stands at each path.
abbrev pub Disk : Type 0
Disk = Bytes → Option Node

unfoldable pub put : Bytes → Node → Disk → Disk
put path node disk p = if equals p path then some node else disk p

-- The file system and the JSON library, outside this repository: whether `create_directories` can make
-- the folder (it throws if not), whether the file can be opened for writing, and what `dump(2)` gives for
-- an object without fields.
pub record Host : Type 0 where
  pub creates : Bool
  pub opens : Bool
  pub empty_object : Bytes

-- `if (!fs::exists(dir)) fs::create_directories(dir);`, with `none` for its exception.
unfoldable pub ensure_dir : Host → Bytes → Disk → Option Disk
ensure_dir host dir disk =
    if is_some (disk dir)
    then some disk
    else if host.creates
    then some (put dir folder disk)
    else none

-- The end of `SaveSettings`.
unfoldable pub write_file : Host → Bytes → Disk → Disk
write_file host dir disk =
    if host.opens then put (get_settings_path dir) (file host.empty_object) disk else disk

-- `SaveSettings`
unfoldable pub save_settings : Host → Bytes → Disk → Option Disk
save_settings host dir disk = elim (ensure_dir host dir disk) [
  | none ↦ none
  | some made ↦ some (write_file host dir made)
]

-- `LoadSettings`: the settings themselves hold nothing.
unfoldable pub load_settings : Host → Bytes → Disk → Option Disk
load_settings host dir disk = elim (ensure_dir host dir disk) [
  | none ↦ none
  | some made ↦
      if is_some (made (get_settings_path dir)) then some made else save_settings host dir made
]

-- ===== src/Settings/Tests.antt =====
-- The settings of settings.cpp on a small disk.
use windbg_agent.Base.{◌≡◌, refl, true, none, some, Bytes, codes, equals}
use windbg_agent.Settings.Kept.{Loaded, load_settings-Loaded}
use windbg_agent.Settings.{
  folder, file, Disk, put, Host, get_settings_dir, get_settings_path, ensure_dir, write_file,
  save_settings, load_settings,
}

abbrev host : Host
host = record { creates = true; opens = true; empty_object = codes "{}" }

abbrev empty_disk : Disk
empty_disk p = none

abbrev dir : Bytes
dir = codes "C:\\u\\.windbg_agent"

home_dir : get_settings_dir none (some (codes "C:\\u")) ≡ dir
unfolding get_settings_dir
home_dir = refl

abbrev made : Disk
made = put (get_settings_path dir) (file (codes "{}")) (put dir folder empty_disk)

loaded : Loaded host dir empty_disk made
unfolding load_settings save_settings ensure_dir write_file put get_settings_path equals
loaded = load_settings-Loaded host dir empty_disk made refl

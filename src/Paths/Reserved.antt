-- ===== src/Paths/Reserved.antt =====
-- `core/reserved-paths.ts`: the paths that are kept out of sync whatever the rules say, and those
-- of the configuration folder.
use syncali.Prelude.{Bool, true, false, not, ◌||◌, List, [], ◌∷◌, ◌++◌, if◌then◌else◌}
use syncali.Paths.Units.{Units, codes, contains, equal, strip_start, strip_end, split, any}

abbrev pub never_sync_reserved_segments : List Units
never_sync_reserved_segments =
    codes ".git" ∷ codes ".trash" ∷ codes ".synch" ∷ codes "node_modules" ∷ []

abbrev pub default_config_dir : Units
default_config_dir = codes ".obsidian"

pub data SyncPathSafetyClass : Type 0 where
  normal reserved_never_sync reserved_config_managed : SyncPathSafetyClass

unfoldable pub normalize_reserved_path : Units → Units
normalize_reserved_path path = strip_end (strip_start path)

-- `/^Icon[\r\n]$/`
unfoldable pub is_macos_folder_icon : Units → Bool
is_macos_folder_icon segment =
    equal segment (codes "Icon" ++ (13 ∷ [])) || equal segment (codes "Icon" ++ (10 ∷ []))

abbrev first_is : List Units → Units → Bool
first_is [] config_dir = false
first_is (segment ∷ segments) config_dir = equal segment config_dir

unfoldable pub classify_segments : List Units → Units → SyncPathSafetyClass
classify_segments segments config_dir =
    if any (contains never_sync_reserved_segments) segments
    then reserved_never_sync
    else if any is_macos_folder_icon segments
    then reserved_never_sync
    else if first_is segments config_dir
    then reserved_config_managed
    else normal

-- The empty path is the one that `!normalized` lets through.
unfoldable pub classify_normalized : Units → Units → SyncPathSafetyClass
classify_normalized [] config_dir = normal
classify_normalized (c ∷ s) config_dir = classify_segments (split (c ∷ s)) config_dir

unfoldable pub classify_sync_path : Units → Units → SyncPathSafetyClass
unfolding classify_normalized classify_segments normalize_reserved_path
classify_sync_path path config_dir = classify_normalized (normalize_reserved_path path) config_dir

abbrev pub is_normal : SyncPathSafetyClass → Bool
is_normal normal = true
is_normal reserved_never_sync = false
is_normal reserved_config_managed = false

abbrev pub is_never_sync : SyncPathSafetyClass → Bool
is_never_sync normal = false
is_never_sync reserved_never_sync = true
is_never_sync reserved_config_managed = false

unfoldable pub is_reserved_sync_path : Units → Bool
is_reserved_sync_path path = not (is_normal (classify_sync_path path default_config_dir))

unfoldable pub is_never_sync_reserved_path : Units → Bool
is_never_sync_reserved_path path = is_never_sync (classify_sync_path path default_config_dir)

-- ===== src/Paths/ConfigRules.antt =====
-- `core/vault-config-rules.ts`: which files of the configuration folder are synced.
use syncali.Prelude.{
  ◌+◌, Bool, true, false, not, ◌||◌, ◌&&◌, Option, none, some, List, [], ◌∷◌, ◌++◌, length, ◌==◌,
  get_or, if◌then◌else◌,
}
use syncali.Paths.Units.{
  Units, codes, contains, equal, starts_with, ends_with, includes, slice_from, strip_start,
  strip_end, split, trim_units,
}
use syncali.Paths.Settings.{Setting, flag, string, array, other, as_boolean}

pub record VaultConfigSyncRules : Type 0 where
  pub enabled : Bool
  pub config_dir : Units
  pub main_settings : Bool
  pub appearance : Bool
  pub themes_and_snippets : Bool
  pub hotkeys : Bool
  pub core_plugin_list : Bool
  pub core_plugin_data : Bool
  pub community_plugin_list : Bool
  pub community_plugin_files : Bool
  pub community_plugin_data : Bool

abbrev pub default_vault_config_sync_rules : VaultConfigSyncRules
default_vault_config_sync_rules = record {
  enabled = false;
  config_dir = codes ".obsidian";
  main_settings = true;
  appearance = true;
  themes_and_snippets = true;
  hotkeys = true;
  core_plugin_list = true;
  core_plugin_data = true;
  community_plugin_list = false;
  community_plugin_files = false;
  community_plugin_data = false;
}

abbrev pub syncali_plugin_config_prefix : Units
syncali_plugin_config_prefix = codes "plugins/syncali/"

abbrev pub device_local_config_paths : List Units
device_local_config_paths = codes "workspace.json" ∷ codes "workspace-mobile.json" ∷ []

unfoldable pub normalize_vault_path : Units → Units
normalize_vault_path path = strip_end (strip_start path)

-- The directory that a normalised string names, if it is one hidden segment.
unfoldable pub hidden_segment_or_default : Units → Units
hidden_segment_or_default normalized =
    if not (starts_with normalized (codes ".")) || includes normalized (codes "/")
    then default_vault_config_sync_rules.config_dir
    else normalized

unfoldable pub normalize_config_dir : Setting → Units
unfolding hidden_segment_or_default normalize_vault_path
normalize_config_dir (string s) = hidden_segment_or_default (normalize_vault_path (trim_units s))
normalize_config_dir (flag b) = default_vault_config_sync_rules.config_dir
normalize_config_dir (array items) = default_vault_config_sync_rules.config_dir
normalize_config_dir other = default_vault_config_sync_rules.config_dir

-- The fields of a stored value that is an object and no array.
pub record RawVaultConfigRules : Type 0 where
  pub enabled : Setting
  pub config_dir : Setting
  pub main_settings : Setting
  pub appearance : Setting
  pub themes_and_snippets : Setting
  pub hotkeys : Setting
  pub core_plugin_list : Setting
  pub core_plugin_data : Setting
  pub community_plugin_list : Setting
  pub community_plugin_files : Setting
  pub community_plugin_data : Setting

-- `none` is every value that is not an object, and an array.
unfoldable pub normalize_vault_config_sync_rules : Option RawVaultConfigRules → VaultConfigSyncRules
unfolding as_boolean
normalize_vault_config_sync_rules none = default_vault_config_sync_rules
normalize_vault_config_sync_rules (some r) =
    let d = default_vault_config_sync_rules in
    record {
      enabled = as_boolean r.enabled d.enabled;
      config_dir = normalize_config_dir r.config_dir;
      main_settings = as_boolean r.main_settings d.main_settings;
      appearance = as_boolean r.appearance d.appearance;
      themes_and_snippets = as_boolean r.themes_and_snippets d.themes_and_snippets;
      hotkeys = as_boolean r.hotkeys d.hotkeys;
      core_plugin_list = as_boolean r.core_plugin_list d.core_plugin_list;
      core_plugin_data = as_boolean r.core_plugin_data d.core_plugin_data;
      community_plugin_list = as_boolean r.community_plugin_list d.community_plugin_list;
      community_plugin_files = as_boolean r.community_plugin_files d.community_plugin_files;
      community_plugin_data = as_boolean r.community_plugin_data d.community_plugin_data;
    }

-- The rest of a normalised path behind the configuration directory; `none` is null.
unfoldable pub relative_to : Units → Units → Option Units
relative_to path dir =
    if equal path dir
    then some []
    else if not (starts_with path (dir ++ codes "/"))
    then none
    else some (slice_from (length dir + 1) path)

unfoldable pub get_config_relative_path : Units → Units → Option Units
unfolding relative_to normalize_vault_path
get_config_relative_path path config_dir =
    relative_to (normalize_vault_path path) (normalize_config_dir (string config_dir))

unfoldable pub is_denied_config_relative_path : Units → Bool
is_denied_config_relative_path relative_path =
    contains device_local_config_paths relative_path
    || (starts_with relative_path syncali_plugin_config_prefix
        || includes relative_path (codes ".sync-conflict-"))

unfoldable pub is_community_plugin_file : Units → Bool
is_community_plugin_file relative_path =
    let parts = split relative_path in
    (length parts == 3)
    && (equal (get_or parts 0 []) (codes "plugins")
        && contains (codes "manifest.json" ∷ codes "main.js" ∷ codes "styles.css" ∷ [])
            (get_or parts 2 []))

abbrev pub root_json_of_other_rules : List Units
root_json_of_other_rules =
    codes "app.json"
    ∷ codes "appearance.json"
    ∷ codes "hotkeys.json"
    ∷ codes "core-plugins.json"
    ∷ codes "core-plugins-migration.json"
    ∷ codes "community-plugins.json"
    ∷ []

unfoldable pub is_root_config_json : Units → Bool
is_root_config_json relative_path =
    not (includes relative_path (codes "/"))
    && (ends_with relative_path (codes ".json")
        && not (contains root_json_of_other_rules relative_path))

unfoldable pub is_community_plugin_data : Units → Bool
is_community_plugin_data relative_path =
    let parts = split relative_path in
    (length parts == 3)
    && (equal (get_or parts 0 []) (codes "plugins")
        && equal (get_or parts 2 []) (codes "data.json"))

-- The rules in the order of the `if`s, on a relative path that is not empty and not denied.
unfoldable pub some_rule_allows : Units → VaultConfigSyncRules → Bool
some_rule_allows path r =
    (r.main_settings && equal path (codes "app.json"))
    || ((r.appearance && equal path (codes "appearance.json"))
        || ((r.hotkeys && equal path (codes "hotkeys.json"))
            || ((r.core_plugin_list
                  && (equal path (codes "core-plugins.json")
                      || equal path (codes "core-plugins-migration.json")))
                || ((r.community_plugin_list && equal path (codes "community-plugins.json"))
                    || ((r.themes_and_snippets
                          && (starts_with path (codes "themes/")
                              || starts_with path (codes "snippets/")))
                        || ((r.core_plugin_data && is_root_config_json path)
                            || ((r.community_plugin_files && is_community_plugin_file path)
                                || (r.community_plugin_data && is_community_plugin_data path))))))))

unfoldable pub should_sync_relative : Option Units → VaultConfigSyncRules → Bool
should_sync_relative none rules = false
should_sync_relative (some []) rules = false
should_sync_relative (some (c ∷ path)) rules =
    if is_denied_config_relative_path (c ∷ path) then false else some_rule_allows (c ∷ path) rules

unfoldable pub should_sync_vault_config_path : Units → VaultConfigSyncRules → Bool
should_sync_vault_config_path path rules =
    if not rules.enabled
    then false
    else should_sync_relative (get_config_relative_path path rules.config_dir) rules

abbrev is_denied_relative : Option Units → Bool
is_denied_relative none = false
is_denied_relative (some relative_path) = is_denied_config_relative_path relative_path

unfoldable pub is_denied_vault_config_path : Units → Units → Bool
is_denied_vault_config_path path config_dir =
    is_denied_relative (get_config_relative_path path config_dir)

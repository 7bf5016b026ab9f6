-- ===== src/Paths/Policy.antt =====
-- `core/vault-path-policy.ts`: what is done with a path on this device, and with a path that
-- comes from the server.
pub mod Decisions
use syncali.Prelude.{Bool, true, false, not, ◌||◌, if◌then◌else◌}
use syncali.Paths.Units.{Units, equal}
use syncali.Paths.Reserved.{
  SyncPathSafetyClass, normal, reserved_never_sync, reserved_config_managed, classify_sync_path,
  default_config_dir, is_normal, is_never_sync,
}
use syncali.Paths.ConfigRules.{
  VaultConfigSyncRules, should_sync_vault_config_path, is_denied_vault_config_path,
}
use syncali.Paths.FileRules.{SyncFileRules, should_sync_path}

pub data VaultPathPolicyDecision : Type 0 where
  sync ignore_local forbidden : VaultPathPolicyDecision

pub record VaultPathPolicyRules : Type 0 where
  pub file_rules : SyncFileRules
  pub vault_config_rules : VaultConfigSyncRules

abbrev pub is_sync : VaultPathPolicyDecision → Bool
is_sync sync = true
is_sync ignore_local = false
is_sync forbidden = false

abbrev pub is_forbidden : VaultPathPolicyDecision → Bool
is_forbidden sync = false
is_forbidden ignore_local = false
is_forbidden forbidden = true

unfoldable pub is_protected_default_config_path : Units → Units → Bool
is_protected_default_config_path path config_dir =
    if equal config_dir default_config_dir
    then false
    else not (is_normal (classify_sync_path path default_config_dir))

unfoldable pub is_forbidden_vault_path : Units → Units → Bool
is_forbidden_vault_path path config_dir =
    is_never_sync (classify_sync_path path config_dir)
    || (is_denied_vault_config_path path config_dir
        || is_protected_default_config_path path config_dir)

module _ (to_lower_case : Units → Units) where
  abbrev decide_class : SyncPathSafetyClass → Units → VaultPathPolicyRules → VaultPathPolicyDecision
  decide_class reserved_config_managed path rules =
      if should_sync_vault_config_path path rules.vault_config_rules then sync else ignore_local
  decide_class normal path rules =
      if should_sync_path to_lower_case path rules.file_rules then sync else ignore_local
  decide_class reserved_never_sync path rules =
      if should_sync_path to_lower_case path rules.file_rules then sync else ignore_local

  unfoldable pub decide_vault_path_sync : Units → VaultPathPolicyRules → VaultPathPolicyDecision
  decide_vault_path_sync path rules =
      let config_dir = rules.vault_config_rules.config_dir in
      let safety_class = classify_sync_path path config_dir in
      if is_never_sync safety_class
        || (is_denied_vault_config_path path config_dir
            || is_protected_default_config_path path config_dir)
      then forbidden
      else decide_class safety_class path rules

  abbrev apply_class : SyncPathSafetyClass → Units → VaultPathPolicyRules → Bool
  apply_class reserved_config_managed path rules =
      should_sync_vault_config_path path rules.vault_config_rules
  apply_class normal path rules = should_sync_path to_lower_case path rules.file_rules
  apply_class reserved_never_sync path rules = should_sync_path to_lower_case path rules.file_rules

  unfoldable pub should_apply_remote_vault_path : Units → VaultPathPolicyRules → Bool
  should_apply_remote_vault_path path rules =
      let config_dir = rules.vault_config_rules.config_dir in
      let safety_class = classify_sync_path path config_dir in
      if is_never_sync safety_class
      then false
      else if is_denied_vault_config_path path config_dir
          || is_protected_default_config_path path config_dir
      then false
      else apply_class safety_class path rules

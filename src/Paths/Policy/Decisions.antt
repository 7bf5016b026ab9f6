-- ===== src/Paths/Policy/Decisions.antt =====
-- The decision on a local path and the test on a remote path agree, and no path that either lets
-- through is a reserved one.
use syncali.Prelude.{◌≡◌, refl, false, arith, [], ◌∷◌}
use syncali.Paths.Units.{Units, any, contains, split, equal}
use syncali.Paths.Reserved.{
  normal, classify_sync_path, classify_normalized, classify_segments, normalize_reserved_path,
  never_sync_reserved_segments, is_macos_folder_icon, is_never_sync, default_config_dir,
}
use syncali.Paths.ConfigRules.{is_denied_vault_config_path}
use syncali.Paths.Policy.{
  VaultPathPolicyRules, decide_vault_path_sync, should_apply_remote_vault_path,
  is_forbidden_vault_path, is_protected_default_config_path, sync, is_sync, is_forbidden,
}

module _ (to_lower_case : Units → Units) (path : Units) (rules : VaultPathPolicyRules) where
  -- A remote path is applied exactly when the policy syncs the local path, and the policy
  -- forbids a path exactly when the separate test for forbidden paths says so.
  pub apply-decide :
      (should_apply_remote_vault_path to_lower_case path rules
        ≡ is_sync (decide_vault_path_sync to_lower_case path rules))
      × (is_forbidden_vault_path path rules.vault_config_rules.config_dir
          ≡ is_forbidden (decide_vault_path_sync to_lower_case path rules))
  unfolding decide_vault_path_sync should_apply_remote_vault_path is_forbidden_vault_path
  apply-decide = ground arith

classify_normalized-segments :
    (s dir : Units)
    → is_never_sync (classify_normalized s dir) ≡ false
    → (any (contains never_sync_reserved_segments) (split s) ≡ false)
      × (any is_macos_folder_icon (split s) ≡ false)
unfolding classify_normalized classify_segments
classify_normalized-segments [] dir h =
    unfold any split contains is_macos_folder_icon equal in (refl, refl)
classify_normalized-segments (c ∷ s) dir h = ground arith

module _ (to_lower_case : Units → Units) (path : Units) (rules : VaultPathPolicyRules) where
  sync-safe :
      decide_vault_path_sync to_lower_case path rules ≡ sync
      → (is_never_sync (classify_sync_path path rules.vault_config_rules.config_dir) ≡ false)
        × (is_denied_vault_config_path path rules.vault_config_rules.config_dir ≡ false)
        × (is_protected_default_config_path path rules.vault_config_rules.config_dir ≡ false)
  unfolding decide_vault_path_sync
  sync-safe h = ground arith

  -- Whatever the rules say, a path that the policy syncs has no segment `.git`, `.trash`,
  -- `.synch` or `node_modules` and no macOS folder icon in it, is no denied file of the
  -- configuration folder, and if another configuration folder is set, then it is not in
  -- `.obsidian` either.
  pub sync-IsSafe :
      decide_vault_path_sync to_lower_case path rules ≡ sync
      → (any (contains never_sync_reserved_segments) (split (normalize_reserved_path path)) ≡ false)
        × (any is_macos_folder_icon (split (normalize_reserved_path path)) ≡ false)
        × (is_denied_vault_config_path path rules.vault_config_rules.config_dir ≡ false)
        × (equal rules.vault_config_rules.config_dir default_config_dir ≡ false
            → classify_sync_path path default_config_dir ≡ normal)
  unfolding classify_sync_path is_protected_default_config_path
  sync-IsSafe h =
      let safe = sync-safe h in
      let segments =
        classify_normalized-segments (normalize_reserved_path path)
          rules.vault_config_rules.config_dir safe.0 in
      (segments.0, segments.1, safe.1, λ differ. ground (arith, safe.2))

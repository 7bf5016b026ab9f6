-- ===== src/Paths/Examples.antt =====
-- Conflict copies and policies at concrete paths.
use syncali.Prelude.{
  ◌≡◌, ◌≢◌, refl, none, some, true, false, List, [], ◌∷◌, is_white, arith, if◌then◌else◌,
}
use syncali.Paths.Units.{
  Units, codes, equal, contains, starts_with, split, cut_last, any, strip_start, strip_end, last_of,
  slice_from,
}
use syncali.Paths.Decimal.{decimal, pad_two, number}
use syncali.Paths.Marker.{
  match_classes, is_digit, conflict_pattern_test, conflict_pattern_here, skip_attempt, drop_digits,
  is_optional_extension, is_extension_text,
}
use syncali.Paths.Settings.{Item, string_item, other_item, array}
use syncali.Paths.Reserved.{is_reserved_sync_path, classify_sync_path, is_macos_folder_icon}
use syncali.Paths.ConfigRules.{default_vault_config_sync_rules}
use syncali.Paths.FileRules.{
  SyncFileRules, default_sync_file_rules, normalize_vault_path, is_included_by_folder,
  is_excluded_by_folder, has_hidden_segment, is_sync_conflict_file, accepts_excluded,
  normalize_excluded_folders, get_extension, extension_included, should_sync_normalized,
  should_sync_path,
}
use syncali.Paths.FileRules.Folders.{accepted_entries, is_included-normalize}
use syncali.Paths.Policy.{
  VaultPathPolicyRules, is_sync, is_forbidden, is_forbidden_vault_path, decide_vault_path_sync,
  should_apply_remote_vault_path,
}
use syncali.Paths.Policy.Decisions.{apply-decide}
use syncali.Paths.ConflictFile.{
  LocalTime, build_conflict_copy_path, format_conflict_timestamp, split_extension, file_name,
  attempt_text, parse_conflict_copy_path, find_marker, write_conflict_copy,
}
use syncali.Paths.ConflictFile.Stamp.{IsCalendarTime}
use syncali.Paths.ConflictFile.Copy.{write_conflict_copy_lem}
use syncali.Paths.ConflictFile.MemoryVault.{Vault, writer, read, writer-IsFileWriter}
use syncali.Paths.ConflictFile.Recognised.{should_sync_path-build_conflict_copy_path}
use syncali.Paths.ConflictFile.RoundTrip.{parse-build_conflict_copy_path}

abbrev noon : LocalTime
noon = record { full_year = 2026; month = 9; date = 1; hours = 8; minutes = 11; seconds = 41 }

timestamp_test : format_conflict_timestamp noon ≡ codes "20260901-081141"
unfolding format_conflict_timestamp decimal pad_two
timestamp_test = refl

copy_test :
    build_conflict_copy_path (codes "a/V2.2 Ground Floor") (codes "20260901-081141") 0
    ≡ codes "a/V2.2 Ground Floor.sync-conflict-20260901-081141"
unfolding build_conflict_copy_path split_extension cut_last any is_white file_name attempt_text
copy_test = refl

second_copy_test :
    build_conflict_copy_path (codes "a/note.md") (codes "20260901-081141") 1
    ≡ codes "a/note.sync-conflict-20260901-081141-2.md"
unfolding build_conflict_copy_path split_extension cut_last any is_white file_name attempt_text
    decimal
second_copy_test = refl

parse_test :
    parse_conflict_copy_path
      (λ t. some t.full_year)
      (codes "a/note.sync-conflict-20260901-081141-2.md")
    ≡ some (record { original_path = codes "a/note.md"; detected_at = 2026 })
unfolding parse_conflict_copy_path find_marker cut_last match_classes is_digit skip_attempt
    drop_digits file_name number slice_from
parse_test = refl

noon-IsCalendarTime : IsCalendarTime noon
noon-IsCalendarTime = record {
  four_digits = omega arith;
  month_short = omega arith;
  date_short = omega arith;
  hours_short = omega arith;
  minutes_short = omega arith;
  seconds_short = omega arith;
}

abbrev note : Units
note = codes "a/V2.2 note.md"

note-named : file_name note ≢ []
unfolding file_name cut_last
note-named h = cc

note-fresh : find_marker (file_name note) ≡ none
unfolding find_marker file_name cut_last match_classes
note-fresh = refl

note-start : starts_with note (codes "/") ≡ false
unfolding starts_with
note-start = refl

note-extension : (split_extension (file_name note)).1 ≢ codes "."
unfolding split_extension file_name cut_last any is_white
note-extension h = cc

parse-build_conflict_copy_path_example :
    parse_conflict_copy_path
      (λ t. some t.full_year)
      (build_conflict_copy_path note (format_conflict_timestamp noon) 3)
    ≡ some (record { original_path = note; detected_at = 2026 })
parse-build_conflict_copy_path_example =
    parse-build_conflict_copy_path (λ t. some t.full_year) note noon 3 noon-IsCalendarTime
      note-start note-named note-fresh

should_sync_path-build_conflict_copy_path_example :
    should_sync_path
      (λ s. s)
      (build_conflict_copy_path note (format_conflict_timestamp noon) 3)
      default_sync_file_rules
    ≡ false
should_sync_path-build_conflict_copy_path_example =
    should_sync_path-build_conflict_copy_path (λ s. s) default_sync_file_rules note noon 3
      noon-IsCalendarTime note-extension

abbrev all_files : SyncFileRules
all_files = record default_sync_file_rules { include_other_files = true }

-- The copy of a file whose name ends in a dot is synced with the other files.
dot_copy_test :
    should_sync_path
      (λ s. s)
      (build_conflict_copy_path (codes "a/draft.") (format_conflict_timestamp noon) 0)
      all_files
    ≡ true
unfolding should_sync_path should_sync_normalized is_sync_conflict_file conflict_pattern_test
    conflict_pattern_here is_optional_extension is_extension_text skip_attempt drop_digits
    match_classes is_digit split last_of normalize_vault_path strip_start strip_end
    is_excluded_by_folder is_included_by_folder any is_reserved_sync_path classify_sync_path
    contains equal is_macos_folder_icon has_hidden_segment starts_with extension_included
    get_extension cut_last build_conflict_copy_path split_extension file_name is_white attempt_text
    format_conflict_timestamp decimal pad_two
dot_copy_test = refl

abbrev one_note : Vault
one_note = record {
  files = λ file. if equal file note then some (1 ∷ []) else none;
  folders = codes "a" ∷ [];
}

one_note-listed :
    (file : Units)
    → writer.exists one_note file ≡ true
    → contains (note ∷ codes "a" ∷ []) file ≡ true
unfolding contains
one_note-listed file h = ground arith

-- The folder of the conflict copy is missing.
write_conflict_copy_example :
    (copy : Units) × (after : Vault) × (write_conflict_copy writer 3 one_note
        (codes "b/c/d.md")
        (2 ∷ [])
        noon
      ≡ some (copy, after))
    × (writer.exists one_note copy ≡ false)
    × (read after copy ≡ some (2 ∷ []))
    × ((file : Units) → writer.exists one_note file ≡ true → read after file ≡ read one_note file)
write_conflict_copy_example =
    write_conflict_copy_lem writer read writer-IsFileWriter one_note (note ∷ codes "a" ∷ [])
      (codes "b/c/d.md") (2 ∷ []) noon 3 one_note-listed (omega arith)

abbrev default_rules : VaultPathPolicyRules
default_rules = record {
  file_rules = default_sync_file_rules;
  vault_config_rules = default_vault_config_sync_rules;
}

apply-decide_example :
    (should_apply_remote_vault_path (λ s. s) note default_rules
      ≡ is_sync (decide_vault_path_sync (λ s. s) note default_rules))
    × (is_forbidden_vault_path note (codes ".obsidian")
        ≡ is_forbidden (decide_vault_path_sync (λ s. s) note default_rules))
apply-decide_example = apply-decide (λ s. s) note default_rules

abbrev stored_folders : List Item
stored_folders =
    string_item (codes "b/c")
    ∷ other_item
    ∷ string_item (codes " b/ ")
    ∷ string_item (codes "a")
    ∷ []

is_included-normalize_example :
    is_included_by_folder note
      (normalize_excluded_folders (λ left right. true) (array stored_folders))
    ≡ is_included_by_folder note (accepted_entries accepts_excluded stored_folders)
is_included-normalize_example = is_included-normalize (λ left right. true) note stored_folders

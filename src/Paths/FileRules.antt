-- ===== src/Paths/FileRules.antt =====
-- `core/file-rules.ts`: which notes and attachments are synced, and the stored rules. The two
-- tables of the language, `toLowerCase` and `localeCompare`, are parameters.
pub mod Folders
use syncali.Prelude.{
  Bool, true, false, not, ◌||◌, ◌&&◌, Option, none, some, List, [], ◌∷◌, ◌++◌, if◌then◌else◌,
}
use syncali.Paths.Units.{
  Units, codes, contains, equal, starts_with, strip_start, strip_end, split, last_of, cut_last,
  trim_units, any,
}
use syncali.Paths.Settings.{
  Item, string_item, other_item, Setting, flag, string, array, other, as_boolean,
}
use syncali.Paths.Marker.{conflict_pattern_test}
use syncali.Paths.Reserved.{is_reserved_sync_path}

abbrev pub image_extensions : List Units
image_extensions =
    codes "png"
    ∷ codes "jpg"
    ∷ codes "jpeg"
    ∷ codes "gif"
    ∷ codes "webp"
    ∷ codes "svg"
    ∷ codes "avif"
    ∷ codes "heic"
    ∷ codes "bmp"
    ∷ codes "ico"
    ∷ []

abbrev pub audio_extensions : List Units
audio_extensions =
    codes "mp3" ∷ codes "m4a" ∷ codes "wav" ∷ codes "flac" ∷ codes "ogg" ∷ codes "aac" ∷ []

abbrev pub video_extensions : List Units
video_extensions =
    codes "mp4" ∷ codes "mov" ∷ codes "mkv" ∷ codes "webm" ∷ codes "avi" ∷ codes "m4v" ∷ []

abbrev pub pdf_extensions : List Units
pdf_extensions = codes "pdf" ∷ []

pub record SyncFileRules : Type 0 where
  pub include_images : Bool
  pub include_audio : Bool
  pub include_videos : Bool
  pub include_pdf : Bool
  pub include_other_files : Bool
  pub excluded_folders : List Units
  pub included_hidden_folders : List Units

abbrev pub default_sync_file_rules : SyncFileRules
default_sync_file_rules = record {
  include_images = true;
  include_audio = true;
  include_videos = true;
  include_pdf = true;
  include_other_files = false;
  excluded_folders = [];
  included_hidden_folders = [];
}

unfoldable pub normalize_vault_path : Units → Units
normalize_vault_path path = strip_end (strip_start path)

-- A folder with what lies in it.
unfoldable pub covers : Units → Units → Bool
covers path folder = equal path folder || starts_with path (folder ++ codes "/")

unfoldable pub is_included_by_folder : Units → List Units → Bool
unfolding covers
is_included_by_folder path folders = any (covers path) folders

unfoldable pub is_excluded_by_folder : Units → List Units → Bool
is_excluded_by_folder path excluded_folders = is_included_by_folder path excluded_folders

unfoldable pub has_hidden_segment : Units → Bool
has_hidden_segment path = any (λ segment. starts_with segment (codes ".")) (split path)

unfoldable pub is_sync_conflict_file : Units → Bool
is_sync_conflict_file path = conflict_pattern_test (last_of (split path))

-- `add` of a `Set`, with its elements in the order in which they came.
abbrev pub add_seen : List Units → Units → List Units
add_seen seen path = if contains seen path then seen else seen ++ path ∷ []

-- The loop over an array: `accepts` is what the settings ask of a normalised folder.
unfoldable pub collect_folders : (Units → Bool) → List Units → List Item → List Units
collect_folders accepts seen [] = seen
collect_folders accepts seen (other_item ∷ items) = collect_folders accepts seen items
collect_folders accepts seen (string_item entry ∷ items) =
    let normalized = normalize_vault_path (trim_units entry) in
    collect_folders accepts (if not (accepts normalized) then seen else add_seen seen normalized)
      items

abbrev is_empty : Units → Bool
is_empty [] = true
is_empty (c ∷ s) = false

unfoldable pub accepts_excluded : Units → Bool
accepts_excluded normalized =
    not (is_empty normalized || (has_hidden_segment normalized || is_reserved_sync_path normalized))

unfoldable pub accepts_hidden : Units → Bool
accepts_hidden normalized = not (
    is_empty normalized
    || (not (has_hidden_segment normalized) || is_reserved_sync_path normalized))

unfoldable pub prune_from : List Units → List Units → List Units
prune_from result [] = result
prune_from result (path ∷ paths) =
    prune_from
      (if any (λ parent. starts_with path (parent ++ codes "/")) result
        then result
        else result ++ path ∷ [])
      paths

unfoldable pub prune_subpaths : List Units → List Units
unfolding prune_from
prune_subpaths sorted_paths = prune_from [] sorted_paths

-- `at_most left right` is `left.localeCompare(right) <= 0`; a stable sort by insertion.
module _ (at_most : Units → Units → Bool) where
  unfoldable pub insert_sorted : Units → List Units → List Units
  insert_sorted path [] = path ∷ []
  insert_sorted path (next ∷ rest) =
      if at_most path next then path ∷ next ∷ rest else next ∷ insert_sorted path rest

  unfoldable pub sort_paths : List Units → List Units
  sort_paths [] = []
  sort_paths (path ∷ paths) = insert_sorted path (sort_paths paths)

  unfoldable pub normalize_excluded_folders : Setting → List Units
  normalize_excluded_folders (array items) =
      prune_subpaths (sort_paths (collect_folders accepts_excluded [] items))
  normalize_excluded_folders (flag b) = []
  normalize_excluded_folders (string s) = []
  normalize_excluded_folders other = []

  unfoldable pub normalize_included_hidden_folders : Setting → List Units
  normalize_included_hidden_folders (array items) =
      prune_subpaths (sort_paths (collect_folders accepts_hidden [] items))
  normalize_included_hidden_folders (flag b) = []
  normalize_included_hidden_folders (string s) = []
  normalize_included_hidden_folders other = []

-- The fields of a stored value that is an object and no array.
pub record RawFileRules : Type 0 where
  pub include_images : Setting
  pub include_audio : Setting
  pub include_videos : Setting
  pub include_pdf : Setting
  pub include_other_files : Setting
  pub excluded_folders : Setting
  pub included_hidden_folders : Setting

-- `none` is every value that is not an object, and an array.
unfoldable pub normalize_sync_file_rules :
    (Units → Units → Bool) → Option RawFileRules → SyncFileRules
unfolding as_boolean
normalize_sync_file_rules at_most none = default_sync_file_rules
normalize_sync_file_rules at_most (some r) =
    let d = default_sync_file_rules in
    record {
      include_images = as_boolean r.include_images d.include_images;
      include_audio = as_boolean r.include_audio d.include_audio;
      include_videos = as_boolean r.include_videos d.include_videos;
      include_pdf = as_boolean r.include_pdf d.include_pdf;
      include_other_files = as_boolean r.include_other_files d.include_other_files;
      excluded_folders = normalize_excluded_folders at_most r.excluded_folders;
      included_hidden_folders = normalize_included_hidden_folders at_most r.included_hidden_folders;
    }

-- The decision by the type of the file.
unfoldable pub extension_included : Units → SyncFileRules → Bool
extension_included extension rules =
    if equal extension (codes "md")
    then true
    else if contains image_extensions extension
    then rules.include_images
    else if contains audio_extensions extension
    then rules.include_audio
    else if contains video_extensions extension
    then rules.include_videos
    else if contains pdf_extensions extension
    then rules.include_pdf
    else rules.include_other_files

module _ (to_lower_case : Units → Units) where
  unfoldable pub get_extension : Units → Units
  get_extension path = elim (cut_last b'.' (last_of (split path))) [
    | none ↦ []
    | some (stem, extension) ↦ to_lower_case extension
  ]

  -- `shouldSyncPath` on the normalised path.
  unfoldable pub should_sync_normalized : Units → SyncFileRules → Bool
  should_sync_normalized [] rules = false
  should_sync_normalized (c ∷ s) rules =
      let path = c ∷ s in
      if is_sync_conflict_file path
      then false
      else if is_excluded_by_folder path rules.excluded_folders
      then false
      else if is_reserved_sync_path path
      then false
      else if has_hidden_segment path
          && not (is_included_by_folder path rules.included_hidden_folders)
      then false
      else extension_included (get_extension path) rules

  unfoldable pub should_sync_path : Units → SyncFileRules → Bool
  should_sync_path path rules = should_sync_normalized (normalize_vault_path path) rules

-- ===== src/Paths/ConflictFile.antt =====
-- `core/conflict-file.ts`: the names of conflict copies, the search for one that is free, and the
-- way back from a copy to its file. The vault is behind `ConflictFileWriter`, the time zone
-- behind the fields of a local time: both are parameters.
pub mod Names
pub mod Stamp
pub mod Free
pub mod Copy
pub mod MemoryVault
pub mod Recognised
pub mod RoundTrip
use syncali.Prelude.{
  ℕ, zero, suc, ◌+◌, ◌-◌, Bool, true, false, not, ◌||◌, ◌&&◌, Option, none, some, List, [], ◌∷◌,
  ◌++◌, take, if◌then◌else◌, is_white, or_else,
}
use syncali.Paths.Units.{Units, codes, split, slice_from, cut_last, any}
use syncali.Paths.Marker.{marker_classes, match_classes, skip_attempt}
use syncali.Paths.Decimal.{decimal, pad_two, number}

-- What `getFullYear`, `getMonth`, `getDate`, … give for a `Date` in the local time zone. The month
-- counts from 1, as in the names: `getMonth() + 1`, and `Number(month)` before 1 is taken off.
pub record LocalTime : Type 0 where
  pub full_year : ℕ
  pub month : ℕ
  pub date : ℕ
  pub hours : ℕ
  pub minutes : ℕ
  pub seconds : ℕ

unfoldable pub format_conflict_timestamp : LocalTime → Units
format_conflict_timestamp t =
    decimal t.full_year
    ++ (pad_two (decimal t.month)
        ++ (pad_two (decimal t.date)
            ++ (b'-'
                ∷ (pad_two (decimal t.hours)
                    ++ (pad_two (decimal t.minutes) ++ pad_two (decimal t.seconds))))))

-- The folder of a path, with its slash, and the name in it; a folder of no name is dropped.
abbrev prefix_of : Option (Units × Units) → Units
prefix_of none = []
prefix_of (some ([], name)) = []
prefix_of (some (c ∷ parent, name)) = (c ∷ parent) ++ codes "/"

abbrev file_name_of : Units → Option (Units × Units) → Units
file_name_of path none = path
file_name_of path (some (parent, name)) = name

unfoldable pub file_name : Units → Units
file_name path = file_name_of path (cut_last b'/' path)

-- The stem and the extension with its dot, by the last dot of the name.
unfoldable pub stem_and_extension : Units → Option (Units × Units) → Units × Units
stem_and_extension name none = (name, [])
stem_and_extension name (some ([], behind)) = (name, [])
stem_and_extension name (some (c ∷ stem, behind)) =
    if any is_white (b'.' ∷ behind) then (name, []) else (c ∷ stem, b'.' ∷ behind)

unfoldable pub split_extension : Units → Units × Units
unfolding stem_and_extension
split_extension name = stem_and_extension name (cut_last b'.' name)

unfoldable pub attempt_text : ℕ → Units
attempt_text zero = []
attempt_text (suc n) = b'-' ∷ decimal (suc n + 1)

unfoldable pub copy_name : Units → Units → ℕ → Units
copy_name name timestamp attempt =
    let parts = split_extension name in
    parts.0 ++ (codes ".sync-conflict-" ++ (timestamp ++ (attempt_text attempt ++ parts.1)))

unfoldable pub build_conflict_copy_path : Units → Units → ℕ → Units
unfolding copy_name
build_conflict_copy_path path timestamp attempt =
    prefix_of (cut_last b'/' path) ++ copy_name (file_name path) timestamp attempt

-- The `while` loop of `getAvailableConflictCopyPath`, from an attempt on; `none` is lack of fuel.
unfoldable pub available_from : (Units → Bool) → Units → Units → ℕ → ℕ → Option Units
available_from exists path timestamp zero attempt = none
available_from exists path timestamp (suc fuel) attempt =
    let conflict_path = build_conflict_copy_path path timestamp attempt in
    let rest = available_from exists path timestamp fuel (attempt + 1) in
    if exists conflict_path then rest else some conflict_path

unfoldable pub get_available_conflict_copy_path :
    ℕ → (Units → Bool) → Units → LocalTime → Option Units
unfolding available_from
get_available_conflict_copy_path fuel exists path now =
    available_from exists path (format_conflict_timestamp now) fuel 0

-- `S` is the state of the vault behind the interface.
pub record ConflictFileWriter (S : Type 0) : Type 0 where
  pub exists : S → Units → Bool
  pub mkdir : S → Units → S
  pub write_binary : S → Units → Units → S

abbrev pub below : Units → Units → Units
below [] part = part
below (c ∷ current) part = (c ∷ current) ++ (b'/' ∷ part)

module _ {S : Type 0} (writer : ConflictFileWriter S) where
  abbrev pub make_missing : S → Units → S
  make_missing s path = if writer.exists s path then s else writer.mkdir s path

  -- The loop over `path.split("/").slice(0, -1)`: the last part is left out.
  unfoldable pub ensure_directories : S → Units → List Units → S
  ensure_directories s current [] = s
  ensure_directories s current (part ∷ []) = s
  ensure_directories s current ([] ∷ next ∷ parts) = ensure_directories s current (next ∷ parts)
  ensure_directories s current ((c ∷ part) ∷ next ∷ parts) =
      let inner = below current (c ∷ part) in
      ensure_directories (make_missing s inner) inner (next ∷ parts)

  unfoldable pub ensure_parent_directories : S → Units → S
  unfolding ensure_directories
  ensure_parent_directories s path = ensure_directories s [] (split path)

  abbrev pub write_at : S → Units → Units → S
  write_at s bytes conflict_path =
      writer.write_binary (ensure_parent_directories s conflict_path) conflict_path bytes

  abbrev pub write_found : S → Units → Option Units → Option (Units × S)
  write_found s bytes none = none
  write_found s bytes (some conflict_path) = some (conflict_path, write_at s bytes conflict_path)

  unfoldable pub write_conflict_copy : ℕ → S → Units → Units → LocalTime → Option (Units × S)
  unfolding ensure_parent_directories
  write_conflict_copy fuel s path bytes now =
      write_found s bytes (get_available_conflict_copy_path fuel (writer.exists s) path now)

pub record ParsedConflictCopy : Type 0 where
  pub original_path : Units
  pub detected_at : ℕ

abbrev pub one_further : ℕ → Option (Units × Units × Units) → Option (Units × Units × Units)
one_further c none = none
one_further c (some (before, matched, behind)) = some (c ∷ before, matched, behind)

abbrev pub found_here :
    Option Units → Units → Option (Units × Units × Units) → Option (Units × Units × Units)
found_here (some rest) s later = some ([], s, skip_attempt rest)
found_here none s later = later

-- Where `CONFLICT_MARKER.exec` finds its first match: what stands before it, the text from its
-- start on, and what stands behind it.
unfoldable pub find_marker : Units → Option (Units × Units × Units)
find_marker [] = none
find_marker (c ∷ s) =
    found_here (match_classes marker_classes (c ∷ s)) (c ∷ s) (one_further c (find_marker s))

-- The captured fields, at their places in the match.
unfoldable pub captured_time : Units → LocalTime
captured_time matched = record {
  full_year = number (take 4 (slice_from 15 matched));
  month = number (take 2 (slice_from 19 matched));
  date = number (take 2 (slice_from 21 matched));
  hours = number (take 2 (slice_from 24 matched));
  minutes = number (take 2 (slice_from 26 matched));
  seconds = number (take 2 (slice_from 28 matched));
}

-- `path.slice(0, slashIndex + 1)`
abbrev parent_of : Option (Units × Units) → Units
parent_of none = []
parent_of (some (parent, name)) = parent ++ codes "/"

-- `time_of` is `new Date(…).getTime()` at the captured fields, with `none` where that is not finite.
module _ (time_of : LocalTime → Option ℕ) where
  unfoldable pub parsed_copy : Units → Units × Units × Units → Option ParsedConflictCopy
  parsed_copy parent ([], matched, []) = none
  parsed_copy parent (before, matched, behind) = some (record {
    original_path = parent ++ (before ++ behind);
    detected_at = or_else (time_of (captured_time matched)) 0;
  })

  abbrev pub parsed_from : Units → Option (Units × Units × Units) → Option ParsedConflictCopy
  parsed_from parent none = none
  parsed_from parent (some found) = parsed_copy parent found

  unfoldable pub parse_conflict_copy_path : Units → Option ParsedConflictCopy
  unfolding parsed_copy captured_time
  parse_conflict_copy_path path =
      parsed_from (parent_of (cut_last b'/' path)) (find_marker (file_name path))

-- ===== src/Paths/Marker.antt =====
-- The regular expressions of `file-rules.ts` and `conflict-file.ts` for the marker in the name of
-- a conflict copy. `\d{8}-\d{6}` and `(\d{4})(\d{2})(\d{2})-(\d{2})(\d{2})(\d{2})` match the same
-- texts, of 30 units with `.sync-conflict-` before them.
use syncali.Prelude.{
  ℕ, Bool, true, false, not, ◌||◌, ◌&&◌, Option, none, some, List, [], ◌∷◌, ◌++◌, map, replicate,
  leb, ◌==◌, if◌then◌else◌,
}
use syncali.Paths.Units.{Units, codes}

unfoldable pub is_digit : ℕ → Bool
is_digit c = leb b'0' c && leb c b'9'

abbrev pub exactly : ℕ → ℕ → Bool
exactly c d = d == c

abbrev pub marker_classes : List (ℕ → Bool)
marker_classes =
    map exactly (codes ".sync-conflict-")
    ++ (replicate 8 is_digit ++ (exactly b'-' ∷ replicate 6 is_digit))

-- The rest behind a match of one unit for each class.
unfoldable pub match_classes : List (ℕ → Bool) → Units → Option Units
match_classes [] s = some s
match_classes (class ∷ classes) [] = none
match_classes (class ∷ classes) (c ∷ s) =
    let rest = match_classes classes s in if class c then rest else none

unfoldable pub drop_digits : Units → Units
drop_digits [] = []
drop_digits (c ∷ s) = let rest = drop_digits s in if is_digit c then rest else c ∷ s

-- The rest behind `(?:-\d+)?`, which takes as many digits as there are.
unfoldable pub skip_attempt : Units → Units
skip_attempt [] = []
skip_attempt (c ∷ []) = c ∷ []
skip_attempt (c ∷ d ∷ s) = if (c == b'-') && is_digit d then drop_digits s else c ∷ d ∷ s

unfoldable pub is_extension_text : Units → Bool
is_extension_text [] = true
is_extension_text (c ∷ s) = not (c == b'/') && (not (c == b'.') && is_extension_text s)

-- `(?:\.[^/.]+)?$`
unfoldable pub is_optional_extension : Units → Bool
is_optional_extension [] = true
is_optional_extension (c ∷ []) = false
is_optional_extension (c ∷ d ∷ s) = (c == b'.') && is_extension_text (d ∷ s)

-- `SYNC_CONFLICT_FILE_PATTERN` from the start of `s`. Fewer digits for the attempt would leave
-- a digit, and no attempt a dash, where the extension or the end has to stand.
unfoldable pub conflict_pattern_here : Units → Bool
conflict_pattern_here s = elim (match_classes marker_classes s) [
  | none ↦ false
  | some rest ↦ is_optional_extension (skip_attempt rest)
]

-- `SYNC_CONFLICT_FILE_PATTERN.test(s)`: a match from any position.
unfoldable pub conflict_pattern_test : Units → Bool
conflict_pattern_test [] = conflict_pattern_here []
conflict_pattern_test (c ∷ s) = conflict_pattern_here (c ∷ s) || conflict_pattern_test s

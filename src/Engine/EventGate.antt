-- ===== src/Engine/EventGate.antt =====
-- event-gate.ts of the sync engine: paths whose file events are ignored while an action runs. An
-- action is awaited between the two loops of `suppressPaths`, so other actions begin and end in
-- between: the two loops are two steps.
use syncali.Prelude.{
  ℕ, ◌+◌, ◌-◌, String, Bool, false, ◌||◌, Option, none, some, List, [], ◌∷◌, ◌++◌, leb, ◌==◌,
  if◌then◌else◌, is_some, or_else, same, has, trim, truthy,
}

-- `counts`
abbrev pub Counts : Type 0
Counts = String → Option ℕ

abbrev pub is_suppressed : Counts → String → Bool
is_suppressed counts path = is_some (counts path)

unfoldable pub is_non_empty_path : Option String → Bool
unfolding trim
is_non_empty_path none = false
is_non_empty_path (some path) = is_some (truthy (some (trim path)))

-- `[...new Set(paths.filter(isNonEmptyPath))]`, where `seen` is in the set already.
unfoldable pub unique_paths : List String → List (Option String) → List String
unfolding is_non_empty_path has
unique_paths seen [] = []
unique_paths seen (none ∷ paths) = unique_paths seen paths
unique_paths seen (some p ∷ paths) =
    let skipped = unique_paths seen paths in
    let added = p ∷ unique_paths (p ∷ seen) paths in
    if is_non_empty_path (some p) then (if has seen p then skipped else added) else skipped

-- counts.set(path, n), and counts.delete(path)
abbrev pub set_count : String → Option ℕ → Counts → Counts
set_count path n counts q = if same q path then n else counts q

abbrev pub count_up : String → Counts → Counts
count_up path counts = set_count path (some (or_else (counts path) 0 + 1)) counts

abbrev pub count_down : String → Counts → Counts
count_down path counts =
    let next = or_else (counts path) 1 - 1 in
    set_count path (if leb next 0 then none else some next) counts

unfoldable pub count_all_up : List String → Counts → Counts
count_all_up [] counts = counts
count_all_up (p ∷ ps) counts = count_all_up ps (count_up p counts)

unfoldable pub count_all_down : List String → Counts → Counts
count_all_down [] counts = counts
count_all_down (p ∷ ps) counts = count_all_down ps (count_down p counts)

abbrev pub no_counts : Counts
no_counts path = none

-- What actions that run at the same time lead to: the counts, and the paths of each action that
-- has begun and not ended.
pub data Reachable : Counts → List (List String) → Type 0 where
  fresh : Reachable no_counts []
  begins :
      {counts : Counts} {running : List (List String)} (paths : List (Option String))
      → Reachable counts running
      → Reachable (count_all_up (unique_paths [] paths) counts) (unique_paths [] paths ∷ running)
  ends :
      {counts : Counts} (earlier : List (List String)) (ps : List String)
      (later : List (List String))
      → Reachable counts (earlier ++ ps ∷ later)
      → Reachable (count_all_down ps counts) (earlier ++ later)

-- Some running action names the path.
unfoldable pub is_named : List (List String) → String → Bool
unfolding has
is_named [] path = false
is_named (ps ∷ running) path = has ps path || is_named running path

abbrev once : String → String → ℕ
once q p = if same q p then 1 else 0

unfoldable times : String → List String → ℕ
times q [] = 0
times q (p ∷ ps) = once q p + times q ps

unfoldable total : String → List (List String) → ℕ
unfolding times
total q [] = 0
total q (ps ∷ running) = times q ps + total q running

abbrev positive : ℕ → Option ℕ
positive n = if n == 0 then none else some n

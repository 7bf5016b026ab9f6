-- ===== src/Paths/ConflictFile/RoundTrip.antt =====
-- The name of a copy leads back to its file: the marker is found behind the stem, and what stands
-- around it is the name of the file.
use mathlib.Core.List.{append_assoc}
use syncali.Prelude.{
  ℕ, zero, suc, ◌+◌, ◌≡◌, ◌≢◌, refl, sym, ap, ap₂, ◌∙◌, inl, inr, Option, none, some, List, [], ◌∷◌,
  ◌++◌, Bool, false, arith, ◌==◌, Bool-cases, Option-cases, All, or_else, replicate, map,
}
use syncali.Paths.Units.{Units, codes, cut_last, starts_with}
use syncali.Paths.Units.Cuts.{Lacks, cut_last-append, cut_last-some}
use syncali.Paths.Marker.{
  is_digit, exactly, marker_classes, match_classes, drop_digits, skip_attempt,
}
use syncali.Paths.Decimal.{decimal, decimal-IsDigit, decimal-cons, IsDigit}
use syncali.Paths.ConflictFile.{
  LocalTime, build_conflict_copy_path, copy_name, attempt_text, split_extension, file_name,
  prefix_of, parent_of, find_marker, found_here, one_further, captured_time, parsed_copy,
  parsed_from, parse_conflict_copy_path, format_conflict_timestamp,
}
use syncali.Paths.ConflictFile.Names.{
  split_extension-append, split_extension-dot, copy_name-Lacks, file_name-Lacks,
}
use syncali.Paths.ConflictFile.Stamp.{
  IsCalendarTime, stamp, format_conflict_timestamp-stamp, format_conflict_timestamp-Lacks,
  match_marker-stamp, captured_time-stamp,
}

abbrev classes_behind_dot : List (ℕ → Bool)
classes_behind_dot =
    map exactly (codes "sync-conflict-")
    ++ (replicate 8 is_digit ++ (exactly b'-' ∷ replicate 6 is_digit))

no_dots : All (λ (class : ℕ → Bool). class b'.' ≡ false) classes_behind_dot
unfolding is_digit
no_dots = ground arith

match_classes-dot :
    (classes : List (ℕ → Bool)) (s rest : Units)
    → All (λ (class : ℕ → Bool). class b'.' ≡ false) classes
    → match_classes classes s ≡ none
    → match_classes classes (s ++ (b'.' ∷ rest)) ≡ none
unfolding match_classes
match_classes-dot [] s rest d h = cc
match_classes-dot (class ∷ classes) [] rest d h = rw (d.0) refl
match_classes-dot (class ∷ classes) (c ∷ s) rest d h = elim (Bool-cases (class c)) [
  | inl fits ↦ rw fits (match_classes-dot classes s rest d.1 (let k = rw fits at h in k))
  | inr differs ↦ rw differs refl
]

match_classes-append :
    (classes : List (ℕ → Bool)) (s rest t : Units)
    → match_classes classes s ≡ some rest
    → match_classes classes (s ++ t) ≡ some (rest ++ t)
unfolding match_classes
match_classes-append [] s rest t h = ground arith
match_classes-append (class ∷ classes) [] rest t h = cc
match_classes-append (class ∷ classes) (c ∷ s) rest t h = elim (Bool-cases (class c)) [
  | inl fits ↦ rw fits (match_classes-append classes s rest t (let k = rw fits at h in k))
  | inr differs ↦ let k = rw differs at h in cc
]

one_further-none : (c : ℕ) (o : Option (Units × Units × Units)) → one_further c o ≡ none → o ≡ none
one_further-none c none h = refl
one_further-none c (some (before, matched, behind)) h = cc

find_marker-here :
    (c : ℕ) (s rest : Units)
    → match_classes marker_classes (c ∷ s) ≡ some rest
    → find_marker (c ∷ s) ≡ some ([], c ∷ s, skip_attempt rest)
unfolding find_marker
find_marker-here c s rest h = ap (λ o. found_here o (c ∷ s) (one_further c (find_marker s))) h

find_marker-later :
    (c : ℕ) (s : Units)
    → match_classes marker_classes (c ∷ s) ≡ none
    → find_marker (c ∷ s) ≡ one_further c (find_marker s)
unfolding find_marker
find_marker-later c s h = ap (λ o. found_here o (c ∷ s) (one_further c (find_marker s))) h

find_marker-none :
    (c : ℕ) (s : Units)
    → find_marker (c ∷ s) ≡ none
    → (match_classes marker_classes (c ∷ s) ≡ none) × (find_marker s ≡ none)
find_marker-none c s h = elim (Option-cases (match_classes marker_classes (c ∷ s))) [
  | inl nothing ↦
      (nothing, one_further-none c (find_marker s) (sym (find_marker-later c s nothing) ∙ h))
  | inr (rest, e) ↦ let k = sym (find_marker-here c s rest e) ∙ h in cc
]

-- A marker in a part would be one in the whole.
find_marker-prefix : (s t : Units) → find_marker (s ++ t) ≡ none → find_marker s ≡ none
find_marker-prefix [] t h = unfold find_marker in refl
find_marker-prefix (c ∷ s) t h =
    let (here, later) = find_marker-none c (s ++ t) h in
    elim (Option-cases (match_classes marker_classes (c ∷ s))) [
      | inl nothing ↦
          find_marker-later c s nothing ∙ ap (one_further c) (find_marker-prefix s t later)
      | inr (rest, e) ↦
          let k = sym (match_classes-append marker_classes (c ∷ s) rest t e) ∙ here in cc
    ]

match_marker-stem :
    (c : ℕ) (s rest : Units)
    → match_classes marker_classes (c ∷ s) ≡ none
    → match_classes marker_classes (c ∷ (s ++ (b'.' ∷ rest))) ≡ none
unfolding match_classes
match_marker-stem c s rest h = elim (Bool-cases (c == b'.')) [
  | inl dot ↦
      rw dot (match_classes-dot classes_behind_dot s rest no_dots (let k = rw dot at h in k))
  | inr other ↦ rw other refl
]

-- Behind a stem without a marker, the first marker is the one that follows.
find_marker-stem :
    (stem rest behind : Units)
    → find_marker stem ≡ none
    → match_classes marker_classes (b'.' ∷ rest) ≡ some behind
    → find_marker (stem ++ (b'.' ∷ rest)) ≡ some (stem, b'.' ∷ rest, skip_attempt behind)
find_marker-stem [] rest behind h m = find_marker-here b'.' rest behind m
find_marker-stem (c ∷ s) rest behind h m =
    let (here, later) = find_marker-none c s h in
    find_marker-later c (s ++ (b'.' ∷ rest)) (match_marker-stem c s rest here)
    ∙ ap (one_further c) (find_marker-stem s rest behind later m)

drop_digits-append : (s t : Units) → All IsDigit s → drop_digits t ≡ t → drop_digits (s ++ t) ≡ t
unfolding drop_digits
drop_digits-append [] t h k = k
drop_digits-append (c ∷ s) t h k = rw (h.0, drop_digits-append s t h.1 k) refl

skip_attempt-digits :
    (s t : Units) → All IsDigit s → s ≢ [] → drop_digits t ≡ t → skip_attempt (b'-' ∷ (s ++ t)) ≡ t
unfolding skip_attempt
skip_attempt-digits [] t h ne k = absurd (ne refl)
skip_attempt-digits (c ∷ s) t h ne k = rw (h.0) (drop_digits-append s t h.1 k)

skip_attempt-none : (e : Units) → skip_attempt (b'.' ∷ e) ≡ b'.' ∷ e
unfolding skip_attempt
skip_attempt-none [] = refl
skip_attempt-none (c ∷ e) = refl

decimal-ne-nil : (n : ℕ) → decimal n ≢ []
decimal-ne-nil n h = let (c, t, e) = decimal-cons n in cc

-- The attempt is skipped, and the extension is left.
pub skip_attempt-attempt_text :
    (n : ℕ) (name : Units)
    → skip_attempt (attempt_text n ++ (split_extension name).1) ≡ (split_extension name).1
unfolding attempt_text
skip_attempt-attempt_text zero name = elim (split_extension-dot name) [
  | inl no_extension ↦ rw no_extension (unfold skip_attempt in refl)
  | inr (e, dotted, plain) ↦ rw dotted (skip_attempt-none e)
]
skip_attempt-attempt_text (suc n) name = elim (split_extension-dot name) [
  | inl no_extension ↦ rw no_extension (
      skip_attempt-digits (decimal (suc n + 1)) [] (decimal-IsDigit (suc n + 1))
        (decimal-ne-nil (suc n + 1)) (unfold drop_digits in refl))
  | inr (e, dotted, plain) ↦ rw dotted (
      skip_attempt-digits (decimal (suc n + 1)) (b'.' ∷ e) (decimal-IsDigit (suc n + 1))
        (decimal-ne-nil (suc n + 1)) (unfold drop_digits is_digit in refl))
]

find_marker-copy_name :
    (name : Units) (t : LocalTime) (n : ℕ)
    → IsCalendarTime t
    → find_marker name ≡ none
    → (matched : Units) × (find_marker (copy_name name (format_conflict_timestamp t) n)
        ≡ some ((split_extension name).0, matched, (split_extension name).1))
      × (captured_time matched ≡ t)
unfolding copy_name
find_marker-copy_name name t n v h =
    let parts = split_extension name in
    let rest = attempt_text n ++ parts.1 in
    let stem = find_marker-prefix parts.0 parts.1 (rw (split_extension-append name) h) in
    (
      codes ".sync-conflict-" ++ stamp t rest,
      rw (format_conflict_timestamp-stamp t rest v) (
          find_marker-stem parts.0 (codes "sync-conflict-" ++ stamp t rest) rest stem
            (match_marker-stamp t rest v)
          ∙ rw (skip_attempt-attempt_text n name) refl),
      captured_time-stamp t rest v,
    )

-- Folder and name of a folder part with any name behind it.
pub file_name-prefix :
    (cut : Option (Units × Units)) (name : Units)
    → Lacks b'/' name
    → (file_name (prefix_of cut ++ name) ≡ name)
      × (parent_of (cut_last b'/' (prefix_of cut ++ name)) ≡ prefix_of cut)
unfolding file_name
file_name-prefix none name h = rw h (refl, refl)
file_name-prefix (some ([], _)) name h = rw h (refl, refl)
file_name-prefix (some (c ∷ parent, _)) name h =
    rw (append_assoc (c ∷ parent) (codes "/") name, cut_last-append b'/' (c ∷ parent) name h)
      (refl, refl)

prefix_of-file_name :
    (path : Units)
    → starts_with path (codes "/") ≡ false
    → prefix_of (cut_last b'/' path) ++ file_name path ≡ path
unfolding file_name starts_with
prefix_of-file_name path h = elim (Option-cases (cut_last b'/' path)) [
  | inl nothing ↦ rw nothing refl
  | inr (([], name), e) ↦
      absurd (let k = rw (cut_last-some b'/' path [] name e).0 at h in ground arith)
  | inr ((c ∷ parent, name), e) ↦ rw e (
      append_assoc (c ∷ parent) (codes "/") name
      ∙ sym (cut_last-some b'/' path (c ∷ parent) name e).0)
]

parsed_copy-some :
    (time_of : LocalTime → Option ℕ) (parent before matched behind : Units)
    → before ++ behind ≢ []
    → parsed_copy time_of parent (before, matched, behind)
      ≡ some (record {
        original_path = parent ++ (before ++ behind);
        detected_at = or_else (time_of (captured_time matched)) 0;
      })
unfolding parsed_copy
parsed_copy-some time_of parent [] matched [] ne = absurd (ne refl)
parsed_copy-some time_of parent [] matched (c ∷ behind) ne = refl
parsed_copy-some time_of parent (c ∷ before) matched behind ne = refl

-- A conflict copy's name leads back to the path and the time that it was made from, at every
-- attempt: for a path that does not start with a slash and has a file name without a marker of
-- its own, and a time whose year has four digits and whose other fields have at most two.
pub parse-build_conflict_copy_path :
    (time_of : LocalTime → Option ℕ) (path : Units) (t : LocalTime) (attempt : ℕ)
    → IsCalendarTime t
    → starts_with path (codes "/") ≡ false
    → file_name path ≢ []
    → find_marker (file_name path) ≡ none
    → parse_conflict_copy_path time_of
        (build_conflict_copy_path path (format_conflict_timestamp t) attempt)
      ≡ some (record { original_path = path; detected_at = or_else (time_of t) 0 })
unfolding parse_conflict_copy_path build_conflict_copy_path
parse-build_conflict_copy_path time_of path t attempt v start named fresh =
    let name = file_name path in
    let parts = split_extension name in
    let lacks =
      copy_name-Lacks name (format_conflict_timestamp t) attempt (file_name-Lacks path)
        (format_conflict_timestamp-Lacks t v) in
    let (file, folder) = file_name-prefix (cut_last b'/' path) _ lacks in
    let (matched, found, time) = find_marker-copy_name name t attempt v fresh in
    let parent = prefix_of (cut_last b'/' path) in
    ap₂ (parsed_from time_of) folder (ap find_marker file ∙ found)
    ∙ parsed_copy-some time_of parent parts.0 matched parts.1
        (λ e. named (sym (split_extension-append name) ∙ e))
    ∙ rw (split_extension-append name, time, prefix_of-file_name path start) refl

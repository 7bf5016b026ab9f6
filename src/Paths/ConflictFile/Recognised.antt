-- ===== src/Paths/ConflictFile/Recognised.antt =====
-- Conflict copies are never synced as files of their own, whatever the rules say.
use mathlib.Core.List.{append_assoc}
use syncali.Prelude.{
  ℕ, ◌≡◌, ◌≢◌, refl, sym, ap, ◌∙◌, inl, inr, Option, none, some, [], ◌∷◌, ◌++◌, subst, true, false,
  Bool-cases,
}
use syncali.Paths.Units.{Units, codes, cut_last, split, last_of, strip_start, strip_end}
use syncali.Paths.Units.Cuts.{
  Lacks, Lacks-cons, Lacks-split, last_of-split, last_of-split_name, strip_end-append,
  strip_start-Lacks, strip_start-folder,
}
use syncali.Paths.Marker.{
  marker_classes, match_classes, skip_attempt, is_optional_extension, is_extension_text,
  conflict_pattern_here, conflict_pattern_test,
}
use syncali.Paths.FileRules.{
  SyncFileRules, is_sync_conflict_file, should_sync_path, should_sync_normalized,
  normalize_vault_path,
}
use syncali.Paths.ConflictFile.{
  LocalTime, build_conflict_copy_path, copy_name, attempt_text, split_extension, file_name,
  prefix_of, format_conflict_timestamp,
}
use syncali.Paths.ConflictFile.Names.{
  split_extension-append, split_extension-dot, copy_name-Lacks, file_name-Lacks, copy_name-cons,
}
use syncali.Paths.ConflictFile.Stamp.{
  IsCalendarTime, stamp, format_conflict_timestamp-stamp, format_conflict_timestamp-Lacks,
  match_marker-stamp,
}
use syncali.Paths.ConflictFile.RoundTrip.{skip_attempt-attempt_text}

is_extension_text-Lacks : (e : Units) → Lacks b'.' e → Lacks b'/' e → is_extension_text e ≡ true
unfolding is_extension_text
is_extension_text-Lacks [] h k = refl
is_extension_text-Lacks (c ∷ e) h k =
    let (dot, dots) = Lacks-cons b'.' c e h in
    let (slash, slashes) = Lacks-cons b'/' c e k in
    rw (dot, slash) (is_extension_text-Lacks e dots slashes)

conflict_pattern_here-some :
    (s rest : Units)
    → match_classes marker_classes s ≡ some rest
    → is_optional_extension (skip_attempt rest) ≡ true
    → conflict_pattern_here s ≡ true
unfolding conflict_pattern_here
conflict_pattern_here-some s rest m h = rw (m, conflict_pattern_here) h

conflict_pattern_test-append :
    (s t : Units) → conflict_pattern_here t ≡ true → conflict_pattern_test (s ++ t) ≡ true
unfolding conflict_pattern_test
conflict_pattern_test-append [] [] h = h
conflict_pattern_test-append [] (c ∷ t) h = rw h refl
conflict_pattern_test-append (c ∷ s) t h =
    elim (Bool-cases (conflict_pattern_here (c ∷ (s ++ t)))) [
      | inl here ↦ rw here refl
      | inr later ↦ rw later (conflict_pattern_test-append s t h)
    ]

-- The extension of a name is one that the pattern allows, unless it is a dot alone.
extension-is_optional :
    (name : Units)
    → Lacks b'/' name
    → (split_extension name).1 ≢ codes "."
    → is_optional_extension (split_extension name).1 ≡ true
unfolding is_optional_extension
extension-is_optional name h ne = elim (split_extension-dot name) [
  | inl no_extension ↦ rw no_extension refl
  | inr ([], dotted, plain) ↦ absurd (ne dotted)
  | inr (c ∷ e, dotted, plain) ↦
      let parts = split_extension name in
      let joined : Lacks b'/' (parts.0 ++ parts.1) = rw (split_extension-append name) h in
      let extension = (Lacks-split b'/' parts.0 parts.1 joined).1 in
      let slashes = rw dotted at extension in
      rw dotted (is_extension_text-Lacks (c ∷ e) plain (Lacks-cons b'/' b'.' (c ∷ e) slashes).1)
]

copy_name-pattern :
    (name : Units) (t : LocalTime) (n : ℕ)
    → IsCalendarTime t
    → Lacks b'/' name
    → (split_extension name).1 ≢ codes "."
    → conflict_pattern_test (copy_name name (format_conflict_timestamp t) n) ≡ true
unfolding copy_name
copy_name-pattern name t n v h ne =
    let parts = split_extension name in
    let rest = attempt_text n ++ parts.1 in
    rw (format_conflict_timestamp-stamp t rest v) (
      conflict_pattern_test-append parts.0 (codes ".sync-conflict-" ++ stamp t rest) (
        conflict_pattern_here-some _ rest (match_marker-stamp t rest v)
          (rw (skip_attempt-attempt_text n name) (extension-is_optional name h ne))))

-- The name is the last part of the path, also with the slashes at both ends taken off.
last_of-strip :
    (cut : Option (Units × Units)) (c : ℕ) (name : Units)
    → Lacks b'/' (c ∷ name)
    → last_of (split (strip_end (strip_start (prefix_of cut ++ (c ∷ name))))) ≡ c ∷ name
last_of-strip none c name h =
    rw (strip_start-Lacks (c ∷ name) h, strip_end-append [] c name h)
      (last_of-split_name (c ∷ name) h)
last_of-strip (some ([], _)) c name h =
    rw (strip_start-Lacks (c ∷ name) h, strip_end-append [] c name h)
      (last_of-split_name (c ∷ name) h)
last_of-strip (some (d ∷ parent, _)) c name h =
    rw (append_assoc (d ∷ parent) (codes "/") (c ∷ name))
      (elim (strip_start-folder (d ∷ parent) (c ∷ name) h) [
        | inl bare ↦ rw (bare, strip_end-append [] c name h) (last_of-split_name (c ∷ name) h)
        | inr (r, e) ↦
            rw
              (
                e,
                ← append_assoc r (codes "/") (c ∷ name),
                strip_end-append (r ++ codes "/") c name h,
                append_assoc r (codes "/") (c ∷ name),
              )
              (last_of-split r (c ∷ name) h)
      ])

should_sync_normalized-conflict :
    (to_lower_case : Units → Units) (s : Units) (rules : SyncFileRules)
    → is_sync_conflict_file s ≡ true
    → should_sync_normalized to_lower_case s rules ≡ false
unfolding should_sync_normalized
should_sync_normalized-conflict to_lower_case [] rules h = refl
should_sync_normalized-conflict to_lower_case (c ∷ s) rules h = rw h refl

-- No file rules sync the conflict copy of any path at any attempt: for a name whose extension is
-- not a dot alone, and a time whose year has four digits and whose other fields have at most two.
pub should_sync_path-build_conflict_copy_path :
    (to_lower_case : Units → Units) (rules : SyncFileRules) (path : Units) (t : LocalTime)
    (attempt : ℕ)
    → IsCalendarTime t
    → (split_extension (file_name path)).1 ≢ codes "."
    → should_sync_path to_lower_case
        (build_conflict_copy_path path (format_conflict_timestamp t) attempt)
        rules
      ≡ false
unfolding should_sync_path build_conflict_copy_path normalize_vault_path
should_sync_path-build_conflict_copy_path to_lower_case rules path t attempt v ne =
    let stamped = format_conflict_timestamp t in
    let lacks =
      copy_name-Lacks (file_name path) stamped attempt (file_name-Lacks path)
        (format_conflict_timestamp-Lacks t v) in
    let (c, s, e) = copy_name-cons (file_name path) stamped attempt in
    let copy = copy_name (file_name path) stamped attempt in
    let cut = cut_last b'/' path in
    let last : last_of (split (strip_end (strip_start (prefix_of cut ++ copy)))) ≡ copy =
      subst (λ u. last_of (split (strip_end (strip_start (prefix_of cut ++ u)))) ≡ u) (sym e)
        (last_of-strip cut c s (subst (Lacks b'/') e lacks)) in
    should_sync_normalized-conflict to_lower_case _ rules (
      unfold is_sync_conflict_file in
      (ap conflict_pattern_test last
        ∙ copy_name-pattern (file_name path) t attempt v (file_name-Lacks path) ne))

-- ===== src/Engine/PullPlan/Collision.antt =====
-- The conflict path of an entry whose path is taken: free in the vault, and not promised to
-- another entry of the plan.
use syncali.Prelude.{
  ℕ, zero, suc, ◌+◌, ◌<◌, ◌≡◌, ◌≢◌, refl, sym, ◌∙◌, Option, none, some, Bool, true, false, ◌||◌,
  List, [], ◌∷◌, ◌++◌, length, length-append, arith, if◌then◌else◌, Bool-cases, inl, inr,
}
use syncali.Paths.Units.{Units, contains}
use syncali.Paths.ConflictFile.{LocalTime, get_available_conflict_copy_path}
use syncali.Paths.ConflictFile.Free.{get_available_conflict_copy_path_lem}
use syncali.Paths.ConflictFile.Names.{build_conflict_copy_path-ne-nil}
use syncali.Engine.PullPlan.{ReservedPaths, reserved_by, is_reserved}

module _ (exists : Units → Bool) (now : LocalTime) (fuel : ℕ) where
  -- The loop `while (reservedPaths.has(conflictPath))`.
  unfoldable pub leave_reserved : ℕ → ReservedPaths → Units → Option Units → Option Units
  leave_reserved rounds reserved path none = none
  leave_reserved zero reserved path (some conflict_path) = none
  leave_reserved (suc rounds) reserved path (some conflict_path) =
      let rest = leave_reserved rounds reserved path (
        get_available_conflict_copy_path fuel
          (λ candidate. is_reserved reserved candidate || exists candidate) path now) in
      if is_reserved reserved conflict_path then rest else some conflict_path

  unfoldable pub collision_path : ReservedPaths → Units → Option Units
  collision_path reserved path =
      leave_reserved fuel reserved path (get_available_conflict_copy_path fuel exists path now)

abbrev pub keys : ReservedPaths → List Units
keys [] = []
keys ((path, id) ∷ reserved) = path ∷ keys reserved

reserved-contains :
    (reserved : ReservedPaths) (files : List Units) (path : Units)
    → is_reserved reserved path ≡ true
    → contains (keys reserved ++ files) path ≡ true
unfolding reserved_by contains
reserved-contains [] files path h = cc
reserved-contains ((own, id) ∷ reserved) files path h =
    ground (arith, reserved-contains reserved files path)

files-contains :
    (paths files : List Units) (path : Units)
    → contains files path ≡ true
    → contains (paths ++ files) path ≡ true
unfolding contains
files-contains [] files path h = h
files-contains (own ∷ paths) files path h = ground (arith, files-contains paths files path h)

length-keys : (reserved : ReservedPaths) → length (keys reserved) ≡ length reserved
length-keys [] = refl
length-keys ((path, id) ∷ reserved) = omega (arith, length-keys reserved)

-- With fuel above the number of files and promised paths there is a conflict path, which no file
-- has and which is promised to nobody.
pub collision_path_lem :
    (exists : Units → Bool) (now : LocalTime) (fuel : ℕ) (files : List Units)
    (reserved : ReservedPaths) (path : Units)
    → ((file : Units) → exists file ≡ true → contains files file ≡ true)
    → length reserved + length files + 1 < fuel
    → (free : Units) × (collision_path exists now fuel reserved path ≡ some free)
      × (exists free ≡ false)
      × (is_reserved reserved free ≡ false)
      × (free ≢ [])
unfolding collision_path leave_reserved
collision_path_lem exists now zero files reserved path listed enough = elim enough [ ]
collision_path_lem exists now (suc zero) files reserved path listed enough = absurd (omega arith)
collision_path_lem exists now (suc (suc fuel)) files reserved path listed enough =
    let taken : Units → Bool = λ candidate. is_reserved reserved candidate || exists candidate in
    let (first, n, found, named, free, before) =
      get_available_conflict_copy_path_lem exists files path now (suc (suc fuel)) listed
        (omega arith) in
    let (second, n', found', named', free', before') =
      get_available_conflict_copy_path_lem taken (keys reserved ++ files) path now (suc (suc fuel))
        (λ file h. elim (Bool-cases (is_reserved reserved file)) [
          | inl promised ↦ reserved-contains reserved files file promised
          | inr other ↦ files-contains (keys reserved) files file (listed file (ground arith))
        ])
        (omega (arith, length-append {0} (keys reserved) files, length-keys reserved)) in
    elim (Bool-cases (is_reserved reserved first)) [
      | inl promised ↦ (
        second,
        rw (found, promised, found') (rw found' (ground arith)),
        ground arith,
        ground arith,
        λ h. build_conflict_copy_path-ne-nil path _ n' (sym named' ∙ h),
      )
      | inr unpromised ↦ (
        first,
        rw found (rw unpromised refl),
        free,
        unpromised,
        λ h. build_conflict_copy_path-ne-nil path _ n (sym named ∙ h),
      )
    ]

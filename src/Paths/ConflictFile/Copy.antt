-- ===== src/Paths/ConflictFile/Copy.antt =====
-- Writing a conflict copy: it is written in full under a name of its own, and no file that was
-- there is changed.
use syncali.Prelude.{
  ℕ, ◌<◌, ◌≡◌, ◌≢◌, refl, ap, ◌∙◌, Option, some, List, [], ◌∷◌, true, false, Bool-cases, inl, inr,
  length, All,
}
use syncali.Paths.Units.{Units, contains, split}
use syncali.Paths.ConflictFile.{
  LocalTime, ConflictFileWriter, ensure_directories, ensure_parent_directories, write_conflict_copy,
  write_found, below, make_missing,
}
use syncali.Paths.ConflictFile.Free.{get_available_conflict_copy_path_lem}

-- The folders that a path of these parts lies in, from the top down. Empty parts name none.
unfoldable pub folders_above : (current : Units) → (parts : List Units) → List Units
folders_above current [] = []
folders_above current (part ∷ []) = []
folders_above current ([] ∷ next ∷ parts) = folders_above current (next ∷ parts)
folders_above current ((c ∷ part) ∷ next ∷ parts) =
    below current (c ∷ part) ∷ folders_above (below current (c ∷ part)) (next ∷ parts)

-- What the adapter of the vault promises: `read` is the content of a file. Making a folder makes it
-- be there, removes nothing and changes no file. Writing a file sets its content where all folders
-- that it lies in are there, and changes no other file; elsewhere it may do nothing.
pub record IsFileWriter {S : Type 0} (writer : ConflictFileWriter S)
    (read : S → Units → Option Units) : Type 0 where
  pub mkdir_keeps : (s : S) (folder path : Units) → read (writer.mkdir s folder) path ≡ read s path
  pub mkdir_makes : (s : S) (folder : Units) → writer.exists (writer.mkdir s folder) folder ≡ true
  pub mkdir_stays :
      (s : S) (folder path : Units)
      → writer.exists s path ≡ true
      → writer.exists (writer.mkdir s folder) path ≡ true
  pub write_sets :
      (s : S) (path bytes : Units)
      → All (λ folder. writer.exists s folder ≡ true) (folders_above [] (split path))
      → read (writer.write_binary s path bytes) path ≡ some bytes
  pub write_keeps :
      (s : S) (path bytes other : Units)
      → other ≢ path
      → read (writer.write_binary s path bytes) other ≡ read s other

module _ {S : Type 0} (writer : ConflictFileWriter S) (read : S → Units → Option Units)
    (law : IsFileWriter writer read) where
  make_missing-keeps :
      (s : S) (folder path : Units) → read (make_missing writer s folder) path ≡ read s path
  make_missing-keeps s folder path = elim (Bool-cases (writer.exists s folder)) [
    | inl there ↦ rw there refl
    | inr missing ↦ rw missing (law.mkdir_keeps s folder path)
  ]

  ensure_directories-keeps :
      (parts : List Units) (s : S) (current path : Units)
      → read (ensure_directories writer s current parts) path ≡ read s path
  unfolding ensure_directories
  ensure_directories-keeps [] s current path = refl
  ensure_directories-keeps (part ∷ []) s current path = refl
  ensure_directories-keeps ([] ∷ next ∷ parts) s current path =
      ensure_directories-keeps (next ∷ parts) s current path
  ensure_directories-keeps ((c ∷ part) ∷ next ∷ parts) s current path =
      let inner = below current (c ∷ part) in
      ensure_directories-keeps (next ∷ parts) (make_missing writer s inner) inner path
      ∙ make_missing-keeps s inner path

  make_missing-stays :
      (s : S) (folder path : Units)
      → writer.exists s path ≡ true
      → writer.exists (make_missing writer s folder) path ≡ true
  make_missing-stays s folder path h = elim (Bool-cases (writer.exists s folder)) [
    | inl there ↦ rw there h
    | inr missing ↦ rw missing (law.mkdir_stays s folder path h)
  ]

  make_missing-makes :
      (s : S) (folder : Units) → writer.exists (make_missing writer s folder) folder ≡ true
  make_missing-makes s folder = elim (Bool-cases (writer.exists s folder)) [
    | inl there ↦ rw (there, there) refl
    | inr missing ↦ rw missing (law.mkdir_makes s folder)
  ]

  ensure_directories-stays :
      (parts : List Units) (s : S) (current path : Units)
      → writer.exists s path ≡ true
      → writer.exists (ensure_directories writer s current parts) path ≡ true
  unfolding ensure_directories
  ensure_directories-stays [] s current path h = h
  ensure_directories-stays (part ∷ []) s current path h = h
  ensure_directories-stays ([] ∷ next ∷ parts) s current path h =
      ensure_directories-stays (next ∷ parts) s current path h
  ensure_directories-stays ((c ∷ part) ∷ next ∷ parts) s current path h =
      let inner = below current (c ∷ part) in
      ensure_directories-stays (next ∷ parts) (make_missing writer s inner) inner path
        (make_missing-stays s inner path h)

  ensure_directories-makes :
      (parts : List Units) (s : S) (current : Units)
      → All
          (λ folder. writer.exists (ensure_directories writer s current parts) folder ≡ true)
          (folders_above current parts)
  unfolding ensure_directories folders_above
  ensure_directories-makes [] s current = tt
  ensure_directories-makes (part ∷ []) s current = tt
  ensure_directories-makes ([] ∷ next ∷ parts) s current =
      ensure_directories-makes (next ∷ parts) s current
  ensure_directories-makes ((c ∷ part) ∷ next ∷ parts) s current =
      let inner = below current (c ∷ part) in
      (
        ensure_directories-stays (next ∷ parts) (make_missing writer s inner) inner inner
            (make_missing-makes s inner),
        ensure_directories-makes (next ∷ parts) (make_missing writer s inner) inner,
      )

  -- With fuel above the number of files and folders, a conflict copy is written: in folders that are
  -- there or made for it, under a name that no file had, with exactly the bytes that were given, and
  -- every file that was there reads as before.
  pub write_conflict_copy_lem :
      (s : S) (files : List Units) (path bytes : Units) (now : LocalTime) (fuel : ℕ)
      → ((file : Units) → writer.exists s file ≡ true → contains files file ≡ true)
      → length files < fuel
      → (copy : Units) × (s' : S) × (write_conflict_copy writer fuel s path bytes now
          ≡ some (copy, s'))
        × (writer.exists s copy ≡ false)
        × (read s' copy ≡ some bytes)
        × ((file : Units) → writer.exists s file ≡ true → read s' file ≡ read s file)
  unfolding write_conflict_copy ensure_parent_directories
  write_conflict_copy_lem s files path bytes now fuel listed enough =
      let (copy, n, found, named, free, before) =
        get_available_conflict_copy_path_lem (writer.exists s) files path now fuel listed enough in
      let made = ensure_parent_directories writer s copy in
      (
        copy,
        writer.write_binary made copy bytes,
        ap (write_found writer s bytes) found,
        free,
        law.write_sets made copy bytes (ensure_directories-makes (split copy) s []),
        λ file there.
            law.write_keeps made copy bytes file (λ same. let k = rw (same, free) at there in cc)
            ∙ ensure_directories-keeps (split copy) s [] file,
      )

-- ===== src/Paths/ConflictFile/MemoryVault.antt =====
-- A vault in memory, for the tests: a file is written only where all folders that it lies in exist.
use syncali.Prelude.{
  ◌≡◌, ◌≢◌, refl, Option, some, is_some, Bool, true, ◌||◌, ◌&&◌, List, [], ◌∷◌, All, arith,
  if◌then◌else◌, Bool-cases, inl, inr,
}
use syncali.Paths.Units.{Units, equal, equal→eq, equal_refl, contains, split}
use syncali.Paths.ConflictFile.{ConflictFileWriter}
use syncali.Paths.ConflictFile.Copy.{IsFileWriter, folders_above}

pub record Vault : Type 0 where
  pub files : Units → Option Units
  pub folders : List Units

abbrev pub is_there : Vault → Units → Bool
is_there v path = is_some (v.files path) || contains v.folders path

abbrev are_there : Vault → List Units → Bool
are_there v [] = true
are_there v (path ∷ paths) = is_there v path && are_there v paths

abbrev put_file : (Units → Option Units) → Units → Units → Units → Option Units
put_file files path bytes = λ file. if equal file path then some bytes else files file

abbrev write_file : Vault → Units → Units → Vault
write_file v path bytes =
    if are_there v (folders_above [] (split path))
    then record v { files = put_file v.files path bytes }
    else v

abbrev pub writer : ConflictFileWriter Vault
writer = record {
  exists = is_there;
  mkdir = λ v folder. record v { folders = folder ∷ v.folders };
  write_binary = write_file;
}

abbrev pub read : Vault → Units → Option Units
read v path = v.files path

are_there-lem :
    (v : Vault) (paths : List Units)
    → All (λ path. is_there v path ≡ true) paths
    → are_there v paths ≡ true
are_there-lem v [] h = refl
are_there-lem v (path ∷ paths) h = rw (h.0, are_there-lem v paths h.1) refl

put_file-sets :
    (files : Units → Option Units) (path bytes : Units)
    → put_file files path bytes path ≡ some bytes
put_file-sets files path bytes = rw (equal_refl path) refl

put_file-keeps :
    (files : Units → Option Units) (path bytes other : Units)
    → other ≢ path
    → put_file files path bytes other ≡ files other
put_file-keeps files path bytes other differ = elim (Bool-cases (equal other path)) [
  | inl same_path ↦ absurd (differ (equal→eq other path same_path))
  | inr different ↦ rw different refl
]

write_file-sets :
    (v : Vault) (path bytes : Units)
    → All (λ folder. is_there v folder ≡ true) (folders_above [] (split path))
    → read (write_file v path bytes) path ≡ some bytes
write_file-sets v path bytes h =
    rw (are_there-lem v (folders_above [] (split path)) h) (put_file-sets v.files path bytes)

write_file-keeps :
    (v : Vault) (path bytes other : Units)
    → other ≢ path
    → read (write_file v path bytes) other ≡ read v other
write_file-keeps v path bytes other differ =
    elim (Bool-cases (are_there v (folders_above [] (split path)))) [
      | inl there ↦ rw there (put_file-keeps v.files path bytes other differ)
      | inr missing ↦ rw missing refl
    ]

mkdir-makes :
    (v : Vault) (folder : Units)
    → is_there (record v { folders = folder ∷ v.folders }) folder ≡ true
unfolding contains
mkdir-makes v folder = ground (arith, equal_refl folder)

mkdir-stays :
    (v : Vault) (folder path : Units)
    → is_there v path ≡ true
    → is_there (record v { folders = folder ∷ v.folders }) path ≡ true
unfolding contains
mkdir-stays v folder path h = ground arith

pub writer-IsFileWriter : IsFileWriter writer read
writer-IsFileWriter = record {
  mkdir_keeps = λ v folder path. refl;
  mkdir_makes = mkdir-makes;
  mkdir_stays = mkdir-stays;
  write_sets = write_file-sets;
  write_keeps = write_file-keeps;
}

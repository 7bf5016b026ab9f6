-- ===== src/Paths/FileRules/Folders.antt =====
-- What the stored folder lists decide: sorting, taking out duplicates and pruning subfolders
-- change no answer of `isIncludedByFolder`.
use syncali.Prelude.{
  ◌≡◌, refl, ◌∙◌, Bool, true, not, ◌||◌, List, [], ◌∷◌, ◌++◌, arith, inl, inr, Bool-cases,
  if◌then◌else◌,
}
use syncali.Paths.Units.{Units, codes, equal, equal→eq, contains, starts_with, any, trim_units}
use syncali.Paths.Settings.{Item, string_item, other_item, array}
use syncali.Paths.FileRules.{
  covers, is_included_by_folder, collect_folders, add_seen, insert_sorted, sort_paths, prune_from,
  prune_subpaths, normalize_vault_path, normalize_excluded_folders, accepts_excluded,
}

any-append {ℓ} :
    {A : Type ℓ} (test : A → Bool) (xs ys : List A)
    → any test (xs ++ ys) ≡ (any test xs || any test ys)
unfolding any
any-append test [] ys = refl
any-append test (x ∷ xs) ys = ground (arith, any-append test xs ys)

any-contains :
    (test : Units → Bool) (xs : List Units) (x : Units)
    → contains xs x ≡ true
    → test x ≡ true
    → any test xs ≡ true
unfolding any contains
any-contains test [] x c h = ground arith
any-contains test (y ∷ xs) x c h = elim (Bool-cases (equal x y)) [
  | inl same ↦ rw (← equal→eq x y same, h, ◌||◌) refl
  | inr differ ↦ ground (arith, any-contains test xs x)
]

any-add_seen :
    (test : Units → Bool) (xs : List Units) (x : Units)
    → any test (add_seen xs x) ≡ (any test xs || test x)
any-add_seen test xs x = elim (Bool-cases (contains xs x)) [
  | inl held ↦ rw held (ground (arith, any-contains test xs x held))
  | inr new ↦ rw (new, any-append) (unfold any in ground arith)
]

any-insert_sorted :
    (at_most : Units → Units → Bool) (test : Units → Bool) (x : Units) (xs : List Units)
    → any test (insert_sorted at_most x xs) ≡ (test x || any test xs)
unfolding insert_sorted any
any-insert_sorted at_most test x [] = refl
any-insert_sorted at_most test x (y ∷ xs) = ground (arith, any-insert_sorted at_most test x xs)

any-sort_paths :
    (at_most : Units → Units → Bool) (test : Units → Bool) (xs : List Units)
    → any test (sort_paths at_most xs) ≡ any test xs
unfolding sort_paths
any-sort_paths at_most test [] = refl
any-sort_paths at_most test (x ∷ xs) =
    any-insert_sorted at_most test x (sort_paths at_most xs)
    ∙ rw (any-sort_paths at_most test xs) (unfold any in refl)

starts_with_trans :
    (s t u : Units) → starts_with s t ≡ true → starts_with t u ≡ true → starts_with s u ≡ true
unfolding starts_with
starts_with_trans s t [] h k = refl
starts_with_trans s [] (c ∷ u) h k = ground arith
starts_with_trans [] (d ∷ t) (c ∷ u) h k = ground arith
starts_with_trans (e ∷ s) (d ∷ t) (c ∷ u) h k = ground (arith, starts_with_trans s t u)

starts_with-append : (s t u : Units) → starts_with s (t ++ u) ≡ true → starts_with s t ≡ true
unfolding starts_with
starts_with-append s [] u h = refl
starts_with-append [] (c ∷ t) u h = ground arith
starts_with-append (d ∷ s) (c ∷ t) u h = ground (arith, starts_with-append s t u)

-- What lies in a folder lies in the folder's parents.
covers_trans :
    (path folder parent : Units)
    → covers path folder ≡ true
    → starts_with folder (parent ++ codes "/") ≡ true
    → covers path parent ≡ true
unfolding covers
covers_trans path folder parent h inside = elim (Bool-cases (equal path folder)) [
  | inl same ↦ ground (arith, equal→eq path folder same)
  | inr differ ↦
      let deeper : starts_with path (folder ++ codes "/") ≡ true = ground arith in
      let below = starts_with-append path folder (codes "/") deeper in
      rw (starts_with_trans path folder (parent ++ codes "/") below inside) (ground arith)
]

any-covers-parent :
    (path folder : Units) (result : List Units)
    → any (λ parent. starts_with folder (parent ++ codes "/")) result ≡ true
    → covers path folder ≡ true
    → any (covers path) result ≡ true
unfolding any
any-covers-parent path folder [] h k = ground arith
any-covers-parent path folder (parent ∷ result) h k =
    ground (arith, covers_trans path folder parent k, any-covers-parent path folder result)

covers-prune_from :
    (path : Units) (result paths : List Units)
    → any (covers path) (prune_from result paths)
      ≡ (any (covers path) result || any (covers path) paths)
unfolding prune_from
covers-prune_from path result [] = unfold any in ground arith
covers-prune_from path result (folder ∷ paths) =
    elim (Bool-cases (any (λ parent. starts_with folder (parent ++ codes "/")) result)) [
      | inl covered ↦
          rw (covered, covers-prune_from path result paths)
            (unfold any in ground (arith, any-covers-parent path folder result covered))
      | inr kept ↦
          rw (kept, covers-prune_from path (result ++ folder ∷ []) paths, any-append)
            (unfold any in ground arith)
    ]

-- The entries of a stored array that are accepted, in their normal form and in their order.
abbrev pub accepted_entries : (Units → Bool) → List Item → List Units
accepted_entries accepts [] = []
accepted_entries accepts (other_item ∷ items) = accepted_entries accepts items
accepted_entries accepts (string_item entry ∷ items) =
    if not (accepts (normalize_vault_path (trim_units entry)))
    then accepted_entries accepts items
    else normalize_vault_path (trim_units entry) ∷ accepted_entries accepts items

any-collect_folders :
    (test accepts : Units → Bool) (seen : List Units) (items : List Item)
    → any test (collect_folders accepts seen items)
      ≡ (any test seen || any test (accepted_entries accepts items))
unfolding collect_folders
any-collect_folders test accepts seen [] = unfold any in ground arith
any-collect_folders test accepts seen (other_item ∷ items) =
    any-collect_folders test accepts seen items
any-collect_folders test accepts seen (string_item entry ∷ items) =
    elim (Bool-cases (accepts (normalize_vault_path (trim_units entry)))) [
      | inl fine ↦
          let path = normalize_vault_path (trim_units entry) in
          rw
            (
              fine,
              any-collect_folders test accepts (add_seen seen path) items,
              any-add_seen test seen path,
            )
            (unfold any in ground arith)
      | inr refused ↦ rw (refused, any-collect_folders test accepts seen items) refl
    ]

-- The normalised list of excluded folders excludes exactly the paths that some accepted entry of
-- the stored array covers: sorting, taking out duplicates and pruning subfolders lose and add
-- nothing, in any order that `localeCompare` may have.
pub is_included-normalize :
    (at_most : Units → Units → Bool) (path : Units) (items : List Item)
    → is_included_by_folder path (normalize_excluded_folders at_most (array items))
      ≡ is_included_by_folder path (accepted_entries accepts_excluded items)
unfolding is_included_by_folder normalize_excluded_folders prune_subpaths any
is_included-normalize at_most path items =
    covers-prune_from path [] (sort_paths at_most (collect_folders accepts_excluded [] items))
    ∙ any-sort_paths at_most (covers path) (collect_folders accepts_excluded [] items)
    ∙ any-collect_folders (covers path) accepts_excluded [] items

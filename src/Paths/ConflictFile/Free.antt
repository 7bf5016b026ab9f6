-- ===== src/Paths/ConflictFile/Free.antt =====
-- The search for a free name ends: a vault of `n` files can take at most `n` of the names that it
-- tries, since they all differ.
use syncali.Prelude.{
  ℕ, zero, suc, ◌+◌, ◌≤◌, ◌<◌, ◌≡◌, ◌≢◌, sym, ◌∙◌, inl, inr, none, some, List, [], ◌∷◌, Bool, true,
  false, arith, if◌then◌else◌, Bool-cases, Option-cases, length, ℕ_discrete,
}
use syncali.Paths.Units.{Units, equal, equal→eq, contains}
use syncali.Paths.ConflictFile.{
  LocalTime, build_conflict_copy_path, format_conflict_timestamp, available_from,
  get_available_conflict_copy_path,
}
use syncali.Paths.ConflictFile.Names.{build_conflict_copy_path_inj}

without : Units → List Units → List Units
without s [] = []
without s (t ∷ ts) = let rest = without s ts in if equal s t then rest else t ∷ rest

length-without-le : (s : Units) (ts : List Units) → length (without s ts) ≤ length ts
unfolding without
length-without-le s [] = omega arith
length-without-le s (t ∷ ts) = ground (arith, length-without-le s ts)

length-without :
    (s : Units) (ts : List Units) → contains ts s ≡ true → length (without s ts) < length ts
unfolding without contains
length-without s [] h = ground arith
length-without s (t ∷ ts) h = ground (arith, length-without s ts, length-without-le s ts)

contains-without :
    (s r : Units) (ts : List Units)
    → r ≢ s
    → contains ts r ≡ true
    → contains (without s ts) r ≡ true
unfolding without contains
contains-without s r [] differ h = h
contains-without s r (t ∷ ts) differ h = elim (Bool-cases (equal s t)) [
  | inl same ↦ elim (Bool-cases (equal r t)) [
    | inl hit ↦ absurd (differ (equal→eq r t hit ∙ sym (equal→eq s t same)))
    | inr miss ↦ rw same (contains-without s r ts differ (let k = rw miss at h in k))
  ]
  | inr other ↦ rw (other, contains) (ground (arith, contains-without s r ts differ))
]

-- Names that all differ and all stand in a list are no more than its length.
distinct_count :
    (name : ℕ → Units)
    → ((m n : ℕ) → name m ≡ name n → m ≡ n)
    → (count first : ℕ) (files : List Units)
    → ((i : ℕ) → first ≤ i → i < first + count → contains files (name i) ≡ true)
    → count ≤ length files
distinct_count name inj zero first files held = omega arith
distinct_count name inj (suc count) first files held =
    let here = held first (omega arith) (omega arith) in
    let rest = distinct_count name inj count (suc first) (without (name first) files) (λ i low high.
      contains-without (name first) (name i) files
        (λ same. absurd (let k = inj i first same in omega arith))
        (held i (omega arith) (omega arith))) in
    omega (arith, length-without (name first) files here)

module _ (exists : Units → Bool) (path timestamp : Units) where
  available_from-none :
      (fuel first : ℕ)
      → available_from exists path timestamp fuel first ≡ none
      → (i : ℕ) → first ≤ i
      → i < first + fuel
      → exists (build_conflict_copy_path path timestamp i) ≡ true
  unfolding available_from
  available_from-none zero first h i low high = absurd (omega arith)
  available_from-none (suc fuel) first h i low high =
      elim (Bool-cases (exists (build_conflict_copy_path path timestamp first))) [
        | inl taken ↦ elim (ℕ_discrete i first) [
          | yes here ↦ rw here taken
          | no later ↦
              available_from-none fuel (first + 1) (let k = rw taken at h in k) i (omega arith)
                (omega arith)
        ]
        | inr free ↦ absurd (let k = rw free at h in cc)
      ]

  available_from-some :
      (fuel first : ℕ) (found : Units)
      → available_from exists path timestamp fuel first ≡ some found
      → (n : ℕ) × (first ≤ n)
        × (found ≡ build_conflict_copy_path path timestamp n)
        × (exists found ≡ false)
        × ((i : ℕ) → first ≤ i → i < n → exists (build_conflict_copy_path path timestamp i) ≡ true)
  unfolding available_from
  available_from-some zero first found h = ground arith
  available_from-some (suc fuel) first found h =
      elim (Bool-cases (exists (build_conflict_copy_path path timestamp first))) [
        | inl taken ↦
            let (n, low, named, free, before) =
              available_from-some fuel (first + 1) found (let k = rw taken at h in k) in
            (
              n,
              omega arith,
              named,
              free,
              λ i from to. elim (ℕ_discrete i first) [
                | yes here ↦ rw here taken
                | no later ↦ before i (omega arith) (omega arith)
              ],
            )
        | inr free ↦
            let named : build_conflict_copy_path path timestamp first ≡ found =
              let k = rw free at h in ground arith in
            (first, omega arith, sym named, rw (← named) free, λ i from to. absurd (omega arith))
      ]

-- In a vault whose files are all in a list, fuel above its length is enough: the search returns
-- the first name of the sequence that no file has, and every name before it is taken.
pub get_available_conflict_copy_path_lem :
    (exists : Units → Bool) (files : List Units) (path : Units) (now : LocalTime) (fuel : ℕ)
    → ((s : Units) → exists s ≡ true → contains files s ≡ true)
    → length files < fuel
    → (found : Units) × (n : ℕ) × (get_available_conflict_copy_path fuel exists path now
        ≡ some found)
      × (found ≡ build_conflict_copy_path path (format_conflict_timestamp now) n)
      × (exists found ≡ false)
      × ((i : ℕ)
          → i < n
          → exists (build_conflict_copy_path path (format_conflict_timestamp now) i) ≡ true)
unfolding get_available_conflict_copy_path
get_available_conflict_copy_path_lem exists files path now fuel listed enough =
    let timestamp = format_conflict_timestamp now in
    elim (Option-cases (available_from exists path timestamp fuel 0)) [
      | inl nothing ↦ absurd (
          let crowd =
            distinct_count (build_conflict_copy_path path timestamp)
              (build_conflict_copy_path_inj path timestamp) fuel 0 files
              (λ i low high.
                listed (build_conflict_copy_path path timestamp i)
                  (available_from-none exists path timestamp fuel 0 nothing i low high)) in
          omega arith)
      | inr (found, e) ↦
          let (n, low, named, free, before) =
            available_from-some exists path timestamp fuel 0 found e in
          (found, n, e, named, free, λ i to. before i (omega arith) to)
    ]

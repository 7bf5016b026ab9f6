-- ===== src/Paths/ConflictFile/Names.antt =====
-- The parts of a name and of a copy's name: stem, marker, time, attempt and extension.
use mathlib.Core.List.{append_cancel_left, append_cancel_right, append-nil}
use syncali.Prelude.{
  ℕ, zero, suc, ◌+◌, ◌≡◌, ◌≢◌, refl, sym, ◌⊎◌, inl, inr, Option, none, some, [], ◌∷◌, ◌++◌, false,
  arith, ◌==◌, Bool-cases, Option-cases, All, is_white,
}
use syncali.Paths.Units.{Units, codes, cut_last, any}
use syncali.Paths.Units.Cuts.{Lacks, Lacks-intro, Lacks-append, Lacks-split, cut_last-some}
use syncali.Paths.Marker.{is_digit}
use syncali.Paths.Decimal.{decimal_inj, decimal-IsDigit, IsDigit}
use syncali.Paths.ConflictFile.{
  build_conflict_copy_path, copy_name, attempt_text, split_extension, stem_and_extension, file_name,
  prefix_of,
}

attempt_text_inj : (m n : ℕ) → attempt_text m ≡ attempt_text n → m ≡ n
unfolding attempt_text
attempt_text_inj zero zero h = refl
attempt_text_inj zero (suc n) h = cc
attempt_text_inj (suc m) zero h = cc
attempt_text_inj (suc m) (suc n) h =
    let same = decimal_inj (suc m + 1) (suc n + 1) (ground arith) in omega arith

-- Two attempts at one time have two names.
pub build_conflict_copy_path_inj :
    (path timestamp : Units) (m n : ℕ)
    → build_conflict_copy_path path timestamp m ≡ build_conflict_copy_path path timestamp n
    → m ≡ n
unfolding build_conflict_copy_path copy_name
build_conflict_copy_path_inj path timestamp m n h =
    let parts = split_extension (file_name path) in
    let names = append_cancel_left (prefix_of (cut_last b'/' path)) _ _ h in
    let marked = append_cancel_left parts.0 _ _ names in
    let timed = append_cancel_left (codes ".sync-conflict-") _ _ marked in
    let tried = append_cancel_left timestamp _ _ timed in
    attempt_text_inj m n (append_cancel_right _ _ parts.1 tried)

pub digits-Lacks : (c : ℕ) (s : Units) → is_digit c ≡ false → All IsDigit s → Lacks c s
digits-Lacks c [] no_digit h = unfold cut_last in refl
digits-Lacks c (d ∷ s) no_digit h =
    Lacks-intro c d s
      (elim (Bool-cases (d == c)) [
        | inl same ↦ let e : d ≡ c = ground arith in let k = rw e at (h.0) in cc
        | inr differ ↦ differ
      ])
      (digits-Lacks c s no_digit h.1)

pub attempt_text-Lacks : (n : ℕ) → Lacks b'/' (attempt_text n)
unfolding attempt_text
attempt_text-Lacks zero = unfold cut_last in refl
attempt_text-Lacks (suc n) =
    Lacks-intro b'/' b'-' _ refl
      (digits-Lacks b'/' _ (unfold is_digit in refl) (decimal-IsDigit (suc n + 1)))

stem_and_extension-append :
    (name : Units) (cut : Option (Units × Units))
    → cut_last b'.' name ≡ cut
    → (stem_and_extension name cut).0 ++ (stem_and_extension name cut).1 ≡ name
unfolding stem_and_extension
stem_and_extension-append name none e = append-nil name
stem_and_extension-append name (some ([], behind)) e = append-nil name
stem_and_extension-append name (some (c ∷ stem, behind)) e =
    elim (Bool-cases (any is_white (b'.' ∷ behind))) [
      | inl space ↦ rw space (append-nil name)
      | inr no_space ↦ rw no_space (sym (cut_last-some b'.' name (c ∷ stem) behind e).0)
    ]

-- Stem and extension make up the name.
pub split_extension-append :
    (name : Units) → (split_extension name).0 ++ (split_extension name).1 ≡ name
unfolding split_extension
split_extension-append name = stem_and_extension-append name (cut_last b'.' name) refl

stem_and_extension-dot :
    (name : Units) (cut : Option (Units × Units))
    → cut_last b'.' name ≡ cut
    → ((stem_and_extension name cut).1 ≡ [])
      ⊎ ((e : Units) × ((stem_and_extension name cut).1 ≡ b'.' ∷ e) × Lacks b'.' e)
unfolding stem_and_extension
stem_and_extension-dot name none e = inl refl
stem_and_extension-dot name (some ([], behind)) e = inl refl
stem_and_extension-dot name (some (c ∷ stem, behind)) e =
    elim (Bool-cases (any is_white (b'.' ∷ behind))) [
      | inl space ↦ rw space (inl refl)
      | inr no_space ↦
          rw no_space (inr (behind, refl, (cut_last-some b'.' name (c ∷ stem) behind e).1))
    ]

-- An extension is empty, or a dot and a text that has no other.
pub split_extension-dot :
    (name : Units)
    → ((split_extension name).1 ≡ [])
      ⊎ ((e : Units) × ((split_extension name).1 ≡ b'.' ∷ e) × Lacks b'.' e)
unfolding split_extension
split_extension-dot name = stem_and_extension-dot name (cut_last b'.' name) refl

pub file_name-Lacks : (path : Units) → Lacks b'/' (file_name path)
unfolding file_name
file_name-Lacks path = elim (Option-cases (cut_last b'/' path)) [
  | inl none_found ↦ rw none_found none_found
  | inr ((parent, name), e) ↦ rw e (cut_last-some b'/' path parent name e).1
]

-- The name of a copy has no slash in it.
pub copy_name-Lacks :
    (name timestamp : Units) (n : ℕ)
    → Lacks b'/' name
    → Lacks b'/' timestamp
    → Lacks b'/' (copy_name name timestamp n)
unfolding copy_name
copy_name-Lacks name timestamp n h k =
    let parts = split_extension name in
    let joined : Lacks b'/' (parts.0 ++ parts.1) = rw (split_extension-append name) h in
    let (stem, extension) = Lacks-split b'/' parts.0 parts.1 joined in
    Lacks-append b'/' parts.0 _ stem (
      Lacks-append b'/' (codes ".sync-conflict-") _ (unfold cut_last in refl) (
        Lacks-append b'/' timestamp _ k
          (Lacks-append b'/' (attempt_text n) parts.1 (attempt_text-Lacks n) extension)))

-- A folder part is empty or ends with its slash.
pub prefix_of-slash :
    (path : Units)
    → (prefix_of (cut_last b'/' path) ≡ [])
      ⊎ ((r : Units) × (prefix_of (cut_last b'/' path) ≡ r ++ (b'/' ∷ [])) × (r ≢ []))
prefix_of-slash path = elim (Option-cases (cut_last b'/' path)) [
  | inl none_found ↦ rw none_found (inl refl)
  | inr (([], name), e) ↦ rw e (inl refl)
  | inr ((c ∷ parent, name), e) ↦ rw e (inr (c ∷ parent, refl, λ h. cc))
]

pub copy_name-cons :
    (name timestamp : Units) (n : ℕ) → (c : ℕ) × (s : Units) × (copy_name name timestamp n ≡ c ∷ s)
unfolding copy_name
copy_name-cons name timestamp n = marked (split_extension name).0 _
  where
    marked :
        (stem rest : Units)
        → (c : ℕ) × (s : Units) × (stem ++ (codes ".sync-conflict-" ++ rest) ≡ c ∷ s)
    marked [] rest = (b'.', codes "sync-conflict-" ++ rest, refl)
    marked (c ∷ stem) rest = (c, stem ++ (codes ".sync-conflict-" ++ rest), refl)

pub build_conflict_copy_path-ne-nil :
    (path timestamp : Units) (n : ℕ) → build_conflict_copy_path path timestamp n ≢ []
unfolding build_conflict_copy_path
build_conflict_copy_path-ne-nil path timestamp n h =
    let (c, s, e) = copy_name-cons (file_name path) timestamp n in
    let k = (append-eq-nil (prefix_of (cut_last b'/' path)) _ h) in cc
  where
    append-eq-nil : (s t : Units) → s ++ t ≡ [] → t ≡ []
    append-eq-nil [] t h = h
    append-eq-nil (c ∷ s) t h = absurd (cc)

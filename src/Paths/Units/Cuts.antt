-- ===== src/Paths/Units/Cuts.antt =====
-- What `lastIndexOf`, `split` and the stripping of slashes give on joined texts.
use syncali.Prelude.{
  ℕ, ◌≡◌, refl, ◌∙◌, ◌⊎◌, inl, inr, none, some, List, [], ◌∷◌, ◌++◌, false, arith, ◌==◌, Bool-cases,
  Option-cases,
}
use syncali.Paths.Units.{Units, cut_last, strip_start, strip_end, split, push_first, last_of}

-- `s` does not contain the unit `c`.
abbrev pub Lacks : ℕ → Units → Type 0
Lacks c s = cut_last c s ≡ none

pub Lacks-cons : (c d : ℕ) (s : Units) → Lacks c (d ∷ s) → ((d == c) ≡ false) × Lacks c s
unfolding cut_last
Lacks-cons c d s h = elim (Option-cases (cut_last c s)) [
  | inl nothing ↦ (ground arith, nothing)
  | inr (found, e) ↦ absurd (let k = rw e at h in ground arith)
]

pub Lacks-intro : (c d : ℕ) (s : Units) → (d == c) ≡ false → Lacks c s → Lacks c (d ∷ s)
unfolding cut_last
Lacks-intro c d s differ h = rw (h, differ) refl

pub Lacks-append : (c : ℕ) (s t : Units) → Lacks c s → Lacks c t → Lacks c (s ++ t)
Lacks-append c [] t h k = k
Lacks-append c (d ∷ s) t h k =
    let (differ, rest) = Lacks-cons c d s h in
    Lacks-intro c d (s ++ t) differ (Lacks-append c s t rest k)

pub Lacks-split : (c : ℕ) (s t : Units) → Lacks c (s ++ t) → Lacks c s × Lacks c t
Lacks-split c [] t h = unfold cut_last in (refl, h)
Lacks-split c (d ∷ s) t h =
    let (differ, rest) = Lacks-cons c d (s ++ t) h in
    let (left, right) = Lacks-split c s t rest in (Lacks-intro c d s differ left, right)

-- The last occurrence is the one before a text that lacks the unit.
pub cut_last-append : (c : ℕ) (s t : Units) → Lacks c t → cut_last c (s ++ (c ∷ t)) ≡ some (s, t)
unfolding cut_last
cut_last-append c [] t h = rw h (ground arith)
cut_last-append c (d ∷ s) t h = rw (cut_last-append c s t h) refl

pub cut_last-some :
    (c : ℕ) (s before behind : Units)
    → cut_last c s ≡ some (before, behind)
    → (s ≡ before ++ (c ∷ behind)) × Lacks c behind
unfolding cut_last
cut_last-some c [] before behind h = ground arith
cut_last-some c (d ∷ s) before behind h = elim (Option-cases (cut_last c s)) [
  | inl nothing ↦ elim (Bool-cases (d == c)) [
    | inl same ↦ let k = rw (nothing, same) at h in ground arith
    | inr differ ↦ absurd (let k = rw (nothing, differ) at h in ground arith)
  ]
  | inr ((b, a), e) ↦
      let k = rw e at h in let (joined, rest) = cut_last-some c s b a e in ground arith
]

-- The last part of `split` is what stands behind the last slash.
split-Lacks : (s : Units) → Lacks b'/' s → split s ≡ s ∷ []
unfolding split
split-Lacks [] h = refl
split-Lacks (c ∷ s) h =
    let (differ, rest) = Lacks-cons b'/' c s h in rw (differ, split-Lacks s rest) refl

split-ne-nil : (s : Units) → (part : Units) × (parts : List Units) × (split s ≡ part ∷ parts)
unfolding split
split-ne-nil [] = ([], [], refl)
split-ne-nil (c ∷ s) = elim (Bool-cases (c == b'/')) [
  | inl slash ↦ ([], split s, rw slash refl)
  | inr other ↦ let (part, parts, e) = split-ne-nil s in (c ∷ part, parts, rw (other, e) refl)
]

split-slash :
    (s name : Units)
    → (part next : Units) × (parts : List Units) × (split (s ++ (b'/' ∷ name))
        ≡ part ∷ next ∷ parts)
unfolding split
split-slash [] name = let (part, parts, e) = split-ne-nil name in ([], part, parts, rw e refl)
split-slash (c ∷ s) name =
    let (part, next, parts, e) = split-slash s name in
    elim (Bool-cases (c == b'/')) [
      | inl slash ↦ ([], part, next ∷ parts, rw (slash, e) refl)
      | inr other ↦ (c ∷ part, next, parts, rw (other, e) refl)
    ]

last_of-cons : (part : Units) (s : Units) → last_of (part ∷ split s) ≡ last_of (split s)
unfolding last_of
last_of-cons part s = let (p, ps, e) = split-ne-nil s in rw e refl

last_of-push_first :
    (c : ℕ) (s name : Units)
    → last_of (push_first c (split (s ++ (b'/' ∷ name)))) ≡ last_of (split (s ++ (b'/' ∷ name)))
unfolding last_of
last_of-push_first c s name = let (p, q, ps, e) = split-slash s name in rw e refl

pub last_of-split : (s name : Units) → Lacks b'/' name → last_of (split (s ++ (b'/' ∷ name))) ≡ name
unfolding split
last_of-split [] name h = last_of-cons [] name ∙ rw (split-Lacks name h) (unfold last_of in refl)
last_of-split (c ∷ s) name h = elim (Bool-cases (c == b'/')) [
  | inl slash ↦ rw slash (last_of-cons [] (s ++ (b'/' ∷ name)) ∙ last_of-split s name h)
  | inr other ↦ rw other (last_of-push_first c s name ∙ last_of-split s name h)
]

pub last_of-split_name : (name : Units) → Lacks b'/' name → last_of (split name) ≡ name
unfolding last_of
last_of-split_name name h = rw (split-Lacks name h) refl

-- A text that lacks slashes and is not empty keeps `strip_end` from what stands before it.
pub strip_end-Lacks : (s : Units) → Lacks b'/' s → strip_end s ≡ s
unfolding strip_end
strip_end-Lacks [] h = refl
strip_end-Lacks (c ∷ []) h = let (differ, rest) = Lacks-cons b'/' c [] h in rw differ refl
strip_end-Lacks (c ∷ d ∷ s) h =
    let (differ, rest) = Lacks-cons b'/' c (d ∷ s) h in
    rw (strip_end-Lacks (d ∷ s) rest, strip_end) refl

pub strip_end-append :
    (s : Units) (c : ℕ) (t : Units) → Lacks b'/' (c ∷ t) → strip_end (s ++ (c ∷ t)) ≡ s ++ (c ∷ t)
unfolding strip_end
strip_end-append [] c t h = strip_end-Lacks (c ∷ t) h
strip_end-append (d ∷ []) c t h = rw (strip_end-Lacks (c ∷ t) h) refl
strip_end-append (d ∷ e ∷ s) c t h = rw (strip_end-append (e ∷ s) c t h) refl

pub strip_start-Lacks : (s : Units) → Lacks b'/' s → strip_start s ≡ s
unfolding strip_start
strip_start-Lacks [] h = refl
strip_start-Lacks (c ∷ s) h = let (differ, rest) = Lacks-cons b'/' c s h in rw differ refl

-- Stripping the slashes at the start leaves the last slash, or nothing before the name.
pub strip_start-folder :
    (s name : Units)
    → Lacks b'/' name
    → (strip_start (s ++ (b'/' ∷ name)) ≡ name)
      ⊎ ((r : Units) × (strip_start (s ++ (b'/' ∷ name)) ≡ r ++ (b'/' ∷ name)))
unfolding strip_start
strip_start-folder [] name h = inl (strip_start-Lacks name h)
strip_start-folder (c ∷ s) name h = elim (Bool-cases (c == b'/')) [
  | inl slash ↦ rw slash (strip_start-folder s name h)
  | inr other ↦ inr (c ∷ s, rw other refl)
]

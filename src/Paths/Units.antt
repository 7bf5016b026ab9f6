-- ===== src/Paths/Units.antt =====
-- Paths as the sequences of their UTF-16 code units, and the string methods of the source on
-- them. `localeCompare` and `toLowerCase` go by tables that are not here: they are parameters of
-- the definitions that use them.
pub mod Cuts
use Prim.Native.Char.{code}
use syncali.Prelude.{
  ℕ, zero, suc, ◌≡◌, refl, String, Option, none, some, List, [], ◌∷◌, Bool, true, false, ◌&&◌, ◌||◌,
  arith, ◌==◌, if◌then◌else◌, is_white,
}

abbrev pub Units : Type 0
Units = List ℕ

abbrev pub codes : String → Units
codes String.[] = []
codes (String.◌∷◌ c s) = code c ∷ codes s

-- `s === t`
unfoldable pub equal : Units → Units → Bool
equal [] [] = true
equal [] (d ∷ t) = false
equal (c ∷ s) [] = false
equal (c ∷ s) (d ∷ t) = (c == d) && equal s t

pub equal→eq : (s t : Units) → equal s t ≡ true → s ≡ t
unfolding equal
equal→eq [] [] h = refl
equal→eq [] (d ∷ t) h = ground arith
equal→eq (c ∷ s) [] h = ground arith
equal→eq (c ∷ s) (d ∷ t) h = ground (arith, equal→eq s t)

pub equal_refl : (s : Units) → equal s s ≡ true
unfolding equal
equal_refl [] = refl
equal_refl (c ∷ s) = ground (arith, equal_refl s)

-- `[…].includes(s)` and `set.has(s)`
unfoldable pub contains : List Units → Units → Bool
contains [] s = false
contains (t ∷ ts) s = equal s t || contains ts s

-- `s.startsWith(prefix)`
unfoldable pub starts_with : Units → Units → Bool
starts_with s [] = true
starts_with [] (c ∷ prefix) = false
starts_with (d ∷ s) (c ∷ prefix) = (d == c) && starts_with s prefix

-- `s.endsWith(suffix)`
unfoldable pub ends_with : Units → Units → Bool
ends_with [] suffix = equal [] suffix
ends_with (c ∷ s) suffix = equal (c ∷ s) suffix || ends_with s suffix

-- `s.includes(part)`
unfoldable pub includes : Units → Units → Bool
includes [] part = starts_with [] part
includes (c ∷ s) part = starts_with (c ∷ s) part || includes s part

-- `s.slice(n)`
unfoldable pub slice_from : ℕ → Units → Units
slice_from zero s = s
slice_from (suc n) [] = []
slice_from (suc n) (c ∷ s) = slice_from n s

-- `s.replace(/^\/+/, "")`
unfoldable pub strip_start : Units → Units
strip_start [] = []
strip_start (c ∷ s) = let rest = strip_start s in if c == b'/' then rest else c ∷ s

-- `s.replace(/\/+$/, "")`
unfoldable pub strip_end : Units → Units
strip_end [] = []
strip_end (c ∷ s) = elim (strip_end s) [ [] ↦ if c == b'/' then [] else c ∷ [] | d ∷ r ↦ c ∷ d ∷ r ]

-- `s.trim()`
unfoldable pub trim_units_start : Units → Units
trim_units_start [] = []
trim_units_start (c ∷ s) = let rest = trim_units_start s in if is_white c then rest else c ∷ s

unfoldable pub trim_units_end : Units → Units
trim_units_end [] = []
trim_units_end (c ∷ s) = elim (trim_units_end s) [
  | [] ↦ if is_white c then [] else c ∷ []
  | d ∷ r ↦ c ∷ d ∷ r
]

abbrev pub trim_units : Units → Units
trim_units s = trim_units_end (trim_units_start s)

-- `s.split("/")`
abbrev pub push_first : ℕ → List Units → List Units
push_first c [] = (c ∷ []) ∷ []
push_first c (part ∷ parts) = (c ∷ part) ∷ parts

unfoldable pub split : Units → List Units
split [] = [] ∷ []
split (c ∷ s) = if c == b'/' then [] ∷ split s else push_first c (split s)

-- `parts[parts.length - 1] ?? ""`
unfoldable pub last_of : List Units → Units
last_of [] = []
last_of (part ∷ []) = part
last_of (part ∷ next ∷ parts) = last_of (next ∷ parts)

-- What stands before and behind `s.lastIndexOf(c)`, and `none` where that is -1.
unfoldable pub cut_last : ℕ → Units → Option (Units × Units)
cut_last c [] = none
cut_last c (d ∷ s) = elim (cut_last c s) [
  | none ↦ if d == c then some ([], s) else none
  | some (before, behind) ↦ some (d ∷ before, behind)
]

-- `xs.some(test)`
unfoldable pub any {ℓ} : {A : Type ℓ} → (A → Bool) → List A → Bool
any test [] = false
any test (x ∷ xs) = test x || any test xs

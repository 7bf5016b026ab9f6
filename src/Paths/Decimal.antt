-- ===== src/Paths/Decimal.antt =====
-- `String(n)`, `padStart(2, "0")` and `Number(text)` on natural numbers and their digits.
use syncali.Prelude.{
  ℕ, zero, suc, ◌+◌, ◌-◌, ◌*◌, ◌/◌, ◌%◌, ◌<◌, ◌≡◌, refl, sym, ap, ◌∙◌, true, [], ◌∷◌, ◌++◌, arith,
  length, replicate, ltb, if◌then◌else◌, inl, inr, Bool-cases, All,
}
use syncali.Paths.Units.{Units}
use syncali.Paths.Marker.{is_digit}

unfoldable pub digits_within : ℕ → ℕ → Units
digits_within zero n = []
digits_within (suc fuel) n =
    let rest = digits_within fuel (n / 10) in
    if ltb n 10 then (b'0' + n) ∷ [] else rest ++ (b'0' + n % 10) ∷ []

-- `String(n)`; dividing `n` by ten takes fewer than `n + 1` rounds.
unfoldable pub decimal : ℕ → Units
unfolding digits_within
decimal n = digits_within (suc n) n

unfoldable pub pad_two : Units → Units
pad_two s = replicate (2 - length s) b'0' ++ s

unfoldable pub number_from : ℕ → Units → ℕ
number_from acc [] = acc
number_from acc (d ∷ s) = number_from (10 * acc + (d - b'0')) s

-- `Number(text)` on a text of digits.
unfoldable pub number : Units → ℕ
unfolding number_from
number s = number_from 0 s

number_from-snoc :
    (acc : ℕ) (s : Units) (d : ℕ)
    → number_from acc (s ++ d ∷ []) ≡ 10 * number_from acc s + (d - b'0')
unfolding number_from
number_from-snoc acc [] d = refl
number_from-snoc acc (c ∷ s) d = number_from-snoc (10 * acc + (c - b'0')) s d

number-digits_within : (fuel n : ℕ) → n < fuel → number_from 0 (digits_within fuel n) ≡ n
unfolding digits_within
number-digits_within zero n h = elim h [ ]
number-digits_within (suc fuel) n h = elim (Bool-cases (ltb n 10)) [
  | inl small ↦ rw small (unfold number_from in omega arith)
  | inr large ↦
      rw (large, number_from-snoc 0 (digits_within fuel (n / 10)) (b'0' + n % 10))
        (let ih = number-digits_within fuel (n / 10) (ground arith) in omega arith)
]

-- A number is read back from its digits.
pub number-decimal : (n : ℕ) → number (decimal n) ≡ n
unfolding number decimal
number-decimal n = number-digits_within (suc n) n (omega arith)

pub decimal_inj : (m n : ℕ) → decimal m ≡ decimal n → m ≡ n
decimal_inj m n h = sym (number-decimal m) ∙ ap number h ∙ number-decimal n

abbrev pub IsDigit : ℕ → Type 0
IsDigit c = is_digit c ≡ true

All-snoc : (s : Units) (d : ℕ) → All IsDigit s → IsDigit d → All IsDigit (s ++ d ∷ [])
All-snoc [] d h hd = (hd, tt)
All-snoc (c ∷ s) d h hd = (h.0, All-snoc s d h.1 hd)

digits_within-IsDigit : (fuel n : ℕ) → All IsDigit (digits_within fuel n)
unfolding digits_within
digits_within-IsDigit zero n = tt
digits_within-IsDigit (suc fuel) n = elim (Bool-cases (ltb n 10)) [
  | inl small ↦ rw small (unfold is_digit in (ground arith, tt))
  | inr large ↦ rw large (
      All-snoc (digits_within fuel (n / 10)) (b'0' + n % 10) (digits_within-IsDigit fuel (n / 10))
        (unfold is_digit in ground arith))
]

pub decimal-IsDigit : (n : ℕ) → All IsDigit (decimal n)
unfolding decimal
decimal-IsDigit n = digits_within-IsDigit (suc n) n

append-ne-nil : (s : Units) (d : ℕ) → (c : ℕ) × (t : Units) × (s ++ d ∷ [] ≡ c ∷ t)
append-ne-nil [] d = (d, [], refl)
append-ne-nil (c ∷ s) d = (c, s ++ d ∷ [], refl)

-- There is a first digit.
pub decimal-cons : (n : ℕ) → (c : ℕ) × (t : Units) × (decimal n ≡ c ∷ t)
unfolding decimal digits_within
decimal-cons n = elim (Bool-cases (ltb n 10)) [
  | inl small ↦ (b'0' + n, [], rw small)
  | inr large ↦ rw large (append-ne-nil (digits_within n (n / 10)) (b'0' + n % 10))
]

-- ===== src/Paths/ConflictFile/Stamp.antt =====
-- The time in a copy's name: fourteen digits and a dash, that the marker's pattern matches and
-- from which the fields are read back.
use mathlib.Core.List.{append-nil, append_assoc}
use syncali.Prelude.{
  sym, ap, ◌∙◌, map, subst, ℕ, zero, suc, ◌+◌, ◌/◌, ◌%◌, ◌<◌, ◌≤◌, ◌≡◌, refl, some, List, [], ◌∷◌,
  ◌++◌, Bool, true, arith, replicate, inl, inr, Bool-cases, ltb,
}
use syncali.Paths.Units.{Units, codes, slice_from, cut_last}
use syncali.Paths.Units.Cuts.{Lacks, Lacks-intro}
use syncali.Paths.Marker.{is_digit, match_classes, marker_classes, exactly}
use syncali.Paths.Decimal.{decimal, digits_within, pad_two, number, number_from}
use syncali.Paths.ConflictFile.{LocalTime, format_conflict_timestamp, captured_time}

-- The years for which `String(year)` has four digits, and fields of at most two.
pub record IsCalendarTime (t : LocalTime) : Type 0 where
  pub four_digits : (1000 ≤ t.full_year) × (t.full_year < 10000)
  pub month_short : t.month < 100
  pub date_short : t.date < 100
  pub hours_short : t.hours < 100
  pub minutes_short : t.minutes < 100
  pub seconds_short : t.seconds < 100

abbrev pub two : ℕ → Units → Units
two n rest = (b'0' + n / 10) ∷ (b'0' + n % 10) ∷ rest

abbrev pub four : ℕ → Units → Units
four n rest =
    (b'0' + n / 1000) ∷ (b'0' + n / 100 % 10) ∷ (b'0' + n / 10 % 10) ∷ (b'0' + n % 10) ∷ rest

digits_within-one : (fuel n : ℕ) → 0 < fuel → n < 10 → digits_within fuel n ≡ (b'0' + n) ∷ []
unfolding digits_within
digits_within-one zero n h k = elim h [ ]
digits_within-one (suc fuel) n h k = ground arith

digits_within-more :
    (fuel n : ℕ)
    → 10 ≤ n
    → digits_within (suc fuel) n ≡ digits_within fuel (n / 10) ++ (b'0' + n % 10) ∷ []
unfolding digits_within
digits_within-more fuel n k = elim (Bool-cases (ltb n 10)) [
  | inl small ↦ absurd (ground arith)
  | inr large ↦ rw large refl
]

two_digits : (fuel n : ℕ) → 0 < fuel → 10 ≤ n → n < 100 → digits_within (suc fuel) n ≡ two n []
two_digits fuel n h low high =
    digits_within-more fuel n low ∙ rw (digits_within-one fuel (n / 10) h (omega arith)) refl

three_digits :
    (fuel n : ℕ)
    → 1 < fuel
    → 100 ≤ n
    → n < 1000
    → digits_within (suc fuel) n ≡ (b'0' + n / 100) ∷ (b'0' + n / 10 % 10) ∷ (b'0' + n % 10) ∷ []
three_digits zero n h low high = elim h [ ]
three_digits (suc fuel) n h low high =
    digits_within-more (suc fuel) n (omega arith)
    ∙ rw (two_digits fuel (n / 10) (omega arith) (omega arith) (omega arith)) (ground arith)

four_digits_lem :
    (fuel n : ℕ) → 2 < fuel → 1000 ≤ n → n < 10000 → digits_within (suc fuel) n ≡ four n []
four_digits_lem zero n h low high = elim h [ ]
four_digits_lem (suc fuel) n h low high =
    digits_within-more (suc fuel) n (omega arith)
    ∙ rw (three_digits fuel (n / 10) (omega arith) (omega arith) (omega arith)) (ground arith)

pad_two-decimal : (n : ℕ) (rest : Units) → n < 100 → pad_two (decimal n) ++ rest ≡ two n rest
unfolding pad_two decimal
pad_two-decimal n rest h = elim (Bool-cases (ltb n 10)) [
  | inl small ↦ rw (digits_within-one (suc n) n (omega arith) (ground arith)) (ground arith)
  | inr large ↦ rw (two_digits n n (ground arith) (ground arith) h) refl
]

decimal-four : (n : ℕ) (rest : Units) → 1000 ≤ n → n < 10000 → decimal n ++ rest ≡ four n rest
unfolding decimal
decimal-four n rest low high = rw (four_digits_lem n n (omega arith) low high) refl

abbrev pub stamp : LocalTime → Units → Units
stamp t rest =
    four t.full_year
      (two t.month (two t.date (b'-' ∷ two t.hours (two t.minutes (two t.seconds rest)))))

-- The time as it is printed, before any other text.
pub format_conflict_timestamp-stamp :
    (t : LocalTime) (rest : Units)
    → IsCalendarTime t
    → format_conflict_timestamp t ++ rest ≡ stamp t rest
unfolding format_conflict_timestamp
format_conflict_timestamp-stamp t rest v =
    append_assoc (decimal t.full_year) _ rest
    ∙ decimal-four t.full_year _ v.four_digits.0 v.four_digits.1
    ∙ ap (four t.full_year) (
        append_assoc (pad_two (decimal t.month)) _ rest
        ∙ pad_two-decimal t.month _ v.month_short
        ∙ ap (two t.month) (
            append_assoc (pad_two (decimal t.date)) _ rest
            ∙ pad_two-decimal t.date _ v.date_short
            ∙ ap (λ s. two t.date (b'-' ∷ s))
                (append_assoc (pad_two (decimal t.hours)) _ rest
                  ∙ pad_two-decimal t.hours _ v.hours_short
                  ∙ ap (two t.hours) (
                      append_assoc (pad_two (decimal t.minutes)) _ rest
                      ∙ pad_two-decimal t.minutes _ v.minutes_short
                      ∙ ap (two t.minutes) (pad_two-decimal t.seconds rest v.seconds_short)))))

digit : (n : ℕ) → n < 10 → is_digit (b'0' + n) ≡ true
unfolding is_digit
digit n h = ground arith

match_two :
    (n : ℕ) (classes : List (ℕ → Bool)) (rest : Units)
    → n < 100
    → match_classes (is_digit ∷ is_digit ∷ classes) (two n rest) ≡ match_classes classes rest
unfolding match_classes
match_two n classes rest h = rw (digit (n / 10) (omega arith), digit (n % 10) (omega arith)) refl

match_four :
    (n : ℕ) (classes : List (ℕ → Bool)) (rest : Units)
    → n < 10000
    → match_classes (replicate 4 is_digit ++ classes) (four n rest) ≡ match_classes classes rest
unfolding match_classes
match_four n classes rest h =
    rw
      (
        digit (n / 1000) (omega arith),
        digit (n / 100 % 10) (omega arith),
        digit (n / 10 % 10) (omega arith),
        digit (n % 10) (omega arith),
      )
      refl

match_literal :
    (s : Units) (classes : List (ℕ → Bool)) (rest : Units)
    → match_classes (map exactly s ++ classes) (s ++ rest) ≡ match_classes classes rest
unfolding match_classes
match_literal [] classes rest = refl
match_literal (c ∷ s) classes rest = ground (arith, match_literal s classes rest)

-- The marker's pattern matches the marker and the time, and leaves what follows.
pub match_marker-stamp :
    (t : LocalTime) (rest : Units)
    → IsCalendarTime t
    → match_classes marker_classes (codes ".sync-conflict-" ++ stamp t rest) ≡ some rest
match_marker-stamp t rest v =
    match_literal (codes ".sync-conflict-") _ (stamp t rest)
    ∙ match_four t.full_year _ _ v.four_digits.1
    ∙ match_two t.month _ _ v.month_short
    ∙ match_two t.date _ _ v.date_short
    ∙ match_literal (b'-' ∷ []) _ _
    ∙ match_two t.hours _ _ v.hours_short
    ∙ match_two t.minutes _ _ v.minutes_short
    ∙ match_two t.seconds [] rest v.seconds_short
    ∙ (unfold match_classes in refl)

number-two : (n : ℕ) → n < 100 → number (two n []) ≡ n
unfolding number number_from
number-two n h = omega arith

number-four : (n : ℕ) → n < 10000 → number (four n []) ≡ n
unfolding number number_from
number-four n h = omega arith

-- The fields are read back.
pub captured_time-stamp :
    (t : LocalTime) (rest : Units)
    → IsCalendarTime t
    → captured_time (codes ".sync-conflict-" ++ stamp t rest) ≡ t
unfolding captured_time slice_from
captured_time-stamp t rest v = ground (
  arith,
  number-four t.full_year v.four_digits.1,
  number-two t.month v.month_short,
  number-two t.date v.date_short,
  number-two t.hours v.hours_short,
  number-two t.minutes v.minutes_short,
  number-two t.seconds v.seconds_short,
)

stamp_digits-Lacks : (n : ℕ) (rest : Units) → n < 100 → Lacks b'/' rest → Lacks b'/' (two n rest)
stamp_digits-Lacks n rest h k =
    Lacks-intro b'/' _ _ (ground arith) (Lacks-intro b'/' _ _ (ground arith) k)

-- There is no slash in a time.
pub format_conflict_timestamp-Lacks :
    (t : LocalTime) → IsCalendarTime t → Lacks b'/' (format_conflict_timestamp t)
format_conflict_timestamp-Lacks t v =
    let nothing : Lacks b'/' [] = unfold cut_last in refl in
    let time = stamp_digits-Lacks t.hours _ v.hours_short (
      stamp_digits-Lacks t.minutes _ v.minutes_short
        (stamp_digits-Lacks t.seconds [] v.seconds_short nothing)) in
    let day =
      stamp_digits-Lacks t.month _ v.month_short
        (stamp_digits-Lacks t.date _ v.date_short (Lacks-intro b'/' b'-' _ refl time)) in
    let all : Lacks b'/' (stamp t []) = Lacks-intro b'/' _ _ (ground arith) (
      Lacks-intro b'/' _ _ (ground arith)
        (Lacks-intro b'/' _ _ (ground arith) (Lacks-intro b'/' _ _ (ground arith) day))) in
    subst (Lacks b'/')
      (sym (format_conflict_timestamp-stamp t [] v) ∙ append-nil (format_conflict_timestamp t)) all

-- ===== src/TextMerge/SplitJoin.antt =====
-- Splitting a text into lines and joining them, with and without U+2028 and U+2029.
use mathlib.Core.List.{append-nil, append_assoc}
use syncali.Prelude.{
  ℕ, ◌≡◌, ◌∙◌, refl, sym, ap, true, false, ◌||◌, List, [], ◌∷◌, ◌++◌, arith, All, ◌==◌,
}
use syncali.TextMerge.Lines.{
  Text, newline, carriage_return, is_separator, matches, last_matches, pop_empty, split_lines, join,
}

join-pop_empty : (ls : List Text) → join (pop_empty ls) ≡ join ls
unfolding pop_empty join
join-pop_empty [] = refl
join-pop_empty ([] ∷ []) = refl
join-pop_empty ((c ∷ l) ∷ []) = refl
join-pop_empty (l ∷ k ∷ ls) = ap (λ x. l ++ x) (join-pop_empty (k ∷ ls))

abbrev pub NoSeparator : Text → Type 0
NoSeparator s = All (λ c. is_separator c ≡ false) s

join-last : (pending : Text) → join (last_matches pending) ≡ pending
unfolding join
join-last [] = refl
join-last (p ∷ ps) = ap (λ x. p ∷ x) (append-nil ps)

join-matches : (pending s : Text) → NoSeparator s → join (matches pending s) ≡ pending ++ s
unfolding matches join
join-matches pending [] h = join-last pending ∙ sym (append-nil pending)
join-matches pending (c ∷ []) h = ground (arith, append-nil (pending ++ c ∷ []))
join-matches pending (c ∷ d ∷ s) h = ground (
  arith,
  join-matches [] s h.1.1,
  join-matches [] (d ∷ s) h.1,
  join-matches (pending ++ c ∷ []) (d ∷ s) h.1,
  append_assoc pending (c ∷ []) (d ∷ s),
  append_assoc pending (c ∷ d ∷ []) s,
)

-- Joining the lines of a text gives the text back, if it has neither U+2028 nor U+2029.
pub join-split_lines : (s : Text) → NoSeparator s → join (split_lines s) ≡ s
unfolding split_lines join
join-split_lines [] h = refl
join-split_lines (c ∷ s) h = join-pop_empty (matches [] (c ∷ s)) ∙ join-matches [] (c ∷ s) h

abbrev pub IsPlain : ℕ → Type 0
IsPlain c = ((c == newline || c == carriage_return) || is_separator c) ≡ false

matches_drop :
    (pending u v : Text) (c : ℕ)
    → All IsPlain u
    → is_separator c ≡ true
    → matches pending (u ++ c ∷ v) ≡ matches [] v
unfolding matches
matches_drop pending [] [] c h e = ground arith
matches_drop pending [] (d ∷ v) c h e = ground arith
matches_drop pending (x ∷ []) v c h e = ground (arith, matches_drop (pending ++ x ∷ []) [] v c tt e)
matches_drop pending (x ∷ y ∷ u) v c h e =
    ground (arith, matches_drop (pending ++ x ∷ []) (y ∷ u) v c h.1 e)

split_lines_lem : (s : Text) → split_lines s ≡ pop_empty (matches [] s)
unfolding split_lines
split_lines_lem [] = refl
split_lines_lem (c ∷ s) = refl

-- What stands before U+2028 or U+2029 on a line, and the separator, are in none of the lines: the
-- lines of the text are those of what follows the separator.
pub split_lines_drop :
    (u v : Text) (c : ℕ)
    → All IsPlain u
    → is_separator c ≡ true
    → split_lines (u ++ c ∷ v) ≡ split_lines v
split_lines_drop u v c h e =
    split_lines_lem (u ++ c ∷ v)
    ∙ ap pop_empty (matches_drop [] u v c h e)
    ∙ sym (split_lines_lem v)

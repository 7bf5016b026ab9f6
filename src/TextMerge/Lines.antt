-- ===== src/TextMerge/Lines.antt =====
-- splitLines of text-merge.ts.
use syncali.Prelude.{ℕ, Bool, ◌||◌, List, [], ◌∷◌, ◌++◌, ◌==◌, if◌then◌else◌}

abbrev pub Text : Type 0
Text = List ℕ

abbrev pub newline : ℕ
newline = 10

abbrev pub carriage_return : ℕ
carriage_return = 13

-- U+2028 and U+2029: with `\n` and `\r`, what `.` does not match.
abbrev pub is_separator : ℕ → Bool
is_separator c = c == 0x2028 || c == 0x2029

-- The matches at the end of the text: what is pending, if anything, and the empty one.
abbrev pub last_matches : Text → List Text
last_matches [] = [] ∷ []
last_matches (p ∷ ps) = (p ∷ ps) ∷ [] ∷ []

-- All matches of /.*(?:\r\n|\n|\r|$)/g from here on, where `pending` is what `.*` took since the
-- last match. At a separator `.*` stops and no alternative fits, so no match starts in `pending`,
-- and the search goes on behind the separator. The last match, at the end, is empty.
unfoldable pub matches : Text → Text → List Text
matches pending [] = last_matches pending
matches pending (c ∷ []) =
    if c == newline || c == carriage_return
    then (pending ++ c ∷ []) ∷ [] ∷ []
    else if is_separator c
    then [] ∷ []
    else (pending ++ c ∷ []) ∷ [] ∷ []
matches pending (c ∷ d ∷ s) =
    let after_two = matches [] s in
    let after_one = matches [] (d ∷ s) in
    let onward = matches (pending ++ c ∷ []) (d ∷ s) in
    if c == newline
    then (pending ++ c ∷ []) ∷ after_one
    else if c == carriage_return
    then (if d == newline
        then (pending ++ c ∷ d ∷ []) ∷ after_two
        else (pending ++ c ∷ []) ∷ after_one)
    else if is_separator c
    then after_one
    else onward

-- `if (lines[lines.length - 1] === "") lines.pop()`
unfoldable pub pop_empty : List Text → List Text
pop_empty [] = []
pop_empty ([] ∷ []) = []
pop_empty ((c ∷ l) ∷ []) = (c ∷ l) ∷ []
pop_empty (l ∷ k ∷ ls) = l ∷ pop_empty (k ∷ ls)

unfoldable pub split_lines : Text → List Text
unfolding matches pop_empty
split_lines [] = []
split_lines (c ∷ s) = pop_empty (matches [] (c ∷ s))

-- `lines.join("")`
unfoldable pub join : List Text → Text
join [] = []
join (l ∷ ls) = l ++ join ls

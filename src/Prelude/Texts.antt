-- ===== src/Prelude/Texts.antt =====
-- Equality of texts as a decision, which case splits turn into an equation or its negation, and
-- the truth value that the source gives to an optional text.
use Prim.Native.Nat.{ℕ}
use Prim.Native.String.{String}
use Prim.Native.Char.{Char, code}
use mathlib.Core.Path.{◌≡◌}
use mathlib.Core.Logic.{ite, dite}
use mathlib.Core.Bool.{Bool, true, false, ◌||◌, ◌&&◌, Bool-discrete}
use mathlib.Core.Option.{Option, none, some}
use mathlib.Core.List.{List, [], ◌∷◌}
use syncali.Prelude.Tests.{leb, ◌==◌, if◌then◌else◌}
use text.Mathlib.Text
use text.Mathlib.TextEquality.{eq_iff}
use native.Mathlib.Omega.{arith}

-- Shut in proofs, and unfolded in tests.
unfoldable pub text_dec : Discrete String
text_dec s t =
    dite (Bool-discrete (Text.◌==◌ s t) true) (λ equal. yes ((eq_iff s t).0 equal))
      (λ differ. no (λ p. differ ((eq_iff s t).1 p)))

-- `s === t` of the source, and `=` of SQL on columns that are not null.
abbrev pub same : String → String → Bool
same s t = ite (text_dec s t) true false

-- `column = ?` of SQL on a column that may be null.
abbrev pub refers : String → Option String → Bool
refers s none = false
refers s (some t) = same t s

-- `set.has(s)`
unfoldable pub has : List String → String → Bool
has [] s = false
has (t ∷ ts) s = same t s || has ts s

-- A text that is present and not empty: what passes `if (s)`.
abbrev pub truthy : Option String → Option String
truthy none = none
truthy (some String.[]) = none
truthy (some (String.◌∷◌ c s)) = some (String.◌∷◌ c s)

pub truthy-some : (o : Option String) (s : String) → truthy o ≡ some s → o ≡ some s
truthy-some none s h = ground arith
truthy-some (some String.[]) s h = ground arith
truthy-some (some (String.◌∷◌ c t)) s h = h

-- The code points that `trim` and `\\s` take for white space.
unfoldable pub is_white : ℕ → Bool
is_white c =
    (leb 9 c && leb c 13)
    || (c == 32
        || (c == 0xa0
            || (c == 0x1680
                || ((leb 0x2000 c && leb c 0x200a)
                    || (c == 0x2028
                        || (c == 0x2029
                            || (c == 0x202f || (c == 0x205f || (c == 0x3000 || c == 0xfeff)))))))))

unfoldable pub is_space : Char → Bool
unfolding is_white
is_space c = is_white (code c)

unfoldable pub trim_start : String → String
unfolding is_space
trim_start String.[] = String.[]
trim_start (String.◌∷◌ c s) = let rest = trim_start s in if is_space c then rest else String.◌∷◌ c s

unfoldable pub trim_end : String → String
unfolding is_space
trim_end String.[] = String.[]
trim_end (String.◌∷◌ c s) = elim (trim_end s) [
  | String.[] ↦ if is_space c then String.[] else String.◌∷◌ c String.[]
  | String.◌∷◌ d r ↦ String.◌∷◌ c (String.◌∷◌ d r)
]

-- `s.trim()`
unfoldable pub trim : String → String
unfolding trim_start trim_end
trim s = trim_end (trim_start s)

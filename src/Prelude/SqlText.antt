-- ===== src/Prelude/SqlText.antt =====
-- A strict order on texts, as SQL compares columns of texts; and the order by code points.
use Prim.Native.String.{String}
use Prim.Native.Char.{Char, code}
use mathlib.Core.Path.{◌≡◌, refl}
use mathlib.Core.Logic.{◌≢◌}
use mathlib.Core.Bool.{Bool, true, false, ◌||◌, ◌&&◌}
use syncali.Prelude.Tests.{ltb, ◌==◌}
use text.Mathlib.TextEquality.{codes_equal}
use native.Mathlib.Omega.{arith}

pub record TextOrder : Type 0 where
  pub before : String → String → Bool
  pub transitive : (r s t : String) → before r s ≡ true → before s t ≡ true → before r t ≡ true
  pub asymmetric : (s t : String) → before s t ≡ true → before t s ≡ false
  pub connected : (s t : String) → s ≢ t → before s t ≡ false → before t s ≡ true

unfoldable pub text_before : String → String → Bool
text_before String.[] String.[] = false
text_before String.[] (String.◌∷◌ d t) = true
text_before (String.◌∷◌ c s) String.[] = false
text_before (String.◌∷◌ c s) (String.◌∷◌ d t) =
    ltb (code c) (code d) || (code c == code d && text_before s t)

text_before_trans :
    (r s t : String) → text_before r s ≡ true → text_before s t ≡ true → text_before r t ≡ true
unfolding text_before
text_before_trans String.[] String.[] t h k = ground arith
text_before_trans String.[] (String.◌∷◌ c s) String.[] h k = ground arith
text_before_trans String.[] (String.◌∷◌ c s) (String.◌∷◌ d t) h k = refl
text_before_trans (String.◌∷◌ b r) String.[] t h k = ground arith
text_before_trans (String.◌∷◌ b r) (String.◌∷◌ c s) String.[] h k = ground arith
text_before_trans (String.◌∷◌ b r) (String.◌∷◌ c s) (String.◌∷◌ d t) h k =
    ground (arith, text_before_trans r s t)

text_before_asym : (s t : String) → text_before s t ≡ true → text_before t s ≡ false
unfolding text_before
text_before_asym String.[] String.[] h = refl
text_before_asym String.[] (String.◌∷◌ d t) h = refl
text_before_asym (String.◌∷◌ c s) String.[] h = ground arith
text_before_asym (String.◌∷◌ c s) (String.◌∷◌ d t) h = ground (arith, text_before_asym s t)

code_eq : (c d : Char) → (code c == code d) ≡ true → c ≡ d
code_eq c d h = codes_equal c d (ground arith)

text_before_connected : (s t : String) → s ≢ t → text_before s t ≡ false → text_before t s ≡ true
unfolding text_before
text_before_connected String.[] String.[] n h = absurd (n refl)
text_before_connected String.[] (String.◌∷◌ d t) n h = ground arith
text_before_connected (String.◌∷◌ c s) String.[] n h = refl
text_before_connected (String.◌∷◌ c s) (String.◌∷◌ d t) n h =
    ground (arith, text_before_connected s t, code_eq c d)

unfoldable pub code_point_order : TextOrder
unfolding text_before text_before_trans text_before_asym text_before_connected code_eq
code_point_order = record {
  before = text_before;
  transitive = text_before_trans;
  asymmetric = text_before_asym;
  connected = text_before_connected;
}

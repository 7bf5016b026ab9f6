-- ===== src/Paths/Settings.antt =====
-- The stored settings as they are read back: values of no known type, which the `normalize`
-- functions of `file-rules.ts` and `vault-config-rules.ts` turn into rules.
use syncali.Prelude.{Bool, List}
use syncali.Paths.Units.{Units}

-- An element of a stored array: a string, or anything else.
pub data Item : Type 0 where
  string_item : Units → Item
  other_item : Item

-- A stored field: `other` is a number, an object, null or a field that is not there.
pub data Setting : Type 0 where
  flag : Bool → Setting
  string : Units → Setting
  array : List Item → Setting
  other : Setting

-- `asBoolean`
unfoldable pub as_boolean : Setting → Bool → Bool
as_boolean (flag b) fallback = b
as_boolean (string s) fallback = fallback
as_boolean (array items) fallback = fallback
as_boolean other fallback = fallback

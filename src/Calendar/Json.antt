-- ===== src/Calendar/Json.antt =====
-- The values of a `map[string]any` that core/internal/calendar/convert.go writes, and those that a
-- JSON column may give back in their place.
use dankcalendar.Base.{
  ℤ, String, Bool, false, List, [], ◌∷◌, Option, none, some, ◌==◌, string_eq, if◌then◌else◌,
}

pub data Json : Type 0 where
  text : String → Json
  flag : Bool → Json
  int int64 : ℤ → Json
  -- A `float64`, by the integer that `int(v)` cuts it to.
  float64 : ℤ → Json
  -- `[]string`.
  texts : List String → Json
  -- `[]any`: an item that is not a string is `none`.
  items : List (Option String) → Json
  -- Any other value.
  object : Json

abbrev pub JsonMap : Type 0
JsonMap = List (String × Json)

-- `m[k]`; a key that is missing gives nil.
unfoldable pub get : JsonMap → String → Option Json
get [] k = none
get ((j, v) ∷ m) k = if j == k then some v else get m k

-- `s, _ := v.(string)`
unfoldable pub as_text : Option Json → String
as_text none = ""
as_text (some (text s)) = s
as_text (some _) = ""

-- `b, _ := v.(bool)`
unfoldable pub as_flag : Option Json → Bool
as_flag none = false
as_flag (some (flag b)) = b
as_flag (some _) = false

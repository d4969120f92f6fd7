-- ===== src/Calendar/Color.antt =====
-- core/internal/calendar/color.go. `strings.TrimSpace` and `strings.ToLower` are parameters. A text
-- is its characters; where the source counts bytes or cuts at a byte, the text is hexadecimal.
pub mod Shape
use Prim.Native.Char.{code}
use Prim.Native.String.{String, ◌++◌}
use dankcalendar.Base.{
  ℕ, zero, suc, leb, Bool, true, not, ◌&&◌, ◌||◌, ◌==◌, string_eq, nat_eq, if◌then◌else◌,
}

-- `strings.TrimPrefix(s, "#")`
unfoldable pub trim_hash : String → String
trim_hash String.[] = String.[]
trim_hash (String.◌∷◌ c s) = if code c == b'#' then s else String.◌∷◌ c s

abbrev pub within : ℕ → ℕ → ℕ → Bool
within lo hi c = leb lo c && leb c hi

abbrev hex_code : ℕ → Bool
hex_code c = within b'0' b'9' c || (within b'a' b'f' c || within b'A' b'F' c)

abbrev alpha_code : ℕ → Bool
alpha_code c = within b'a' b'z' c || within b'A' b'Z' c

unfoldable pub is_hex : String → Bool
is_hex String.[] = true
is_hex (String.◌∷◌ c s) = hex_code (code c) && is_hex s

unfoldable pub is_alpha : String → Bool
is_alpha String.[] = true
is_alpha (String.◌∷◌ c s) = alpha_code (code c) && is_alpha s

unfoldable pub len : String → ℕ
len String.[] = 0
len (String.◌∷◌ c s) = suc (len s)

-- `s[:n]` and `s[n:]`
unfoldable pub take : ℕ → String → String
take zero s = String.[]
take (suc n) String.[] = String.[]
take (suc n) (String.◌∷◌ c s) = String.◌∷◌ c (take n s)

unfoldable pub drop : ℕ → String → String
drop zero s = s
drop (suc n) String.[] = String.[]
drop (suc n) (String.◌∷◌ c s) = drop n s

module _ (trim_space to_lower : String → String) where
  -- The switch on the number of digits.
  unfoldable pub shorten : String → String
  shorten hex =
      let n = len hex in
      if n == 3 || n == 6
      then "#" ++ to_lower hex
      else if n == 8
      then "#" ++ to_lower (take 6 hex)
      else if n == 12
      then "#" ++ to_lower (take 2 hex ++ (take 2 (drop 4 hex) ++ take 2 (drop 8 hex)))
      else ""

  unfoldable pub normalize_color : String → String
  normalize_color raw =
      let s = trim_space raw in
      let hex = trim_hash s in
      if hex == ""
      then ""
      else if not (is_hex hex)
      then (if s == hex && is_alpha s then to_lower s else "")
      else shorten hex

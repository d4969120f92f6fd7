-- ===== src/Calendar/Color/Shape.antt =====
-- The texts that `NormalizeColor` of core/internal/calendar/color.go returns.
use Prim.Native.String.append
use Prim.Native.String.{String, ◌++◌}
use dankcalendar.Base.{
  ℕ, zero, suc, ◌+◌, ◌≤◌, ◌≡◌, ◌⊎◌, inl, inr, refl, ap, true, ◌&&◌, ◌||◌, ◌==◌, string_eq, nat_eq,
  Bool-cases, arith,
}
use dankcalendar.Calendar.Color.{
  is_hex, is_alpha, len, take, drop, shorten, trim_hash, normalize_color,
}

is_hex-take : (n : ℕ) (s : String) → is_hex s ≡ true → is_hex (take n s) ≡ true
unfolding is_hex take
is_hex-take zero s h = refl
is_hex-take (suc n) String.[] h = refl
is_hex-take (suc n) (String.◌∷◌ c s) h = ground (arith, is_hex-take n s)

is_hex-drop : (n : ℕ) (s : String) → is_hex s ≡ true → is_hex (drop n s) ≡ true
unfolding is_hex drop
is_hex-drop zero s h = h
is_hex-drop (suc n) String.[] h = refl
is_hex-drop (suc n) (String.◌∷◌ c s) h = is_hex-drop n s (ground arith)

is_hex-++ : (s t : String) → is_hex s ≡ true → is_hex t ≡ true → is_hex (s ++ t) ≡ true
unfolding is_hex
is_hex-++ String.[] t h k = rw (append.nil t) k
is_hex-++ (String.◌∷◌ c s) t h k = rw (append.cons c s t) (ground (arith, is_hex-++ s t))

len-take : (n : ℕ) (s : String) → n ≤ len s → len (take n s) ≡ n
unfolding len take
len-take zero s h = refl
len-take (suc n) String.[] h = absurd (omega arith)
len-take (suc n) (String.◌∷◌ c s) h = ap suc (len-take n s (omega arith))

len-drop : (n : ℕ) (s : String) → n ≤ len s → len (drop n s) + n ≡ len s
unfolding len drop
len-drop zero s h = omega arith
len-drop (suc n) String.[] h = absurd (omega arith)
len-drop (suc n) (String.◌∷◌ c s) h = omega (arith, len-drop n s (omega arith))

len-++ : (s t : String) → len (s ++ t) ≡ len s + len t
unfolding len
len-++ String.[] t = rw (append.nil t) (omega arith)
len-++ (String.◌∷◌ c s) t = rw (append.cons c s t) (omega (arith, len-++ s t))

-- Three or six hexadecimal digits.
abbrev IsDigits : String → Type 0
IsDigits h = (is_hex h ≡ true) × ((len h ≡ 3) ⊎ (len h ≡ 6))

abbrev twelve : String → String
twelve hex = take 2 hex ++ (take 2 (drop 4 hex) ++ take 2 (drop 8 hex))

twelve-IsDigits : (hex : String) → is_hex hex ≡ true → len hex ≡ 12 → IsDigits (twelve hex)
twelve-IsDigits hex h n = (
  is_hex-++ (take 2 hex) _ (is_hex-take 2 hex h) (
      is_hex-++ (take 2 (drop 4 hex)) _ (is_hex-take 2 _ (is_hex-drop 4 hex h))
        (is_hex-take 2 _ (is_hex-drop 8 hex h))),
  inr (
      omega (
        arith,
        len-++ (take 2 hex) (take 2 (drop 4 hex) ++ take 2 (drop 8 hex)),
        len-++ (take 2 (drop 4 hex)) (take 2 (drop 8 hex)),
        len-take 2 hex (omega (arith, n)),
        len-take 2 (drop 4 hex) (omega (arith, n, len-drop 4 hex (omega (arith, n)))),
        len-take 2 (drop 8 hex) (omega (arith, n, len-drop 8 hex (omega (arith, n)))),
      )),
)

module _ (trim_space to_lower : String → String) where
  -- The empty text, the lower case of letters, or `#` before the lower case of digits.
  abbrev IsColor : String → Type 0
  IsColor c =
      (c ≡ "")
      ⊎ ((s : String) × (is_alpha s ≡ true) × (c ≡ to_lower s))
      ⊎ ((h : String) × IsDigits h × (c ≡ "#" ++ to_lower h))

  shorten-IsColor : (hex : String) → is_hex hex ≡ true → IsColor (shorten trim_space to_lower hex)
  unfolding shorten
  shorten-IsColor hex h = elim (Bool-cases (len hex == 3 || len hex == 6)) [
    | inl short ↦ rw short (inr (inr (hex, (h, ground (arith, short)), refl)))
    | inr k ↦ rw k (elim (Bool-cases (len hex == 8)) [
      | inl e ↦ rw e (
          inr (
            inr
              (take 6 hex, (is_hex-take 6 hex h, inr (len-take 6 hex (ground (arith, e)))), refl)))
      | inr j ↦ rw j (elim (Bool-cases (len hex == 12)) [
        | inl e ↦ rw e (inr (inr (twelve hex, twelve-IsDigits hex h (ground (arith, e)), refl)))
        | inr i ↦ rw i (inl refl)
      ])
    ])
  ]

-- What `normalize_color` returns is the empty text, the lower case of a text of letters, or `#` and
-- the lower case of three or six hexadecimal digits, whatever the provider sends.
normalize_color-IsColor :
    (trim_space to_lower : String → String) (raw : String)
    → IsColor trim_space to_lower (normalize_color trim_space to_lower raw)
unfolding normalize_color
normalize_color-IsColor trim_space to_lower raw =
    let s = trim_space raw in
    let hex = trim_hash s in
    elim (Bool-cases (hex == "")) [
      | inl e ↦ rw e (inl refl)
      | inr k ↦ rw k (elim (Bool-cases (is_hex hex)) [
        | inl h ↦ rw h (shorten-IsColor trim_space to_lower hex h)
        | inr j ↦ rw j (elim (Bool-cases (s == hex && is_alpha s)) [
          | inl a ↦ rw a (inr (inl (s, ground (arith, a), refl)))
          | inr i ↦ rw i (inl refl)
        ])
      ])
    ]

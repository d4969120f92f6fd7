-- ===== src/Reminders/Triggers/Popup.antt =====
-- The offsets that `popupMinutesOf` of core/internal/reminders/engine.go takes from the reminders.
use dankcalendar.Base.{
  ℤ, Bool, false, not, ◌&&◌, ◌||◌, List, [], ◌∷◌, ◌≡◌, refl, arith, ◌==◌, contains, string_eq,
  int_eq,
}
use dankcalendar.Calendar.Types.{Reminder}
use dankcalendar.Reminders.Triggers.{is_popup, popup_loop, popup_minutes_of}

-- Some popup reminder has the offset.
abbrev popup_at : ℤ → List Reminder → Bool
popup_at m [] = false
popup_at m (rem ∷ rems) = (is_popup rem.method && m == rem.minutes) || popup_at m rems

abbrev pub Distinct : List ℤ → Type 0
Distinct [] = Unit
Distinct (m ∷ ms) = (contains ms m ≡ false) × Distinct ms

popup_loop-contains :
    (m : ℤ) (seen : List ℤ) (rems : List Reminder)
    → contains (popup_loop seen rems) m ≡ (popup_at m rems && not (contains seen m))
unfolding popup_loop
popup_loop-contains m seen [] = refl
popup_loop-contains m seen (rem ∷ rems) =
    ground (arith, popup_loop-contains m seen rems, popup_loop-contains m (rem.minutes ∷ seen) rems)

popup_loop-Distinct : (seen : List ℤ) (rems : List Reminder) → Distinct (popup_loop seen rems)
unfolding popup_loop
popup_loop-Distinct seen [] = tt
popup_loop-Distinct seen (rem ∷ rems) = ground (
  arith,
  popup_loop-Distinct seen rems,
  popup_loop-Distinct (rem.minutes ∷ seen) rems,
  popup_loop-contains rem.minutes (rem.minutes ∷ seen) rems,
)

-- The offsets are those of the popup reminders, each of them once.
popup_minutes_of-Distinct :
    (rems : List Reminder) (m : ℤ)
    → Distinct (popup_minutes_of rems) × (contains (popup_minutes_of rems) m ≡ popup_at m rems)
unfolding popup_minutes_of
popup_minutes_of-Distinct rems m =
    (popup_loop-Distinct [] rems, ground (arith, popup_loop-contains m [] rems))

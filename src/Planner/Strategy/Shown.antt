-- ===== src/Planner/Strategy/Shown.antt =====
-- What calendarShowsBookable of internal/planner/strategy.go reads in a calendar, and when a
-- release configuration is unset.
use mathlib.Core.Bool.{false≢true}
use resy_snipe.Domain.Goal.Validation.{IsMidnight, wall_eq-IsMidnight}
use resy_snipe.Providers.{CalendarDay}
use resy_snipe.Prelude.{
  List, ◌≡◌, true, ◌∷◌, ◌↔◌, ◌⊎◌, [], and_iff, arith, refuted_iff, Bool-cases, ap, inl, refl, zero,
  inr,
}
use resy_snipe.Domain.Dates.{Date, ℤ, date_eq, pos}
use resy_snipe.Planner.Strategy.{
  calendar_shows_bookable, config_is_zero, VenueReleaseConfig, is_zero_int,
}

abbrev pub SameDay : Date → Date → Type 0
SameDay a b = (a.year ≡ b.year) × (a.month ≡ b.month) × (a.day ≡ b.day)

-- The first entry for the date is an available day.
abbrev pub IsShown : List CalendarDay → Date → Type 0
IsShown [] date = ⊥
IsShown (d ∷ ds) date =
    (SameDay d.date date × (d.available ≡ true)) ⊎ ((SameDay d.date date → ⊥) × IsShown ds date)

-- No days ahead, at midnight.
abbrev pub IsUnset : VenueReleaseConfig → Type 0
IsUnset c = (c.days_ahead ≡ pos 0) × IsMidnight c.time_local

date_eq-SameDay : (a b : Date) → (date_eq a b ≡ true) ↔ SameDay a b
date_eq-SameDay a b = (λ h. ground (arith, h), λ h. ground (arith, h))

pub calendar_shows_bookable-IsShown :
    (days : List CalendarDay) (date : Date)
    → (calendar_shows_bookable days date ≡ true) ↔ IsShown days date
unfolding calendar_shows_bookable
calendar_shows_bookable-IsShown [] date = (λ h. false≢true h, λ h. absurd h)
calendar_shows_bookable-IsShown (d ∷ ds) date =
    let same = date_eq-SameDay d.date date in
    let rest = calendar_shows_bookable-IsShown ds date in
    elim (Bool-cases (date_eq d.date date)) [
      | inl e ↦ rw e (
        λ h. inl (same.0 e, h),
        λ h. elim h [ inl (_, shown) ↦ shown | inr (other, _) ↦ absurd (other (same.0 e)) ],
      )
      | inr e ↦ rw e (
        λ h. inr ((refuted_iff (date_eq d.date date) same).0 e, rest.0 h),
        λ h. elim h [
          | inl (day, _) ↦ absurd ((refuted_iff (date_eq d.date date) same).0 e day)
          | inr (_, shown) ↦ rest.1 shown
        ],
      )
    ]

is_zero_int-pos : (z : ℤ) → (is_zero_int z ≡ true) ↔ (z ≡ pos 0)
is_zero_int-pos (pos zero) = (λ h. refl, λ h. refl)
is_zero_int-pos z = (λ h. absurd (false≢true h), λ h. ap is_zero_int h)

pub config_is_zero-IsUnset : (c : VenueReleaseConfig) → (config_is_zero c ≡ true) ↔ IsUnset c
config_is_zero-IsUnset c =
    and_iff _ _ (is_zero_int-pos c.days_ahead) (wall_eq-IsMidnight c.time_local)

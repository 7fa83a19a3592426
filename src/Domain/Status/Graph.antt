-- ===== src/Domain/Status/Graph.antt =====
-- What the transition table of internal/domain/status.go allows.
use resy_snipe.Prelude.{
  ℕ, ◌+◌, ◌≤◌, ◌<◌, ◌≡◌, refl, ◌↔◌, inl, inr, true, false, List, [], ◌∷◌, some, arith, leb,
  Bool-cases, Option-cases, sym, none, ◌≢◌,
}
use mathlib.Core.List.{Memᴰ}
use resy_snipe.Domain.Status.{
  Status, submitted, awaiting, finding, booking, booked, failed, canceled, expired, all_statuses,
  is_terminal, Table, lookup_row, can_transition, init_passes,
}

-- A status is terminal exactly when the table allows no move out of it.
is_terminal-can_transition :
    (s : Status) → (is_terminal s ≡ true) ↔ ((t : Status) → can_transition s t ≡ false)
unfolding is_terminal can_transition
is_terminal-can_transition booked = (λ _ t. refl, λ _. refl)
is_terminal-can_transition failed = (λ _ t. refl, λ _. refl)
is_terminal-can_transition canceled = (λ _ t. refl, λ _. refl)
is_terminal-can_transition expired = (λ _ t. refl, λ _. refl)
is_terminal-can_transition s = (λ e. cc, λ h. cc (h failed))

-- A history: each status is a legal move from the one before it.
abbrev pub IsLegal : Status → List Status → Type 0
IsLegal s [] = Unit {0}
IsLegal s (t ∷ ts) = (can_transition s t ≡ true) × IsLegal t ts

abbrev pub last : Status → List Status → Status
last s [] = s
last s (t ∷ ts) = last t ts

-- How far a snipe has come on its way to a booking.
abbrev stage : Status → ℕ
stage awaiting = 1
stage finding = 2
stage booking = 3
stage booked = 4
stage _ = 0

stage-can_transition : (s t : Status) → can_transition s t ≡ true → stage t ≤ stage s + 1
unfolding can_transition
stage-can_transition s t h = ground arith

-- No stage is skipped.
visits :
    (k : Status) (s : Status) (ts : List Status)
    → ((t : Status) → stage t ≡ stage k → t ≡ k)
    → IsLegal s ts
    → stage s < stage k
    → stage k ≤ stage (last s ts)
    → Memᴰ k ts
visits k s [] only legal negsuc above = absurd (omega arith)
visits k s (t ∷ ts) only legal negsuc above = elim (Bool-cases (leb (stage k) (stage t))) [
  | inl reached ↦ Memᴰ.head (sym (only t (ground (arith, stage-can_transition s t legal.0))))
  | inr short ↦ Memᴰ.tail (visits k t ts only legal.1 (ground arith) above)
]

only_awaiting : (t : Status) → stage t ≡ stage awaiting → t ≡ awaiting
only_awaiting t h = ground arith

only_finding : (t : Status) → stage t ≡ stage finding → t ≡ finding
only_finding t h = ground arith

only_booking : (t : Status) → stage t ≡ stage booking → t ≡ booking
only_booking t h = ground arith

-- Every legal history of a snipe that begins at Submitted and ends at Booked goes through Awaiting,
-- Finding and Booking.
pub booked_visits :
    (ts : List Status)
    → IsLegal submitted ts
    → last submitted ts ≡ booked
    → Memᴰ awaiting ts × Memᴰ finding ts × Memᴰ booking ts
booked_visits ts legal e = (
  visits awaiting submitted ts only_awaiting legal (omega arith) (rw e (omega arith)),
  visits finding submitted ts only_finding legal (omega arith) (rw e (omega arith)),
  visits booking submitted ts only_booking legal (omega arith) (rw e (omega arith)),
)

no_row_missing :
    (table : Table)
    → init_passes table all_statuses ≡ true
    → (s : Status) → lookup_row table s ≢ none
unfolding init_passes all_statuses
no_row_missing table h submitted = ground arith
no_row_missing table h s = ground arith

terminal_row_empty :
    (table : Table)
    → init_passes table all_statuses ≡ true
    → (s : Status) (row : List Status) → lookup_row table s ≡ some row
    → is_terminal s ≡ true
    → row ≡ []
unfolding init_passes all_statuses
terminal_row_empty table h booked row e t = ground arith
terminal_row_empty table h s row e t = ground arith

-- Any table that passes the check at program start has a row for each status, and the row of a
-- terminal status is empty.
pub init_passes_sound :
    (table : Table)
    → init_passes table all_statuses ≡ true
    → (s : Status)
    → (row : List Status) × (lookup_row table s ≡ some row) × (is_terminal s ≡ true → row ≡ [])
init_passes_sound table h s = elim (Option-cases (lookup_row table s)) [
  | inl e ↦ absurd (no_row_missing table h s e)
  | inr (row, e) ↦ (row, e, terminal_row_empty table h s row e)
]

-- One legal move after another.
pub data Moves (s : Status) : Status → Type 0 where
  stay : Moves s s
  move : {t u : Status} → Moves s t → can_transition t u ≡ true → Moves s u

-- ===== src/Domain/Status.antt =====
-- internal/domain/status.go: the lifecycle states of a snipe and the table of legal moves.
use resy_snipe.Prelude.{
  ℕ, Bool, true, false, ◌&&◌, Option, none, some, List, [], ◌∷◌, String, length, ◌==◌,
  if◌then◌else◌,
}
pub mod Graph

pub data Status : Type 0 where
  submitted scheduled discovering awaiting finding booking booked failed canceled expired : Status

-- The value that `iota` gives.
abbrev pub code : Status → ℕ
code submitted = 0
code scheduled = 1
code discovering = 2
code awaiting = 3
code finding = 4
code booking = 5
code booked = 6
code failed = 7
code canceled = 8
code expired = 9

-- `a == b` on Go's Status.
abbrev pub status_eq : Status → Status → Bool
status_eq a b = code a == code b

unfoldable pub all_statuses : List Status
all_statuses =
    submitted ∷ scheduled ∷ discovering ∷ awaiting ∷ finding ∷ booking ∷ booked ∷ failed ∷ canceled
    ∷ expired ∷ []

unfoldable pub is_terminal : Status → Bool
is_terminal booked = true
is_terminal failed = true
is_terminal canceled = true
is_terminal expired = true
is_terminal _ = false

-- Status.String.
unfoldable pub name : Status → String
name submitted = "submitted"
name scheduled = "scheduled"
name discovering = "discovering"
name awaiting = "awaiting"
name finding = "finding"
name booking = "booking"
name booked = "booked"
name failed = "failed"
name canceled = "canceled"
name expired = "expired"

-- A Go map of sets, as an association list.
abbrev pub Table : Type 0
Table = List (Status × List Status)

unfoldable pub allowed_transitions : Table
allowed_transitions =
    (submitted, scheduled ∷ discovering ∷ canceled ∷ failed ∷ [])
    ∷ (scheduled, awaiting ∷ discovering ∷ canceled ∷ failed ∷ expired ∷ [])
    ∷ (discovering, awaiting ∷ canceled ∷ failed ∷ expired ∷ [])
    ∷ (awaiting, finding ∷ canceled ∷ failed ∷ expired ∷ [])
    ∷ (finding, booking ∷ awaiting ∷ canceled ∷ failed ∷ expired ∷ [])
    ∷ (booking, booked ∷ finding ∷ canceled ∷ failed ∷ [])
    ∷ (booked, [])
    ∷ (failed, [])
    ∷ (canceled, [])
    ∷ (expired, [])
    ∷ []

abbrev pub lookup_row : Table → Status → Option (List Status)
lookup_row [] s = none
lookup_row ((from, row) ∷ rest) s = if status_eq from s then some row else lookup_row rest s

-- slices.Contains, and the membership test of a set.
abbrev pub valid_status : Status → List Status → Bool
valid_status s [] = false
valid_status s (t ∷ all) = if status_eq t s then true else valid_status s all

unfoldable pub can_transition : Status → Status → Bool
unfolding allowed_transitions
can_transition from to = elim (lookup_row allowed_transitions from) [
  | none ↦ false
  | some allowed ↦ valid_status to allowed
]

abbrev all_valid : List Status → List Status → Bool
all_valid [] all = true
all_valid (to ∷ tos) all = valid_status to all && all_valid tos all

-- Every status is a key, and its row names known statuses only.
abbrev rows_valid : Table → List Status → List Status → Bool
rows_valid table [] all = true
rows_valid table (from ∷ rest) all = elim (lookup_row table from) [
  | none ↦ false
  | some row ↦ all_valid row all && rows_valid table rest all
]

-- `len` of a missing map entry is 0.
abbrev row_empty : Option (List Status) → Bool
row_empty none = true
row_empty (some row) = length row == 0

abbrev terminals_empty : Table → List Status → Bool
unfolding is_terminal
terminals_empty table [] = true
terminals_empty table (s ∷ rest) =
    (if is_terminal s then row_empty (lookup_row table s) else true) && terminals_empty table rest

-- init: false is a panic at program start.
unfoldable pub init_passes : Table → List Status → Bool
unfolding is_terminal
init_passes table statuses =
    (length table == length statuses)
    && rows_valid table statuses statuses
    && terminals_empty table statuses

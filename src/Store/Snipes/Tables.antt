-- ===== src/Store/Snipes/Tables.antt =====
-- The tables that internal/store/sqlite.go reads and writes.
use resy_snipe.Prelude.Results.{err, ok}
use resy_snipe.Domain.Snipe.{SnipeState, Event}
use resy_snipe.Prelude.{
  List, String, ◌≡◌, ◌≢◌, none, some, ◌∷◌, arith, false, true, [], str_eq_iff, ◌++◌, refl,
}
use resy_snipe.Store.Snipes.{
  transition_snipe, update_row, find_row, row_of, Db, SnipeRow, not_found,
}

update_row-missing :
    (new : SnipeRow) (rows : List SnipeRow)
    → find_row new.id rows ≡ none
    → update_row new rows ≡ (rows, false)
unfolding update_row find_row
update_row-missing new [] h = refl
update_row-missing new (r ∷ rs) h = ground (arith, update_row-missing new rs)

update_row-found :
    (new r : SnipeRow) (rows : List SnipeRow)
    → find_row new.id rows ≡ some r
    → (update_row new rows).1 ≡ true
unfolding update_row find_row
update_row-found new r [] h = cc
update_row-found new r (x ∷ xs) h = ground (arith, update_row-found new r xs)

find_row-update_row :
    (new r : SnipeRow) (rows : List SnipeRow)
    → find_row new.id rows ≡ some r
    → find_row new.id (update_row new rows).0 ≡ some (record new { created_at = r.created_at })
unfolding update_row find_row
find_row-update_row new r [] h = cc
find_row-update_row new r (x ∷ xs) h =
    ground (arith, find_row-update_row new r xs, str_eq_iff new.id new.id)

find_row-update_row_other :
    (new : SnipeRow) (id : String) (rows : List SnipeRow)
    → id ≢ new.id
    → find_row id (update_row new rows).0 ≡ find_row id rows
unfolding update_row find_row
find_row-update_row_other new id [] h = refl
find_row-update_row_other new id (x ∷ xs) h = ground (
  arith,
  find_row-update_row_other new id xs,
  str_eq_iff new.id id,
  str_eq_iff x.id id,
  str_eq_iff x.id new.id,
)

-- TransitionSnipe on a stored snipe replaces its row but for the creation time, leaves the rows of
-- the other snipes, and appends one event.
pub transition_snipe_stored :
    (db : Db) (s : SnipeState) (ev : Event) (r : SnipeRow)
    → find_row s.id db.snipes ≡ some r
    → (db' : Db) × (transition_snipe db s ev ≡ ok db')
      × (find_row s.id db'.snipes ≡ some (record (row_of s) { created_at = r.created_at }))
      × ((id : String) → id ≢ s.id → find_row id db'.snipes ≡ find_row id db.snipes)
      × (db'.events ≡ db.events ++ (s.id, ev) ∷ [])
unfolding transition_snipe row_of
transition_snipe_stored db s ev r h = (
  record db { snipes = (update_row (row_of s) db.snipes).0; events = db.events ++ (s.id, ev) ∷ [] },
  rw (update_row-found (row_of s) r db.snipes h),
  find_row-update_row (row_of s) r db.snipes h,
  λ id ne. find_row-update_row_other (row_of s) id db.snipes ne,
  refl,
)

-- TransitionSnipe on a snipe that is not stored fails with not found.
pub transition_snipe_missing :
    (db : Db) (s : SnipeState) (ev : Event)
    → find_row s.id db.snipes ≡ none
    → transition_snipe db s ev ≡ err not_found
unfolding transition_snipe row_of
transition_snipe_missing db s ev h = rw (update_row-missing (row_of s) db.snipes h)

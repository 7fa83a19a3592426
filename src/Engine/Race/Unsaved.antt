-- ===== src/Engine/Race/Unsaved.antt =====
-- What internal/engine/race.go leaves when the booking cannot be written.
use mathlib.Core.Option.{some_inj, some-ne-none}
use resy_snipe.Engine.Race.Booked.{receipt_of}
use resy_snipe.Prelude.Results.{err}
use resy_snipe.Prelude.{◌≡◌, none, true, some, sym, ap, ◌∙◌, refl}
use resy_snipe.Engine.Transition.Atomic.{IsSynced}
use resy_snipe.Providers.{Confirmation}
use resy_snipe.Store.Snipes.{row_of, find_row, SnipeRow}
use resy_snipe.Engine.World.{tick, Env, World, store_failure}
use resy_snipe.Domain.Status.{can_transition, booking}
use resy_snipe.Domain.Snipe.{transition, Receipt, SnipeState}
use resy_snipe.Engine.Transition.{transition_to, persist}
use resy_snipe.Engine.Race.{book_winner}

unsaved :
    (w v : World) (r : Receipt)
    → IsSynced w
    → w.live.result ≡ none
    → v.db ≡ w.db
    → v.live ≡ record w.live { result = some r }
    → ¬ IsSynced v
unfolding row_of
unsaved w v r synced fresh d l later =
    let same : find_row v.live.id v.db.snipes ≡ find_row w.live.id w.db.snipes = rw (d, l) refl in
    let rows : row_of v.live ≡ row_of w.live = some_inj.0 (sym later ∙ same ∙ synced) in
    some-ne-none r (
      sym (ap (λ (s : SnipeState). s.result) l) ∙ ap (λ (x : SnipeRow). x.result_json) rows ∙ fresh)

-- When the race has a winner and the snipe is in Booking, but the write of the booking fails, the
-- store's error is returned and the database is as it was, while the snipe in memory keeps the
-- winner's receipt: if it agreed with its row and had no result before, it no longer agrees.
pub book_winner_unsaved :
    (env : Env) (c : Confirmation) (w : World)
    → IsSynced w
    → w.live.status ≡ booking
    → w.live.result ≡ none
    → env.store_fails w.step ≡ true
    → ((book_winner env c w).0 ≡ err store_failure)
      × ((book_winner env c w).1.db ≡ w.db)
      × ((book_winner env c w).1.live ≡ record w.live { result = some (receipt_of c) })
      × ¬ IsSynced (book_winner env c w).1
unfolding book_winner transition_to transition persist can_transition tick row_of
book_winner_unsaved env c w synced status fresh fails =
    let db_is : (book_winner env c w).1.db ≡ w.db = simp (status, fails) refl in
    let live_is : (book_winner env c w).1.live ≡ record w.live { result = some (receipt_of c) } =
      simp (status, fails) refl in
    (
      simp (status, fails) refl,
      db_is,
      live_is,
      unsaved w (book_winner env c w).1 (receipt_of c) synced fresh db_is live_is,
    )

-- ===== src/Engine/Subscribe/Delivery.antt =====
-- In which order the subscribers of internal/engine/subscribe.go are called.
use resy_snipe.Prelude.{ℕ, All, List, ◌<◌}
use resy_snipe.Engine.Subscribe.{Registry}

-- Every id given out so far is below the next one.
abbrev pub IsFresh : {S : Type 0} → Registry S → Type 0
IsFresh r = All (λ (s : ℕ × _). s.0 < r.next_sub_id) r.subs

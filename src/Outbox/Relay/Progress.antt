-- ===== src/Outbox/Relay/Progress.antt =====
-- How the relay of internal/platform/outbox/outbox.go empties its table.
use specforge.Prelude.{ℕ, ◌+◌, ◌<◌, ◌≡◌, String, false, none, List, [], ◌∷◌, if◌then◌else◌, ◌⊎◌}
use specforge.Outbox.{Envelope}
use specforge.Outbox.Relay.{Row, Turn, mark_published, is_pending}

abbrev pub pending_of : ℕ → Row → ℕ
pending_of max r = if is_pending max r then 1 else 0

unfoldable pub count_pending : ℕ → List Row → ℕ
count_pending max [] = 0
count_pending max (r ∷ rows) = pending_of max r + count_pending max rows

-- Where nothing is locked, a selection is empty only if no row is pending; otherwise marking its
-- first row leaves fewer.
abbrev Selects : ℕ → ℕ → List Row → List Row → Type 0
Selects max now rows [] = count_pending max rows ≡ 0
Selects max now rows (b ∷ batch) =
    count_pending max (mark_published now b.event.event_id rows) < count_pending max rows

-- Nothing is pending any more, or less is.
abbrev IsLess : ℕ → List Row → List Row → Type 0
IsLess max rows rows' =
    (count_pending max rows' ≡ 0) ⊎ (count_pending max rows' < count_pending max rows)

-- A turn in which no row is locked and the publisher delivers whatever it is given.
pub record IsGood {L : Type 0} (t : Turn L) : Type 0 where
  pub free : (id : String) → t.locked id ≡ false
  pub delivers : (log : L) (events : List Envelope) → (t.publish log events).1 ≡ none

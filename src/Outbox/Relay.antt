-- ===== src/Outbox/Relay.antt =====
-- The relay of internal/platform/outbox/outbox.go with the transaction of `Tx` of
-- internal/platform/db/db.go: the table as the list of its rows in the order of creation, one batch
-- as a function of it. A row that another relay has locked is skipped. The statements themselves and
-- the commit do not fail; `locked` and the publisher are the environment's.
pub mod Delivery
pub mod Progress
use specforge.Prelude.{
  ℕ, zero, suc, ◌+◌, String, Bool, true, false, ◌==◌, ◌&&◌, not, Option, none, some, List, [], ◌∷◌,
  map, Result, ok, err, ltb, if◌then◌else◌, is_none, length,
}
use specforge.Errors.{Error}
use specforge.Outbox.{Envelope}

pub record Row : Type 0 where
  pub event : Envelope
  pub attempts : ℕ
  pub last_error : Option Error
  pub published_at : Option ℕ

-- What is 0 or less in the source is 0 here.
pub record RelayConfig : Type 0 where
  pub batch_size : ℕ
  pub interval : ℕ
  pub max_attempts : ℕ

abbrev pub or_default : ℕ → ℕ → ℕ
or_default zero d = d
or_default (suc n) d = suc n

-- `NewRelay`; the interval is in nanoseconds.
unfoldable pub new_relay : RelayConfig → RelayConfig
new_relay c = record {
  batch_size = or_default c.batch_size 200;
  interval = or_default c.interval 500000000;
  max_attempts = or_default c.max_attempts 8;
}

abbrev pub is_pending : ℕ → Row → Bool
is_pending max r = is_none r.published_at && ltb r.attempts max

-- `selectPendingSQL`
unfoldable pub select_pending : (String → Bool) → ℕ → ℕ → List Row → List Row
select_pending locked max zero rows = []
select_pending locked max (suc n) [] = []
select_pending locked max (suc n) (r ∷ rows) =
    let taken = r ∷ select_pending locked max n rows in
    let skipped = select_pending locked max (suc n) rows in
    if is_pending max r && not (locked r.event.event_id) then taken else skipped

-- `UPDATE outbox_events SET published_at = now() WHERE id = $1`
unfoldable pub mark_published : ℕ → String → List Row → List Row
mark_published now id [] = []
mark_published now id (r ∷ rows) =
    (if r.event.event_id == id then record r { published_at = some now } else r)
    ∷ mark_published now id rows

-- `UPDATE outbox_events SET attempts = attempts + 1, last_error = $2 WHERE id = $1`
unfoldable pub count_attempt : Error → String → List Row → List Row
count_attempt e id [] = []
count_attempt e id (r ∷ rows) =
    (if r.event.event_id == id
      then record r { attempts = r.attempts + 1; last_error = some e }
      else r)
    ∷ count_attempt e id rows

unfoldable pub mark_all : ℕ → List Row → List Row → List Row
unfolding mark_published
mark_all now [] rows = rows
mark_all now (b ∷ batch) rows = mark_all now batch (mark_published now b.event.event_id rows)

unfoldable pub count_all : Error → List Row → List Row → List Row
unfolding count_attempt
count_all e [] rows = rows
count_all e (b ∷ batch) rows = count_all e batch (count_attempt e b.event.event_id rows)

-- The envelope that is delivered.
abbrev pub delivered : ℕ → Row → Envelope
delivered now r = record r.event { recorded_at = now }

module _ {L : Type 0} where
  -- A transaction keeps what its body wrote only if the body returns no error.
  unfoldable pub transaction :
      {A : Type 0} → List Row → L × (List Row × Result Error A) → L × (List Row × Result Error A)
  transaction rows (log, (written, ok n)) = (log, (written, ok n))
  transaction rows (log, (written, err e)) = (log, (rows, err e))

  -- What follows the call of `Publish`.
  pub after_publish : ℕ → List Row → List Row → L × Option Error → L × (List Row × Result Error ℕ)
  unfolding mark_all count_all
  after_publish now batch rows (log, some e) = (log, (count_all e batch rows, err e))
  after_publish now batch rows (log, none) = (log, (mark_all now batch rows, ok (length batch)))

  pub publish_selected :
      ℕ
      → (L → List Envelope → L × Option Error)
      → L
      → List Row
      → List Row
      → L × (List Row × Result Error ℕ)
  unfolding after_publish
  publish_selected now publish log rows [] = (log, (rows, ok 0))
  publish_selected now publish log rows (b ∷ batch) =
      after_publish now (b ∷ batch) rows (publish log (map (delivered now) (b ∷ batch)))

  unfoldable pub publish_batch :
      RelayConfig
      → (String → Bool)
      → ℕ
      → (L → List Envelope → L × Option Error)
      → L
      → List Row
      → L × (List Row × Result Error ℕ)
  unfolding transaction publish_selected select_pending
  publish_batch cfg locked now publish log rows = transaction rows (
      publish_selected now publish log rows
        (select_pending locked cfg.max_attempts cfg.batch_size rows))

-- One turn of the loop of `Run`: the environment of a batch.
pub record Turn (L : Type 0) : Type 0 where
  pub locked : String → Bool
  pub now : ℕ
  pub publish : L → List Envelope → L × Option Error

unfoldable pub run : {L : Type 0} → RelayConfig → List (Turn L) → L → List Row → L × List Row
unfolding publish_batch
run cfg [] log rows = (log, rows)
run cfg (t ∷ ts) log rows =
    let (log', (rows', n)) = publish_batch cfg t.locked t.now t.publish log rows in
    run cfg ts log' rows'

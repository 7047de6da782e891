-- ===== src/Outbox/Relay/Delivery.antt =====
-- What the relay of internal/platform/outbox/outbox.go records of its deliveries.
use mathlib.Core.Path.{subst}
use specforge.Prelude.{
  ℕ, ◌≡◌, refl, sym, ◌∙◌, String, false, ◌==◌, Option, none, some, List, [], ◌∷◌, map, Bool-cases,
  inl, inr, All, is_none, All-map, ==→eq,
}
use specforge.Errors.{Error}
use specforge.Outbox.{Envelope}
use specforge.Outbox.Relay.{
  Row, RelayConfig, Turn, publish_batch, publish_selected, after_publish, transaction,
  select_pending, mark_published, mark_all, run, delivered,
}

abbrev pub attempts_of : List Row → List ℕ
attempts_of rows = map (λ (r : Row). r.attempts) rows

attempts-mark_published :
    (now : ℕ) (id : String) (rows : List Row)
    → attempts_of (mark_published now id rows) ≡ attempts_of rows
unfolding mark_published
attempts-mark_published now id [] = refl
attempts-mark_published now id (r ∷ rows) = elim (Bool-cases (r.event.event_id == id)) [
  | inl e ↦ rw (e, attempts-mark_published now id rows) refl
  | inr e ↦ rw (e, attempts-mark_published now id rows) refl
]

attempts-mark_all :
    (now : ℕ) (batch rows : List Row) → attempts_of (mark_all now batch rows) ≡ attempts_of rows
unfolding mark_all
attempts-mark_all now [] rows = refl
attempts-mark_all now (b ∷ batch) rows =
    attempts-mark_all now batch (mark_published now b.event.event_id rows)
    ∙ attempts-mark_published now b.event.event_id rows

module _ {L : Type 0} where
  attempts-after_publish :
      (now : ℕ) (batch rows : List Row) (p : L × Option Error)
      → attempts_of (transaction rows (after_publish now batch rows p)).1.0 ≡ attempts_of rows
  unfolding after_publish transaction
  attempts-after_publish now batch rows (log, some e) = refl
  attempts-after_publish now batch rows (log, none) = attempts-mark_all now batch rows

  attempts-publish_selected :
      (now : ℕ) (publish : L → List Envelope → L × Option Error) (log : L) (rows batch : List Row)
      → attempts_of (transaction rows (publish_selected now publish log rows batch)).1.0
        ≡ attempts_of rows
  unfolding publish_selected transaction
  attempts-publish_selected now publish log rows [] = refl
  attempts-publish_selected now publish log rows (b ∷ batch) =
      attempts-after_publish now (b ∷ batch) rows (publish log (map (delivered now) (b ∷ batch)))

  -- No batch, delivered or refused, changes a counter of attempts: however often the delivery of an
  -- event has failed, its counter is what it was, and the limit of attempts never applies.
  pub attempts-run :
      (cfg : RelayConfig) (turns : List (Turn L)) (log : L) (rows : List Row)
      → attempts_of (run cfg turns log rows).1 ≡ attempts_of rows
  unfolding run publish_batch
  attempts-run cfg [] log rows = refl
  attempts-run cfg (t ∷ ts) log rows =
      let (log', (rows', n)) = publish_batch cfg t.locked t.now t.publish log rows in
      attempts-run cfg ts log' rows'
      ∙ attempts-publish_selected t.now t.publish log rows
          (select_pending t.locked cfg.max_attempts cfg.batch_size rows)

module _ {L : Type 0} (has : L → String → Type 0) where
  -- A row that is marked as published is in the log.
  abbrev pub InLog : L → Row → Type 0
  InLog log r = is_none r.published_at ≡ false → has log r.event.event_id

  -- What a publisher promises: what was in the log stays there, and a call that reports no error
  -- has put its events there.
  pub record Promises (publish : L → List Envelope → L × Option Error) : Type 0 where
    pub keeps :
        (log : L) (events : List Envelope) (id : String)
        → has log id
        → has (publish log events).0 id
    pub delivers :
        (log : L) (events : List Envelope)
        → (publish log events).1 ≡ none
        → All (λ (e : Envelope). has (publish log events).0 e.event_id) events

  mark_published-InLog :
      (log : L) (now : ℕ) (id : String) (rows : List Row)
      → has log id
      → All (InLog log) rows
      → All (InLog log) (mark_published now id rows)
  unfolding mark_published
  mark_published-InLog log now id [] d h = tt
  mark_published-InLog log now id (r ∷ rows) d h = elim (Bool-cases (r.event.event_id == id)) [
    | inl e ↦ rw e (
      (λ _. subst (has log) (sym (==→eq r.event.event_id id e)) d),
      mark_published-InLog log now id rows d h.1,
    )
    | inr e ↦ rw e (h.0, mark_published-InLog log now id rows d h.1)
  ]

  mark_all-InLog :
      (log : L) (now : ℕ) (batch rows : List Row)
      → All (λ (r : Row). has log r.event.event_id) batch
      → All (InLog log) rows
      → All (InLog log) (mark_all now batch rows)
  unfolding mark_all
  mark_all-InLog log now [] rows d h = h
  mark_all-InLog log now (b ∷ batch) rows d h =
      mark_all-InLog log now batch (mark_published now b.event.event_id rows) d.1
        (mark_published-InLog log now b.event.event_id rows d.0 h)

  All-delivered :
      (log : L) (now : ℕ) (batch : List Row)
      → All (λ (e : Envelope). has log e.event_id) (map (delivered now) batch)
      → All (λ (r : Row). has log r.event.event_id) batch
  All-delivered log now [] h = tt
  All-delivered log now (b ∷ batch) h = (h.0, All-delivered log now batch h.1)

  after_publish-InLog :
      (now : ℕ) (batch rows : List Row) (p : L × Option Error)
      → (p.1 ≡ none → All (λ (e : Envelope). has p.0 e.event_id) (map (delivered now) batch))
      → All (InLog p.0) rows
      → All (InLog p.0) (transaction rows (after_publish now batch rows p)).1.0
  unfolding after_publish transaction
  after_publish-InLog now batch rows (log, some e) d h = h
  after_publish-InLog now batch rows (log, none) d h =
      mark_all-InLog log now batch rows (All-delivered log now batch (d refl)) h

  log_of :
      (now : ℕ) (batch rows : List Row) (p : L × Option Error)
      → (transaction rows (after_publish now batch rows p)).0 ≡ p.0
  unfolding after_publish transaction
  log_of now batch rows (log, some e) = refl
  log_of now batch rows (log, none) = refl

  publish_selected-InLog :
      (now : ℕ) (publish : L → List Envelope → L × Option Error) (log : L) (rows batch : List Row)
      → Promises publish
      → All (InLog log) rows
      → let r = transaction rows (publish_selected now publish log rows batch) in
        All (InLog r.0) r.1.0
  unfolding publish_selected
  publish_selected-InLog now publish log rows [] p h = unfold transaction in h
  publish_selected-InLog now publish log rows (b ∷ batch) p h =
      let events = map (delivered now) (b ∷ batch) in
      let out = publish log events in
      rw (log_of now (b ∷ batch) rows out) (
        after_publish-InLog now (b ∷ batch) rows out (p.delivers log events) (
          All-map (InLog log) (InLog out.0) rows
            (λ r f m. p.keeps log events r.event.event_id (f m)) h))

  -- Whatever the batches and their failures: if every row that is marked as published is in the log
  -- at first, so it is at the end. Assumed of each publisher is what it promises.
  pub run-InLog :
      (cfg : RelayConfig) (turns : List (Turn L)) (log : L) (rows : List Row)
      → All (λ (t : Turn L). Promises t.publish) turns
      → All (InLog log) rows
      → All (InLog (run cfg turns log rows).0) (run cfg turns log rows).1
  unfolding run publish_batch
  run-InLog cfg [] log rows p h = h
  run-InLog cfg (t ∷ ts) log rows p h =
      let (log', (rows', n)) = publish_batch cfg t.locked t.now t.publish log rows in
      run-InLog cfg ts log' rows' p.1 (
        publish_selected-InLog t.now t.publish log rows
          (select_pending t.locked cfg.max_attempts cfg.batch_size rows) p.0 h)

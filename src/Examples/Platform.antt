-- ===== src/Examples/Platform.antt =====
-- Events to be relayed, requests to be limited, and keys to be replayed.
use specforge.Prelude.{
  ℕ, ◌≤◌, ◌≡◌, ◌≢◌, refl, String, true, false, none, some, Option, ok, err, List, [], ◌∷◌, ◌++◌,
  map, arith, All, mem, is_ok, All-map, eq_refl,
}
use specforge.Errors.{Error, foreign, platform, conflict}
use specforge.Outbox.{Envelope}
use specforge.Outbox.Relay.{Row, RelayConfig, Turn, run, new_relay}
use specforge.Outbox.Relay.Delivery.{attempts_of, attempts-run, InLog, Promises, run-InLog}
use specforge.Limits.{Limit, Subject, CacheEntry}
use specforge.Limits
use specforge.Limits.Windows.{Count, ours, others, allowed_of, allowed_of_bound, find_entry}
use specforge.Idempotency
use specforge.Idempotency.{begin, complete, find_key, ttl, completed, kept_body}
use specforge.Idempotency.Replay.{
  Elsewhere, beginning, collecting, happen_all, begin_refused, begin_replays,
}

abbrev event : String → Envelope
event id = record {
  event_id = id;
  event_type = "artifact.created";
  schema = "specforge.event.artifact.created";
  schema_version = 1;
  occurred_at = 1000;
  recorded_at = 0;
  tenant_id = "t1";
  project_id = none;
  aggregate = record { type = "Artifact"; id = "SPEC-AUTH-001"; version = 1 };
  actor = record { kind = "USER"; principal_id = "alice"; display = "Alice"; on_behalf_of = "" };
  correlation = record {
    trace_id = "";
    span_id = "";
    request_id = "";
    causation_id = "";
    idempotency_key = "";
  };
  payload = "{}";
  payload_hash = "";
}

abbrev waiting : String → Row
waiting id = record { event = event id; attempts = 0; last_error = none; published_at = none }

abbrev rows : List Row
rows = waiting "e1" ∷ waiting "e2" ∷ []

abbrev config : RelayConfig
config = record { batch_size = 1; interval = 0; max_attempts = 0 }

-- The log is the list of the delivered identifiers.
abbrev deliver : List String → List Envelope → List String × Option Error
deliver log events = (map (λ (e : Envelope). e.event_id) events ++ log, none)

abbrev refuse : List String → List Envelope → List String × Option Error
refuse log events = (log, some foreign)

abbrev good : ℕ → Turn (List String)
good now = record { locked = λ id. false; now = now; publish = deliver }

abbrev bad : Turn (List String)
bad = record { locked = λ id. false; now = 2000; publish = refuse }

attempts-run_example :
    attempts_of (run (new_relay config) (bad ∷ bad ∷ good 3000 ∷ []) [] rows).1 ≡ attempts_of rows
attempts-run_example = attempts-run (new_relay config) (bad ∷ bad ∷ good 3000 ∷ []) [] rows

abbrev IsLogged : List String → String → Type 0
IsLogged log id = mem id log ≡ true

mem-append_right :
    (id : String) (xs log : List String) → mem id log ≡ true → mem id (xs ++ log) ≡ true
mem-append_right id [] log h = h
mem-append_right id (x ∷ xs) log h = ground (arith, mem-append_right id xs log h)

All-refused : (events : List Envelope) (P : Envelope → Type 0) → some foreign ≡ none → All P events
All-refused events P h = cc

bad-Promises : Promises IsLogged refuse
bad-Promises = record {
  keeps = λ log events id h. h;
  delivers = λ log events h. All-refused events (λ (e : Envelope). IsLogged log e.event_id) h;
}

delivered-IsLogged :
    (events : List Envelope) (log : List String)
    → All (λ (e : Envelope). IsLogged (deliver log events).0 e.event_id) events
delivered-IsLogged [] log = tt
delivered-IsLogged (e ∷ events) log = (
  rw (eq_refl e.event_id) refl,
  All-map (λ (x : Envelope). IsLogged (deliver log events).0 x.event_id)
      (λ (x : Envelope). IsLogged (deliver log (e ∷ events)).0 x.event_id) events
      (λ x h. ground (arith, h)) (delivered-IsLogged events log),
)

good-Promises : Promises IsLogged deliver
good-Promises = record {
  keeps = λ log events id h. mem-append_right id (map (λ (e : Envelope). e.event_id) events) log h;
  delivers = λ log events h. delivered-IsLogged events log;
}

run-InLog_example :
    All
      (InLog IsLogged (run (new_relay config) (bad ∷ good 3000 ∷ []) [] rows).0)
      (run (new_relay config) (bad ∷ good 3000 ∷ []) [] rows).1
run-InLog_example =
    run-InLog IsLogged (new_relay config) (bad ∷ good 3000 ∷ []) [] rows
      (bad-Promises, (good-Promises, tt)) (λ h. cc h, (λ h. cc h, tt))

abbrev decimal : ℕ → String
decimal n = "7"

abbrev alice : Subject
alice = record { tenant_id = "t1"; dimension = "principal"; subject = "alice" }

abbrev two_per_second : Limit
two_per_second = record { requests = 2; window = 1000; burst = 0 }

abbrev counts : List Count
counts =
    ours 7100 7101 ∷ others 7150 "sf:t1:rl:tenant:t1:7" 2000 ∷ ours 7200 7201 ∷ ours 7900 7901 ∷ []

allowed_of_bound_example : allowed_of decimal alice two_per_second 7 counts [] ≤ 2
unfolding Limits.bucket_key Limits.cache_key
allowed_of_bound_example =
    allowed_of_bound decimal alice two_per_second 7 counts [] (omega arith) (omega arith)
      (refl, (λ h. cc h, (refl, (refl, tt)))) (unfold find_entry in refl)

abbrev meanwhile : List Elsewhere
meanwhile = beginning "t1" "bob" "k2" "h2" 20 ∷ collecting 30 ∷ []

begin_refused_example :
    is_ok
      (begin
        (happen_all (begin [] "t1" "alice" "k1" "h1" 10).0 meanwhile)
        "t1"
        "alice"
        "k1"
        "h1"
        40).1
    ≡ false
begin_refused_example =
    begin_refused "t1" "k1" "alice" "h1" 10 [] (unfold Idempotency.find_key in refl) meanwhile 40
      "alice" "h1" (refl, (tt, tt)) (tt, (omega arith, tt)) (omega arith)

abbrev finished : List Idempotency.ClaimedKey
finished =
    happen_all
      (complete (happen_all (begin [] "t1" "alice" "k1" "h1" 10).0 meanwhile) "t1" "k1" 201 "{}" 50)
      []

begin_replays_example :
    (begin finished "t1" "alice" "k1" "h1" 60 ≡ (
      finished,
      ok (
        record {
          key = "k1";
          request_hash = "h1";
          status = completed;
          http_status = 201;
          body = kept_body "{}";
          completed_at = some 50;
        },
        true,
      ),
    ))
    × ((h : String)
        → h ≢ "h1"
        → begin finished "t1" "alice" "k1" h 60
          ≡ (finished, err (platform conflict "idempotency.key_reuse" "idempotency.Begin")))
begin_replays_example =
    begin_replays "t1" "k1" "alice" "h1" 10 [] (unfold Idempotency.find_key in refl) meanwhile []
      201 "{}" 50 60 "alice" (refl, (tt, tt)) (tt, (omega arith, tt)) tt tt (omega arith)

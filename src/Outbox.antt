-- ===== src/Outbox.antt =====
-- internal/platform/outbox/outbox.go: the envelope of a domain event and its construction. The
-- canonical bytes of the payload, or the error of producing them, are an argument.
pub mod Relay
use Prim.Native.String.{◌++◌}
use specforge.Prelude.{ℕ, String, Option, Result, ok, err}
use specforge.Errors.{Error, wrapped}

pub record Aggregate : Type 0 where
  pub type : String
  pub id : String
  pub version : ℕ

pub record EventActor : Type 0 where
  pub kind : String
  pub principal_id : String
  pub display : String
  pub on_behalf_of : String

pub record Correlation : Type 0 where
  pub trace_id : String
  pub span_id : String
  pub request_id : String
  pub causation_id : String
  pub idempotency_key : String

pub record Envelope : Type 0 where
  pub event_id : String
  pub event_type : String
  pub schema : String
  pub schema_version : ℕ
  pub occurred_at : ℕ
  pub recorded_at : ℕ
  pub tenant_id : String
  pub project_id : Option String
  pub aggregate : Aggregate
  pub actor : EventActor
  pub correlation : Correlation
  pub payload : String
  pub payload_hash : String

unfoldable pub partition_key : Envelope → String
partition_key e = e.tenant_id ++ ":" ++ e.aggregate.id

-- `New`, at the time `now` and with the fresh identifier; `sum` is `hash.Sum`.
unfoldable pub new_envelope :
    (String → String)
    → ℕ
    → (fresh event_type tenant_id : String) → Option String
    → Aggregate
    → EventActor
    → Correlation
    → Result Error String
    → Result Error Envelope
new_envelope sum now fresh event_type tenant_id project_id agg actor corr (err e) = err (wrapped e)
new_envelope sum now fresh event_type tenant_id project_id agg actor corr (ok canonical) =
    ok (record {
      event_id = fresh;
      event_type = event_type;
      schema = "specforge.event." ++ event_type;
      schema_version = 1;
      occurred_at = now;
      recorded_at = 0;
      tenant_id = tenant_id;
      project_id = project_id;
      aggregate = agg;
      actor = actor;
      correlation = corr;
      payload = canonical;
      payload_hash = "sha256:" ++ sum canonical;
    })

-- ===== src/Audit/Record.antt =====
-- internal/audit/domain/record.go, with `Chain` and `ChainOf` of internal/platform/hash/hash.go: a
-- record, the projection that its hash covers, sealing and validation. Times are nanoseconds, the
-- zero time is 0; sequences are counted from 0 up, where the source has a signed number.
pub mod Hashing
use Prim.Native.Char.{code}
use Prim.Native.String.{[], ◌∷◌}
use specforge.Prelude.{
  ℕ, String, Bool, true, false, ◌==◌, ◌||◌, not, Option, none, some, List, ◌++◌, Result, ok, err,
  ◌>>◌, fail_if, eqb, ltb, if◌then◌else◌, length,
}
use specforge.Text.{trim_space}
use specforge.Types.Identifiers.{valid_chain_hash}
use specforge.Errors.{Error, platform, foreign, wrapped, invalid}
use specforge.Artifact.Operations.{normalize_time}

abbrev pub Bytes : Type 0
Bytes = List ℕ

unfoldable pub audit_outcome_valid : String → Bool
audit_outcome_valid o = o == "SUCCESS" || o == "DENIED" || o == "FAILURE"

unfoldable pub audit_severity_valid : String → Bool
audit_severity_valid s = s == "INFO" || s == "NOTICE" || s == "WARNING" || s == "CRITICAL"

pub record Actor : Type 0 where
  pub kind : String
  pub principal_id : String
  pub display : String
  pub subject : String
  pub issuer : String
  pub on_behalf_of : String
  pub break_glass : Bool
  pub ip_hash : String
  pub user_agent : String

pub record Target : Type 0 where
  pub type : String
  pub id : String
  pub version : ℕ
  pub project_id : String
  pub content_hash : String

-- `map[string]any`: a key with the canonical JSON text of its value.
abbrev pub Attributes : Type 0
Attributes = List (String × String)

pub record Record : Type 0 where
  pub id : String
  pub tenant_id : String
  pub project_id : Option String
  pub sequence : ℕ
  pub action : String
  pub outcome : String
  pub severity : String
  pub actor : Actor
  pub target : Target
  -- `none` is the nil map.
  pub attributes : Option Attributes
  pub request_id : String
  pub trace_id : String
  pub occurred_at : ℕ
  pub prev_hash : String
  pub record_hash : String

pub record ChainPayload : Type 0 where
  pub id : String
  pub tenant_id : String
  pub project_id : String
  pub sequence : ℕ
  pub action : String
  pub outcome : String
  pub severity : String
  pub actor : Actor
  pub target : Target
  pub attributes : Attributes
  pub request_id : String
  pub trace_id : String
  pub occurred_at : String
  pub prev_hash : String

-- What hashing takes from elsewhere: canonical JSON, the decoding of encoding/hex, SHA-256 in
-- hexadecimal, and RFC 3339 with nanoseconds of package time.
pub record ChainCodec : Type 0 where
  pub canonicalize : ChainPayload → Result Error Bytes
  pub hex_decode : String → Option Bytes
  pub sha256_hex : Bytes → String
  pub format_time : ℕ → String

abbrev pub or_else {ℓ} : {A : Type ℓ} → Option A → A → A
or_else (some a) d = a
or_else none d = d

module _ (lib : ChainCodec) where
  unfoldable pub payload : Record → ChainPayload
  payload r = record {
    id = r.id;
    tenant_id = r.tenant_id;
    project_id = or_else r.project_id "";
    sequence = r.sequence;
    action = r.action;
    outcome = r.outcome;
    severity = r.severity;
    actor = r.actor;
    target = r.target;
    attributes = or_else r.attributes List.[];
    request_id = r.request_id;
    trace_id = r.trace_id;
    occurred_at = lib.format_time (normalize_time r.occurred_at);
    prev_hash = r.prev_hash;
  }

  -- `Chain`, of the decoded previous hash.
  chain_decoded : Option Bytes → Bytes → Result Error String
  chain_decoded none p = err foreign
  chain_decoded (some b) p = if eqb (length b) 32 then ok (lib.sha256_hex (b ++ p)) else err foreign

  unfoldable pub chain : String → Bytes → Result Error String
  unfolding chain_decoded
  chain prev p = chain_decoded (lib.hex_decode prev) p

  chain_canonical : String → Result Error Bytes → Result Error String
  unfolding chain
  chain_canonical prev (ok b) = chain prev b
  chain_canonical prev (err e) = err (wrapped e)

  unfoldable pub chain_of : String → ChainPayload → Result Error String
  unfolding chain_canonical
  chain_of prev p = chain_canonical prev (lib.canonicalize p)

  unfoldable pub compute_record_hash : Record → Result Error String
  unfolding chain_of payload
  compute_record_hash r =
      if valid_chain_hash r.prev_hash
      then chain_of r.prev_hash (payload r)
      else err (platform invalid "audit.invalid_prev_hash" "audit.ComputeHash")

  store_hash : Record → Result Error String → Record × Option Error
  store_hash r (ok h) = (record r { record_hash = h }, none)
  store_hash r (err e) = (r, some e)

  unfoldable pub seal_record : Record → Record × Option Error
  unfolding compute_record_hash store_hash
  seal_record r = store_hash r (compute_record_hash r)

  compare_hash : Record → Result Error String → Result Error Bool
  compare_hash r (ok h) = ok (h == r.record_hash)
  compare_hash r (err e) = err e

  unfoldable pub verify_record_hash : Record → Result Error Bool
  unfolding compute_record_hash compare_hash
  verify_record_hash r = compare_hash r (compute_record_hash r)

-- `strings.Contains(s, ".")`
has_dot : String → Bool
has_dot [] = false
has_dot (c ∷ s) = eqb (code c) 46 || has_dot s

abbrev pub bad_record : String → Error
bad_record code = platform invalid code "audit.Validate"

unfoldable pub validate_record : Record → Result Error (Unit {0})
unfolding has_dot trim_space audit_outcome_valid audit_severity_valid
validate_record r = do
  fail_if (r.tenant_id == "") (bad_record "audit.tenant_required")
  fail_if (trim_space r.action == "") (bad_record "audit.action_required")
  fail_if (not (has_dot r.action)) (bad_record "audit.action_malformed")
  fail_if (not (audit_outcome_valid r.outcome)) (bad_record "audit.outcome_invalid")
  fail_if (not (audit_severity_valid r.severity)) (bad_record "audit.severity_invalid")
  fail_if (r.actor.kind == "") (bad_record "audit.actor_required")
  fail_if (r.target.type == "") (bad_record "audit.target_required")
  fail_if (ltb r.sequence 1) (bad_record "audit.sequence_invalid")
  fail_if (eqb r.occurred_at 0) (bad_record "audit.timestamp_required")

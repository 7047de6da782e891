-- ===== src/Examples/Trail.antt =====
-- A trail of two records, its anchor, and a database that holds it.
use native.Mathlib.Decide.{ℕ_discrete}
use specforge.Prelude.{
  ◌≡◌, ◌↔◌, refl, String, Bool, true, false, ◌==◌, none, some, List, [], ◌∷◌, any, eqb, Result, ok,
  err, if◌then◌else◌, ==→eq, ==→ne,
}
use specforge.Text
use specforge.Errors.{Error, foreign}
use specforge.Types.Identifiers
use specforge.Audit.Record
use specforge.Audit.Record.{Record, Actor, Target, ChainCodec, ChainPayload, Bytes}
use specforge.Audit.Chain
use specforge.Audit.Chain.{IsChain, verify_chain}
use specforge.Audit.Chain.Laws.{verify_chain_valid}
use specforge.Audit.Service
use specforge.Audit.Service.{Repository, Anchor, zero_chain_hash, stamp, verify_segment}
use specforge.Audit.Store
use specforge.Audit.Store.{Request, empty_database, postgres, append_each, range}
use specforge.Audit.Store.Guarantees.{KeepsRecords, appended_verifies}
use specforge.Artifact.Operations.{normalize_time}
use specforge.Audit.Service.Appending.{IsAppended, append_record_ok}

abbrev hash1 : String
hash1 = "1111111111111111111111111111111111111111111111111111111111111111"

abbrev hash2 : String
hash2 = "2222222222222222222222222222222222222222222222222222222222222222"

-- A rendering that knows two previous hashes.
abbrev canonicalize : ChainPayload → Result Error Bytes
canonicalize p =
    if p.prev_hash == zero_chain_hash
    then ok (1 ∷ [])
    else if p.prev_hash == hash1
    then ok (2 ∷ [])
    else err foreign

abbrev zeros : Bytes
zeros =
    0 ∷ 0 ∷ 0 ∷ 0 ∷ 0 ∷ 0 ∷ 0 ∷ 0 ∷ 0 ∷ 0 ∷ 0 ∷ 0 ∷ 0 ∷ 0 ∷ 0 ∷ 0 ∷ 0 ∷ 0 ∷ 0 ∷ 0 ∷ 0 ∷ 0 ∷ 0 ∷ 0
    ∷ 0 ∷ 0 ∷ 0 ∷ 0 ∷ 0 ∷ 0 ∷ 0 ∷ 0 ∷ []

abbrev lib : ChainCodec
lib = record {
  canonicalize = canonicalize;
  hex_decode = λ s. some zeros;
  sha256_hex = λ b. if any (λ n. eqb n 1) b then hash1 else hash2;
  format_time = λ t. "";
}

abbrev first : Record
first = record {
  id = "r1";
  tenant_id = "t1";
  project_id = none;
  sequence = 1;
  action = "artifact.create";
  outcome = "SUCCESS";
  severity = "INFO";
  actor = record {
    kind = "USER";
    principal_id = "alice";
    display = "";
    subject = "";
    issuer = "";
    on_behalf_of = "";
    break_glass = false;
    ip_hash = "";
    user_agent = "";
  };
  target = record {
    type = "artifact";
    id = "SPEC-AUTH-001";
    version = 1;
    project_id = "p1";
    content_hash = "";
  };
  attributes = none;
  request_id = "";
  trace_id = "";
  occurred_at = 5000;
  prev_hash = zero_chain_hash;
  record_hash = hash1;
}

abbrev second : Record
second = record first {
  id = "r2";
  sequence = 2;
  action = "artifact.approve";
  prev_hash = hash1;
  record_hash = hash2;
}

abbrev trail : List Record
trail = first ∷ second ∷ []

abbrev anchor : Anchor
anchor = record {
  tenant_id = "t1";
  anchored_at = 6000;
  sequence = 1;
  head_hash = hash1;
  storage_ref = "anchors/1";
}

abbrev held : Repository (Unit {0})
held = record {
  next_sequence = λ s t. ok (s, (1, zero_chain_hash));
  insert_record = λ s r. ok s;
  advance_head = λ s t n h. ok s;
  range = λ s t from to. ok trail;
  get = λ s t n. if eqb n 1 then ok first else err foreign;
  latest_anchor = λ s t. ok (some anchor);
}

verify_chain_valid_example :
    ((verify_chain lib trail zero_chain_hash).valid ≡ true) ↔ IsChain lib zero_chain_hash 1 trail
verify_chain_valid_example = verify_chain_valid lib trail zero_chain_hash

decided : (s t : String) (b : Bool) → (s == t) ≡ b → Dec (s ≡ t)
decided s t true e = yes (==→eq s t e)
decided s t false e = no (==→ne s t e)

String-discrete : Discrete String
unfolding decided
String-discrete s t = decided s t (s == t) refl

ChainPayload-discrete : Discrete ChainPayload
unfolding ℕ_discrete
ChainPayload-discrete = hlevel (String-discrete, ℕ_discrete)

abbrev choose {ℓ κ} : {P : Type ℓ} {A : Type κ} → Dec P → A → A → A
choose (yes p) a b = a
choose (no n) a b = b

-- A rendering that knows the payloads of the two records, and no other.
abbrev payload1 : ChainPayload
unfolding Record.payload
payload1 = Record.payload lib first

abbrev payload2 : ChainPayload
unfolding Record.payload
payload2 = Record.payload lib second

render : ChainPayload → Result Error Bytes
render p =
    choose (ChainPayload-discrete p payload1) (ok (1 ∷ []))
      (choose (ChainPayload-discrete p payload2) (ok (2 ∷ [])) (err foreign))

abbrev exact : ChainCodec
exact = record lib { canonicalize = render }

-- The two texts of the rendering.
abbrev text1 : Bytes
text1 = 1 ∷ []

abbrev text2 : Bytes
text2 = 2 ∷ []

abbrev report : Chain.VerifyReport
report = record Chain.valid_report {
  tenant_id = "t1";
  from = 1;
  to = 2;
  records_checked = 2;
  anchored_at = 1;
}

abbrev asked : Record
asked = record first { id = ""; sequence = 0; occurred_at = 0; prev_hash = ""; record_hash = "" }

append_record_ok_example : IsAppended lib held tt (stamp lib held 5000 "r1" asked) tt first
unfolding Service.append_record Record.validate_record Record.seal_record Record.compute_record_hash
    Record.chain_of Record.chain Identifiers.valid_chain_hash Record.audit_outcome_valid
    Record.audit_severity_valid Text.trim_space
append_record_ok_example = append_record_ok lib held 5000 "r1" tt asked tt first refl

-- What is read back is cut to microseconds.
abbrev stored : Record → Record
stored r = record r { occurred_at = normalize_time r.occurred_at }

stored-KeepsRecords : KeepsRecords lib stored
unfolding Record.payload
stored-KeepsRecords r e = record {
  tenant = refl;
  number = refl;
  prev = refl;
  hash = refl;
  body = refl;
}

abbrev requests : List Request
requests =
    record { now = 5000; fresh = "r1"; wanted = asked }
    ∷ record { now = 6000; fresh = "r2"; wanted = record asked { action = "" } }
    ∷ record { now = 7000; fresh = "r3"; wanted = asked }
    ∷ []

-- The refused request leaves nothing behind, and the next record takes its number.
requests_kept :
    range (append_each lib stored empty_database requests) "t1" 1 0
    ≡ ok (
        first
        ∷ record first {
          id = "r3";
          sequence = 2;
          occurred_at = 7000;
          prev_hash = hash1;
          record_hash = hash2;
        }
        ∷ [])
unfolding append_each range Service.append_record Record.validate_record Record.seal_record
    Record.compute_record_hash Record.chain_of Record.chain Identifiers.valid_chain_hash
    Record.audit_outcome_valid Record.audit_severity_valid Text.trim_space Store.next_sequence
    Store.insert_record Store.advance_head
requests_kept = refl

appended_verifies_example :
    (rep : Chain.VerifyReport) × (verify_segment lib
        (postgres stored)
        (append_each lib stored empty_database requests)
        "t1"
        1
        0
      ≡ ok rep)
    × (rep.valid ≡ true)
appended_verifies_example =
    appended_verifies lib stored stored-KeepsRecords requests
      ((refl, refl), ((refl, refl), ((refl, refl), tt))) "t1"

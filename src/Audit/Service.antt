-- ===== src/Audit/Service.antt =====
-- internal/audit/app/writer.go: appending to the trail, verifying a segment of it, and comparing it
-- with the last published anchor. The persistence port is an interface. An error drops the state:
-- the caller's transaction rolls back. Counters and gauges are left out.
pub mod Anchored
pub mod Appending
use specforge.Prelude.{
  ℕ, ◌-◌, String, Bool, true, false, ◌==◌, not, Option, none, some, List, Result, ok, err, ◌>>=◌,
  ◌>>◌, eqb, ltb, if◌then◌else◌, is_empty,
}
use specforge.Errors.{Error, platform, internal, invalid}
use specforge.Audit.Record.{Record, ChainCodec, seal_record, validate_record}
use specforge.Audit.Chain.{
  VerifyReport, Reason, anchor_missing, anchor_mismatch, valid_report, verify_chain,
}

-- `ZeroChainHash` of internal/platform/hash/hash.go.
abbrev pub zero_chain_hash : String
zero_chain_hash = "0000000000000000000000000000000000000000000000000000000000000000"

pub record Anchor : Type 0 where
  pub tenant_id : String
  pub anchored_at : ℕ
  pub sequence : ℕ
  pub head_hash : String
  pub storage_ref : String

-- The port `Repository` over a state of the database: what `Append`, `Verify` and
-- `VerifyAgainstAnchor` call of it. `insert_record` is its `Append`.
pub record Repository (S : Type 0) : Type 0 where
  pub next_sequence : S → String → Result Error (S × (ℕ × String))
  pub insert_record : S → Record → Result Error S
  pub advance_head : S → String → ℕ → String → Result Error S
  pub range : S → String → ℕ → ℕ → Result Error (List Record)
  pub get : S → String → ℕ → Result Error Record
  pub latest_anchor : S → String → Result Error (Option Anchor)

module _ (lib : ChainCodec) {S : Type 0} (repo : Repository S) where
  -- The identifier and the time that a record without them is given.
  abbrev pub stamp : ℕ → String → Record → Record
  stamp now fresh r = record r {
    id = if r.id == "" then fresh else r.id;
    occurred_at = if eqb r.occurred_at 0 then now else r.occurred_at;
  }

  sealed_or : Record × Option Error → Result Error Record
  sealed_or (r, none) = ok r
  sealed_or (r, some e) = err (platform internal "audit.seal_failed" "audit.Append")

  -- From the allocated sequence and previous hash on.
  append_at : Record → S × (ℕ × String) → Result Error (S × Record)
  unfolding sealed_or
  append_at r (s, (seq, prev)) =
      let r' = record r { sequence = seq; prev_hash = prev } in
      validate_record r' >> sealed_or (seal_record lib r') >>= λ (w : Record).
      repo.insert_record s w >>= λ (s' : S).
      repo.advance_head s' w.tenant_id w.sequence w.record_hash >>= λ (s'' : S). ok (s'', w)

  unfoldable pub append_record : ℕ → String → S → Record → Result Error (S × Record)
  unfolding append_at
  append_record now fresh s r =
      let r' = stamp now fresh r in
      repo.next_sequence s r'.tenant_id >>= λ (a : S × (ℕ × String)). append_at r' a

  start_of : Result Error Record → Result Error String
  start_of (ok r) = ok r.record_hash
  start_of (err e) = err (platform invalid "audit.range_start_missing" "audit.Verify")

  -- The hash that the first record of a segment should link to.
  start_hash : S → String → ℕ → Result Error String
  unfolding start_of
  start_hash s tenant_id from =
      if ltb 1 from then start_of (repo.get s tenant_id (from - 1)) else ok zero_chain_hash

  verify_records : S → String → ℕ → List Record → Result Error VerifyReport
  unfolding start_hash
  verify_records s tenant_id from rs =
      if is_empty rs
      then ok (record valid_report { tenant_id = tenant_id })
      else start_hash s tenant_id from >>= λ (start : String). ok (verify_chain lib rs start)

  unfoldable pub verify_segment : S → String → ℕ → ℕ → Result Error VerifyReport
  unfolding verify_records
  verify_segment s tenant_id from to =
      let from' = if ltb from 1 then 1 else from in
      repo.range s tenant_id from' to >>= λ (rs : List Record). verify_records s tenant_id from' rs

  abbrev refuted : String → ℕ → Reason → VerifyReport
  refuted tenant_id n why = record valid_report {
    tenant_id = tenant_id;
    valid = false;
    failed_at = n;
    reason = why;
  }

  verify_anchored : S → String → Anchor → Result Error Record → Result Error VerifyReport
  unfolding verify_segment
  verify_anchored s tenant_id a (err e) = ok (refuted tenant_id a.sequence anchor_missing)
  verify_anchored s tenant_id a (ok r) =
      if r.record_hash == a.head_hash
      then (verify_segment s tenant_id 1 0 >>= λ (rep : VerifyReport).
          ok (record rep { anchored_at = a.sequence }))
      else ok (refuted tenant_id a.sequence anchor_mismatch)

  verify_latest : S → String → Option Anchor → Result Error VerifyReport
  unfolding verify_anchored
  verify_latest s tenant_id none = verify_segment s tenant_id 1 0
  verify_latest s tenant_id (some a) =
      verify_anchored s tenant_id a (repo.get s tenant_id a.sequence)

  unfoldable pub verify_against_anchor : S → String → Result Error VerifyReport
  unfolding verify_latest
  verify_against_anchor s tenant_id =
      repo.latest_anchor s tenant_id >>= λ (a : Option Anchor). verify_latest s tenant_id a

-- ===== src/Audit/Chain.antt =====
-- internal/audit/domain/record.go: `VerifyChain` and its report.
pub mod Laws
pub mod Binding
use specforge.Prelude.{
  ℕ, ◌+◌, ◌≡◌, ◌≢◌, ◌↔◌, ◌⊎◌, refl, String, Bool, true, false, ◌==◌, not, Option, none, some, List,
  [], ◌∷◌, Result, ok, err, eqb, if◌then◌else◌, inl, inr, arith, is_none,
}
use specforge.Errors.{Error}
use specforge.Audit.Record.{Record, ChainCodec, verify_record_hash}

-- The texts of `Reason`, as data.
pub data Reason : Type 0 where
  no_reason anchor_missing anchor_mismatch : Reason
  not_contiguous : (expected found : ℕ) → Reason
  not_linked altered : (sequence : ℕ) → Reason
  unhashable : (sequence : ℕ) (cause : Error) → Reason

pub record VerifyReport : Type 0 where
  pub tenant_id : String
  pub from : ℕ
  pub to : ℕ
  pub records_checked : ℕ
  pub valid : Bool
  pub failed_at : ℕ
  pub reason : Reason
  pub gap_at : ℕ
  pub anchored_at : ℕ

abbrev pub valid_report : VerifyReport
valid_report = record {
  tenant_id = "";
  from = 0;
  to = 0;
  records_checked = 0;
  valid = true;
  failed_at = 0;
  reason = no_reason;
  gap_at = 0;
  anchored_at = 0;
}

abbrev pub last_sequence : ℕ → List Record → ℕ
last_sequence n [] = n
last_sequence n (r ∷ rs) = last_sequence r.sequence rs

module _ (lib : ChainCodec) where
  hash_fault : ℕ → Result Error Bool → Option Reason
  hash_fault n (err e) = some (unhashable n e)
  hash_fault n (ok true) = none
  hash_fault n (ok false) = some (altered n)

  -- The tests of one round of the loop: the first that fails gives the reason.
  pub fault : String → ℕ → Record → Option Reason
  unfolding hash_fault
  fault prev expected r =
      if not (eqb r.sequence expected)
      then some (not_contiguous expected r.sequence)
      else if not (r.prev_hash == prev)
      then some (not_linked r.sequence)
      else hash_fault r.sequence (verify_record_hash lib r)

  abbrev pub gap_of : Reason → ℕ → ℕ
  gap_of (not_contiguous e f) g = e
  gap_of _ g = g

  abbrev pub failed : VerifyReport → Record → Reason → VerifyReport
  failed rep r why = record rep {
    valid = false;
    failed_at = r.sequence;
    reason = why;
    gap_at = gap_of why rep.gap_at;
  }

  abbrev pub counted : VerifyReport → VerifyReport
  counted rep = record rep { records_checked = rep.records_checked + 1 }

  abbrev pub settle : VerifyReport → Record → VerifyReport → Option Reason → VerifyReport
  settle rep r rest none = rest
  settle rep r rest (some why) = failed rep r why

  unfoldable pub verify_loop : VerifyReport → String → ℕ → List Record → VerifyReport
  unfolding fault
  verify_loop rep prev expected [] = rep
  verify_loop rep prev expected (r ∷ rs) =
      let rest = verify_loop (counted rep) r.record_hash (expected + 1) rs in
      settle (counted rep) r rest (fault prev expected r)

  unfoldable pub verify_chain : List Record → String → VerifyReport
  unfolding verify_loop
  verify_chain [] start = valid_report
  verify_chain (r ∷ rs) start =
      verify_loop
        (record valid_report {
          tenant_id = r.tenant_id;
          from = r.sequence;
          to = last_sequence r.sequence rs;
        })
        start r.sequence (r ∷ rs)

  -- A record that stands where it should: its number is the expected one, it names its
  -- predecessor's hash, and its own hash is what its content gives.
  abbrev pub IsLink : String → ℕ → Record → Type 0
  IsLink prev expected r =
      (r.sequence ≡ expected) × (r.prev_hash ≡ prev) × (verify_record_hash lib r ≡ ok true)

  -- Records without a gap, each linked to the one before.
  abbrev pub IsChain : String → ℕ → List Record → Type 0
  IsChain prev expected [] = Unit
  IsChain prev expected (r ∷ rs) = IsLink prev expected r × IsChain r.record_hash (expected + 1) rs

  abbrev pub first_sequence : List Record → ℕ
  first_sequence [] = 0
  first_sequence (r ∷ rs) = r.sequence

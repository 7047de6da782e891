-- ===== src/Audit/Service/Anchored.antt =====
-- What `VerifyAgainstAnchor` of internal/audit/app/writer.go detects.
use mathlib.Core.Path.{subst}
use specforge.Prelude.{ℕ, ◌+◌, ◌≡◌, refl, sym, String, true, List, [], ◌∷◌, ◌++◌, length, ok, arith}
use specforge.Audit.Record.{Record, ChainCodec}
use specforge.Audit.Chain.{VerifyReport, verify_chain, IsChain, valid_report}
use specforge.Audit.Chain.Laws.{verify_chain_valid}
use specforge.Audit.Chain.Binding.{SameRecords, head_hash}
use specforge.Audit.Service.{
  Repository, zero_chain_hash, verify_segment, verify_records, start_hash,
}

module _ (lib : ChainCodec) where
  pub head_hash-last :
      (prev : String) (before : List Record) (r : Record)
      → head_hash lib prev (before ++ r ∷ []) ≡ r.record_hash
  head_hash-last prev [] r = refl
  head_hash-last prev (x ∷ before) r = head_hash-last x.record_hash before r

  pub length-last :
      (before : List Record) (r : Record) → length (before ++ r ∷ []) ≡ length before + 1
  length-last [] r = refl
  length-last (x ∷ before) r = omega (arith, length-last before r)

  module _ {S : Type 0} (repo : Repository S) (s : S) (tenant_id : String) where
    -- A trail that is a chain from the genesis hash verifies as a whole.
    pub verify_segment_chain :
        (rs : List Record)
        → repo.range s tenant_id 1 0 ≡ ok rs
        → IsChain lib zero_chain_hash 1 rs
        → (rep : VerifyReport) × (verify_segment lib repo s tenant_id 1 0 ≡ ok rep)
          × (rep.valid ≡ true)
    unfolding verify_segment verify_records start_hash
    verify_segment_chain [] k c = (record valid_report { tenant_id = tenant_id }, rw k refl, refl)
    verify_segment_chain (r ∷ rs) k c =
        let c' : IsChain lib zero_chain_hash r.sequence (r ∷ rs) =
          subst (λ n. IsChain lib zero_chain_hash n (r ∷ rs)) (sym c.0.0) c in
        (
          verify_chain lib (r ∷ rs) zero_chain_hash,
          rw k refl,
          (verify_chain_valid lib (r ∷ rs) zero_chain_hash).1 c',
        )

    -- A record that stands in a list and has the number.
    pub record StandsIn (n : ℕ) (r : Record) (rs : List Record) : Type 0 where
      pub before : List Record
      pub after : List Record
      pub split : rs ≡ before ++ r ∷ after
      pub numbered : r.sequence ≡ n

    -- The records `qs` are still the first of `rs`.
    pub record IsPrefix (qs rs : List Record) : Type 0 where
      pub kept : List Record
      pub later : List Record
      pub split : rs ≡ kept ++ later
      pub same : SameRecords lib qs kept

-- ===== src/Audit/Store/Trails.antt =====
-- The rows of one tenant in audit_records of internal/audit/infra/postgres.go, and chains of them.
use specforge.Prelude.{
  ℕ, ◌+◌, ◌≤◌, ◌≡◌, refl, ap, sym, ◌∙◌, String, true, false, ◌==◌, List, [], ◌∷◌, ◌++◌, ok, length,
  leb, Bool-cases, inl, inr, arith, any, ok-injective,
}
use specforge.Audit.Record.{Record, ChainCodec}
use specforge.Audit.Chain.{IsChain, IsLink}
use specforge.Audit.Chain.Binding.{head_hash}
use specforge.Audit.Service.{zero_chain_hash}
use specforge.Audit.Service.Anchored.{head_hash-last, length-last}
use specforge.Audit.Store.{
  Database, of_tenant, between, by_sequence, insert_sorted, insert_record, same_key, columns_legal,
  range,
}

pub of_tenant_last :
    (t : String) (rs : List Record) (r : Record)
    → (r.tenant_id == t) ≡ true
    → of_tenant t (rs ++ r ∷ []) ≡ of_tenant t rs ++ r ∷ []
unfolding of_tenant
of_tenant_last t [] r e = rw e refl
of_tenant_last t (q ∷ rs) r e = elim (Bool-cases (q.tenant_id == t)) [
  | inl s ↦ rw (s, of_tenant_last t rs r e) refl
  | inr s ↦ rw (s, of_tenant_last t rs r e) refl
]

pub of_tenant_other :
    (t : String) (rs : List Record) (r : Record)
    → (r.tenant_id == t) ≡ false
    → of_tenant t (rs ++ r ∷ []) ≡ of_tenant t rs
unfolding of_tenant
of_tenant_other t [] r e = rw e refl
of_tenant_other t (q ∷ rs) r e = elim (Bool-cases (q.tenant_id == t)) [
  | inl s ↦ rw (s, of_tenant_other t rs r e) refl
  | inr s ↦ rw (s, of_tenant_other t rs r e) refl
]

-- An insertion adds the row behind the others, and changes no head.
pub insert_record_ok :
    (stored : Record → Record) (d d' : Database) (r : Record)
    → insert_record stored d r ≡ ok d'
    → d' ≡ record d { records = d.records ++ stored r ∷ [] }
unfolding insert_record
insert_record_ok stored d d' r h = elim (Bool-cases (any (same_key (stored r)) d.records)) [
  | inl e ↦ cc (rw e at h)
  | inr e ↦ elim (Bool-cases (columns_legal r)) [
    | inr f ↦ cc (rw (e, f) at h)
    | inl f ↦ sym (ok-injective _ d' (rw (e, f) at h))
  ]
]

module _ (lib : ChainCodec) where
  IsChain-last :
      (prev : String) (n : ℕ) (rs : List Record) (r : Record)
      → IsChain lib prev n rs
      → IsLink lib (head_hash lib prev rs) (n + length rs) r
      → IsChain lib prev n (rs ++ r ∷ [])
  IsChain-last prev n [] r c l = ((omega (arith, l.0), l.1, l.2), tt)
  IsChain-last prev n (q ∷ rs) r c l =
      (c.0, IsChain-last q.record_hash (n + 1) rs r c.1 (omega (arith, l.0), l.1, l.2))

  -- The next number and the last hash.
  abbrev pub end_of : List Record → ℕ × String
  end_of rs = (length rs + 1, head_hash lib zero_chain_hash rs)

  -- A link behind a chain, numbered and linked to its end, gives a chain that ends with it.
  pub IsChain-extended :
      (rs : List Record) (r : Record) (n : ℕ) (prev : String)
      → IsChain lib zero_chain_hash 1 rs
      → end_of rs ≡ (n, prev)
      → IsLink lib prev n r
      → IsChain lib zero_chain_hash 1 (rs ++ r ∷ [])
        × (end_of (rs ++ r ∷ []) ≡ (r.sequence + 1, r.record_hash))
  IsChain-extended rs r n prev c place l =
      let number : n ≡ length rs + 1 = sym (ap (λ (p : ℕ × String). p.0) place) in
      let prior : prev ≡ head_hash lib zero_chain_hash rs =
        sym (ap (λ (p : ℕ × String). p.1) place) in
      let size : r.sequence + 1 ≡ length (rs ++ r ∷ []) + 1 =
        omega (arith, l.0, number, length-last lib rs r) in
      (
        IsChain-last zero_chain_hash 1 rs r c (omega (arith, l.0, number), l.1 ∙ prior, l.2),
        rw (size, head_hash-last lib zero_chain_hash rs r) refl,
      )

  between_chain :
      (prev : String) (n : ℕ) (rs : List Record)
      → 1 ≤ n
      → IsChain lib prev n rs
      → between 1 0 rs ≡ rs
  unfolding between
  between_chain prev n [] p c = refl
  between_chain prev n (r ∷ rs) p c =
      let e : leb 1 r.sequence ≡ true = ground (arith, c.0.0, p) in
      rw (e, between_chain r.record_hash (n + 1) rs (omega (arith, p)) c.1) refl

  by_sequence_chain :
      (prev : String) (n : ℕ) (rs : List Record) → IsChain lib prev n rs → by_sequence rs ≡ rs
  unfolding by_sequence insert_sorted
  by_sequence_chain prev n [] c = refl
  by_sequence_chain prev n (r ∷ []) c = refl
  by_sequence_chain prev n (r ∷ q ∷ rs) c =
      let e : leb r.sequence q.sequence ≡ true = ground (arith, c.0.0, c.1.0.0) in
      rw (by_sequence_chain r.record_hash (n + 1) (q ∷ rs) c.1, e) refl

  -- The range of a tenant whose rows are a chain is these rows in the order of their insertion.
  pub range_chain :
      (prev : String) (d : Database) (t : String)
      → IsChain lib prev 1 (of_tenant t d.records)
      → range d t 1 0 ≡ ok (of_tenant t d.records)
  unfolding range
  range_chain prev d t c = ap ok (
      ap by_sequence (between_chain prev 1 (of_tenant t d.records) (omega arith) c)
      ∙ by_sequence_chain prev 1 (of_tenant t d.records) c)

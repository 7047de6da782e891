-- ===== src/Audit/Chain/Laws.antt =====
-- What a report of `VerifyChain` in internal/audit/domain/record.go says of the records.
use specforge.Prelude.{
  ℕ, ◌+◌, ◌≡◌, ◌↔◌, refl, String, Bool, true, false, ◌==◌, none, List, [], ◌∷◌, ◌++◌, Result, ok,
  err, eqb, inl, inr, arith, Bool-cases, Option-cases, ==→eq, eq→==,
}
use specforge.Errors.{Error}
use specforge.Audit.Record.{Record, ChainCodec, verify_record_hash}
use specforge.Audit.Chain.{
  VerifyReport, hash_fault, fault, verify_loop, verify_chain, IsLink, IsChain, first_sequence,
  valid_report, counted, last_sequence,
}

module _ (lib : ChainCodec) where
  hash_fault-none : (n : ℕ) (v : Result Error Bool) → (hash_fault lib n v ≡ none) ↔ (v ≡ ok true)
  unfolding hash_fault
  hash_fault-none n (err e) = (λ h. cc, λ h. cc)
  hash_fault-none n (ok true) = (λ h. refl, λ h. refl)
  hash_fault-none n (ok false) = (λ h. cc, λ h. cc)

  pub fault-IsLink :
      (prev : String) (expected : ℕ) (r : Record)
      → (fault lib prev expected r ≡ none) ↔ IsLink lib prev expected r
  unfolding fault
  fault-IsLink prev expected r = (
    λ h. elim (Bool-cases (eqb r.sequence expected)) [
      | inl n ↦ elim (Bool-cases (r.prev_hash == prev)) [
        | inl p ↦ (
          ground (arith, n),
          ==→eq r.prev_hash prev p,
          (hash_fault-none r.sequence (verify_record_hash lib r)).0 (rw (n, p) at h),
        )
        | inr p ↦ cc (rw (n, p) at h)
      ]
      | inr n ↦ cc (rw n at h)
    ],
    λ h.
        let n : eqb r.sequence expected ≡ true = ground (arith, h.0) in
        rw (n, eq→== r.prev_hash prev h.1)
          ((hash_fault-none r.sequence (verify_record_hash lib r)).1 h.2),
  )

  verify_loop_valid :
      (rep : VerifyReport) (prev : String) (expected : ℕ) (rs : List Record)
      → rep.valid ≡ true
      → ((verify_loop lib rep prev expected rs).valid ≡ true) ↔ IsChain lib prev expected rs
  unfolding verify_loop
  verify_loop_valid rep prev expected [] v = (λ h. tt, λ h. v)
  verify_loop_valid rep prev expected (r ∷ rs) v =
      let ih = verify_loop_valid (counted lib rep) r.record_hash (expected + 1) rs v in
      (
        λ h. elim (Option-cases (fault lib prev expected r)) [
          | inl f ↦ ((fault-IsLink prev expected r).0 f, ih.0 (rw f at h))
          | inr (why, f) ↦ cc (rw f at h)
        ],
        λ h. rw ((fault-IsLink prev expected r).1 h.0) (ih.1 h.1),
      )

  -- Verification reports a run of records valid exactly when they are numbered without a gap from
  -- the first one's number, the first names the start's hash, each other its predecessor's, and
  -- each stored hash is the one that the record's content gives.
  pub verify_chain_valid :
      (rs : List Record) (start : String)
      → ((verify_chain lib rs start).valid ≡ true) ↔ IsChain lib start (first_sequence lib rs) rs
  unfolding verify_chain
  verify_chain_valid [] start = (λ h. tt, λ h. refl)
  verify_chain_valid (r ∷ rs) start =
      verify_loop_valid
        (record valid_report {
          tenant_id = r.tenant_id;
          from = r.sequence;
          to = last_sequence r.sequence rs;
        })
        start r.sequence (r ∷ rs) refl

  verify_loop-from :
      (rep : VerifyReport) (prev : String) (expected : ℕ) (rs : List Record)
      → (verify_loop lib rep prev expected rs).from ≡ rep.from
  unfolding verify_loop
  verify_loop-from rep prev expected [] = refl
  verify_loop-from rep prev expected (r ∷ rs) = elim (Option-cases (fault lib prev expected r)) [
    | inl f ↦ rw f (verify_loop-from (counted lib rep) r.record_hash (expected + 1) rs)
    | inr (why, f) ↦ rw f refl
  ]

  -- The number that a report says it begins with is the first record's.
  pub verify_chain-from :
      (rs : List Record) (start : String) → (verify_chain lib rs start).from ≡ first_sequence lib rs
  unfolding verify_chain
  verify_chain-from [] start = refl
  verify_chain-from (r ∷ rs) start =
      verify_loop-from
        (record valid_report {
          tenant_id = r.tenant_id;
          from = r.sequence;
          to = last_sequence r.sequence rs;
        })
        start r.sequence (r ∷ rs)

  IsChain-append :
      (prev : String) (n : ℕ) (rs ts : List Record)
      → IsChain lib prev n (rs ++ ts)
      → IsChain lib prev n rs
  IsChain-append prev n [] ts c = tt
  IsChain-append prev n (r ∷ rs) ts c = (c.0, IsChain-append r.record_hash (n + 1) rs ts c.1)

  -- Records that are missing at the end are not noticed: of a run that is reported valid, every
  -- beginning is reported valid.
  verify_chain-append :
      (rs ts : List Record) (start : String)
      → (verify_chain lib (rs ++ ts) start).valid ≡ true
      → (verify_chain lib rs start).valid ≡ true
  verify_chain-append [] ts start h = (verify_chain_valid [] start).1 tt
  verify_chain-append (r ∷ rs) ts start h =
      (verify_chain_valid (r ∷ rs) start).1 (
        IsChain-append start r.sequence (r ∷ rs) ts ((verify_chain_valid (r ∷ rs ++ ts) start).0 h))

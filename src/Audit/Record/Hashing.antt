-- ===== src/Audit/Record/Hashing.antt =====
-- What a verified hash of a record of internal/audit/domain/record.go was computed from, and what
-- sealing gives.
use mathlib.Core.Path.{subst}
use specforge.Prelude.{
  ◌≡◌, refl, String, true, ◌==◌, Option, none, some, ◌++◌, length, Result, ok, err, eqb, inl, inr,
  arith, Bool-cases, ==→eq, eq→==, ok-injective, ap,
}
use specforge.Types.Identifiers.{valid_chain_hash}
use specforge.Errors.{Error}
use specforge.Audit.Record.{
  Record, ChainCodec, Bytes, payload, chain, chain_of, chain_decoded, chain_canonical,
  compute_record_hash, compare_hash, verify_record_hash, store_hash, seal_record,
}

module _ (lib : ChainCodec) where
  abbrev Digested : Record → String → Type 0
  Digested r h =
      (prefix_bytes : Bytes) × (length prefix_bytes ≡ 32)
      × (body : Bytes) × (lib.canonicalize (payload lib r) ≡ ok body)
      × (lib.sha256_hex (prefix_bytes ++ body) ≡ h)

  chain_decoded_ok :
      (o : Option Bytes) (p : Bytes) (h : String)
      → chain_decoded lib o p ≡ ok h
      → (b : Bytes) × (length b ≡ 32) × (lib.sha256_hex (b ++ p) ≡ h)
  unfolding chain_decoded
  chain_decoded_ok none p h e = cc
  chain_decoded_ok (some b) p h e = elim (Bool-cases (eqb (length b) 32)) [
    | inl l ↦ (b, ground (arith, l), ok-injective _ h (rw l at e))
    | inr l ↦ cc (rw l at e)
  ]

  chain_canonical_ok :
      (r : Record) (h : String) (c : Result Error Bytes)
      → lib.canonicalize (payload lib r) ≡ c
      → chain_canonical lib r.prev_hash c ≡ ok h
      → Digested r h
  unfolding chain_canonical chain
  chain_canonical_ok r h (ok body) k e =
      let (b, l, d) = chain_decoded_ok (lib.hex_decode r.prev_hash) body h e in (b, l, body, k, d)
  chain_canonical_ok r h (err x) k e = cc

  compute_record_hash_ok :
      (r : Record) (h : String) → compute_record_hash lib r ≡ ok h → Digested r h
  unfolding compute_record_hash chain_of
  compute_record_hash_ok r h e = elim (Bool-cases (valid_chain_hash r.prev_hash)) [
    | inr v ↦ cc (rw v at e)
    | inl v ↦ chain_canonical_ok r h (lib.canonicalize (payload lib r)) refl (rw v at e)
  ]

  -- The bytes behind a hash that verifies.
  pub record HashedFrom (r : Record) : Type 0 where
    pub prefix_bytes : Bytes
    pub body : Bytes
    pub sized : length prefix_bytes ≡ 32
    pub rendered : lib.canonicalize (payload lib r) ≡ ok body
    pub digest : lib.sha256_hex (prefix_bytes ++ body) ≡ r.record_hash

  compare_hash_ok :
      (r : Record) (c : Result Error String) → compare_hash lib r c ≡ ok true → c ≡ ok r.record_hash
  unfolding compare_hash
  compare_hash_ok r (ok d) e =
      ap ok (==→eq d r.record_hash (ok-injective (d == r.record_hash) true e))
  compare_hash_ok r (err x) e = cc

  verify_record_hash_ok :
      (r : Record)
      → verify_record_hash lib r ≡ ok true
      → compute_record_hash lib r ≡ ok r.record_hash
  unfolding verify_record_hash
  verify_record_hash_ok r h = compare_hash_ok r (compute_record_hash lib r) h

  pub verify_record_hash-HashedFrom :
      (r : Record) → verify_record_hash lib r ≡ ok true → HashedFrom r
  verify_record_hash-HashedFrom r h =
      let (p, l, b, k, d) = compute_record_hash_ok r r.record_hash (verify_record_hash_ok r h) in
      record { prefix_bytes = p; body = b; sized = l; rendered = k; digest = d }

  compute_record_hash-record_hash :
      (r : Record) (h : String)
      → compute_record_hash lib (record r { record_hash = h }) ≡ compute_record_hash lib r
  unfolding compute_record_hash payload
  compute_record_hash-record_hash r h = refl

  store_hash_ok :
      (r w : Record) (c : Result Error String)
      → compute_record_hash lib r ≡ c
      → store_hash lib r c ≡ (w, none)
      → (w ≡ record r { record_hash = w.record_hash }) × (verify_record_hash lib w ≡ ok true)
  unfolding store_hash verify_record_hash compare_hash
  store_hash_ok r w (ok d) k e =
      let same : record r { record_hash = d } ≡ w = ap (λ (x : Record × Option Error). x.0) e in
      subst
        (λ w. (w ≡ record r { record_hash = w.record_hash }) × (verify_record_hash lib w ≡ ok true))
        same (refl, rw (compute_record_hash-record_hash r d, k, eq→== d d refl) refl)
  store_hash_ok r w (err x) k e = cc

  -- A record that sealing seals differs in its hash alone, and the hash verifies.
  pub seal_record_ok :
      (r w : Record)
      → seal_record lib r ≡ (w, none)
      → (w ≡ record r { record_hash = w.record_hash }) × (verify_record_hash lib w ≡ ok true)
  unfolding seal_record
  seal_record_ok r w h = store_hash_ok r w (compute_record_hash lib r) refl h

  -- The check of a stored hash reads a record's canonical bytes and its two hashes alone.
  pub verify_record_hash-same :
      (r q : Record)
      → q.prev_hash ≡ r.prev_hash
      → q.record_hash ≡ r.record_hash
      → lib.canonicalize (payload lib q) ≡ lib.canonicalize (payload lib r)
      → verify_record_hash lib q ≡ verify_record_hash lib r
  unfolding verify_record_hash compare_hash compute_record_hash chain_of
  verify_record_hash-same r q prev hash body = rw (body, prev, hash) refl

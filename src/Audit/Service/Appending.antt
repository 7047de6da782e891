-- ===== src/Audit/Service/Appending.antt =====
-- What `Append` of internal/audit/app/writer.go writes.
use mathlib.Core.Path.{subst}
use specforge.Prelude.{
  ℕ, ◌≡◌, refl, ap, String, Option, none, some, Result, ok, ◌>>=◌, ◌>>◌, >>=_ok, ok-injective,
}
use specforge.Errors.{Error}
use specforge.Audit.Record.{Record, ChainCodec, seal_record, validate_record}
use specforge.Audit.Record.Hashing.{seal_record_ok}
use specforge.Audit.Chain.{IsLink}
use specforge.Audit.Service.{Repository, append_record, append_at, sealed_or, stamp}

module _ (lib : ChainCodec) {S : Type 0} (repo : Repository S) where
  sealed_or_ok :
      (p : Record × Option Error) (w : Record) → sealed_or lib repo p ≡ ok w → p ≡ (w, none)
  unfolding sealed_or
  sealed_or_ok (r, none) w h = rw (ok-injective r w h) refl
  sealed_or_ok (r, some e) w h = cc

  -- What the append of a record did: the sequence and hash that it was allocated, the record that
  -- it wrote there, a link of the chain that differs from what was asked in its position alone, and
  -- the head that it moved to that record.
  pub record IsAppended (s : S) (r : Record) (s' : S) (w : Record) : Type 0 where
    pub allocated : S
    pub written : S
    pub expected : ℕ
    pub prev : String
    pub allocation : repo.next_sequence s r.tenant_id ≡ ok (allocated, (expected, prev))
    pub link : IsLink lib prev expected w
    pub same : w ≡ record r { sequence = expected; prev_hash = prev; record_hash = w.record_hash }
    pub legal : validate_record (record r { sequence = expected; prev_hash = prev }) ≡ ok tt
    pub insertion : repo.insert_record allocated w ≡ ok written
    pub advance : repo.advance_head written w.tenant_id w.sequence w.record_hash ≡ ok s'

  append_at_ok :
      (s : S) (r : Record) (a : S × (ℕ × String)) (s' : S) (w : Record)
      → repo.next_sequence s r.tenant_id ≡ ok a
      → append_at lib repo r a ≡ ok (s', w)
      → IsAppended s r s' w
  unfolding append_at
  append_at_ok s r (s1, (seq, prev)) s' w n h =
      let r' : Record = record r { sequence = seq; prev_hash = prev } in
      let advance_of : Record → S → Result Error (S × Record) =
        λ v t. repo.advance_head t v.tenant_id v.sequence v.record_hash >>= λ (u : S). ok (u, v) in
      let (v, sealing, h1) =
        >>=_ok (validate_record r' >> sealed_or lib repo (seal_record lib r'))
          (λ v. repo.insert_record s1 v >>= advance_of v) (s', w) h in
      let (u, legal, h2) =
        >>=_ok (validate_record r') (λ _. sealed_or lib repo (seal_record lib r')) v sealing in
      let (same, verified) = seal_record_ok lib r' v (sealed_or_ok (seal_record lib r') v h2) in
      let (s2, insertion, h3) = >>=_ok (repo.insert_record s1 v) (advance_of v) (s', w) h1 in
      let (s3, advance, h4) =
        >>=_ok (repo.advance_head s2 v.tenant_id v.sequence v.record_hash) (λ u. ok (u, v)) (s', w)
          h3 in
      subst (λ (p : S × Record). IsAppended s r p.0 p.1)
        (ok-injective {A = S × Record} (s3, v) (s', w) h4)
        (record {
          allocated = s1;
          written = s2;
          expected = seq;
          prev = prev;
          allocation = n;
          link = (
            ap (λ (x : Record). x.sequence) same,
            ap (λ (x : Record). x.prev_hash) same,
            verified,
          );
          same = same;
          legal = legal;
          insertion = insertion;
          advance = advance;
        })

  -- An append that succeeds wrote the record, stamped with an identifier and a time where it had
  -- none, at the allocated sequence, linked to the allocated hash and with its own hash, after
  -- validating it, and moved the chain's head to it.
  pub append_record_ok :
      (now : ℕ) (fresh : String) (s : S) (r : Record) (s' : S) (w : Record)
      → append_record lib repo now fresh s r ≡ ok (s', w)
      → IsAppended s (stamp lib repo now fresh r) s' w
  unfolding append_record
  append_record_ok now fresh s r s' w h =
      let r' = stamp lib repo now fresh r in
      let (a, n, h1) =
        >>=_ok (repo.next_sequence s r'.tenant_id) (λ a. append_at lib repo r' a) (s', w) h in
      append_at_ok s r' a s' w n h1

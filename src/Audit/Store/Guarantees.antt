-- ===== src/Audit/Store/Guarantees.antt =====
-- What the writer and internal/audit/infra/postgres.go keep together: every tenant's rows are a chain.
use mathlib.Core.Path.{subst}
use specforge.Prelude.{
  ℕ, ◌+◌, ◌≡◌, refl, ap, sym, ◌∙◌, String, true, false, ◌==◌, List, [], ◌∷◌, ◌++◌, Result, ok, err,
  eqb, Bool-cases, inl, inr, ==→eq, All,
}
use specforge.Errors.{Error}
use specforge.Artifact.Operations.{normalize_time}
use specforge.Audit.Record.{Record, ChainCodec, payload}
use specforge.Audit.Record.Hashing.{verify_record_hash-same}
use specforge.Audit.Chain.{VerifyReport, IsChain, IsLink}
use specforge.Audit.Service.{zero_chain_hash, append_record, stamp, verify_segment}
use specforge.Audit.Service.Appending.{IsAppended, append_record_ok}
use specforge.Audit.Service.Anchored.{verify_segment_chain}
use specforge.Audit.Store.{
  Database, Request, empty_database, of_tenant, head_of, position, find_head, append_each, kept,
  postgres,
}
use specforge.Audit.Store.Heads.{next_sequence_ok, advance_head_ok}
use specforge.Audit.Store.Trails.{
  of_tenant_last, of_tenant_other, insert_record_ok, end_of, IsChain-extended, range_chain,
}

module _ (lib : ChainCodec) (stored : Record → Record) where
  -- What reading a row back keeps of a record.
  pub record IsReadBack (r q : Record) : Type 0 where
    pub tenant : q.tenant_id ≡ r.tenant_id
    pub number : q.sequence ≡ r.sequence
    pub prev : q.prev_hash ≡ r.prev_hash
    pub hash : q.record_hash ≡ r.record_hash
    pub body : lib.canonicalize (payload lib q) ≡ lib.canonicalize (payload lib r)

  -- PostgreSQL keeps microseconds: rows whose time has no finer part read back as they were.
  abbrev pub KeepsRecords : Type 0
  KeepsRecords =
      (r : Record) → normalize_time r.occurred_at ≡ r.occurred_at → IsReadBack r (stored r)

  abbrev pub IsWhole : Request → Type 0
  IsWhole q =
      (normalize_time q.now ≡ q.now) × (normalize_time q.wanted.occurred_at ≡ q.wanted.occurred_at)

  -- A tenant's rows are a chain from the genesis hash, and the tenant's head is its end.
  pub IsSound : Database → String → Type 0
  IsSound d t =
      IsChain lib zero_chain_hash 1 (of_tenant t d.records)
      × (head_of d t ≡ end_of lib (of_tenant t d.records))

  append-IsSound :
      (keeps : KeepsRecords) (d d' : Database) (r w : Record)
      → normalize_time r.occurred_at ≡ r.occurred_at
      → IsAppended lib (postgres stored) d r d' w
      → ((t : String) → IsSound d t)
      → (t : String) → IsSound d' t
  unfolding IsSound head_of
  append-IsSound keeps d d' r w whole a sound t =
      let tenant : w.tenant_id ≡ r.tenant_id = ap (λ (x : Record). x.tenant_id) a.same in
      let time : normalize_time w.occurred_at ≡ w.occurred_at =
        subst (λ n. normalize_time n ≡ n) (sym (ap (λ (x : Record). x.occurred_at) a.same)) whole in
      let back : IsReadBack w (stored w) = keeps w time in
      let (given, others, before) =
        next_sequence_ok d a.allocated r.tenant_id (a.expected, a.prev) a.allocation in
      let added = insert_record_ok stored a.allocated a.written w a.insertion in
      let heads : (u : String) → head_of a.written u ≡ head_of d u =
        λ u. ap (λ x. head_of x u) added ∙ others u in
      let at_head : head_of a.written w.tenant_id ≡ (a.expected, a.prev) =
        heads w.tenant_id ∙ ap (head_of d) tenant ∙ given in
      let (moved, stay, rows) =
        advance_head_ok a.written d' w.tenant_id w.sequence w.record_hash
          (ap (λ (p : ℕ × String). p.0) at_head ∙ sym a.link.0) a.advance in
      let all_rows : d'.records ≡ d.records ++ stored w ∷ [] =
        rows ∙ ap (λ (x : Database). x.records) added ∙ ap (λ rs. rs ++ stored w ∷ []) before in
      elim (Bool-cases (w.tenant_id == t)) [
        | inr f ↦
            let g : ((stored w).tenant_id == t) ≡ false = rw back.tenant f in
            let same : of_tenant t d'.records ≡ of_tenant t d.records =
              ap (of_tenant t) all_rows ∙ of_tenant_other t d.records (stored w) g in
            (rw same (sound t).0, stay t f ∙ heads t ∙ (sound t).1 ∙ rw same refl)
        | inl f ↦
            let g : ((stored w).tenant_id == t) ≡ true = rw back.tenant f in
            let here : w.tenant_id ≡ t = ==→eq w.tenant_id t f in
            let rs : List Record = of_tenant t d.records in
            let same : of_tenant t d'.records ≡ rs ++ stored w ∷ [] =
              ap (of_tenant t) all_rows ∙ of_tenant_last t d.records (stored w) g in
            let place : end_of lib rs ≡ (a.expected, a.prev) =
              sym (sound t).1 ∙ ap (head_of d) (sym here ∙ tenant) ∙ given in
            let link : IsLink lib a.prev a.expected (stored w) = (
              back.number ∙ a.link.0,
              back.prev ∙ a.link.1,
              verify_record_hash-same lib w (stored w) back.prev back.hash back.body ∙ a.link.2,
            ) in
            let (chain, end) =
              IsChain-extended lib rs (stored w) a.expected a.prev (sound t).0 place link in
            let last : head_of d' w.tenant_id ≡ ((stored w).sequence + 1, (stored w).record_hash) =
              rw (back.number, back.hash) moved in
            (rw same chain, ap (head_of d') (sym here) ∙ last ∙ sym end ∙ rw same refl)
      ]

  kept-IsSound :
      (keeps : KeepsRecords) (q : Request) (d : Database)
      → IsWhole q
      → ((t : String) → IsSound d t)
      → (a : Result Error (Database × Record))
      → append_record lib (postgres stored) q.now q.fresh d q.wanted ≡ a
      → (t : String) → IsSound (kept d a) t
  unfolding kept
  kept-IsSound keeps q d whole sound (err e) h t = sound t
  kept-IsSound keeps q d whole sound (ok (d', w)) h t =
      let r = stamp lib (postgres stored) q.now q.fresh q.wanted in
      let time : normalize_time r.occurred_at ≡ r.occurred_at =
        elim (Bool-cases (eqb q.wanted.occurred_at 0)) [
          | inl e ↦ rw e whole.0
          | inr e ↦ rw e whole.1
        ] in
      append-IsSound keeps d d' r w time
        (append_record_ok lib (postgres stored) q.now q.fresh d q.wanted d' w h) sound t

  append_each-IsSound :
      (keeps : KeepsRecords) (d : Database) (qs : List Request)
      → All IsWhole qs
      → ((t : String) → IsSound d t)
      → (t : String) → IsSound (append_each lib stored d qs) t
  unfolding append_each
  append_each-IsSound keeps d [] whole sound = sound
  append_each-IsSound keeps d (q ∷ qs) whole sound =
      let a = append_record lib (postgres stored) q.now q.fresh d q.wanted in
      append_each-IsSound keeps (kept d a) qs whole.1 (kept-IsSound keeps q d whole.0 sound a refl)

  empty-IsSound : (t : String) → IsSound empty_database t
  unfolding IsSound head_of position find_head of_tenant
  empty-IsSound t = (tt, refl)

  -- Whatever records are appended to an empty database, by whichever tenants and in whatever order,
  -- with the appends that fail between them, each tenant's whole trail verifies: the verification
  -- from the first record to the last returns a report, and the report is valid. The times that are
  -- given are whole microseconds; it is assumed that rows with such times read back with the same
  -- tenant, number, hashes and canonical JSON.
  pub appended_verifies :
      KeepsRecords
      → (qs : List Request) → All IsWhole qs
      → (t : String)
      → (rep : VerifyReport) × (verify_segment lib
            (postgres stored)
            (append_each lib stored empty_database qs)
            t
            1
            0
          ≡ ok rep)
        × (rep.valid ≡ true)
  unfolding IsSound
  appended_verifies keeps qs whole t =
      let d = append_each lib stored empty_database qs in
      let (chain, _) = append_each-IsSound keeps empty_database qs whole empty-IsSound t in
      verify_segment_chain lib (postgres stored) d t (of_tenant t d.records)
        (range_chain lib zero_chain_hash d t chain) chain

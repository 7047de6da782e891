-- ===== src/Audit/Chain/Binding.antt =====
-- What the hash chain of internal/audit/domain/record.go binds: its head fixes every record.
use specforge.Prelude.{
  ℕ, ◌+◌, ◌≡◌, ◌≢◌, ◌⊎◌, refl, String, true, List, [], ◌∷◌, ◌++◌, ok, eqb, ◌==◌, Option, none, some,
  if◌then◌else◌, inl, inr, arith, Bool-cases, length, sym, ◌∙◌,
}
use specforge.Audit.Record.{
  Record, ChainCodec, ChainPayload, Attributes, Bytes, verify_record_hash, payload, or_else,
}
use specforge.Artifact.Operations.{normalize_time}
use specforge.Audit.Record.Hashing.{verify_record_hash-HashedFrom}
use specforge.Audit.Chain.{IsChain}

bytes-cases : (x y : Bytes) → (x ≡ y) ⊎ (x ≢ y)
bytes-cases [] [] = inl refl
bytes-cases [] (b ∷ y) = inr (λ e. cc)
bytes-cases (a ∷ x) [] = inr (λ e. cc)
bytes-cases (a ∷ x) (b ∷ y) = elim (Bool-cases (eqb a b)) [
  | inl e ↦ elim (bytes-cases x y) [
    | inl f ↦ inl (let g : a ≡ b = ground (arith, e) in rw (g, f) refl)
    | inr f ↦ inr (λ g. let t : x ≡ y = cc in f t)
  ]
  | inr e ↦ inr (λ g. let h : a ≡ b = cc in ground (arith, e, h))
]

-- Two byte strings that begin with parts of one length have the same parts.
append-split : (x x' y y' : Bytes) → length x ≡ length x' → x ++ y ≡ x' ++ y' → (x ≡ x') × (y ≡ y')
append-split [] [] y y' n h = (refl, h)
append-split [] (a ∷ x') y y' n h = absurd (omega (arith, n))
append-split (a ∷ x) [] y y' n h = absurd (omega (arith, n))
append-split (a ∷ x) (b ∷ x') y y' n h =
    let k : length x ≡ length x' = omega (arith, n) in
    let g : a ≡ b = cc in
    let t : x ++ y ≡ x' ++ y' = cc in let (e, f) = append-split x x' y y' k t in (rw (g, e) refl, f)

-- The value of a key, the first of that name.
abbrev pub attribute : String → Attributes → Option String
attribute k [] = none
attribute k ((n, v) ∷ rest) = if n == k then some v else attribute k rest

-- Two payloads that agree in every field, the attributes as maps.
pub record SamePayload (p q : ChainPayload) : Type 0 where
  pub id : p.id ≡ q.id
  pub tenant_id : p.tenant_id ≡ q.tenant_id
  pub project_id : p.project_id ≡ q.project_id
  pub sequence : p.sequence ≡ q.sequence
  pub action : p.action ≡ q.action
  pub outcome : p.outcome ≡ q.outcome
  pub severity : p.severity ≡ q.severity
  pub actor : p.actor ≡ q.actor
  pub target : p.target ≡ q.target
  pub attributes : (k : String) → attribute k p.attributes ≡ attribute k q.attributes
  pub request_id : p.request_id ≡ q.request_id
  pub trace_id : p.trace_id ≡ q.trace_id
  pub occurred_at : p.occurred_at ≡ q.occurred_at
  pub prev_hash : p.prev_hash ≡ q.prev_hash

module _ (lib : ChainCodec) where
  -- Two inputs of SHA-256 with one digest.
  pub record Collision : Type 0 where
    pub left : Bytes
    pub right : Bytes
    pub differ : left ≢ right
    pub meet : lib.sha256_hex left ≡ lib.sha256_hex right

  -- Two records that agree in every field: the time as it is rendered, no project as the empty
  -- one, no attributes as an empty map, and a map by the values of its keys.
  pub record SameRecord (r q : Record) : Type 0 where
    pub id : r.id ≡ q.id
    pub tenant_id : r.tenant_id ≡ q.tenant_id
    pub project_id : or_else r.project_id "" ≡ or_else q.project_id ""
    pub sequence : r.sequence ≡ q.sequence
    pub action : r.action ≡ q.action
    pub outcome : r.outcome ≡ q.outcome
    pub severity : r.severity ≡ q.severity
    pub actor : r.actor ≡ q.actor
    pub target : r.target ≡ q.target
    pub attributes :
        (k : String) → attribute k (or_else r.attributes []) ≡ attribute k (or_else q.attributes [])
    pub request_id : r.request_id ≡ q.request_id
    pub trace_id : r.trace_id ≡ q.trace_id
    pub occurred_at :
        lib.format_time (normalize_time r.occurred_at)
        ≡ lib.format_time (normalize_time q.occurred_at)
    pub prev_hash : r.prev_hash ≡ q.prev_hash
    pub record_hash : r.record_hash ≡ q.record_hash

  abbrev pub SameRecords : List Record → List Record → Type 0
  SameRecords [] [] = Unit
  SameRecords (r ∷ rs) (q ∷ qs) = SameRecord r q × SameRecords rs qs
  SameRecords _ _ = ⊥

  -- The hash that the chain ends with.
  abbrev pub head_hash : String → List Record → String
  head_hash start [] = start
  head_hash start (r ∷ rs) = head_hash r.record_hash rs

  -- Canonical JSON keeps what it renders: one text is that of one payload, up to the order of the
  -- attributes.
  abbrev pub KeepsPayload : Type 0
  KeepsPayload =
      (p q : ChainPayload) (b : Bytes)
      → lib.canonicalize p ≡ ok b
      → lib.canonicalize q ≡ ok b
      → SamePayload p q

  module _ (keeps : KeepsPayload) where
    same_record :
        (r q : Record)
        → SamePayload (payload lib r) (payload lib q)
        → r.record_hash ≡ q.record_hash
        → SameRecord r q
    unfolding payload
    same_record r q s h = record {
      id = s.id;
      tenant_id = s.tenant_id;
      project_id = s.project_id;
      sequence = s.sequence;
      action = s.action;
      outcome = s.outcome;
      severity = s.severity;
      actor = s.actor;
      target = s.target;
      attributes = s.attributes;
      request_id = s.request_id;
      trace_id = s.trace_id;
      occurred_at = s.occurred_at;
      prev_hash = s.prev_hash;
      record_hash = h;
    }

    record_binding :
        (r q : Record)
        → verify_record_hash lib r ≡ ok true
        → verify_record_hash lib q ≡ ok true
        → r.record_hash ≡ q.record_hash
        → SameRecord r q ⊎ Collision
    record_binding r q vr vq e =
        let hr = verify_record_hash-HashedFrom lib r vr in
        let hq = verify_record_hash-HashedFrom lib q vq in
        elim (bytes-cases (hr.prefix_bytes ++ hr.body) (hq.prefix_bytes ++ hq.body)) [
          | inl same ↦
              let (_, body) =
                append-split hr.prefix_bytes hq.prefix_bytes hr.body hq.body
                  (hr.sized ∙ sym hq.sized) same in
              let rendered : lib.canonicalize (payload lib q) ≡ ok hr.body = rw body hq.rendered in
              inl (
                same_record r q (keeps (payload lib r) (payload lib q) hr.body hr.rendered rendered)
                  e)
          | inr differ ↦ inr (record {
            left = hr.prefix_bytes ++ hr.body;
            right = hq.prefix_bytes ++ hq.body;
            differ = differ;
            meet = hr.digest ∙ e ∙ sym hq.digest;
          })
        ]

    pub chain_binding :
        (s t : String) (m n : ℕ) (rs qs : List Record)
        → IsChain lib s m rs
        → IsChain lib t n qs
        → length rs ≡ length qs
        → head_hash s rs ≡ head_hash t qs
        → ((s ≡ t) × SameRecords rs qs) ⊎ Collision
    chain_binding s t m n [] [] a b l h = inl (h, tt)
    chain_binding s t m n [] (q ∷ qs) a b l h = absurd (omega (arith, l))
    chain_binding s t m n (r ∷ rs) [] a b l h = absurd (omega (arith, l))
    chain_binding s t m n (r ∷ rs) (q ∷ qs) a b l h =
        let k : length rs ≡ length qs = omega (arith, l) in
        elim (chain_binding r.record_hash q.record_hash (m + 1) (n + 1) rs qs a.1 b.1 k h) [
          | inr c ↦ inr c
          | inl (e, rest) ↦ elim (record_binding r q a.0.2 b.0.2 e) [
            | inr c ↦ inr c
            | inl same ↦ inl (sym a.0.1 ∙ same.prev_hash ∙ b.0.1, (same, rest))
          ]
        ]

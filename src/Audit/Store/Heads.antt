-- ===== src/Audit/Store/Heads.antt =====
-- The row of audit_sequences in internal/audit/infra/postgres.go: what the operations do to it.
use specforge.Prelude.{
  ℕ, ◌+◌, ◌≡◌, refl, ap, sym, ◌∙◌, String, true, false, ◌==◌, none, List, [], ◌∷◌, ok, eqb,
  Bool-cases, Option-cases, inl, inr, arith, ==→eq, any, ok-injective,
}
use specforge.Types.Identifiers.{valid_chain_hash}
use specforge.Audit.Store.{
  Head, Database, find_head, ensured, ensure_chain, allocated, next_sequence, is_at, move_head,
  advance_head, position, head_of,
}

pub ensure_chain-head_of :
    (d : Database) (t u : String)
    → (head_of (ensure_chain d t) u ≡ head_of d u) × ((ensure_chain d t).records ≡ d.records)
unfolding ensure_chain ensured head_of position find_head
ensure_chain-head_of d t u = elim (Option-cases (find_head t d.heads)) [
  | inr (h, e) ↦ rw e (refl, refl)
  | inl e ↦ elim (Bool-cases (t == u)) [
    | inr n ↦ rw (e, n) (refl, refl)
    | inl s ↦
        let same : t ≡ u = ==→eq t u s in
        let f : find_head u d.heads ≡ none = rw (sym same) e in rw (e, s, f) (refl, refl)
  ]
]

allocated_ok :
    (d d' : Database) (t : String) (a : ℕ × String)
    → allocated d (find_head t d.heads) ≡ ok (d', a)
    → (d ≡ d') × (head_of d t ≡ a)
unfolding allocated head_of position
allocated_ok d d' t a h = elim (Option-cases (find_head t d.heads)) [
  | inl e ↦ cc (rw e at h)
  | inr (row, e) ↦ elim (Bool-cases (valid_chain_hash row.head_hash)) [
    | inr n ↦ cc (rw (e, n) at h)
    | inl v ↦
        let same : (d, (row.next_sequence, row.head_hash)) ≡ (d', a) =
          ok-injective {A = Database × (ℕ × String)} (d, (row.next_sequence, row.head_hash)) (d', a)
            (rw (e, v) at h) in
        (
          ap (λ (p : Database × (ℕ × String)). p.0) same,
          rw e (ap (λ (p : Database × (ℕ × String)). p.1) same),
        )
  ]
]

-- An allocation gives what the tenant's head says, and changes no tenant's head and no record.
pub next_sequence_ok :
    (d d' : Database) (t : String) (a : ℕ × String)
    → next_sequence d t ≡ ok (d', a)
    → (head_of d t ≡ a) × ((u : String) → head_of d' u ≡ head_of d u) × (d'.records ≡ d.records)
unfolding next_sequence
next_sequence_ok d d' t a h =
    let (same, at_) = allocated_ok (ensure_chain d t) d' t a h in
    (
      sym (ensure_chain-head_of d t t).0 ∙ at_,
      λ u. ap (λ x. head_of x u) (sym same) ∙ (ensure_chain-head_of d t u).0,
      ap (λ (x : Database). x.records) (sym same) ∙ (ensure_chain-head_of d t t).1,
    )

move_head_self :
    (t : String) (n : ℕ) (hash : String) (hs : List Head)
    → (position (find_head t hs)).0 ≡ n
    → any (is_at t n) hs ≡ true
    → position (find_head t (move_head t n hash hs)) ≡ (n + 1, hash)
unfolding move_head find_head position
move_head_self t n hash [] e h = cc
move_head_self t n hash (r ∷ hs) e h = elim (Bool-cases (r.tenant_id == t)) [
  | inl s ↦
      let here : r.next_sequence ≡ n = rw s at e in
      let f : eqb r.next_sequence n ≡ true = ground (arith, here) in rw (s, f, s) refl
  | inr s ↦ rw (s, s) (move_head_self t n hash hs (rw s at e) (rw s at h))
]

move_head_other :
    (t u : String) (n : ℕ) (hash : String) (hs : List Head)
    → (t == u) ≡ false
    → find_head u (move_head t n hash hs) ≡ find_head u hs
unfolding move_head find_head
move_head_other t u n hash [] e = refl
move_head_other t u n hash (r ∷ hs) e = elim (Bool-cases (r.tenant_id == t)) [
  | inr s ↦ rw (s, move_head_other t u n hash hs e) refl
  | inl s ↦
      let same : r.tenant_id ≡ t = ==→eq r.tenant_id t s in
      let f : (r.tenant_id == u) ≡ false = rw same e in
      elim (Bool-cases (eqb r.next_sequence n)) [
        | inl k ↦ rw (s, k, f) (move_head_other t u n hash hs e)
        | inr k ↦ rw (s, k, f) (move_head_other t u n hash hs e)
      ]
]

-- The head that was allocated from is moved on; the others stand.
pub advance_head_ok :
    (d d' : Database) (t : String) (n : ℕ) (hash : String)
    → (head_of d t).0 ≡ n
    → advance_head d t n hash ≡ ok d'
    → (head_of d' t ≡ (n + 1, hash))
      × ((u : String) → (t == u) ≡ false → head_of d' u ≡ head_of d u)
      × (d'.records ≡ d.records)
unfolding advance_head head_of
advance_head_ok d d' t n hash e h = elim (Bool-cases (any (is_at t n) d.heads)) [
  | inr k ↦ cc (rw k at h)
  | inl k ↦
      let same : record d { heads = move_head t n hash d.heads } ≡ d' =
        ok-injective _ d' (rw k at h) in
      (
        ap (λ x. head_of x t) (sym same) ∙ move_head_self t n hash d.heads e k,
        λ u f.
            ap (λ x. head_of x u) (sym same) ∙ ap position (move_head_other t u n hash d.heads f),
        ap (λ (x : Database). x.records) (sym same),
      )
]

-- ===== src/Audit/Store.antt =====
-- internal/audit/infra/postgres.go: the tables of the trail, and the repository's operations on
-- them, an instance of the writer's port. A row is kept as what it reads back as: jsonb, timestamptz
-- and encoding/json are the parameter `stored`. Failures of the connection, which roll back, and the
-- reference to the table of tenants are left out, and so is `List`.
pub mod Heads
pub mod Trails
pub mod Guarantees
use specforge.Prelude.{
  ℕ, ◌+◌, ◌-◌, String, Bool, true, false, ◌==◌, ◌&&◌, ◌||◌, not, Option, none, some, List, [], ◌∷◌,
  ◌++◌, any, Result, ok, err, eqb, ltb, leb, if◌then◌else◌, ◌>>=◌, map,
}
use specforge.Types.Identifiers.{valid_chain_hash}
use specforge.Errors.{Error, platform, tampered, conflict, not_found, unavailable}
use specforge.Audit.Record.{Record, ChainCodec, audit_outcome_valid, audit_severity_valid}
use specforge.Audit.Service.{Repository, Anchor, zero_chain_hash, append_record}

-- A row of audit_sequences.
pub record Head : Type 0 where
  pub tenant_id : String
  pub next_sequence : ℕ
  pub head_hash : String

pub record Database : Type 0 where
  pub heads : List Head
  -- audit_records, the oldest first.
  pub records : List Record
  pub anchors : List Anchor

abbrev pub empty_database : Database
empty_database = record { heads = []; records = []; anchors = [] }

unfoldable pub find_head : String → List Head → Option Head
find_head t [] = none
find_head t (h ∷ hs) = if h.tenant_id == t then some h else find_head t hs

abbrev pub fresh_head : String → Head
fresh_head t = record { tenant_id = t; next_sequence = 1; head_hash = zero_chain_hash }

ensured : Database → String → Option Head → Database
ensured d t (some h) = d
ensured d t none = record d { heads = fresh_head t ∷ d.heads }

unfoldable pub ensure_chain : Database → String → Database
unfolding ensured find_head
ensure_chain d t = ensured d t (find_head t d.heads)

allocated : Database → Option Head → Result Error (Database × (ℕ × String))
allocated d none = err (platform unavailable "audit.sequence_failed" "audit.NextSequence")
allocated d (some h) =
    if valid_chain_hash h.head_hash
    then ok (d, (h.next_sequence, h.head_hash))
    else err (platform tampered "audit.chain_head_invalid" "audit.NextSequence")

-- The row of a tenant that has none is created first.
unfoldable pub next_sequence : Database → String → Result Error (Database × (ℕ × String))
unfolding ensure_chain allocated find_head
next_sequence d t = let d' = ensure_chain d t in allocated d' (find_head t d'.heads)

-- The rows that the update of `AdvanceHead` meets.
abbrev pub is_at : String → ℕ → Head → Bool
is_at t n h = h.tenant_id == t && eqb h.next_sequence n

unfoldable pub move_head : String → ℕ → String → List Head → List Head
move_head t n hash [] = []
move_head t n hash (h ∷ hs) =
    (if is_at t n h then record h { next_sequence = n + 1; head_hash = hash } else h)
    ∷ move_head t n hash hs

unfoldable pub advance_head : Database → String → ℕ → String → Result Error Database
unfolding move_head
advance_head d t n hash =
    if any (is_at t n) d.heads
    then ok (record d { heads = move_head t n hash d.heads })
    else err (platform conflict "audit.chain_conflict" "audit.AdvanceHead")

-- The primary key: tenant, number and time.
abbrev pub same_key : Record → Record → Bool
same_key r q =
    q.tenant_id == r.tenant_id && eqb q.sequence r.sequence && eqb q.occurred_at r.occurred_at

-- The checks of the table's columns.
abbrev pub columns_legal : Record → Bool
columns_legal r =
    audit_outcome_valid r.outcome
    && audit_severity_valid r.severity
    && valid_chain_hash r.prev_hash
    && valid_chain_hash r.record_hash

unfoldable pub insert_record : (Record → Record) → Database → Record → Result Error Database
insert_record stored d r =
    if any (same_key (stored r)) d.records
    then err (platform conflict "audit.sequence_conflict" "audit.Append")
    else if columns_legal r
    then ok (record d { records = d.records ++ stored r ∷ [] })
    else err (platform unavailable "audit.append_failed" "audit.Append")

unfoldable pub of_tenant : String → List Record → List Record
of_tenant t [] = []
of_tenant t (r ∷ rs) = if r.tenant_id == t then r ∷ of_tenant t rs else of_tenant t rs

unfoldable pub between : ℕ → ℕ → List Record → List Record
between from to [] = []
between from to (r ∷ rs) =
    if leb from r.sequence && (not (ltb 0 to) || leb r.sequence to)
    then r ∷ between from to rs
    else between from to rs

insert_sorted : Record → List Record → List Record
insert_sorted r [] = r ∷ []
insert_sorted r (q ∷ qs) = if leb r.sequence q.sequence then r ∷ q ∷ qs else q ∷ insert_sorted r qs

-- `ORDER BY sequence`
unfoldable pub by_sequence : List Record → List Record
unfolding insert_sorted
by_sequence [] = []
by_sequence (r ∷ rs) = insert_sorted r (by_sequence rs)

unfoldable pub range : Database → String → ℕ → ℕ → Result Error (List Record)
unfolding of_tenant between by_sequence
range d t from to = ok (by_sequence (between from to (of_tenant t d.records)))

unfoldable pub find_record : ℕ → List Record → Result Error Record
find_record n [] = err (platform not_found "audit.not_found" "audit.Get")
find_record n (r ∷ rs) = if eqb r.sequence n then ok r else find_record n rs

unfoldable pub get : Database → String → ℕ → Result Error Record
unfolding of_tenant find_record
get d t n = find_record n (of_tenant t d.records)

position : Option Head → ℕ × String
position none = (1, zero_chain_hash)
position (some h) = (h.next_sequence, h.head_hash)

-- The next number and the last hash: a tenant without a row is at the start of its chain.
unfoldable pub head_of : Database → String → ℕ × String
unfolding position find_head
head_of d t = position (find_head t d.heads)

unfoldable pub save_anchor : Database → Anchor → Result Error Database
save_anchor d a =
    if any (λ (b : Anchor). b.tenant_id == a.tenant_id && eqb b.anchored_at a.anchored_at) d.anchors
    then err (platform unavailable "audit.anchor_failed" "audit.SaveAnchor")
    else ok (record d { anchors = a ∷ d.anchors })

-- The last number and the last hash.
abbrev pub head : Database → String → Result Error (ℕ × String)
head d t = let (n, hash) = head_of d t in ok (n - 1, hash)

later : Anchor → Option Anchor → Option Anchor
later a none = some a
later a (some b) = if ltb a.anchored_at b.anchored_at then some b else some a

latest : String → List Anchor → Option Anchor
unfolding later
latest t [] = none
latest t (a ∷ as') = if a.tenant_id == t then later a (latest t as') else latest t as'

unfoldable pub latest_anchor : Database → String → Result Error (Option Anchor)
unfolding latest
latest_anchor d t = ok (latest t d.anchors)

module _ (stored : Record → Record) where
  -- The repository as an instance of the port.
  abbrev pub postgres : Repository Database
  postgres = record {
    next_sequence = next_sequence;
    insert_record = insert_record stored;
    advance_head = advance_head;
    range = range;
    get = get;
    latest_anchor = latest_anchor;
  }

-- A record to append, with the clock and the identifier that the writer would give it.
pub record Request : Type 0 where
  pub now : ℕ
  pub fresh : String
  pub wanted : Record

kept : Database → Result Error (Database × Record) → Database
kept d (ok (d', w)) = d'
kept d (err e) = d

-- Appends one after another, each in a transaction of its own: one that fails leaves nothing.
unfoldable pub append_each : ChainCodec → (Record → Record) → Database → List Request → Database
unfolding kept append_record
append_each lib stored d [] = d
append_each lib stored d (q ∷ qs) =
    let d' = kept d (append_record lib (postgres stored) q.now q.fresh d q.wanted) in
    append_each lib stored d' qs

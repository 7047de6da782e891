-- ===== src/Idempotency/Replay.antt =====
-- What a claimed key of internal/platform/idempotency/idempotency.go answers.
use specforge.Prelude.{
  ℕ, ◌+◌, ◌≤◌, ◌≡◌, ◌≢◌, refl, sym, ap, ◌∙◌, String, Bool, true, false, ◌==◌, ◌&&◌, Option, none,
  some, List, [], ◌∷◌, ok, err, ltb, if◌then◌else◌, arith, Bool-cases, inl, inr, All, eq_refl,
  ne→==, eq_iff, is_ok,
}
use specforge.Errors.{platform, conflict}
use specforge.Idempotency.{
  ClaimedKey, find_key, delete_where, begin, begin_with, claim, held, complete, completed_row,
  abandon, collect, is_key, stored_response, fresh_claim, ttl, in_progress, completed, kept_body,
}

-- What else happens to the table: the requests on other keys, and the collection of expired rows.
pub data Elsewhere : Type 0 where
  beginning : (tenant principal key hash : String) (now : ℕ) → Elsewhere
  completing : (tenant key : String) (status : ℕ) (body : String) (now : ℕ) → Elsewhere
  abandoning : (tenant key : String) → Elsewhere
  collecting : (now : ℕ) → Elsewhere

unfoldable pub happen : List ClaimedKey → Elsewhere → List ClaimedKey
happen rows (beginning t p k h now) = (begin rows t p k h now).0
happen rows (completing t k status body now) = complete rows t k status body now
happen rows (abandoning t k) = abandon rows t k
happen rows (collecting now) = collect rows now

unfoldable pub happen_all : List ClaimedKey → List Elsewhere → List ClaimedKey
unfolding happen
happen_all rows [] = rows
happen_all rows (e ∷ es) = happen_all (happen rows e) es

-- Not about the key, nor a collection after its expiry.
abbrev pub OtherKey : String → String → Elsewhere → Type 0
OtherKey t k (beginning t' p k' h now) = (t' == t && k' == k) ≡ false
OtherKey t k (completing t' k' status body now) = (t' == t && k' == k) ≡ false
OtherKey t k (abandoning t' k') = (t' == t && k' == k) ≡ false
OtherKey t k (collecting now) = Unit {0}

abbrev pub NotAfter : ℕ → Elsewhere → Type 0
NotAfter limit (collecting now) = now ≤ limit
NotAfter limit _ = Unit {0}

-- A row of another key is not the row of this one.
other_row :
    (t k t' k' : String) (r : ClaimedKey)
    → (t' == t && k' == k) ≡ false
    → is_key t k r ≡ true
    → is_key t' k' r ≡ false
other_row t k t' k' r n h = ground (
  arith,
  eq_iff t' t,
  eq_iff k' k,
  eq_iff r.tenant_id t,
  eq_iff r.key k,
  eq_iff r.tenant_id t',
  eq_iff r.key k',
)

find_key-delete_where :
    (t k : String) (p : ClaimedKey → Bool) (rows : List ClaimedKey) (r : ClaimedKey)
    → ((x : ClaimedKey) → is_key t k x ≡ true → x ≡ r → p x ≡ false)
    → find_key t k rows ≡ some r
    → find_key t k (delete_where p rows) ≡ some r
unfolding find_key delete_where
find_key-delete_where t k p [] r n f = cc
find_key-delete_where t k p (x ∷ rows) r n f = elim (Bool-cases (is_key t k x)) [
  | inl e ↦ let same : x ≡ r = ground (arith, e, f) in rw (n x e same, e) (ap some same)
  | inr e ↦ elim (Bool-cases (p x)) [
    | inl d ↦ rw d (find_key-delete_where t k p rows r n (rw e at f))
    | inr d ↦ rw (d, e) (find_key-delete_where t k p rows r n (rw e at f))
  ]
]

completed_same_key :
    (t k : String) (now status : ℕ) (body : String) (r : ClaimedKey) (b : Bool)
    → is_key t k (if b then completed_row now status body r else r) ≡ is_key t k r
unfolding completed_row
completed_same_key t k now status body r true = refl
completed_same_key t k now status body r false = refl

find_key-complete_other :
    (t k t' k' : String) (status : ℕ) (body : String) (now : ℕ) (rows : List ClaimedKey)
    → (t' == t && k' == k) ≡ false
    → find_key t k (complete rows t' k' status body now) ≡ find_key t k rows
unfolding find_key complete completed_row
find_key-complete_other t k t' k' status body now [] n = refl
find_key-complete_other t k t' k' status body now (r ∷ rows) n = elim (Bool-cases (is_key t k r)) [
  | inl e ↦ rw (other_row t k t' k' r n e, e) refl
  | inr e ↦
      rw (completed_same_key t k now status body r (is_key t' k' r) ∙ e, e)
        (find_key-complete_other t k t' k' status body now rows n)
]

find_key-complete :
    (t k : String) (status : ℕ) (body : String) (now : ℕ) (rows : List ClaimedKey) (r : ClaimedKey)
    → find_key t k rows ≡ some r
    → find_key t k (complete rows t k status body now) ≡ some (completed_row now status body r)
unfolding find_key complete
find_key-complete t k status body now [] r f = cc
find_key-complete t k status body now (x ∷ rows) r f = elim (Bool-cases (is_key t k x)) [
  | inl e ↦
      let same : x ≡ r = ground (arith, e, f) in
      rw (e, completed_same_key t k now status body x true ∙ e)
        (ap (λ y. some (completed_row now status body y)) same)
  | inr e ↦ rw (e, e) (find_key-complete t k status body now rows r (rw e at f))
]

find_key-claim :
    (t k t' p k' hash : String) (now : ℕ) (rows : List ClaimedKey)
    → (t' == t && k' == k) ≡ false
    → find_key t k (claim rows t' p k' hash now).0 ≡ find_key t k rows
unfolding find_key claim fresh_claim
find_key-claim t k t' p k' hash now rows n = rw n refl

find_key-held :
    (t k : String) (rows : List ClaimedKey) (hash : String) (x r : ClaimedKey)
    → find_key t k rows ≡ some r
    → find_key t k (held rows hash x).0 ≡ some r
unfolding held
find_key-held t k rows hash x r f = ground (arith, f)

-- A claim of another key leaves the row.
find_key-begin_with :
    (t k t' p k' hash : String) (now : ℕ) (rows : List ClaimedKey) (o : Option ClaimedKey)
    (r : ClaimedKey)
    → (t' == t && k' == k) ≡ false
    → find_key t k rows ≡ some r
    → find_key t k (begin_with rows t' p k' hash now o).0 ≡ some r
unfolding begin_with
find_key-begin_with t k t' p k' hash now rows none r n f =
    find_key-claim t k t' p k' hash now rows n ∙ f
find_key-begin_with t k t' p k' hash now rows (some x) r n f =
    elim (Bool-cases (ltb x.expires_at now)) [
      | inl late ↦ rw late (
          find_key-claim t k t' p k' hash now (delete_where (is_key t' k') rows) n
          ∙ find_key-delete_where t k (is_key t' k') rows r (λ y own _. other_row t k t' k' y n own)
              f)
      | inr live ↦ rw live (find_key-held t k rows hash x r f)
    ]

happen-keeps :
    (t k : String) (rows : List ClaimedKey) (e : Elsewhere) (r : ClaimedKey)
    → OtherKey t k e
    → NotAfter r.expires_at e
    → find_key t k rows ≡ some r
    → find_key t k (happen rows e) ≡ some r
unfolding happen begin abandon collect
happen-keeps t k rows (beginning t' p k' h now) r n l f =
    find_key-begin_with t k t' p k' h now rows (find_key t' k' rows) r n f
happen-keeps t k rows (completing t' k' status body now) r n l f =
    find_key-complete_other t k t' k' status body now rows n ∙ f
happen-keeps t k rows (abandoning t' k') r n l f =
    find_key-delete_where t k (λ x. is_key t' k' x && x.status == in_progress) rows r
      (λ y own _. rw (other_row t k t' k' y n own) refl) f
happen-keeps t k rows (collecting now) r n l f =
    find_key-delete_where t k (λ x. ltb x.expires_at now) rows r
      (λ y own same. ground (arith, same, l)) f

happen_all-keeps :
    (t k : String) (rows : List ClaimedKey) (es : List Elsewhere) (r : ClaimedKey)
    → All (OtherKey t k) es
    → All (NotAfter r.expires_at) es
    → find_key t k rows ≡ some r
    → find_key t k (happen_all rows es) ≡ some r
unfolding happen_all
happen_all-keeps t k rows [] r n l f = f
happen_all-keeps t k rows (e ∷ es) r n l f =
    happen_all-keeps t k (happen rows e) es r n.1 l.1 (happen-keeps t k rows e r n.0 l.0 f)

module _ (t k principal hash : String) (start : ℕ) (rows : List ClaimedKey)
    (new : find_key t k rows ≡ none) where
  abbrev first : ClaimedKey
  first = fresh_claim t principal k hash start

  begin-first : find_key t k (begin rows t principal k hash start).0 ≡ some first
  unfolding begin find_key claim fresh_claim
  begin-first = rw (new, eq_refl t, eq_refl k) refl

  begin_live :
      (now : ℕ) (p h : String) (table : List ClaimedKey) (r : ClaimedKey)
      → now ≤ r.expires_at
      → find_key t k table ≡ some r
      → begin table t p k h now ≡ held table h r
  unfolding begin begin_with
  begin_live now p h table r l f =
      let live : ltb r.expires_at now ≡ false = ground (arith, l) in rw (f, live) refl

  -- While the first request on a key is being processed, and its claim has not expired, whatever
  -- happens to other keys, no further request on the key is let in, by whomever and with whatever
  -- body.
  pub begin_refused :
      (es : List Elsewhere) (now : ℕ) (p h : String)
      → All (OtherKey t k) es
      → All (NotAfter (start + ttl)) es
      → now ≤ start + ttl
      → is_ok (begin (happen_all (begin rows t principal k hash start).0 es) t p k h now).1 ≡ false
  unfolding held fresh_claim
  begin_refused es now p h o l n =
      let table = happen_all (begin rows t principal k hash start).0 es in
      let kept =
        happen_all-keeps t k (begin rows t principal k hash start).0 es first o l begin-first in
      rw (begin_live now p h table first n kept) (ground arith)

  -- After a claimed key is completed, and until the claim expires, whatever happens to other keys,
  -- a request with the same body is answered with the status and the body that were stored, a body
  -- above the limit as empty, and one with another body is refused as a reuse of the key.
  pub begin_replays :
      (before after : List Elsewhere) (status : ℕ) (body : String) (done now : ℕ) (p : String)
      → All (OtherKey t k) before
      → All (NotAfter (start + ttl)) before
      → All (OtherKey t k) after
      → All (NotAfter (start + ttl)) after
      → now ≤ start + ttl
      → let table =
          happen_all
            (complete
              (happen_all (begin rows t principal k hash start).0 before)
              t
              k
              status
              body
              done)
            after in
        (begin table t p k hash now ≡ (
          table,
          ok (
            record {
              key = k;
              request_hash = hash;
              status = completed;
              http_status = status;
              body = kept_body body;
              completed_at = some done;
            },
            true,
          ),
        ))
        × ((h : String)
            → h ≢ hash
            → begin table t p k h now
              ≡ (table, err (platform conflict "idempotency.key_reuse" "idempotency.Begin")))
  unfolding held fresh_claim completed_row stored_response
  begin_replays before after status body done now p o l o' l' n =
      let opened = (begin rows t principal k hash start).0 in
      let r = completed_row done status body first in
      let finished = complete (happen_all opened before) t k status body done in
      let table = happen_all finished after in
      let kept = happen_all-keeps t k finished after r o' l' (
        find_key-complete t k status body done (happen_all opened before) first
          (happen_all-keeps t k opened before first o l begin-first)) in
      (
        begin_live now p hash table r n kept ∙ rw (eq_refl hash) refl,
        λ h ne. begin_live now p h table r n kept ∙ rw (ne→== hash h (λ e. ne (sym e))) refl,
      )

-- ===== src/Idempotency.antt =====
-- internal/platform/idempotency/idempotency.go: the table of claimed keys as a list of rows, and the
-- operations of the store on it. Each runs in one transaction; the statements do not fail. SHA-256
-- is an argument. The methods and headers of a request enter `admit_request` as values.
pub mod Replay
use Prim.Native.String.{◌++◌, len}
use specforge.Prelude.{
  ℕ, ◌+◌, ◌*◌, String, Bool, true, false, ◌==◌, ◌&&◌, ◌||◌, not, Option, none, some, List, [], ◌∷◌,
  Result, ok, err, ltb, if◌then◌else◌,
}
use specforge.Errors.{Error, platform, conflict, invalid}

pub record ClaimedKey : Type 0 where
  pub tenant_id : String
  pub key : String
  pub request_hash : String
  pub status : String
  pub http_status : Option ℕ
  pub response_body : String
  pub completed_at : Option ℕ
  pub expires_at : ℕ
  pub principal_id : String

-- `Record`
pub record StoredResponse : Type 0 where
  pub key : String
  pub request_hash : String
  pub status : String
  pub http_status : ℕ
  pub body : String
  pub completed_at : Option ℕ

-- 24 hours in nanoseconds.
abbrev pub ttl : ℕ
ttl = 24 * 3600 * 1000000000

abbrev pub in_progress : String
in_progress = "IN_PROGRESS"

abbrev pub completed : String
completed = "COMPLETED"

-- The bytes that are hashed; `nul` is the byte 0.
unfoldable pub hash_request : (String → String) → String → String → String → String → String
hash_request sha256_hex nul method path body =
    sha256_hex (method ++ (nul ++ (path ++ (nul ++ body))))

-- The primary key of a row.
abbrev pub is_key : String → String → ClaimedKey → Bool
is_key t k r = r.tenant_id == t && r.key == k

unfoldable pub find_key : String → String → List ClaimedKey → Option ClaimedKey
find_key t k [] = none
find_key t k (r ∷ rows) = if is_key t k r then some r else find_key t k rows

-- `DELETE ... WHERE tenant_id = $1 AND key = $2`, and what more the row must satisfy.
unfoldable pub delete_where : (ClaimedKey → Bool) → List ClaimedKey → List ClaimedKey
delete_where p [] = []
delete_where p (r ∷ rows) = let rest = delete_where p rows in if p r then rest else r ∷ rest

abbrev or_zero : Option ℕ → ℕ
or_zero none = 0
or_zero (some n) = n

stored_response : ClaimedKey → StoredResponse
stored_response r = record {
  key = r.key;
  request_hash = r.request_hash;
  status = r.status;
  http_status = or_zero r.http_status;
  body = r.response_body;
  completed_at = r.completed_at;
}

abbrev pub nobody : String
nobody = "00000000-0000-4000-8000-000000000000"

pub fresh_claim : String → String → String → String → ℕ → ClaimedKey
fresh_claim t principal k hash now = record {
  tenant_id = t;
  key = k;
  request_hash = hash;
  status = in_progress;
  http_status = none;
  response_body = "";
  completed_at = none;
  expires_at = now + ttl;
  principal_id = if principal == "" then nobody else principal;
}

abbrev pub BeginResult : Type 0
BeginResult = List ClaimedKey × Result Error (StoredResponse × Bool)

-- The insertion of a new claim. The operations follow one another: of two that race for a new key
-- the primary key refuses the second, as a key in progress.
claim : List ClaimedKey → String → String → String → String → ℕ → BeginResult
unfolding fresh_claim stored_response
claim rows t principal k hash now =
    let r = fresh_claim t principal k hash now in (r ∷ rows, ok (stored_response r, false))

-- A key that is held.
held : List ClaimedKey → String → ClaimedKey → BeginResult
unfolding stored_response
held rows hash r =
    if not (r.request_hash == hash)
    then (rows, err (platform conflict "idempotency.key_reuse" "idempotency.Begin"))
    else if r.status == in_progress
    then (rows, err (platform conflict "idempotency.in_progress" "idempotency.Begin"))
    else (rows, ok (stored_response r, true))

begin_with :
    List ClaimedKey → String → String → String → String → ℕ → Option ClaimedKey → BeginResult
unfolding claim held delete_where
begin_with rows t principal k hash now none = claim rows t principal k hash now
begin_with rows t principal k hash now (some r) =
    if ltb r.expires_at now
    then claim (delete_where (is_key t k) rows) t principal k hash now
    else held rows hash r

-- The flag is `replay`.
unfoldable pub begin : List ClaimedKey → String → String → String → String → ℕ → BeginResult
unfolding begin_with find_key
begin rows t principal k hash now = begin_with rows t principal k hash now (find_key t k rows)

abbrev pub body_limit : ℕ
body_limit = 256 * 1024

abbrev pub kept_body : String → String
kept_body body = if ltb body_limit (len body) then "" else body

pub completed_row : ℕ → ℕ → String → ClaimedKey → ClaimedKey
completed_row now status body r = record r {
  status = completed;
  http_status = some status;
  response_body = kept_body body;
  completed_at = some now;
}

unfoldable pub complete : List ClaimedKey → String → String → ℕ → String → ℕ → List ClaimedKey
unfolding completed_row
complete [] t k status body now = []
complete (r ∷ rows) t k status body now =
    (if is_key t k r then completed_row now status body r else r)
    ∷ complete rows t k status body now

unfoldable pub abandon : List ClaimedKey → String → String → List ClaimedKey
unfolding delete_where
abandon rows t k = delete_where (λ r. is_key t k r && r.status == in_progress) rows

-- `GC`
unfoldable pub collect : List ClaimedKey → ℕ → List ClaimedKey
unfolding delete_where
collect rows now = delete_where (λ r. ltb r.expires_at now) rows

-- `Middleware`: the error that answers a request, if one does.
unfoldable pub admit_request : Bool → String → String → Option Error
admit_request required method key =
    if method == "GET" || method == "HEAD" || method == "OPTIONS"
    then none
    else if key == ""
    then (if required
        then some (platform invalid "idempotency.key_required" "idempotency.Middleware")
        else none)
    else if ltb 255 (len key)
    then some (platform invalid "idempotency.key_too_long" "idempotency.Middleware")
    else none

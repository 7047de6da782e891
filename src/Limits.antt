-- ===== src/Limits.antt =====
-- internal/platform/ratelimit/ratelimit.go, over the cache of internal/platform/cache/cache.go. The
-- decimal text of a number is an argument. A response's headers are left out. Times are in
-- nanoseconds, and a limit that is not positive in the source is 0 here.
pub mod Windows
use Prim.Native.String.{◌++◌, [], ◌∷◌}
use specforge.Prelude.{
  ℕ, ◌+◌, ◌-◌, ◌*◌, ◌/◌, String, Bool, true, false, ◌==◌, ◌&&◌, ◌||◌, not, Option, none, some, List,
  Result, ok, err, eqb, ltb, leb, if◌then◌else◌,
}
use specforge.Errors.{Error}

pub record Limit : Type 0 where
  pub requests : ℕ
  pub window : ℕ
  pub burst : ℕ

pub record LimitDecision : Type 0 where
  pub allowed : Bool
  pub limit : ℕ
  pub remaining : ℕ
  pub reset_after : ℕ

-- What `Incr` of the cache does: the new state, and the new value of the counter or an error.
pub record Cache (S : Type 0) : Type 0 where
  pub incr : S → ℕ → String → ℕ → S × Result Error ℕ

-- `strings.ReplaceAll(p, ":", "%3A")`
escape_colons : String → String
escape_colons [] = []
escape_colons (c ∷ s) =
    let rest = escape_colons s in if (c ∷ []) == ":" then "%3A" ++ rest else c ∷ rest

key_parts : List String → String
unfolding escape_colons
key_parts List.[] = ""
key_parts (List.◌∷◌ p ps) = ":" ++ (escape_colons p ++ key_parts ps)

unfoldable pub cache_key : String → List String → String
unfolding key_parts
cache_key tenant_id parts = "sf:" ++ (tenant_id ++ key_parts parts)

abbrev pub effective : Limit → ℕ
effective lim = if ltb lim.requests lim.burst then lim.burst else lim.requests

-- What a request is counted under.
pub record Subject : Type 0 where
  pub tenant_id : String
  pub dimension : String
  pub subject : String

-- The decision on the counter's new value `n`, at the time `later`.
unfoldable pub decide : Limit → ℕ → ℕ → ℕ → LimitDecision
decide lim bucket later n = record {
  allowed = leb n (effective lim);
  limit = effective lim;
  remaining = effective lim - n;
  reset_after = (bucket + 1) * lim.window - later;
}

abbrev pub unlimited : LimitDecision
unlimited = record { allowed = true; limit = 0; remaining = 0; reset_after = 0 }

module _ (decimal : ℕ → String) where
  unfoldable pub bucket_key : Subject → ℕ → String
  unfolding cache_key
  bucket_key s bucket = cache_key s.tenant_id (
      List.◌∷◌ "rl" (List.◌∷◌ s.dimension (List.◌∷◌ s.subject (List.◌∷◌ (decimal bucket) List.[]))))

  module _ {S : Type 0} (cache : Cache S) where
    -- From `l.cache.Incr` on; `New` sets `failOpen`.
    unfoldable pub after_incr : Limit → ℕ → ℕ → S × Result Error ℕ → S × LimitDecision
    unfolding decide
    after_incr lim bucket later (s, ok n) = (s, decide lim bucket later n)
    after_incr lim bucket later (s, err e) = (
      s,
      record { allowed = true; limit = effective lim; remaining = effective lim; reset_after = 0 },
    )

    unfoldable pub allow : S → ℕ → ℕ → Subject → Limit → S × LimitDecision
    unfolding after_incr bucket_key
    allow s now later subject lim =
        if eqb lim.requests 0 || eqb lim.window 0
        then (s, unlimited)
        else (after_incr lim (now / lim.window) later
            (cache.incr s now (bucket_key subject (now / lim.window)) (lim.window * 2)))

    pub record LimitConfig : Type 0 where
      pub per_principal : Limit
      pub per_tenant : Limit

    abbrev rejected : String → S × LimitDecision → S × Option String
    rejected dimension (s, d) = (s, if d.allowed then none else some dimension)

    check_tenant : LimitConfig → ℕ → ℕ → String → S × Option String → S × Option String
    unfolding allow
    check_tenant cfg now later tenant_id (s, some dimension) = (s, some dimension)
    check_tenant cfg now later tenant_id (s, none) =
        if ltb 0 cfg.per_tenant.requests
        then rejected "tenant" (
            allow s now later
              (record { tenant_id = tenant_id; dimension = "tenant"; subject = tenant_id })
              cfg.per_tenant)
        else (s, none)

    check_principal : LimitConfig → ℕ → ℕ → String → String → S → S × Option String
    unfolding allow
    check_principal cfg now later tenant_id principal_id s =
        if not (principal_id == "") && ltb 0 cfg.per_principal.requests
        then rejected "principal" (
            allow s now later
              (record { tenant_id = tenant_id; dimension = "principal"; subject = principal_id })
              cfg.per_principal)
        else (s, none)

    -- `Middleware`: the dimension whose limit rejects the request, if one does; `none` where the
    -- request passes. An unresolved request is not limited.
    unfoldable pub admit : LimitConfig → ℕ → ℕ → Option (String × String) → S → S × Option String
    unfolding check_principal check_tenant
    admit cfg now later none s = (s, none)
    admit cfg now later (some (tenant_id, principal_id)) s =
        check_tenant cfg now later tenant_id
          (check_principal cfg now later tenant_id principal_id s)

-- An entry of the memory cache that holds a counter: the number that its value spells; no expiry is
-- 0.
pub record CacheEntry : Type 0 where
  pub key : String
  pub value : ℕ
  pub expires_at : ℕ

abbrev pub expired : ℕ → CacheEntry → Bool
expired now e = not (eqb e.expires_at 0) && ltb e.expires_at now

abbrev pub first_entry : ℕ → String → ℕ → CacheEntry
first_entry now key ttl = record {
  key = key;
  value = 1;
  expires_at = if ltb 0 ttl then now + ttl else 0;
}

abbrev pub counted_entry : ℕ → String → ℕ → CacheEntry → CacheEntry
counted_entry now key ttl e =
    if expired now e then first_entry now key ttl else record e { value = e.value + 1 }

-- `Incr` of the memory cache, whose mutex makes it one step.
unfoldable pub memory_incr : List CacheEntry → ℕ → String → ℕ → List CacheEntry × ℕ
memory_incr List.[] now key ttl = (List.◌∷◌ (first_entry now key ttl) List.[], 1)
memory_incr (List.◌∷◌ e es) now key ttl =
    let (rest, n) = memory_incr es now key ttl in
    let e' = counted_entry now key ttl e in
    if e.key == key then (List.◌∷◌ e' es, e'.value) else (List.◌∷◌ e rest, n)

abbrev pub memory : Cache (List CacheEntry)
memory = record { incr = λ s now key ttl. let (s', n) = memory_incr s now key ttl in (s', ok n) }

-- ===== src/Limits/Windows.antt =====
-- How many requests one window of internal/platform/ratelimit/ratelimit.go lets through, over the
-- memory cache.
use mathlib.Core.Path.{subst}
use native.Mathlib.Nat.{lt-div-mul-add, div-mul-le_self}
use specforge.Prelude.{
  ℕ, ◌+◌, ◌-◌, ◌*◌, ◌/◌, ◌≤◌, ◌<◌, ◌≡◌, ◌≢◌, refl, sym, ap, ◌∙◌, String, false, ◌==◌, Option, none,
  some, List, [], ◌∷◌, eqb, leb, if◌then◌else◌, arith, Bool-cases, inl, inr, All, ne→==, ==→eq,
  eq_refl, eq→==,
}
use specforge.Limits.{
  Limit, Subject, CacheEntry, memory, memory_incr, first_entry, counted_entry, expired, allow,
  after_incr, decide, bucket_key, effective,
}

unfoldable pub find_entry : String → List CacheEntry → Option CacheEntry
find_entry key [] = none
find_entry key (e ∷ es) = if e.key == key then some e else find_entry key es

-- The entry after a count.
abbrev next_entry : ℕ → String → ℕ → Option CacheEntry → CacheEntry
next_entry now key ttl none = first_entry now key ttl
next_entry now key ttl (some e) = counted_entry now key ttl e

counted-key :
    (now : ℕ) (key : String) (ttl : ℕ) (e : CacheEntry)
    → e.key ≡ key
    → (counted_entry now key ttl e).key ≡ key
counted-key now key ttl e h = ground arith

-- A count is of the entry under its key.
memory_incr-find :
    (es : List CacheEntry) (now : ℕ) (key : String) (ttl : ℕ)
    → (find_entry key (memory_incr es now key ttl).0
        ≡ some (next_entry now key ttl (find_entry key es)))
      × ((memory_incr es now key ttl).1 ≡ (next_entry now key ttl (find_entry key es)).value)
unfolding memory_incr find_entry
memory_incr-find [] now key ttl = (rw (eq_refl key) refl, refl)
memory_incr-find (e ∷ es) now key ttl = elim (Bool-cases (e.key == key)) [
  | inl t ↦
      let k =
        eq→== (counted_entry now key ttl e).key key
          (counted-key now key ttl e (==→eq e.key key t)) in
      (rw (t, k) refl, rw t refl)
  | inr f ↦ let (a, b) = memory_incr-find es now key ttl in (rw (f, f, a) refl, rw (f, b) refl)
]

memory_incr-other :
    (es : List CacheEntry) (now : ℕ) (key : String) (ttl : ℕ) (k : String)
    → key ≢ k
    → find_entry k (memory_incr es now key ttl).0 ≡ find_entry k es
unfolding memory_incr find_entry
memory_incr-other [] now key ttl k n = rw (ne→== key k n) refl
memory_incr-other (e ∷ es) now key ttl k n = elim (Bool-cases (e.key == key)) [
  | inl t ↦
      let same = ==→eq e.key key t in
      rw
        (
          t,
          ne→== (counted_entry now key ttl e).key k
              (λ h. n (sym (counted-key now key ttl e same) ∙ h)),
          ne→== e.key k (λ h. n (sym same ∙ h)),
        )
        refl
  | inr f ↦ rw f (ap (λ o. if e.key == k then some e else o) (memory_incr-other es now key ttl k n))
]

-- One count: of a request in question, or of anything else, under another key.
pub data Count : Type 0 where
  ours : (now later : ℕ) → Count
  others : (now : ℕ) (key : String) (ttl : ℕ) → Count

module _ (decimal : ℕ → String) (subject : Subject) (lim : Limit) (bucket : ℕ) where
  abbrev pub InWindow : Count → Type 0
  InWindow (ours now later) = now / lim.window ≡ bucket
  InWindow (others now key ttl) = key ≢ bucket_key decimal subject bucket

  -- How many of the requests in question are allowed.
  unfoldable pub allowed_of : List Count → List CacheEntry → ℕ
  allowed_of [] es = 0
  allowed_of (ours now later ∷ cs) es =
      let (es', d) = allow decimal memory es now later subject lim in
      (if d.allowed then 1 else 0) + allowed_of cs es'
  allowed_of (others now key ttl ∷ cs) es = allowed_of cs (memory_incr es now key ttl).0

  -- The counter of the window stands at `n`, and lives as long as the window.
  abbrev StandsAt : ℕ → Option CacheEntry → Type 0
  StandsAt n none = n ≡ 0
  StandsAt n (some e) = (e.value ≡ n) × (bucket * lim.window + lim.window ≤ e.expires_at)

  next-StandsAt :
      (n now : ℕ) (key : String) (o : Option CacheEntry)
      → 0 < lim.window
      → now / lim.window ≡ bucket
      → StandsAt n o
      → StandsAt (n + 1) (some (next_entry now key (lim.window * 2) o))
  next-StandsAt n now key none w b h =
      let low : bucket * lim.window ≤ now =
        subst (λ x. x * lim.window ≤ now) b (div-mul-le_self now lim.window) in
      (omega (arith, h), ground (arith, low))
  next-StandsAt n now key (some e) w b h =
      let high : now < bucket * lim.window + lim.window =
        subst (λ x. now < x * lim.window + lim.window) b (lt-div-mul-add w) in
      let live : expired now e ≡ false = ground (arith, high, h.1) in
      rw live (omega (arith, h.0), h.1)

  value-StandsAt :
      (n : ℕ) (o : Option CacheEntry) (e : CacheEntry) → o ≡ some e → StandsAt n o → e.value ≡ n
  value-StandsAt n none e p h = cc
  value-StandsAt n (some d) e p h = cc (h.0, p)

  allow-memory :
      (es : List CacheEntry) (now later : ℕ)
      → 0 < lim.requests
      → 0 < lim.window
      → now / lim.window ≡ bucket
      → allow decimal memory es now later subject lim ≡ (
        (memory_incr es now (bucket_key decimal subject bucket) (lim.window * 2)).0,
        decide lim bucket later
            (memory_incr es now (bucket_key decimal subject bucket) (lim.window * 2)).1,
      )
  unfolding allow
  allow-memory es now later r w b =
      let some_requests : eqb lim.requests 0 ≡ false = ground arith in
      let some_window : eqb lim.window 0 ≡ false = ground arith in
      rw (some_requests, some_window)
        (subst
          (λ x.
            after_incr decimal memory lim (now / lim.window) later
              (memory.incr es now (bucket_key decimal subject (now / lim.window)) (lim.window * 2))
            ≡ (
              (memory_incr es now (bucket_key decimal subject x) (lim.window * 2)).0,
              decide lim x later
                  (memory_incr es now (bucket_key decimal subject x) (lim.window * 2)).1,
            ))
          b refl)

  -- An allowed request leaves room for one less.
  step_bound :
      (n rest : ℕ)
      → rest ≤ effective lim - (n + 1)
      → (if leb (n + 1) (effective lim) then 1 else 0) + rest ≤ effective lim - n
  step_bound n rest h = ground arith

  allowed_of-le :
      (cs : List Count) (es : List CacheEntry) (n : ℕ)
      → 0 < lim.requests
      → 0 < lim.window
      → All InWindow cs
      → StandsAt n (find_entry (bucket_key decimal subject bucket) es)
      → allowed_of cs es ≤ effective lim - n
  unfolding allowed_of decide
  allowed_of-le [] es n r w i h = omega arith
  allowed_of-le (others now key ttl ∷ cs) es n r w i h =
      allowed_of-le cs (memory_incr es now key ttl).0 n r w i.1
        (rw (memory_incr-other es now key ttl (bucket_key decimal subject bucket) i.0) h)
  allowed_of-le (ours now later ∷ cs) es n r w i h =
      let key = bucket_key decimal subject bucket in
      let (found, value) = memory_incr-find es now key (lim.window * 2) in
      let stands = next-StandsAt n now key (find_entry key es) w i.0 h in
      let rest =
        allowed_of-le cs (memory_incr es now key (lim.window * 2)).0 (n + 1) r w i.1
          (rw found stands) in
      let n' : (memory_incr es now key (lim.window * 2)).1 ≡ n + 1 = value ∙ stands.0 in
      rw (allow-memory es now later r w i.0)
        (rw n' (step_bound n (allowed_of cs (memory_incr es now key (lim.window * 2)).0) rest))

  -- Over the in-process memory cache, which never fails and from which nothing is evicted meanwhile:
  -- of however many requests in one window, among counts of anything else, at most the limit or the
  -- burst, whichever is more, are allowed, where the window's counter is new and the limit is in
  -- force.
  pub allowed_of_bound :
      (cs : List Count) (es : List CacheEntry)
      → 0 < lim.requests
      → 0 < lim.window
      → All InWindow cs
      → find_entry (bucket_key decimal subject bucket) es ≡ none
      → allowed_of cs es ≤ effective lim
  allowed_of_bound cs es r w i h = omega (arith, allowed_of-le cs es 0 r w i (rw h refl))

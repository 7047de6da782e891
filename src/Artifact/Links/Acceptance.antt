-- ===== src/Artifact/Links/Acceptance.antt =====
-- When a link of internal/artifactgraph/domain/tracelink.go is accepted.
use mathlib.Core.Path.{subst}
use specforge.Prelude.{
  ℕ, ◌≡◌, ◌⊎◌, refl, sym, String, true, false, ◌==◌, ◌||◌, ◌&&◌, not, some, List, [], ◌∷◌, ok,
  if◌then◌else◌, Bool-cases, inl, inr, ok-injective, fail_if_ok, eqb, ==→eq,
}
use specforge.Types.{
  origin_llm_proposed, link_accepted, link_rejected, requires_disposition, link_type_valid,
  origin_valid,
}
use specforge.Artifact.Version.{ArtifactRef}
use specforge.Artifact.Links.{
  TraceLink, Confidence, default_status_for, new_trace_link, accept, reject, mark_stale, active,
  zero_ref,
}

-- The operations on a link that exists.
pub data Operation : Type 0 where
  accepting : (now : ℕ) (disposition : String) → Operation
  rejecting : (now : ℕ) (rationale : String) → Operation
  staling : (now : ℕ) (reason : String) → Operation

module _ {F : Type 0} where
  -- A caller goes on with the link whether or not the operation failed.
  abbrev pub apply : TraceLink F → Operation → TraceLink F
  apply l (accepting now d) = (accept now l d).0
  apply l (rejecting now why) = (reject now l why).0
  apply l (staling now why) = mark_stale now l why

  abbrev pub apply_all : TraceLink F → List Operation → TraceLink F
  apply_all l [] = l
  apply_all l (o ∷ os) = apply_all (apply l o) os

  abbrev pub IsGoverned : TraceLink F → Type 0
  IsGoverned l =
      (requires_disposition l.origin ≡ true)
      × (active l ≡ true → (d : String) × (l.disposition_id ≡ some d) × ((d == "") ≡ false))

  abbrev accepted_as : ℕ → TraceLink F → String → TraceLink F
  accepted_as now l d = record l {
    status = link_accepted;
    disposition_id = if d == "" then l.disposition_id else some d;
    updated_at = now;
  }

  accept-cases :
      (now : ℕ) (l : TraceLink F) (d : String)
      → ((accept now l d).0 ≡ l)
        ⊎ (((requires_disposition l.origin && d == "") ≡ false)
            × ((accept now l d).0 ≡ accepted_as now l d))
  unfolding accept
  accept-cases now l d = elim (Bool-cases (l.status == link_accepted)) [
    | inl e ↦ inl (rw e refl)
    | inr e ↦ elim (Bool-cases (l.status == link_rejected)) [
      | inl f ↦ inl (rw (e, f) refl)
      | inr f ↦ elim (Bool-cases (requires_disposition l.origin && d == "")) [
        | inl k ↦ inl (rw (e, f, k) refl)
        | inr k ↦ inr (k, rw (e, f, k) refl)
      ]
    ]
  ]

  accepted_as-IsGoverned :
      (now : ℕ) (l : TraceLink F) (d : String)
      → (requires_disposition l.origin && d == "") ≡ false
      → requires_disposition l.origin ≡ true
      → IsGoverned (accepted_as now l d)
  accepted_as-IsGoverned now l d k r = elim (Bool-cases (d == "")) [
    | inl e ↦ cc (rw (r, e) at k)
    | inr e ↦ (r, λ a. (d, rw e refl, e))
  ]

  accept-IsGoverned :
      (now : ℕ) (l : TraceLink F) (d : String) → IsGoverned l → IsGoverned (accept now l d).0
  accept-IsGoverned now l d g = elim (accept-cases now l d) [
    | inl e ↦ subst IsGoverned (sym e) g
    | inr (k, e) ↦ subst IsGoverned (sym e) (accepted_as-IsGoverned now l d k g.0)
  ]

  reject-IsGoverned :
      (now : ℕ) (l : TraceLink F) (why : String) → IsGoverned l → IsGoverned (reject now l why).0
  unfolding reject active
  reject-IsGoverned now l why g = elim (Bool-cases (why == "")) [
    | inl e ↦ rw e g
    | inr e ↦ rw e (g.0, λ a. cc)
  ]

  mark_stale-IsGoverned :
      (now : ℕ) (l : TraceLink F) (why : String) → IsGoverned l → IsGoverned (mark_stale now l why)
  unfolding mark_stale active
  mark_stale-IsGoverned now l why g = (g.0, λ a. cc)

  apply_all-IsGoverned :
      (l : TraceLink F) (os : List Operation) → IsGoverned l → IsGoverned (apply_all l os)
  apply_all-IsGoverned l [] g = g
  apply_all-IsGoverned l (accepting now d ∷ os) g =
      apply_all-IsGoverned (accept now l d).0 os (accept-IsGoverned now l d g)
  apply_all-IsGoverned l (rejecting now why ∷ os) g =
      apply_all-IsGoverned (reject now l why).0 os (reject-IsGoverned now l why g)
  apply_all-IsGoverned l (staling now why ∷ os) g =
      apply_all-IsGoverned (mark_stale now l why) os (mark_stale-IsGoverned now l why g)

module _ {F : Type 0} (float : Confidence F) where
  default_status_for_llm :
      (origin : String) (c : F)
      → requires_disposition origin ≡ true
      → (default_status_for float origin c == link_accepted) ≡ false
  unfolding default_status_for requires_disposition
  default_status_for_llm origin c r = rw (==→eq origin origin_llm_proposed r) refl

  -- A link that a model proposed is only ever accepted with a recorded governance decision: whatever
  -- operations follow its construction, while it is active it carries a disposition that is not
  -- empty.
  pub proposed_needs_disposition :
      (now : ℕ) (tenant_id project_id link_id : String) (from to : ArtifactRef)
      (link_type origin : String) (confidence : F) (by : String) (l : TraceLink F)
      (os : List Operation)
      → new_trace_link float now tenant_id project_id link_id from to link_type origin confidence by
        ≡ ok l
      → requires_disposition origin ≡ true
      → active (apply_all l os) ≡ true
      → (d : String) × ((apply_all l os).disposition_id ≡ some d) × ((d == "") ≡ false)
  unfolding new_trace_link active
  proposed_needs_disposition now t p i from to type origin c by l os h r =
      let (_, h1) = fail_if_ok (not (link_type_valid type)) _ _ l h in
      let (_, h2) = fail_if_ok (not (origin_valid origin)) _ _ l h1 in
      let (_, h3) = fail_if_ok (float.negative c || float.above_one c) _ _ l h2 in
      let (_, h4) = fail_if_ok (zero_ref from || zero_ref to) _ _ l h3 in
      let (_, h5) =
        fail_if_ok (from.artifact_id == to.artifact_id && eqb from.version to.version) _ _ l h4 in
      (apply_all-IsGoverned l os (
        subst IsGoverned (ok-injective _ l h5)
          (r, λ a. cc (a, default_status_for_llm origin c r)))).1

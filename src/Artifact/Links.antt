-- ===== src/Artifact/Links.antt =====
-- internal/artifactgraph/domain/tracelink.go: a trace link, its acceptance, and the severity of an
-- impact along one edge. The comparisons of a float64 are an interface. `now` is what `types.Now()`
-- reads. Impact severities are constructors, for the texts that the program uses of them.
pub mod Acceptance
pub mod Severity
use Prim.Native.String.{◌++◌}
use specforge.Prelude.{
  ℕ, zero, suc, ◌-◌, String, Bool, true, false, ◌==◌, ◌||◌, ◌&&◌, not, Option, none, some, Result,
  ok, err, ◌>>◌, fail_if, eqb, leb, if◌then◌else◌,
}
use specforge.Errors.{Error, platform, invalid, conflict, precondition}
use specforge.Types.{
  link_type_valid, origin_valid, requires_disposition, origin_human, origin_analyzer, link_accepted,
  link_proposed, link_rejected, link_stale, link_satisfies, link_implements, link_derived_from,
  link_verifies, link_represented_by, link_depends_on, link_contains, link_conflicts_with,
  link_evidences, link_governs,
}
use specforge.Artifact.Version.{ArtifactRef, status_approved, status_frozen}

-- What the program asks of a float64: `c < 0`, `c > 1` and `c >= 1`.
pub record Confidence (F : Type 0) : Type 0 where
  pub negative : F → Bool
  pub above_one : F → Bool
  pub at_least_one : F → Bool

pub record TraceLink (F : Type 0) : Type 0 where
  pub tenant_id : String
  pub project_id : String
  pub link_id : String
  pub from : ArtifactRef
  pub to : ArtifactRef
  pub type : String
  pub origin : String
  pub confidence : F
  pub status : String
  pub rationale : String
  pub evidence : String
  pub disposition_id : Option String
  pub created_by : String
  pub created_at : ℕ
  pub updated_at : ℕ
  pub version_no : ℕ

abbrev bad_link : String → Error
bad_link code = platform invalid code "artifact.NewTraceLink"

-- `ArtifactRef.Zero`
abbrev zero_ref : ArtifactRef → Bool
zero_ref r = r.artifact_id == ""

module _ {F : Type 0} (float : Confidence F) where
  unfoldable pub default_status_for : String → F → String
  default_status_for origin confidence =
      if origin == origin_human
      then link_accepted
      else if origin == origin_analyzer
      then (if float.at_least_one confidence then link_accepted else link_proposed)
      else link_proposed

  unfoldable pub new_trace_link :
      ℕ
      → (tenant_id project_id link_id : String) → (from to : ArtifactRef)
      → (link_type origin : String) → F
      → String
      → Result Error (TraceLink F)
  unfolding default_status_for
  new_trace_link now tenant_id project_id link_id from to link_type origin confidence by = do
    fail_if (not (link_type_valid link_type)) (bad_link "link.type_invalid")
    fail_if (not (origin_valid origin)) (bad_link "link.origin_invalid")
    fail_if (float.negative confidence || float.above_one confidence)
        (bad_link "link.confidence_invalid")
    fail_if (zero_ref from || zero_ref to) (bad_link "link.endpoints_required")
    fail_if (from.artifact_id == to.artifact_id && eqb from.version to.version)
        (bad_link "link.self_reference")
    ok (record {
      tenant_id = tenant_id;
      project_id = project_id;
      link_id = link_id;
      from = from;
      to = to;
      type = link_type;
      origin = origin;
      confidence = confidence;
      status = default_status_for origin confidence;
      rationale = "";
      evidence = "";
      disposition_id = none;
      created_by = by;
      created_at = now;
      updated_at = now;
      version_no = 1;
    })

module _ {F : Type 0} where
  -- `Accept`; the link is returned beside the error.
  unfoldable pub accept : ℕ → TraceLink F → String → TraceLink F × Option Error
  accept now l disposition =
      if l.status == link_accepted
      then (l, none)
      else if l.status == link_rejected
      then (l, some (platform conflict "link.rejected" "artifact.AcceptLink"))
      else if requires_disposition l.origin && disposition == ""
      then (l, some (platform precondition "link.disposition_required" "artifact.AcceptLink"))
      else (
        record l {
          status = link_accepted;
          disposition_id = if disposition == "" then l.disposition_id else some disposition;
          updated_at = now;
        },
        none,
      )

  unfoldable pub reject : ℕ → TraceLink F → String → TraceLink F × Option Error
  reject now l rationale =
      if rationale == ""
      then (l, some (platform invalid "link.rationale_required" "artifact.RejectLink"))
      else (record l { status = link_rejected; rationale = rationale; updated_at = now }, none)

  unfoldable pub mark_stale : ℕ → TraceLink F → String → TraceLink F
  mark_stale now l reason = record l { status = link_stale; rationale = reason; updated_at = now }

  unfoldable pub active : TraceLink F → Bool
  active l = l.status == link_accepted

pub data ImpactSeverity : Type 0 where
  impact_info impact_low impact_medium impact_high impact_critical : ImpactSeverity

unfoldable pub raise : ImpactSeverity → ImpactSeverity
raise impact_info = impact_low
raise impact_low = impact_medium
raise impact_medium = impact_high
raise _ = impact_critical

unfoldable pub lower : ImpactSeverity → ImpactSeverity
lower impact_critical = impact_high
lower impact_high = impact_medium
lower impact_medium = impact_low
lower _ = impact_info

unfoldable pub severity_rank : ImpactSeverity → ℕ
severity_rank impact_critical = 5
severity_rank impact_high = 4
severity_rank impact_medium = 3
severity_rank impact_low = 2
severity_rank impact_info = 1

unfoldable pub at_least : ImpactSeverity → ImpactSeverity → Bool
unfolding severity_rank
at_least s threshold = leb (severity_rank threshold) (severity_rank s)

-- The switch over the link's type.
unfoldable pub base_of : String → ImpactSeverity × String
base_of t =
    if t == link_satisfies || t == link_implements
    then (impact_high, "the artifact directly implements or satisfies the changed artifact")
    else if t == link_derived_from
    then (impact_high, "the artifact was derived from the changed artifact")
    else if t == link_verifies
    then (impact_medium, "the artifact verifies behaviour that may have changed")
    else if t == link_represented_by
    then (impact_medium, "the artifact models the same behaviour in another form")
    else if t == link_depends_on || t == link_contains
    then (impact_low, "the artifact depends on or contains the changed artifact")
    else if t == link_conflicts_with
    then (impact_critical, "the artifact is recorded as contradicting the changed artifact")
    else if t == link_evidences || t == link_governs
    then (impact_low, "the artifact governs or evidences the changed artifact")
    else (impact_medium, "the artifact is linked to the change")

abbrev is_critical : ImpactSeverity → Bool
is_critical impact_critical = true
is_critical _ = false

abbrev is_low : ImpactSeverity → Bool
is_low impact_low = true
is_low _ = false

unfoldable pub raise_approved : Bool → ImpactSeverity × String → ImpactSeverity × String
unfolding raise
raise_approved approved (base, reason) =
    if approved && not (is_critical base)
    then (raise base, reason ++ "; the affected artifact is approved")
    else (base, reason)

-- The loop over the distance, of so many rounds.
unfoldable pub decay : Bool → ℕ → ImpactSeverity → ImpactSeverity
unfolding lower
decay approved zero s = s
decay approved (suc n) s =
    let rest = decay approved n (lower s) in if approved && is_low s then s else rest

unfoldable pub is_released_status : String → Bool
is_released_status s = s == status_approved || s == status_frozen

unfoldable pub severity_for_hop : String → String → ℕ → ImpactSeverity × String
unfolding base_of raise_approved decay is_released_status
severity_for_hop link_type target_status distance =
    let approved = is_released_status target_status in
    let (base, reason) = raise_approved approved (base_of link_type) in
    (decay approved (distance - 1) base, reason)

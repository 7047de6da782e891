-- ===== src/Examples/Links.antt =====
-- A link that a model proposed, and the severity of a hop. Confidence is in hundredths.
use specforge.Prelude.{ℕ, ◌-◌, ◌≡◌, refl, String, false, ◌==◌, none, some, List, [], ◌∷◌, ltb, leb}
use specforge.Types
use specforge.Artifact.Links
use specforge.Artifact.Links.{
  Confidence, TraceLink, severity_for_hop, severity_rank, is_released_status,
}
use specforge.Artifact.Links.Acceptance.{
  Operation, accepting, staling, apply_all, proposed_needs_disposition,
}
use specforge.Artifact.Links.Severity.{rank-severity_for_hop, rank_max, floor_of, start_rank}

abbrev hundredths : Confidence ℕ
hundredths = record {
  negative = λ c. false;
  above_one = λ c. ltb 100 c;
  at_least_one = λ c. leb 100 c;
}

abbrev proposed : TraceLink ℕ
proposed = record {
  tenant_id = "t1";
  project_id = "p1";
  link_id = "l1";
  from = record { artifact_id = "SPEC-AUTH-001"; version = 1 };
  to = record { artifact_id = "REQ-AUTH-001"; version = 2 };
  type = "SATISFIES";
  origin = "LLM_PROPOSED";
  confidence = 80;
  status = "PROPOSED";
  rationale = "";
  evidence = "";
  disposition_id = none;
  created_by = "alice";
  created_at = 5000;
  updated_at = 5000;
  version_no = 1;
}

abbrev steps : List Operation
steps = accepting 6000 "" ∷ staling 7000 "superseded" ∷ accepting 8000 "D-1" ∷ []

proposed_needs_disposition_example :
    (d : String) × ((apply_all proposed steps).disposition_id ≡ some d) × ((d == "") ≡ false)
unfolding Links.new_trace_link Links.default_status_for Links.accept Links.mark_stale Links.active
    Types.link_type_valid Types.origin_valid Types.requires_disposition
proposed_needs_disposition_example =
    proposed_needs_disposition hundredths 5000 "t1" "p1" "l1"
      (record { artifact_id = "SPEC-AUTH-001"; version = 1 })
      (record { artifact_id = "REQ-AUTH-001"; version = 2 }) "SATISFIES" "LLM_PROPOSED" 80 "alice"
      proposed steps refl refl refl

rank-severity_for_hop_example :
    severity_rank (severity_for_hop "SATISFIES" "APPROVED" 3).0
    ≡ rank_max
        (floor_of (is_released_status "APPROVED"))
        (start_rank (is_released_status "APPROVED") "SATISFIES" - (3 - 1))
rank-severity_for_hop_example = rank-severity_for_hop "SATISFIES" "APPROVED" 3

-- ===== src/Artifact/Links/Severity.antt =====
-- How severity decays in `SeverityForHop` of internal/artifactgraph/domain/tracelink.go.
use specforge.Prelude.{
  ℕ, zero, suc, ◌+◌, ◌-◌, ◌≤◌, ◌≡◌, refl, ap, ◌∙◌, String, Bool, true, false, ◌&&◌, arith,
  if◌then◌else◌, leb,
}
use specforge.Artifact.Links.{
  ImpactSeverity, impact_info, impact_low, impact_medium, impact_high, impact_critical, raise,
  lower, severity_rank, base_of, raise_approved, decay, is_released_status, severity_for_hop,
}

-- The larger of two ranks.
abbrev pub rank_max : ℕ → ℕ → ℕ
rank_max a b = if leb a b then b else a

-- The least rank that decay leads to.
abbrev pub floor_of : Bool → ℕ
floor_of approved = if approved then 2 else 1

rank-decay :
    (approved : Bool) (n : ℕ) (s : ImpactSeverity)
    → floor_of approved ≤ severity_rank s
    → severity_rank (decay approved n s) ≡ rank_max (floor_of approved) (severity_rank s - n)
unfolding decay lower severity_rank
rank-decay approved zero s h = ground (arith, h)
rank-decay true (suc n) impact_critical h =
    ground (arith, rank-decay true n impact_high (omega arith))
rank-decay true (suc n) impact_high h =
    ground (arith, rank-decay true n impact_medium (omega arith))
rank-decay true (suc n) impact_medium h = ground (arith, rank-decay true n impact_low (omega arith))
rank-decay true (suc n) impact_low h = ground arith
rank-decay true (suc n) impact_info h = absurd (omega (arith, h))
rank-decay false (suc n) impact_critical h =
    ground (arith, rank-decay false n impact_high (omega arith))
rank-decay false (suc n) impact_high h =
    ground (arith, rank-decay false n impact_medium (omega arith))
rank-decay false (suc n) impact_medium h =
    ground (arith, rank-decay false n impact_low (omega arith))
rank-decay false (suc n) impact_low h = ground (arith, rank-decay false n impact_info (omega arith))
rank-decay false (suc n) impact_info h =
    ground (arith, rank-decay false n impact_info (omega arith))

-- The rank that an edge starts with: its type's, one more, up to the highest, where the target is
-- approved.
abbrev pub start_rank : Bool → String → ℕ
start_rank approved t =
    let r = severity_rank (base_of t).0 in if approved && leb r 4 then r + 1 else r

base_of-rank : (t : String) → 2 ≤ severity_rank (base_of t).0
unfolding base_of severity_rank
base_of-rank t = ground arith

rank-raise_approved :
    (approved : Bool) (b : ImpactSeverity × String)
    → severity_rank (raise_approved approved b).0
      ≡ (if approved && leb (severity_rank b.0) 4 then severity_rank b.0 + 1 else severity_rank b.0)
unfolding raise_approved raise severity_rank
rank-raise_approved true (impact_info, r) = refl
rank-raise_approved true (impact_low, r) = refl
rank-raise_approved true (impact_medium, r) = refl
rank-raise_approved true (impact_high, r) = refl
rank-raise_approved true (impact_critical, r) = refl
rank-raise_approved false (s, r) = refl

-- The severity of a hop, as a rank from 1 to 5: the edge's starting rank, less one for each step of
-- the distance after the first, but never below LOW for an approved target nor below INFO for any
-- other.
pub rank-severity_for_hop :
    (link_type target_status : String) (distance : ℕ)
    → severity_rank (severity_for_hop link_type target_status distance).0
      ≡ rank_max
          (floor_of (is_released_status target_status))
          (start_rank (is_released_status target_status) link_type - (distance - 1))
unfolding severity_for_hop
rank-severity_for_hop t status d =
    let a = is_released_status status in
    let e = rank-raise_approved a (base_of t) in
    let l : floor_of a ≤ severity_rank (raise_approved a (base_of t)).0 =
      ground (arith, e, base_of-rank t) in
    rank-decay a (d - 1) (raise_approved a (base_of t)).0 l
    ∙ ap (λ n. rank_max (floor_of a) (n - (d - 1))) e

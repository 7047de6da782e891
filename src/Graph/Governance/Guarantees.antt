-- ===== src/Graph/Governance/Guarantees.antt =====
-- What holds of the versions after any history of requests to internal/artifactgraph/app/service.go.
use specforge.Prelude.{
  ℕ, zero, suc, All-map, ◌≡◌, refl, true, some, List, [], ◌∷◌, Result, ok, err, All, ◌>>=◌, >>=_ok,
}
use specforge.Errors.{Error}
use specforge.Authz.Principal.{Principal, Policy}
use specforge.Artifact.Version.{Version, ApprovalEvidence, is_sealed}
use specforge.Artifact.Operations.{Codec}
use specforge.Graph.Store.{Key, Refusals, find_version}
use specforge.Graph.Store.Keys.{IsKeyed}
use specforge.Graph.Store.Writes.{IsSnapshot, IsSnapshot-refl, IsSnapshot-trans}
use specforge.Graph.Store.Approvals.{IsSingle}
use specforge.Graph.Service.{Env, State, Surroundings}
use specforge.Graph.Commands.{create, update_draft, transition, revise_artifact}
use specforge.Graph.Commands.Refinement.{
  create-Step, update_draft-Step, transition-Step, revise_artifact-Step,
}
use specforge.Graph.Approval.{ApproveInput, approve, prepare, seal, after_prepare}
use specforge.Graph.Approval.Sealed.{seal-Steps}
use specforge.Graph.Lifecycle.{Steps, here, next, SameBody, SameApproval}
use specforge.Graph.Lifecycle.Invariants.{ReleasedWithEvidence}
use specforge.Graph.Lifecycle.History.{
  Steps-trans, Steps-IsKeyed, Steps-IsSingle, Steps-evidence, Steps-Extends, find_version-Extends,
  Steps-IsSnapshot,
}
use specforge.Graph.Governance.{
  Ages, Operation, state_ago, reads_of, creating, editing, moving, approving, revising, elsewhere,
  committed, apply, apply_all,
}

-- One row for each version, at most one approved version of each artifact, and evidence of every
-- release.
pub record IsGoverned (rows : List Version) : Type 0 where
  pub keyed : IsKeyed rows
  pub single : IsSingle rows
  pub evidenced : All ReleasedWithEvidence rows

Steps-IsGoverned :
    {rows rows' : List Version} → Steps rows rows' → IsGoverned rows → IsGoverned rows'
Steps-IsGoverned p g = record {
  keyed = Steps-IsKeyed p g.keyed;
  single = Steps-IsSingle p g.single;
  evidenced = Steps-evidence p g.evidenced;
}

-- The steps of a command, taken only if it succeeds.
committed-Steps :
    {X : Type 0} (s : State X) (r : Result Error (State X × Version))
    → ((s' : State X) (w : Version) → r ≡ ok (s', w) → Steps s.versions s'.versions)
    → Steps s.versions (committed s r).versions
unfolding committed
committed-Steps s (ok (s', w)) f = f s' w refl
committed-Steps s (err e) f = here

-- What every state that a request may see has in common: one row for each version, and rows that the
-- present table has too, as they were or with a higher number.
abbrev pub IsPast : {X : Type 0} → State X → State X → Type 0
IsPast s p = IsKeyed p.versions × IsSnapshot p.versions s.versions

present-IsPast : {X : Type 0} (s : State X) → IsKeyed s.versions → IsPast s s
present-IsPast s k = (k, IsSnapshot-refl s.versions)

state_ago-All :
    {S : Type 0} (P : S → Type 0) (s : S) (past : List S) (n : ℕ)
    → P s
    → All P past
    → P (state_ago s past n)
unfolding state_ago
state_ago-All P s past zero h k = h
state_ago-All P s [] (suc n) h k = h
state_ago-All P s (p ∷ past) (suc n) h k = state_ago-All P p past n k.0 k.1

later-IsPast :
    {X : Type 0} (s s' : State X) (past : List (State X))
    → Steps s.versions s'.versions
    → All (IsPast s) past
    → All (IsPast s') past
later-IsPast s s' past p h =
    All-map (IsPast s) (IsPast s') past
      (λ x k. (
        k.0,
        IsSnapshot-trans x.versions s.versions s'.versions k.1
            (Steps-IsSnapshot s.versions s'.versions p),
      ))
      h

module _ (pol : Policy) (db : Refusals) (lib : Codec) {X O : Type 0} (world : Surroundings X O)
    (s : State X) (past : List (State X)) (g : IsGoverned s.versions)
    (earlier : All (IsPast s) past) where
  seen-IsPast : (n : ℕ) → IsPast s (state_ago s past n)
  seen-IsPast n = state_ago-All (IsPast s) s past n (present-IsPast s g.keyed) earlier

  after_prepare-Steps :
      (env : Env) (a : Ages) (c : ApproveInput) (actor : Principal)
      (p : O × Result Error ApprovalEvidence)
      → Steps s.versions
          (committed s
            (after_prepare pol db lib world env (reads_of s past a) s c actor p).1).versions
  unfolding after_prepare reads_of
  after_prepare-Steps env a c actor (o, r) =
      let seen = reads_of s past a in
      committed-Steps s (r >>= λ evidence. seal db lib world env seen s c actor evidence) λ s' w h.
        let (evidence, _, h1) =
          >>=_ok r (λ evidence. seal db lib world env seen s c actor evidence) (s', w) h in
        seal-Steps db lib world env seen s s' c actor evidence w (seen-IsPast a.versions).1
          (seen-IsPast a.prior).0 (seen-IsPast a.prior).1 h1

  -- Every request, whether it succeeds or fails, and whichever earlier tables its queries saw, writes
  -- to the table of versions by steps of the specification only.
  pub apply-Steps :
      (o : O) (a : Operation X) → Steps s.versions (apply pol db lib world s past o a).0.versions
  unfolding apply approve reads_of
  apply-Steps o (creating env c actor) =
      committed-Steps s (create pol db lib world env s c actor)
        λ s' w h. next here (create-Step pol db lib world env s s' actor w c h)
  apply-Steps o (editing env a k version content expected actor) =
      committed-Steps s
        (update_draft pol db lib world env (reads_of s past a) s k version content expected actor)
        λ s' w h. next here (
          update_draft-Step pol db lib world env (reads_of s past a) s s' actor w
            (seen-IsPast a.versions).1 k version content expected h)
  apply-Steps o (moving env a k version event actor) =
      committed-Steps s
        (transition pol db lib world env (reads_of s past a) s k version event actor)
        λ s' w h. next here (
          transition-Step pol db lib world env (reads_of s past a) s s' actor w
            (seen-IsPast a.versions).1 k version event h)
  apply-Steps o (approving env read a c actor) =
      after_prepare-Steps env a c actor (prepare pol lib world env read c actor o)
  apply-Steps o (revising env a k summary actor) =
      committed-Steps s (revise_artifact pol db lib world env (reads_of s past a) s k summary actor)
        λ s' w h. next here (
          revise_artifact-Step pol db lib world env (reads_of s past a) s s' actor w
            (seen-IsPast a.versions).1 k summary h)
  apply-Steps o (elsewhere x) = here

module _ (pol : Policy) (db : Refusals) (lib : Codec) {X O : Type 0}
    (world : Surroundings X O) where
  apply_all-Steps :
      (s : State X) (past : List (State X)) (o : O) (ops : List (Operation X))
      → IsGoverned s.versions
      → All (IsPast s) past
      → Steps s.versions (apply_all pol db lib world s past o ops).0.versions
  unfolding apply_all
  apply_all-Steps s past o [] g e = here
  apply_all-Steps s past o (a ∷ ops) g e =
      let first = apply-Steps pol db lib world s past g e o a in
      let (s', o') = apply pol db lib world s past o a in
      Steps-trans first (
        apply_all-Steps s' (s ∷ past) o' ops (Steps-IsGoverned first g)
          (later-IsPast s s' (s ∷ past) first (present-IsPast s g.keyed, e)))

  -- Whatever requests a governed table of versions has seen, and whichever tables of this history
  -- their queries saw, it is governed: one row for each version, at most one approved version of each
  -- artifact, and an approver with well-formed evidence of every version that is approved, frozen or
  -- superseded. The single approved version rests on the partial unique index.
  pub apply_all-IsGoverned :
      (s : State X) (o : O) (ops : List (Operation X))
      → IsGoverned s.versions
      → IsGoverned (apply_all pol db lib world s [] o ops).0.versions
  apply_all-IsGoverned s o ops g = Steps-IsGoverned (apply_all-Steps s [] o ops g tt) g

  -- A version that is sealed in a governed table is there after any further requests, sealed, with
  -- the body, the recorded hash and the approval that it had.
  pub sealed_forever :
      (s : State X) (o : O) (ops : List (Operation X)) (k : Key) (n : ℕ) (v : Version)
      → IsGoverned s.versions
      → find_version k n s.versions ≡ some v
      → is_sealed v.status ≡ true
      → (w : Version) × (find_version k n (apply_all pol db lib world s [] o ops).0.versions
          ≡ some w)
        × (is_sealed w.status ≡ true)
        × SameBody v w
        × SameApproval v w
  sealed_forever s o ops k n v g f h =
      let (w, found, (place, author, number, kept)) =
        find_version-Extends k n s.versions (apply_all pol db lib world s [] o ops).0.versions v
          (Steps-Extends (apply_all-Steps s [] o ops g tt)) f in
      let (shut, body, approval) = kept h in (w, found, shut, body, approval)

-- ===== src/Graph/Governance.antt =====
-- The use cases of internal/artifactgraph/app/service.go in any order, by anyone.
pub mod Guarantees
pub mod Segregation
pub mod Revising
use specforge.Prelude.{ℕ, zero, suc, String, List, [], ◌∷◌, Result, ok, err}
use specforge.Errors.{Error}
use specforge.Authz.Principal.{Principal, Policy}
use specforge.Artifact.Version.{Version}
use specforge.Artifact.Operations.{Codec}
use specforge.Graph.Store.{Key, Refusals}
use specforge.Graph.Service.{Env, State, Reads, Surroundings}
use specforge.Graph.Commands.{CreateInput, create, update_draft, transition, revise_artifact}
use specforge.Graph.Approval.{ApproveInput, approve}

-- How many commits ago the tables stood that the queries of a request see: `GetVersion`,
-- `ApprovedVersion`, `Contributors` and `GetArtifact`.
pub record Ages : Type 0 where
  pub versions : ℕ
  pub prior : ℕ
  pub authors : ℕ
  pub artifacts : ℕ

-- One request, with the context that it runs in and what it sees. The checks of an approval may read
-- any rows; between requests, the other modules write their own tables.
pub data Operation (X : Type 0) : Type 0 where
  creating : Env → CreateInput → Principal → Operation X
  editing : Env → Ages → Key → ℕ → String → ℕ → Principal → Operation X
  moving : Env → Ages → Key → ℕ → String → Principal → Operation X
  approving : Env → (read : List Version) → Ages → ApproveInput → Principal → Operation X
  revising : Env → Ages → Key → String → Principal → Operation X
  elsewhere : X → Operation X

-- The state of some commits ago, at most the first that is remembered.
unfoldable pub state_ago {ℓ} : {S : Type ℓ} → S → List S → ℕ → S
state_ago s past zero = s
state_ago s [] (suc n) = s
state_ago s (p ∷ past) (suc n) = state_ago p past n

unfoldable pub reads_of : {X : Type 0} → State X → List (State X) → Ages → Reads
unfolding state_ago
reads_of s past a = record {
  versions = (state_ago s past a.versions).versions;
  prior = (state_ago s past a.prior).versions;
  authors = (state_ago s past a.authors).versions;
  artifacts = (state_ago s past a.artifacts).artifacts;
}

-- A transaction that fails is rolled back.
unfoldable pub committed : {X : Type 0} → State X → Result Error (State X × Version) → State X
committed s (ok (s', v)) = s'
committed s (err e) = s

module _ (pol : Policy) (db : Refusals) (lib : Codec) {X O : Type 0}
    (world : Surroundings X O) where
  -- A request at the state `s`, which comes after the states `past`, the latest first.
  unfoldable pub apply : State X → List (State X) → O → Operation X → State X × O
  unfolding committed reads_of
  apply s past o (creating env c actor) = (committed s (create pol db lib world env s c actor), o)
  apply s past o (editing env a k version content expected actor) = (
    committed s
        (update_draft pol db lib world env (reads_of s past a) s k version content expected actor),
    o,
  )
  apply s past o (moving env a k version event actor) =
      (committed s (transition pol db lib world env (reads_of s past a) s k version event actor), o)
  apply s past o (approving env read a c actor) =
      let (o', r) = approve pol db lib world env read (reads_of s past a) s c actor o in
      (committed s r, o')
  apply s past o (revising env a k summary actor) =
      (committed s (revise_artifact pol db lib world env (reads_of s past a) s k summary actor), o)
  apply s past o (elsewhere x) = (record s { rest = x }, o)

  unfoldable pub apply_all : State X → List (State X) → O → List (Operation X) → State X × O
  unfolding apply
  apply_all s past o [] = (s, o)
  apply_all s past o (a ∷ ops) = let (s', o') = apply s past o a in apply_all s' (s ∷ past) o' ops

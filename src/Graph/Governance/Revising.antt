-- ===== src/Graph/Governance/Revising.antt =====
-- When `Revise` of internal/artifactgraph/app/service.go can succeed.
use specforge.Prelude.{◌+◌, ◌≡◌, ◌≢◌, String, some, ok, >>=_ok, check_ok, arith}
use specforge.Authz.Permissions.{artifact_edit}
use specforge.Authz.Principal.{Principal, Policy}
use specforge.Authz.Evaluator.{require}
use specforge.Artifact.Version.{Version}
use specforge.Artifact.Operations.{Codec, revise}
use specforge.Artifact.Operations.Laws.{revise_ok, revise_same_artifact}
use specforge.Graph.Store.{
  Artifact, Key, Refusals, key_of, find_version, get_version, get_artifact, create_version,
}
use specforge.Graph.Store.Rows.{row_key, find_version-row}
use specforge.Graph.Store.Writes.{get_version_ok, create_version_ok}
use specforge.Graph.Service.{Env, State, Reads, Surroundings}
use specforge.Graph.Commands.{revise_artifact, plain_resource, user_generator}

module _ (pol : Policy) (db : Refusals) (lib : Codec) {X O : Type 0}
    (world : Surroundings X O) where
  -- Where the version after the current one of the artifact, as the revision reads it, exists already,
  -- no revision succeeds, whoever asks and whatever the summary.
  pub revise_artifact-blocked :
      (env : Env) (seen : Reads) (s : State X) (k : Key) (summary : String) (actor : Principal)
      (a : Artifact) (draft : Version) (s' : State X) (w : Version)
      → get_artifact seen.artifacts k ≡ ok a
      → find_version k (a.current_version + 1) s.versions ≡ some draft
      → revise_artifact pol db lib world env seen s k summary actor ≢ ok (s', w)
  unfolding revise_artifact
  revise_artifact-blocked env seen s k summary actor a draft s' w current taken h =
      let (b, read, h1) = >>=_ok (get_artifact seen.artifacts k) _ (s', w) h in
      let same_row : a.current_version ≡ b.current_version = cc (current, read) in
      let (_, h2) =
        check_ok
          (require pol env.now actor artifact_edit
            (plain_resource k k.artifact_id b.created_by b.type))
          _ (s', w) h1 in
      let (latest, read_version, h3) =
        >>=_ok (get_version lib seen.versions k b.current_version) _ (s', w) h2 in
      let (v, made, h4) =
        >>=_ok (revise lib env.now latest summary actor.id user_generator) _ (s', w) h3 in
      let (versions, inserted, h5) = >>=_ok (create_version db s.versions v) _ (s', w) h4 in
      let (free, _) = create_version_ok db s.versions v versions inserted in
      let (found, _, _) =
        get_version_ok lib seen.versions k b.current_version latest read_version in
      let (place, number) =
        row_key k b.current_version latest
          (find_version-row k b.current_version seen.versions latest found) in
      let (t, p, i, _, _) =
        revise_same_artifact lib env.now latest summary actor.id user_generator v made in
      let (next, _, _, _, _, _, _, _) =
        revise_ok lib env.now latest summary actor.id user_generator v made in
      let n : v.version ≡ a.current_version + 1 = omega (arith, next, number, same_row) in
      let key : key_of v ≡ key_of latest = ground (arith, t, p, i) in
      cc (key, place, n, free, taken)

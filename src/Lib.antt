-- ===== src/Lib.antt =====
-- SpecForge: a platform that keeps requirements, specifications and code as governed, versioned
-- artifacts. This library models its domain core, the Go code under internal/.
--
-- Errors (internal/platform/errors/errors.go) is the vocabulary of failure: Errors.antt has the
-- kinds, the search of an error chain (`KindOf`, `CodeOf`) and the mapping to HTTP (`HTTPStatus`,
-- `Retryable`). An error is a value; a Go function that returns `(T, error)` is a `Result`, one
-- that returns `error` an `Option Error`.
--
-- Fsm (internal/platform/fsm/fsm.go) has the transition tables: Fsm.antt models `Build`, `Lookup`,
-- `Can`, `IsTerminal` and `Fire`; Fsm/Validation says what an accepted table knows, Fsm/Firing what
-- a firing does. Every lifecycle of the program is an instance of it.
--
-- Types (internal/platform/types/types.go, with `ValidChainHash` of internal/platform/hash/hash.go)
-- has the taxonomies and the shapes of identifiers, Text the string functions of the Go library as
-- far as ASCII goes.
--
-- Authz (internal/platform/authz) decides access: Authz/Permissions the table of permissions,
-- Authz/Sets the bitset over machine words, Authz/Roles the role matrix and the scope of grants,
-- Authz/Principal the caller, the resource and the policy, Authz/Rules the segregation-of-duties
-- table, Authz/Evaluator `Authorize` and `Require`.
--
-- Artifact (internal/artifactgraph/domain/artifact.go) is the governed record: Artifact/Version the
-- version with its provenance, evidence and `Validate`; Artifact/Lifecycle the table of states;
-- Artifact/Operations hashing, `SetContent`, `NewVersion`, `Revise` and `SealApproval`. The version
-- fires the lifecycle with a permission checker that Authz provides.
--
-- Artifact/Links (internal/artifactgraph/domain/tracelink.go) has the typed edges between versions:
-- `NewTraceLink`, `Accept`, `Reject`, `MarkStale` and `SeverityForHop`; Artifact/Links/Acceptance and
-- Artifact/Links/Severity say when a link is accepted and how severity decays.
--
-- Audit (internal/audit) is the tamper-evident memory: Audit/Record the record, its hash and
-- `Validate`; Audit/Chain `VerifyChain`; Audit/Service `Append`, `Verify` and `VerifyAgainstAnchor`
-- of internal/audit/app/writer.go over the repository port, an interface whose instances may hold
-- anything, also a history that someone rewrote. Audit/Chain/Binding and Audit/Service/Anchored say
-- what the chain and its anchors detect. Audit/Store is the instance of the port in
-- internal/audit/infra/postgres.go, over the tables as lists, where Audit/Store/Heads and
-- Audit/Store/Trails say what the statements do to a tenant's head and rows, and
-- Audit/Store/Guarantees composes writer, repository and verification.
--
-- Outbox (internal/platform/outbox/outbox.go) has the envelope of an event; Outbox/Relay models the
-- relay, `PublishBatch` in the transaction of internal/platform/db/db.go, with a publisher of which
-- Outbox/Relay/Delivery assumes what it promises; Outbox/Relay/Progress says when the table empties.
--
-- Graph (internal/artifactgraph) is the service over the versions. Graph/Store models the tables
-- and the statements of internal/artifactgraph/infra/postgres.go, Graph/Service what the use
-- cases of internal/artifactgraph/app/service.go call (audit, outbox, gates, object stores: one
-- interface) with `fire`, `appendAudit` and `emit`; Graph/Commands has `Create`, `UpdateDraft`,
-- `Transition` and `Revise`, Graph/Approval `Approve`; a use case takes what its queries see
-- apart from what it changes. Graph/Lifecycle is the specification: the steps that a table of
-- versions may take, and what they keep. Graph/Approval/Evidence says what an approval stores and
-- records. Graph/Commands/Refinement and Graph/Approval/Sealed show that the commands take such
-- steps, and Graph/Governance draws the conclusions for requests in any order. The queries of a
-- request each see some committed state of the history, not necessarily the last; its writes are
-- one transition. Of the schema (migrations/0002_artifact_graph.sql) the conclusions rest on the
-- primary key and on the partial unique index of the approved versions; the triggers are among
-- what the oracle of refusals may stand for.
--
-- Limits (internal/platform/ratelimit/ratelimit.go, with `Key` and the memory cache's `Incr` of
-- internal/platform/cache/cache.go) has the rate limiter, Idempotency
-- (internal/platform/idempotency/idempotency.go) the replay of requests, Tenancy
-- (internal/tenancy/domain, with `transitionTenant` of internal/tenancy/app/service.go) the tenants,
-- their settings and lifecycle, and Tenancy/Projects the projects. Limits/Windows,
-- Idempotency/Replay and Tenancy/Guarantees prove about them.
--
-- Conventions. A mutating method returns the changed value beside its error. Times are
-- nanoseconds, the zero time is 0, and the clock is an argument. Numbers that the source keeps in
-- 64 bits are unbounded here, but for the bitset, whose words are two numbers. Maps are lists of
-- their keys or entries in the order of insertion. Canonical JSON and SHA-256 are the fields of an
-- interface. There is no fuel: every loop is structural.
--
-- Not modelled: the other services and repositories, HTTP, authentication,
-- the model providers, configuration and telemetry.
pub mod Prelude
pub mod Text
pub mod Types
pub mod Errors
pub mod Fsm
pub mod Authz
pub mod Artifact
pub mod Audit
pub mod Outbox
pub mod Graph
pub mod Limits
pub mod Idempotency
pub mod Tenancy
pub mod Examples

-- ===== src/Lib.antt =====
-- RunOnMine is a gateway on the owner's machine: an AI client calls tools over MCP, and each call
-- passes a rate limit, a policy, the grants that the owner left and, where the policy asks, the
-- owner's approval, before it runs; what was decided is written to an audit chain.
--
-- The parts, and the files that model them:
-- - Policy: crates/runonmine-core/src/policy.rs, with the connector settings of config.rs that the
--   engine reads. Policy/Model has the data, Policy/Matching the matchers, Policy/Engine the
--   selection (`matching_rule`, `evaluate_context`, `apply_remote_safety_ceiling`).
-- - RateLimit: crates/runonmine-mcp/src/rate_limit.rs (`check_at`).
-- - Audit: crates/runonmine-core/src/audit.rs, audit_mac.rs and storage/audit_store.rs. Audit/Event
--   has the rows, Audit/Mac the authentication codes, Audit/Chain `append_audit_row`,
--   Audit/Verification the full and the incremental verification, Audit/Retention
--   `prune_audit_connection` and `append_audit_connection`.
-- - Approval: crates/runonmine-core/src/approval.rs and the approval operations of storage.rs.
--   Approval/Tables has the rows, Approval/Store one function per operation, under its name without
--   `_connection`.
-- - Authorization: crates/runonmine-mcp/src/mcp/server.rs (`authorize_resolved`, in
--   Authorization/Server), mcp/runtime.rs (Access), authorization.rs (Decision), audit.rs
--   (Recording), approval_flow.rs (Waiting), with the tables of validation.rs and lib.rs.
-- - Session: `SessionPermit` of crates/runonmine-mcp/src/session.rs.
-- - OAuth: the store of crates/runonmine-oauth/src/store.rs and its scope.rs. OAuth/Tables has the
--   rows of model.rs and the schema, OAuth/Scopes the scope set and its text, OAuth/Tokens the
--   exchange of codes (with `verify_pkce` of crypto.rs), OAuth/Rotation `rotate_refresh_token` and
--   `access_grant`, OAuth/Revocation what revokes, deletes and expires, OAuth/Clients the
--   registration, OAuth/Authorizations the claims, OAuth/Consents the consents and the codes.
--   OAuth/Hashing has crypto.rs, and OAuth/Requests, OAuth/Service, OAuth/Consenting and
--   OAuth/Callback the requests of service.rs (`issue_token`, `revoke` and `authenticate_access`;
--   `begin_authorization` and `submit_consent`; `complete_github_callback`).
-- - Supervisor: crates/runonmine-connectors/src/supervisor.rs. Supervisor/Restart has the policy and
--   the decisions, Supervisor/Process `monitor_child` and `terminate_child`, Supervisor/Run the loop.
-- The other files of these folders hold proofs. Prelude is shared, and Examples applies the
-- theorems to concrete inputs.
--
-- State is passed explicitly. A job of the database worker runs alone, so an operation is a function
-- of the tables; a transaction that fails returns them unchanged. Each clock reading, fresh
-- identifier and failure of the database is an argument. A wait for the owner is a list of turns,
-- each with the operations of other callers that ran before each of its jobs; `none` as a reply is a
-- call that still waits when the list ends, and a turn at the deadline ends every wait. The supervisor is
-- a function of the rounds that it goes through and of the events of each, in the order in which
-- its select yields them; it waits where such a list ends. No other function needs a bound on its
-- steps: all are structural recursions.
--
-- The OAuth operations are those of a store that is scoped to a connector, which is their first
-- argument; an unscoped store is refused before it reads a row. The inserts check the primary, unique
-- and foreign keys of the schema, and the deletion of a client cascades. A row keeps its scopes as
-- the set; the set's text reads back as the set.
--
-- Instants are natural numbers, and the order of the RFC 3339 texts in the database is taken as the
-- order of the instants. 64-bit columns keep their bound, `i64_max`. A path is the list of its
-- components, a command the list of its code points.
--
-- Parameters: the hashes, serde_json and chrono as `AuditApi`, whose laws are the round trips of the
-- event's serializer and of the timestamp's text; the accessors of `url::Url` as `UrlApi`; the
-- length of a text in bytes; the fingerprint of a principal; SHA-256 and the URL-safe Base64 as
-- `OAuthApi`; the keyed digest, the origin and the query of a `Url` as `ServiceApi`, without laws.
--
-- Not modelled: the HTTP transport and the tools themselves, the HTTP side of the OAuth server and
-- the validation of its registrations, the connectors' binaries and the supervisor's log readers,
-- the browser, the platform and helper crates, the applications, and the build and release tooling,
-- which mostly drive the operating system or other programs. Of the parts above: the idle session
-- manager, the listing queries, the database's worker thread and migrations, the key file, the
-- derivation of resources from a tool's arguments, and audit records that a spawned task appends
-- without being awaited; of the OAuth server, an unscoped store's listings and the service's
-- metadata.
pub mod Prelude
pub mod Policy
pub mod RateLimit
pub mod Audit
pub mod Approval
pub mod Authorization
pub mod OAuth
pub mod Session
pub mod Supervisor
pub mod Examples

-- ===== src/Lib.antt =====
-- AI Council: several language models propose, review and judge a change to a workspace, a person
-- approves the plan, and a runner executes it. This library models the Go code of the repository.
--
-- Parts and files:
-- - RunState: internal/core/runstate/state.go, the states of a run and the table of its legal
--   transitions.
-- - Storage: internal/storage/sqlite. Tables has the rows; Sql has single statements and
--   transactions; Runs, Approvals and Events are the repositories of the same names.
-- - Schema: internal/council/schema/types.go, the documents that are exchanged.
-- - Approval: internal/approval/snapshot.go, the hash that an approval is given for.
-- - Provider: internal/provider/provider.go and registry.go.
-- - Council: internal/council. Alias is anonymize.go; SafePath, Plan, Workspace, Engine and Review
--   are engine.go; Workflow is workflow.go.
-- - TaskApi: internal/transport/council/routes.go, the handlers of a task. Creation, Start, Execute and
--   Decide have the handlers; Interleavings has sequences of them.
-- - Runner: internal/runner. Idempotency is idempotency/store.go; Service is grpc/service.go, over an
--   interface of a file transaction and of a command executor; Handover joins it to TaskApi. Diff and
--   Files are files/transaction.go, and Rollback joins them to Service. PathGuard is
--   pathguard/guard.go.
-- - TaskService: internal/app/task/service.go, a task over the repositories; Consent has its laws.
-- - Rbac: internal/security/rbac. Password and Base64 are password.go; Tokens is token.go and what
--   service.go does with tokens; Catalog is catalog.go; Accounts and Managed are the rest of service.go;
--   Calls has sequences of calls. Respecting proves once, for any predicate that the statements keep,
--   that every operation keeps it.
-- - HttpAuth: internal/transport/council/auth.go, the checks before a handler; Routes has the routes that
--   http.go, routes.go and rbac_routes.go register.
-- - RbacApi: internal/transport/council/rbac_routes.go; RateLimit is the limit on failed log-ins.
-- Laws stand in child modules, and examples in modules called Examples. Names are those of the Go
-- code in snake case.
--
-- How state and effects are modelled:
-- - The database is a record of tables, each a list of rows. A repository method is a function of the
--   database that returns a result and the new database. A parameter, `Host`, decides which calls
--   fail, and gives random identifiers and the time; so every error path of a method is a branch of
--   its model. What a statement does to the rows is the meaning of its SQL text. Statements of one
--   transaction run with no other writer between them.
-- - A Go slice is an `Option (List A)`, `none` for `nil`, where the program can tell `nil` from an
--   empty slice. A path is handled as its code points, and behind the path guard as its
--   components; what links and files there are is a parameter of the guard.
-- - `Version` of a run and `Sequence` of an audit record wrap at 2 ^ 64. Sequence numbers of events
--   are taken not to reach 2 ^ 63.
-- - The goroutines of a review are traces that a relation interleaves in every order; a deliberation
--   takes a schedule, a function to one result that the relation allows.
-- - A handler of the HTTP API that holds the lock is one step on one task. startTask gives the lock up
--   while the council works, so it is several steps, and the laws about sequences of steps let other
--   handlers, and any change of the database, come between them. The state of a task is a member of
--   RunState.State there, written as text by state_text.
-- - JSON, SHA-256 and the texts of prompts are parameters; providers are parameters that may answer
--   the same request in different ways. Platform-dependent tests of package path/filepath are a
--   parameter, with its value on Unix.
-- Loops are structural recursions, but for the loop of `proposalAlias` and the digits of a decimal
-- number, whose rounds are bounded by one more than the number that is written, which is enough since
-- the number falls.
-- A deliberation with a callback is a tree of reports, and the disk of the runner is a map from paths to
-- files with a parameter that says which system calls fail.
--
-- Not modelled: the handlers of workspaces of the HTTP API, the command executor of the runner,
-- artifacts, HTTP and gRPC plumbing, TLS, log output, the desktop shell and generated code; deadlines
-- of contexts, which show only as errors of a provider or of the database.
pub mod Prelude
pub mod RunState
pub mod Storage
pub mod Schema
pub mod Approval
pub mod Provider
pub mod Council
pub mod TaskApi
pub mod Runner
pub mod TaskService
pub mod Rbac
pub mod HttpAuth
pub mod RbacApi

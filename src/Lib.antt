-- ===== src/Lib.antt =====
-- HOGS, a control plane for game servers: who may do what on which server, what is known of the
-- servers, and what runs on their nodes. The parts that are modelled, by the path of their code:
--
--   Access       access/access.go and EvaluateServerAccess of database/database.go: the capabilities,
--                and the decision over the grants of a server. The policy engine asks it.
--   Engine       engine/engine.go and the query of the constraints in database/database.go. Env is
--                buildEnv with the functions that expressions call, Constraints the rows in scope of a
--                server and their evaluation, Evaluate the audited evaluation of an action. Order,
--                Priority and Audit are proofs.
--   RateLimit    api/ratelimit.go, in front of the HTTP handlers: NewRateLimiter, Middleware, Cleanup.
--   Csrf         auth/csrf.go, in front of the pages: CSRFMiddleware and its cookie.
--   Keys         auth/apikey.go with the table api_keys of database/database.go: the keys of machine
--                clients, in front of the routes that ask for a role. Rows, Passed and Rotation are proofs.
--   Client       auth/client_ip.go: ClientIP and ClientCountry, with the headers of a trusted proxy.
--   Token        internal/capability/capability.go: the signed capabilities that the control plane
--                gives to clients of its agents.
--   StatusCache  query/cache.go: the observed status of each server, filled by queries and by agents.
--                Interleavings is the reports of concurrent writers, which are made after the lock.
--   Schedule     cron/scheduler.go: evaluateCondition, executeJob and finishJob. A rule reads the status
--                cache, asks the engine, and runs an action. Runs iterates firings, Spacing and
--                Stability are what holds of them.
--   Outbox       events/events.go: enqueue, flushStream and renumber of one event stream. Runs is every
--                interleaving of queueing and flushing, Accepted the answers to what it delivers. A
--                flush is one step: no event is queued while its requests are under way.
--   Membership   api/whitelist_reconciler.go: Identity is the users who are wanted on a server, which
--                reads the access decision, Whitelist a run of ReconcileServer over the entries on the
--                game server and the rows of the store, Server its guards before the two. Entries, Ownership, Manual and Completion are
--                what holds after it. File is the agent's side, cmd/hogs-agent/whitelist.go: an operation
--                on a whitelist, by the console (Operation) or in its file (Write).
--   Gateway      cmd/hogs-agent/gateway.go: Codec is the Minecraft packets, Logins the limit on
--                logins that may wake a server, Wake the state of the gateway, Wake.Tasks the relation of its
--                steps with the start tasks that it has running.
--   Node         cmd/hogs-agent: Paths, Resolve and Backup are resolvePath and backupCreate of main.go,
--                Host what the agent asks of systemd, restic, the file system and the clock, with
--                serviceRunningState and executeAction. Files is the changes of files that a client
--                asks for, Update the update by a unit of update.go, Wait the waits for a service and
--                for its game. Restore is the transactional restore of restore.go: Stage up to the
--                swap, Swap the renames and the way back, Run the whole. Steps is the operations that
--                change the world, with their rules of proof; Calm, and Restore's Before, Quiet,
--                Service, Promises, Tree, Places, Stages, Moves, Back and Kept, are proofs.
--   Prelude      Boolean tests on numbers, lists, texts, results and maps, shared by all of them.
--
-- A Go struct is a record and a method that changes it a function to the new record; a method behind
-- a mutex is one step, as far as it holds it. A (value, error) pair is a Result, a map a function
-- from its keys or, where the code loops over it in an order, a list. A text is a String where it is
-- only compared, and the list of its code points or bytes where its parts matter. Numbers are
-- natural numbers, but for the int64 of a capability, whose difference wraps around. Times are
-- seconds or nanoseconds since the epoch, counters do not wrap around, and a subtraction is written
-- as the comparison that the code makes of it. Slices are lists. Letters are folded (EqualFold,
-- ToLower) within ASCII.
--
-- Loops are structural. The loops on fuel are those of the variable-length integers, where the reader
-- has the five rounds that the code gives it and the writer ten, since an int has 63 bits beside its
-- sign, and the two waits of the agent, with 361 and 152 rounds: one more than the pauses that
-- fit in their time.
--
-- Parameters: a game's driver; what a game server answers to the reconciler, and a node to an
-- operation on a whitelist; the host of an agent, as the operations of Host, with the laws of Tree
-- on directories where a proof follows them; the expression library of the engine and the scheduler; HMAC-SHA256,
-- base64url and JSON of the capabilities with the laws that their format relies on; the signature
-- of the CSRF token, the hash of an API key and the parsing of an address; the answers of the
-- server of the event streams; and what the database holds or refuses. Sorting by a query is
-- modelled, the rest of SQL is not; sort.Slice is any function that permutes its list.
--
-- Not modelled: the HTTP handlers and pages around these parts, the SQL store beyond the queries
-- named above, sign-in by OIDC, SCIM, the inventory, the native administrator lists, the
-- notifications, the clients of panels and mod sites, the game query protocols, and the agent
-- apart from its gateway, its whitelists, its paths and backups, its restore and its update. They are I/O around the modelled decisions, or are
-- not reached yet.
pub mod Prelude
pub mod Access
pub mod RateLimit
pub mod StatusCache
pub mod Engine
pub mod Token
pub mod Gateway
pub mod Outbox
pub mod Schedule
pub mod Csrf
pub mod Membership
pub mod Keys
pub mod Client
pub mod Node

-- ===== src/Lib.antt =====
-- Verification library for sap-orders-api, the service that keeps orders with their items and sends
-- the updates of items to SAP through an outbox table.
--
-- The program. HTTP requests pass the authentication and the scope check of their route
-- (cmd/server/main.go, internal/auth), then a handler (internal/handler), which calls a service
-- (internal/service); the services run SQL statements through the repositories
-- (internal/repository), some of them in a transaction. EnqueueSync adds an entry to the outbox;
-- the worker (internal/worker) claims PENDING entries, sends each payload to SAP (internal/sap) and
-- records the outcome in the tables.
--
-- The files.
--   Prelude: native numbers, lists as tables, 64-bit integers, lemmas on membership.
--   Domain: internal/domain. Types has the structs, Errors the sentinels and the chains of wrapped
--     errors, Status the rules of status_rules.go, Dates the days of the calendar, Paging the
--     arithmetic of pagination.go.
--   Store: internal/repository. Monad has the state of the database (Db, the rows of the four
--     tables of migrations/; World, with the clock, the drawn ids and the faults), statements and
--     WithTransaction; Orders, Items, Logs and Outbox have one function for each method of a
--     repository. Triple is a logic of pre- and postconditions under all faults, Total one of runs
--     that succeed, Refusal one of refusals (Present is on statements that cannot go wrong); Reads,
--     Writes and Exact give the triples of the repositories, Listing the pages of List. Pool is
--     NewPool of db.go.
--   Sap: internal/sap. A client is a function from a function name and a payload to a reply;
--     Escaping and Payload are about the text of the payload.
--   Service: internal/service. Orders is order_service.go and Sync is sync_service.go, a function
--     for each method, under its name; a closure that a transaction runs is a function of its own
--     (enqueue_body, reply_body, failure_body, cancel_body). Orders.Created, Added and Edited are on
--     the success of CreateOrder, AddItem and UpdateItem, Orders.Reopened on calls of UpdateOrder that
--     overlap, Sync.Stale on an edit during a sync.
--   Worker: internal/worker/outbox_worker.go, processBatch and Run over the events of its select.
--   Handler: internal/handler. uuid.Parse and the JSON decoder are the fields of a parameter, Codec.
--     Health, Docs and BodyLimit are the handlers and the middleware of these names.
--   Auth: internal/auth. The checks of a token by third-party code are the parameter Verifier, and
--     Verified says what the claims of a request rest on. Security has the headers and the redirect
--     to HTTPS.
--   Server: the routes of cmd/server/main.go with their scopes; Front is its router, the public
--     endpoints and the middlewares, and Refused and Duplicates are about the tables after a refusal.
--   Startup: what main of cmd/server/main.go sets up before it serves, and its exit status.
--   Config: internal/config and buildAuthenticator of cmd/server/main.go.
--   System: requests and workers as a step relation of whole calls, and the states that they reach.
--     Interleaved has the runs of EnqueueSync call by call, Overlap claims that overlap, Delivery a
--     batch of a worker.
--   Tests: runs of the definitions, and each theorem at a concrete input.
--
-- Faults. The n-th statement of a run takes the n-th fault of its world: it runs, it is refused, or
-- it takes effect and its answer is lost. What a constraint of migrations/ forbids is an error. A
-- transaction whose body or commit fails restores the tables, unless only the answer of the commit
-- is lost. A theorem on a triple holds for all faults, clocks and drawn ids.
--
-- Interleaving. A step of System is one whole service call, so that what is said of its steps holds as
-- long as calls do not overlap. UpdateOrder, AddItem, UpdateItem and EnqueueSync run several
-- statements without a transaction, between which the program lets others run: System.Interleaved
-- splits EnqueueSync at its calls of the database, its transaction is one of them, and lets runs of
-- it, other calls and workers take turns; Service.Orders.Reopened splits UpdateOrder before its
-- UPDATE; System.Overlap has two claims that overlap, where the second skips the rows that the first
-- has locked. All other calls are whole, and rows that an unfinished transaction has locked are not
-- modelled.
--
-- Order of rows. Where the keys of an ORDER BY are equal, PostgreSQL leaves the order of the rows
-- open; the sort here keeps that of the table.
--
-- Bounds. No function of the code uses fuel: every loop of the program runs over a list. uuids and
-- times are natural numbers; int and int64 are integers with the wrap-around of 64 bits; a year has
-- four digits, as in time.DateOnly.
--
-- Not modelled: logs, request ids, real addresses and recovery from panics; the times of the worker's
-- timer; signals; contexts that are cancelled other than as a refused statement. The look-up of a path
-- by chi and the answer of the rate limit are parameters of a request, and so are the third-party
-- parts of the pool and the embedded openapi.yaml. internal/repository/interfaces.go lists the names
-- and types of the methods, which are the definitions of Store.
pub mod Prelude
pub mod Domain
pub mod Store
pub mod Sap
pub mod Service
pub mod Worker
pub mod Handler
pub mod Auth
pub mod Server
pub mod Startup
pub mod Config
pub mod System
pub mod Tests

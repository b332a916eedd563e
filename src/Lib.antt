-- ===== src/Lib.antt =====
-- A model of wager-service: a Go service that books the bets, wins, losses, refunds and rollbacks of game
-- providers on players' wallets, with a ledger, idempotent replays and an outbox of events.
--
-- The program has a domain (internal/domain), use cases (internal/application) written against interfaces
-- (internal/ports), and the repositories that implement these on PostgreSQL (internal/infra/postgres). An
-- operation runs in one database transaction: it reads and locks the wallet, moves the money in the domain
-- object, appends a ledger entry, saves the wallet and the transaction, and appends events to the outbox.
--
--   Base          Boolean tests, lists with SQL's verbs, ORDER BY (Base/Sorting), and the integers
--                 (Base/Int)
--   Ids, Errors   UUIDs, instants, the sentinel errors and failure codes (internal/domain/domainerr)
--   Money         internal/domain/money: int64 arithmetic that wraps (Int64), the decimal texts (Decimal),
--                 exactness (Arithmetic), printing against parsing (RoundTrip), what an
--                 accepted text says (Reading), and which texts are accepted (Acceptance)
--   Wallet        internal/domain/wallet, with both movements on every branch (Movements)
--   Wager         internal/domain/wager, with its state machine (Lifecycle)
--   Ledger        internal/domain/ledger, with the balance equation (Equation)
--   Events        internal/domain/events
--   Ports         internal/ports as a record of operations over a state, and the monad of calls
--   Postgres      internal/infra/postgres: tables as lists of rows, one module per repository, `WithinTx`;
--                 the pages of the ledger and their cursors (Pages), and rows read back (RoundTrip)
--   Process       internal/application/process_wager_transaction.go (`Execute` is `execute`), with the
--                 request types, the kinds of operations (Kinds), the checks of a reversal, and the
--                 writes at the end (Outcome)
--   OpenWallet, Reconcile, Resolve   the use cases of open_wallet.go, reconciliation.go and
--                 resolve_pending_references.go in internal/application
--   Transport     internal/infra/transport: from a request to a command, and the amount that its text spells (Range)
--   Queries       internal/application/queries.go
--   Http          internal/infra/http: the submission of an operation, the handlers of wallets (Wallets), of
--                 transactions (Lookups) and of health (Health), and the bodies of their answers
--                 (Responses); which answers go with a change (Money, Refused) and to whom (Provider)
--   Keycloak      internal/infra/keycloak: the middleware, and the cache of keys (Keys); what a request
--                 behind it has shown (Verified), and when keys are fetched (Refresh)
--   Settings      internal/infra/config/config.go
--   Topology, Publisher   internal/infra/rabbitmq: the declaration of exchanges and queues, and an event as
--                 a message
--   Consumer      internal/infra/rabbitmq/consumer.go: what becomes of a delivery, and how often it is
--                 retried (Retries)
--   Relay         internal/infra/rabbitmq/outbox_worker.go: one poll of the outbox, which events it
--                 marks as published (Delivered), and what repeated polls leave (Drained)
--   Backoff       the retry delays of internal/infra/rabbitmq and of the resolver, with closed forms
--   Invariants    triples about calls, and the invariants that the repositories' writes keep
--   Idempotency   what `Execute` records of a command, and what it answers when the command comes again
--   Service       a history of requests on one database, and what holds after it
--   Bank          an abstract bank, which knows only the balances, and the service against it (Refinement)
--   Tests         concrete inputs
--
-- A use case is a function of its ports. State is passed explicitly: a call maps a state to a result or
-- an error and the state that it leaves; `WithinTx` restores the tables on an error. The tables keep the
-- UNIQUE, CHECK and FOREIGN KEY constraints of migrations/*.up.sql. Amounts are integers, and the int64
-- operations wrap them as Go does, as the doubling of the outbox worker's delay does; the two other delays
-- stop doubling far below that range. Instants are nanoseconds, of which a TIMESTAMPTZ column keeps the
-- whole microseconds. The instants that a query compares are given to it uncut, which makes a difference only
-- for a cursor that the service did not make itself. A negative LIMIT is an error of the query. `uuid.NewV7` is any sequence of identifiers, and `CanonicalHash`
-- (SHA-256 over JSON) any function of the payload. Loops are structural; the digits of a number are
-- printed with one unit of fuel more than the number, which is enough.
--
-- Parameters stand for what is not in the repository: the JWT library and its signatures, base64 and JSON,
-- the parsing of UUIDs and times, the HTTP client, the AMQP client and the broker's answers.
--
-- Not modelled: concurrent transactions (each runs alone), failures of the connection to PostgreSQL, the
-- recovery of a panic in the consumer, the endless polling and receiving loops (one turn of each is), the
-- texts of error messages and of the log, and the wiring of the parts at the start of a process.
pub mod Base
pub mod Ids
pub mod Errors
pub mod Money
pub mod Wallet
pub mod Wager
pub mod Ledger
pub mod Events
pub mod Ports
pub mod Postgres
pub mod Process
pub mod OpenWallet
pub mod Reconcile
pub mod Resolve
pub mod Backoff
pub mod Bank
pub mod Queries
pub mod Transport
pub mod Http
pub mod Keycloak
pub mod Consumer
pub mod Relay
pub mod Invariants
pub mod Idempotency
pub mod Service
pub mod Tests
pub mod Topology
pub mod Settings
pub mod Publisher

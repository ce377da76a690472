-- ===== src/Lib.antt =====
-- A double-entry ledger with idempotent transfers and a transactional outbox, over PostgreSQL.
--
-- The program. The HTTP layer decodes a request and calls the service (internal/ledger/service.go),
-- which validates the command and calls the store (internal/storage/postgres/store.go). A transfer
-- is one database transaction: it claims the Idempotency-Key, locks and checks the two accounts,
-- writes the transaction with its two entries, moves the balances, writes the outbox event, stores
-- the rendered response with the claim and commits. A relay (internal/outbox/relay.go) and a replay
-- endpoint publish the events and settle them (internal/storage/postgres/outbox.go).
--
-- The files.
--   Base, Base/…             names of the library, Boolean tests, lists, tables, ℤ and Go's int64
--   Domain/Errors            the error variables of internal/ledger, the chains of fmt.Errorf,
--                            errors.Is (is) and errors.As (as_pg_error)
--   Domain/Money, Account, Transaction, Idempotency
--                            the files of internal/ledger of the same names
--   Outbox/Event             internal/outbox/event.go: Event, Envelope, NewTransactionCreated
--   Outbox/Backoff           the retry policy of internal/outbox/relay.go, with its Bounds
--   Outbox/Publisher         internal/outbox/publisher.go: LogPublisher and RecordingPublisher
--   Storage/Database         the tables of internal/storage/postgres/migrations
--   Storage/Session          a connection, the actions on it, BEGIN, ROLLBACK, the driver's faults
--   Storage/Statements       the SQL statements with the constraints and the deferred trigger
--   Storage/Transfer         Store.Transfer and its helpers; Cases, Prepared, Outcome and Retry below
--                            it follow it through all its branches, Locked and Refusal are about the
--                            accounts that it checks, Success, Room and Complete about what it
--                            posts
--   Storage/Keys             the claimed row of a key
--   Storage/Accounts         CreateAccount, GetAccount, GetTransaction
--   Storage/Invariant        what holds of the committed database between requests
--   Storage/Outbox           GetEvent, Deliveries, DispatchBatch, settleAttempt, ReplayEvent; below it
--                            Settle and Batch are about one attempt and about a batch, Due, Dispatch,
--                            Dispatched, Drained and Oldest about DispatchBatch, Remaining about the
--                            attempts that are left, Replay about ReplayEvent; Through has
--                            DispatchBatch with a publisher that keeps a state, Published is about
--                            its calls of Publish and Logged about LogPublisher
--   Storage/Migrate          internal/storage/postgres/migrate.go, its loader in Load; Sorted is about
--                            the loader, Reference and Upgrade about Up, Again about a second Up,
--                            RoundTrip about Down, Highest about Version
--   Service                  Service.CreateAccount, GetAccount, Transfer, GetTransaction; Cases has what
--                            a request can change, Requests and Retries are about sequences of requests,
--                            ReadBack about GetTransaction
--   Relay                    internal/outbox/relay.go: NewRelay and Run, with its loops in Drain
--   Locks                    the row locks of the transactions that run at once; Ranked is the
--                            order in which they are taken, Progress and Completion are about runs;
--                            Funds has what transfers read and write meanwhile, Overdraft that it is
--                            current
--   System                   requests, batches of relays and replays in any order on one database; Cases
--                            has what they can change, Outbox, Keys, Totals and History what they keep
--   Idempotency              internal/idempotency/idempotency.go: ValidateKey and Fingerprint
--   Http/Problem, Http/Errors
--                            internal/httpapi/problem/problem.go and internal/httpapi/errors.go
--   Http/Wire, Http/Handler  the bodies of requests and responses, and what the handlers share
--                            (internal/httpapi/json.go)
--   Http/Accounts, Http/Transactions, Http/Events
--                            the handlers of the files of internal/httpapi of the same names;
--                            Prepared and Retries below Http/Transactions are about a client that
--                            retries, Creates about a new transaction
--   Http/Router              the routes of internal/httpapi/router.go; Sound is what requests may change
--   Http/Server              Server and requestLogger of the same file; Log is about the lines logged
--   Programs/Config, Programs/Pool
--                            internal/config/config.go; NewPool of internal/storage/postgres/db.go
--   Programs/Api, Programs/Relay, Programs/Migrate
--                            cmd/api/main.go, cmd/relay/main.go and cmd/migrate/main.go; Order is about
--                            the start and the end of the first two, Migrate/Runs about the third
--   Tests, Tests/…           the theorems at concrete inputs
--
-- The model. Code that changes state is an Action: a function of a Session that returns a result and
-- the next session. A session has the committed database and the working copy of the open
-- transaction; COMMIT copies the second to the first after the deferred checks, ROLLBACK the first
-- to the second. Env holds what the program does not decide: the ids that uuid.New returns, now()
-- in milliseconds, which calls of the driver fail, whether COMMIT is refused or its answer is lost,
-- json.Marshal, what jsonb keeps of a text, which texts json and jsonb take, and which texts have
-- room in the entry of an index. A theorem about every Env is a theorem about every failure of the
-- driver at any call. A table is a list of rows, the newest first; every read states its order.
-- Balances are integers, with the range of bigint checked where PostgreSQL checks it; the sums of
-- Go wrap at 64 bits.
--
-- The libraries that the HTTP layer calls are the fields of one record. A migration acts on a schema
-- by a function of its body, which is a parameter.
--
-- The loops are over lists, but for the loop of a relay's tick, which runs while batches come back
-- full: it takes fuel, and the fuel that suffices is one more than the attempts that the events of the
-- outbox have left, since a full batch uses up at least one (Relay/Drain).
--
-- Concurrency is modelled apart. In Locks a transfer is the list of the locks that it takes (its key,
-- the rows of its accounts in the order of lockAccounts, its external reference), and a step of one of
-- the processes takes a lock that no other holds or ends a transaction, which releases its locks; a
-- relay takes only rows that no other holds, since it skips the locked ones. An id has 128 bits.
--
-- In Locks/Funds a transfer also has the rows that it has read: each is read when it is locked, and the
-- update acts on the table as it is at the COMMIT.
--
-- A program of cmd is a sequence of effects (Programs/Pool) with its result.
--
-- Not modelled. In all modules but Locks transactions run one after another: the row locks and the
-- index on the key serialise those that meet, and the advisory lock does so for migrations. The
-- padding of char(3) is not modelled, since a command is validated first, and neither is the refusal
-- of a claim's key or endpoint, since ValidateKey has accepted the key and the endpoint is a constant.
-- The refusal of U+0000 in the error text of a failed publish is a fault of the driver. A query of several rows
-- fails as a whole or not at all. What is logged has no counterpart but for the log of requests and
-- that of LogPublisher; a deadline or a cancellation is a fault of the driver. The matching of routes
-- and the middleware but for requestLogger are chi's. Signals, what pgx and net/http return, and the
-- texts that cmd/migrate prints are parameters or left out. The test database
-- (internal/platform/pgtest) only serves the tests.
pub mod Base
pub mod Domain
pub mod Locks
pub mod Outbox
pub mod Storage
pub mod Service
pub mod Relay
pub mod System
pub mod Idempotency
pub mod Http
pub mod Programs
pub mod Tests

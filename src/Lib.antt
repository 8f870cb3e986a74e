-- ===== src/Lib.antt =====
-- InfluxDesk is a desktop client of InfluxDB 1.x written in Go. Its core admits work to a
-- connection, runs exports and imports in small steps that survive a restart, and keeps writes
-- behind a lock. This library models that core.
--
-- The parts. `internal/scheduler` gives each connection generation two budgets of concurrent
-- reads. `internal/exportlane` keeps the export jobs of a generation in a ready queue and runs
-- them one quantum at a time, each behind a slot of the transfer budget. `internal/protection`
-- holds the lock of a generation: a mutation is dispatched under the generation's gate with a
-- binding that a short lease has authorized, and `Unlock` and `Lock` are commands with a ledger
-- that answers repetitions. `internal/transfer/quota.go` limits retained jobs and reserved bytes,
-- and `internal/transfer/grant.go` hands out the single-use grants with which an import run
-- starts, and `permit.go` keeps the permit of each running import. `internal/tasks` keeps a row
-- and a revision for every query, operation and export, and the feed of events from which the user
-- interface follows them. `internal/query/result_store.go` retains the rows of a query in memory
-- and then in an encrypted spill file. `internal/exportfmt` writes points as line protocol, which
-- the staging of an import reads. `internal/influxql` decides which statements only read and which
-- one may mutate; `internal/operation` previews a mutation behind that policy and a lease,
-- executes it once for its token, dispatches it behind the gate of `internal/protection`, and
-- cancels it. Generations, revisions and event numbers are exact decimal texts
-- (`internal/tasks/types.go`).
--
-- Which file models which part:
--   ReadLanes    internal/scheduler/read_lanes.go: `Acquire`, `Release` and the two ways in which a
--                parked caller resumes.
--   ExportLane   internal/exportlane/scheduler.go: the data; `Request` has the checks of `Submit`,
--                `Record` the change that each method makes to one job, `Scheduler` the methods.
--   Protection   internal/protection/types.go and manager.go: the tables and the states; `Gate` has
--                `Register`, `Get` and the expiry of a lease, `Dispatch` the grants and dispatches,
--                `Commands` `Unlock` and `Lock`, `Commands/Ledger` the ledger, `Lifecycle`
--                `CloseGeneration` and `Recover`.
--   Quota        internal/transfer/quota.go.
--   Permit       internal/transfer/permit.go.
--   RunGrant     internal/transfer/grant.go.
--   Decimal      internal/tasks/types.go, with the helpers of internal/transfer/types.go and
--                internal/transfer/too_large.go; `Decimal/Order` has the order of the change feed
--                of internal/tasks/repository.go.
--   Rows         internal/query/scalar.go and result_store.go: the scalars; `Codec` has the encoding
--                of a row, `Store` the state of the result store, `Append` its appends and its
--                spill file, `Read` its reads.
--   Lp           internal/exportfmt/encode.go and internal/transfer/staging_lp.go: the measurement and
--                the tags of a line protocol point and its string values, written by the exporter and
--                read by the importer.
--   Tasks        internal/tasks/types.go, ledger.go and repository.go: the tables; `Ledger` has both
--                ledgers, `Repository` the creation of a task and of an event, `Apply` the changes of
--                a task, `Changes` the feed, `Recover` the recovery after a restart.
--   Policy       internal/influxql/classifier.go: the syntax tree as far as the policy reads it, with a text
--                that stands for all the rest of a statement, and the
--                classification of a statement and of a batch.
--   Operations   internal/operation/types.go, service.go and cancel.go: the rows and the state of the
--                service; `Transactions` has the dispatch's transactions, `Cancel` that of a
--                cancellation, `Preview`, `Execute`, `Dispatch` and `Control` the calls and the
--                goroutine, `Service` the maps and a restart. `History` is any interleaving of them.
--   Base         what these share: results, tests, lists, string maps, tables of rows.
--
-- State and operations. A struct is a record, its methods are functions that take it and return
-- it; a method body runs under the struct's mutex or gate, so calls interleave whole and a
-- sequence of calls is a list. What a goroutine does after it has been parked is an operation of
-- its own, as are the calls that a worker makes between two methods. `(T, error)` is `Result`. A
-- table of the store is a list of rows; a transaction that fails leaves it as it was. The clock,
-- the random source and the outcome of a transaction are read from an argument.
--
-- Bounds and fuel. The loops are structural recursion on a list or on the digits. `Issue` reads at
-- most four answers of the random source. Printing a number takes the number itself as fuel, which
-- bounds its divisions by ten. A preview tries four tokens. The loop of `WithGrantBinding`
-- recurses on the list of what its turns read. Numbers that the program keeps as `big.Int` are
-- unbounded, and the tests of the quota wrap at 64 bits. The counters of the result store wrap at
-- 64 bits and its frame lengths at 32, where its theorems ask for limits that keep clear of that.
--
-- Outside the model: the InfluxQL parser and printer, the decoder of a mutation's response and the
-- answers of the transport and of the gate are arguments of the operations. Of the result store,
-- `strconv.ParseFloat`, the JSON decoder and the AEAD are parameters, and the answers of the
-- random source and of the file system are arguments of each append; the spill file is its bytes,
-- its directory and its mode are left out. Of line protocol, fields but the string values and
-- timestamps are not modelled and `utf8.ValidString` is a parameter. `uuid.Parse` and SHA-256 are
-- parameters of `Unlock`, `Lock`, `Issue` and the calls of the mutation service; the wake-up
-- channels, contexts and timers of the goroutines appear only as the calls that follow them; the
-- wait of `Unlock` and `Lock` for the gate of a generation is not modelled, each runs as if the
-- gate were free; `PurgeClosed` of the protection manager and `WithGenerationGate`, whose answer
-- is an argument of `Cancel`, and the JSON, HTTP, keychain and user interface layers, are not
-- modelled.
pub mod Base
pub mod Decimal
pub mod ExportLane
pub mod Lp
pub mod Operations
pub mod Permit
pub mod Policy
pub mod Protection
pub mod Quota
pub mod ReadLanes
pub mod Rows
pub mod RunGrant
pub mod Tasks

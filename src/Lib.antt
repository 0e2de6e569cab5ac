-- ===== src/Lib.antt =====
-- Verification of gotasks, a persistent task queue for Go.
--
-- The program. A manager (manager.go) is configured by options (options.go), enqueues tasks into a
-- store (store.go) and runs a pool of workers (worker.go) that claim tasks under leases, run a
-- handler, and record the outcome: done, to be retried after a delay (backoff.go), or dead. In
-- pipeline mode one fetcher (fetcher.go) claims batches for the workers, and a flusher writes their
-- outcomes in batches. A store hands out a fresh lease token with every claim, and accepts an
-- outcome only under the token of the task's last claim; stores/memstore/memstore.go is the store
-- that keeps its tasks in memory, stores/mongostore the one that keeps them in MongoDB.
--
-- Where each part is modelled:
--   Task, Store      task.go and store.go: the data, the errors, the interface Store as a record of
--                    operations over an abstract state. A method that reads the clock takes the
--                    time as an argument.
--   Policies         the Go maps from names to queue policies.
--   MemStore         stores/memstore/memstore.go. MemStore.State has the struct and the reads and
--                    writes of its map; Enqueue, Claim, Finalize, Revive, Registry and Metrics have
--                    one function for each method, from the store before to the store after and the
--                    method's results. Each runs under the store's mutex, so a concurrent history is
--                    a sequence of them: MemStore.Calls has that sequence, MemStore.Invariant what
--                    it preserves, MemStore.Api the implementation of the interface.
--   Life             the life of a task as a state machine, which both stores implement:
--                    MemStore.Life and Mongo.Life map their tasks and documents to its states.
--   Mongo            stores/mongostore: the documents and their conversions (Mongo.Docs), the
--                    language of the filters and updates (Mongo.Query) and those that are sent
--                    (Mongo.Writes), the methods of mongostore.go and the writing ones of
--                    introspection.go (Mongo.Claim, Mongo.Finalize, Mongo.Enqueue), registry.go
--                    (Mongo.Registry), watch.go (Mongo.Watch), the opening of the store (Mongo.Config),
--                    ListTasks, GetTask and sortMetricPoints (Mongo.Listing), Overview and
--                    QueueDetail (Mongo.Overview), and metrics.go with MetricsSeries
--                    (Mongo.Metrics). Mongo.Driver has the commands of the tasks collection as a
--                    record, and what is documented of them as another.
--   Dashboard        dashboard/dashboard.go: the handlers of the API on mongostore.
--   Backoff          backoff.go, on 64-bit durations that wrap.
--   Options          options.go: Config and the options that set it.
--   Manager          manager.go: New (Manager.New), the counters and the state (Manager.State),
--                    Enqueue and EnqueueMany over any backend (Manager.Enqueue), the guards of
--                    RegisterHandler, and Start up to what it spawns (Manager.Lifecycle); the typed
--                    handler with its middleware and its result (Manager.Handlers); and the
--                    goroutines of pipeline mode, turn by turn, from Start to the end of Stop
--                    (Manager.Shutdown). Manager.Waking has the broadcaster, and what Stop and
--                    Close answer.
--   Worker           worker.go: process, invoke, the outcome of a run, the gate to the finalize
--                    buffer, the buffer and its flusher (Worker.Buffer), and the rounds of
--                    workerLoop and of the heartbeat (Worker.Loop).
--   Fetcher          fetcher.go: an iteration of fetcherLoop, and startOfWork (Fetcher.Start).
--   Janitor          worker.go: janitorLoop in rounds, and flushMetrics.
--   Fleet            what any number of managers do to one memstore, as a list of acts: Worker and
--                    MemStore put together, with workers that crash, are late or replay outcomes.
--   Prelude          native numbers and their tests, integers and 64-bit wrap-around, texts, lists.
--   Tests            runs of the models on small inputs.
--
-- Bounds. Go's int64 and durations are integers, with the wrap-around written where the code can
-- reach it (the products and sums of backoff.go and the flush margin); elsewhere sums of times are
-- exact. The loops of the source are recursions on the lists or counts that they run over, but for
-- the chunks of Mongo.Enqueue: its fuel is the number of documents, and each round sends at least one.
-- A reader of Overview's pages has fuel for one page more than there are queues, which is enough.
--
-- Parameters. The random source of the backoff and of the manager's id, the answer of json.Marshal,
-- the handler's run and every reading of the clock are arguments. So are the object ids that
-- mongostore draws, the conversions of the package bson, and the commands on a collection: one may
-- lose its reply, and then has been carried out for some of its documents or not at all. What other
-- clients do between two commands of one method is part of the model of that method.
--
-- Not modelled: of mongostore, the indexes (the expiry of documents with them) and the reopening of
-- the change stream; the routes of the dashboard; the examples and the chaos worker; hooks and
-- logging; and the end of the workers of single mode, which claim nothing once Stop is called.
pub mod Prelude
pub mod Task
pub mod Policies
pub mod Store
pub mod MemStore
pub mod Backoff
pub mod Options
pub mod Manager
pub mod Worker
pub mod Fetcher
pub mod Tests
pub mod Janitor
pub mod Life
pub mod Mongo
pub mod Dashboard
pub mod Fleet

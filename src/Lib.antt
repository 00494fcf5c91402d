-- ===== src/Lib.antt =====
-- framingo, a Go framework for service-oriented HTTP applications: its core logic as a model.
--
-- The program. A manager (pkg/services/supervisor) registers services with their dependencies, sorts
-- them with a graph (pkg/structs/graph), initializes and starts them in that order, stops them in
-- the reverse order, and lets a monitor check and restart them. The graph's sort uses a stack-queue
-- (pkg/structs/staque). Among the services are the API server (pkg/services/api/server), which takes
-- routers, registers their handlers with echo instances and passes each request through its
-- middlewares, the publish and subscribe service (pkg/services/pubsub) and the message bus
-- (pkg/services/messagebus), which subscribes the modules that handle messages. They are built
-- from data structures and utilities that stand each by itself: buffers and their pool
-- (pkg/structs/buffer), a double-buffer queue (pkg/structs/queue), a priority queue
-- (pkg/structs/staque), a lease with its own loop (pkg/structs/lease), a job that runs a function in a
-- goroutine (pkg/utils/job), the executor that starts jobs, the manager of tasks (pkg/utils/task),
-- functions on slices and maps (pkg/utils/sliceutil, pkg/utils/maputil) and one that merges the
-- arguments of commands (pkg/utils/cmdutil).
--
-- The files, each with its children in a directory of the same name:
-- - Prelude: what the others share. Prelude.Sets is `Set` of pkg/utils/maputil/set.go; Prelude.Int
--   has the integers, Prelude.Outcomes what a Go call comes to, Prelude.Dicts maps as lists of
--   entries, Prelude.Text and Prelude.Paths the functions of Go's strings and path packages.
-- - Staque.Simple: pkg/structs/staque/simple.go, one function for each method. Staque.Priority:
--   pkg/structs/staque/priority.go; Staque.Priority.Consistent has the laws of the tree,
--   Staque.Priority.Sides the agreement of the two sides, and Staque.Priority.Kept sequences of calls.
-- - Graph: pkg/structs/graph/graph.go: `Add` is add_with, `add` is add_node, `dfs` and `TopoSort` are
--   dfs and topo_sort. Graph.Reach has paths and cycles.
-- - Supervisor: pkg/services/supervisor/controller.go and pkg/types/entity/supervisor.go: the record
--   Controller, and register, addDependency, topoSort, find, init, start, stop and restart.
--   Supervisor.Batches has Register, initAll, startAll and stopAll; Supervisor.Lifecycle the methods
--   of the manager in business.go and lifecycle.go; Supervisor.Monitor monitor.go.
-- - Server: the state of pkg/services/api/server (manager.go, server.go) with pkg/types/api/model.go.
--   Server.Matching is matchHandler of util.go, Server.Routing registerRouter and what it calls,
--   Server.Routing.Calls the calls of the manager and Init, Server.Routing.Served what it is that a
--   handler has its route, Server.Errors pkg/types/api/error.go, and
--   Server.Pipeline the middlewares of middlewares.go and the error handler of error.go; its child
--   Limits is about Throttle, Replies about what is sent.
-- - Messagebus: pkg/services/messagebus: Register, Start and Stop, and the dispatch of a message.
-- - Buffer.Pool: pkg/structs/buffer/pool.go, with the account of its calls in Buffer.Pool.Ledger.
--   Buffer.Pooled: pkg/structs/buffer/pooled.go.
-- - Queue: pkg/structs/queue/buffered.go, its methods and its loop.
-- - Pubsub: the subscriber of pkg/services/pubsub/driver/util.go, with its pump; Pubsub.Topics is
--   topicMatches and the map of local subscribers of redis.go. Pubsub.Memory is memory.go with the
--   dispatcher of util.go; Pubsub.Parents has the parents of a topic.
-- - Lease: pkg/structs/lease/lease.go, its methods and its loop.
-- - Job: pkg/utils/job/job.go, model.go and util.go; Job.Quiet and Job.Whole have the histories
--   without a Cancel. Executor: pkg/utils/job/executor.
-- - Task: pkg/utils/task/manager.go, the loops of Start and the workers as events.
-- - Arguments: MergeArgs of pkg/utils/cmdutil/args.go.
-- - Collections: pkg/utils/sliceutil/slice.go and pkg/utils/maputil/map.go.
-- - Tests: the theorems at concrete inputs, and runs of the definitions.
--
-- How it is modelled. A struct is a record, a method a function from the record to the record. Where
-- goroutines share one, each section under its lock, each receive and each access outside the lock
-- is an event of a step function, and a theorem about a history is one about a list of events in any
-- order. A panic is a result of its own. The reply of code that is given from outside, the methods
-- of a service, the functions on errors and the loop of retries, is a parameter (Supervisor.Env,
-- Executor.RetryDo); so are the reader of a router's YAML, the limiters of requests, the functions
-- on errors that Recover calls, the bus's reply to a subscription, the B-tree of the priority queue
-- and the trie of the memory driver. What is relied on is a record of laws (Supervisor.CombineLaws,
-- Staque.Priority.Consistent.TreeLaws). A map is a list of entries in the order in which a loop
-- goes through it, with the equality of its keys as an interface.
--
-- Bounds and fuel. The depth of a search in the graph is bounded by the number of its nodes, and the
-- drain of its stack by the stack's size; that of a health check by the length of the list of sorted
-- services. Each is proved to be enough. Lengths, capacities and counts are unbounded numbers.
--
-- Not modelled: logging, clocks other than as instants given with the events, the formatting of
-- statistics and errors; the server's TLS, listeners, WebSockets and the client; databases, the
-- drivers' exchange with Redis and Kafka, the planner and cron, certificates, networks and the
-- example application, which for the most part are calls of other libraries. The trie of
-- pkg/structs/trie is a copy of another project's.
pub mod Prelude
pub mod Staque
pub mod Graph
mod Tests
pub mod Buffer
pub mod Queue
pub mod Job
pub mod Pubsub
pub mod Lease
pub mod Executor
pub mod Server
pub mod Task
pub mod Messagebus
pub mod Collections
pub mod Arguments
pub mod Supervisor

-- ===== src/Lib.antt =====
-- KubeTask schedules containers on Kubernetes: a Task makes Jobs once, after a delay or by a cron
-- expression, and a Workflow makes Tasks along a graph of dependencies. An HTTP API manages both, and
-- failed Jobs are notified. This library models the two controllers, the graph, the notifications,
-- the handlers of the API with the checks in front of them, and the checks of the configuration.
--
-- The parts, and where they come from:
--
-- - Api: the types of api/v1/task_types.go and api/v1/workflow_types.go.
-- - Dag: internal/workflow/dag.go and internal/naming/naming.go. Validate has the two validation
--   loops of Build (add_tasks, add_deps), Kahn computeOrder (compute_order), Levels computeLevels
--   (compute_levels), Build the whole of Build (build) and ValidateChildTaskNames, Accessors the
--   graph and its accessors. Kahn/*, Levels/* and Build/* hold the proofs: Build/Spec says on the
--   spec alone what a valid workflow is, Build/Correct relates build to it.
-- - Tenant: internal/tenant. The tenant of a request's context is a field of the request in Http.
-- - WorkflowController: internal/controller/workflow_controller.go. Nodes has decideNode and the
--   functions on one node's status, Status initializeStatus and summarize, Children the child tasks,
--   Advance the two passes of advanceNodes, Reconcile the handlers. Advance/Rule is a proof rule for
--   the passes, which Advance/Limit, Advance/Moves and Advance/Starts apply; Advance/Accepted is
--   about the call in Reconcile.
-- - TaskController: internal/controller/task_controller.go. Jobs has the making and the reading of
--   Jobs, Sync syncJobStatus, Finished taskExecutionFinished, Handlers the handlers and Reconcile
--   the choice among them.
-- - Notification: internal/notification. Event makes the event of a failed Job (event.go), Queue has
--   what the dispatcher does under its mutex and Workers the steps of its two workers and of what
--   happens between them (dispatcher.go), Transport what the senders make of the answers of HTTP and
--   SMTP (webhook.go, smtp.go), Delivery the attempts for one event (deliver). The controllers do not
--   call it: it watches the Jobs that they make.
-- - Auth: internal/auth. What Kubernetes answers to a review is data, and the state is the cluster.
-- - Http: internal/api. Tenancy, Pages, Statistics, TaskHandler, WorkflowHandler and LogHandler are
--   the handlers, which call Dag for a workflow that is created or shown; Bearer, Middleware and
--   Audit are internal/api/middleware, which calls Auth and Tenant; Router has the routes of router.go with
--   their handlers behind the chain of cmd/main.go (guarded). Router/Guard has a calculus of checks
--   in front of a handler, Bearer/Header is about the header of a token, LogHandler/Access about
--   the opening of a log; Isolation and OwnWrites are about what tenants see and write.
-- - Config: the checks of internal/config/config.go on what viper has read.
-- - Kube: what the controllers ask of Kubernetes. Client is a record of operations on a state of
--   any type: the cluster, with all that changes it between two calls. A handler is a function from
--   a state to a reply and a state; an error ends it, as `return err` does.
-- - Base: the shared names, tests, lists, texts and integers.
-- - Examples: runs at concrete inputs.
--
-- How the code is read:
--
-- - A Go map is an association list in the order of its insertions, or a function where a missing
--   key reads as the zero value. The code sorts what it collects from a map, or does not depend on
--   the order of the iteration. Where handleDeletion deletes the children in the order of a map, the
--   model has one order, that of the list that the API server gave.
-- - The clock is an operation of the client, or an argument of a function without a client. A time
--   is a number of nanoseconds since 1970, and is not cut off at 64 bits. Counters of type int32 wrap
--   around.
-- - The verb %q of package fmt is the parameter `quote`. Parsing of cron expressions (robfig/cron)
--   and of times are the parameters `parse_cron` and `parse_time`.
-- - maxParallel is a natural number, since the CRD's validation keeps it from being negative.
-- - An update returns the object as the server has it, as controller-runtime writes it back.
-- - The loop of computeOrder runs on fuel: one round for each node and one more, which suffices since
--   every round but the last adds a node to the order. Decimal printing of n has n + 1 digits' fuel.
-- - A handler behind gin is a function from a request and a state to an answer and a state; a handler
--   behind middleware is one more argument (Next). The headers of answers are left out, and a panic
--   is the answer that gin.Recovery gives.
-- - The `int` of the page numbers wraps around at 64 bits, as does the shift of a retry's delay. The
--   standard library's parsers of numbers and its functions on texts are definitions of Base and
--   Http/Pages; those of URLs, addresses and mail addresses are parameters.
-- - A worker's step is the code between two points where another goroutine may come in; the buffered
--   channel is the list of what waits in it. The loop of the attempts has one turn more than
--   there are retries, which suffices since the test of the last attempt ends it in that turn.
-- - The trend of the statistics is kept in the order of the days' first executions, whereas the code
--   answers it in the order of a map.
-- - Container resources and the values of environment variables are only copied, and are kept as
--   text. Logging is left out.
--
-- Not modelled: the encoding of a mail by templates, the reading of the configuration by viper, the
-- HTTP server and the files of the web UI, logging and the registration of the controllers and of the
-- observer, which are input and output around these parts; the generated code; the web frontend and
-- the deployment.
pub mod Base
pub mod Api
pub mod Dag
pub mod Kube
pub mod Tenant
pub mod WorkflowController
pub mod TaskController
pub mod Notification
pub mod Auth
pub mod Http
pub mod Config
pub mod Examples

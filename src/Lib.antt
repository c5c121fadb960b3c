-- ===== src/Lib.antt =====
-- A verification library for bfo, the batch file orchestrator: an HTTP service that takes tasks for
-- language models, keeps them in an SQS queue, and a worker that takes them from the queue and
-- submits them to providers as batches, booking each batch on a resource whose state is kept in
-- DynamoDB.
--
-- The parts, and the files that model them:
--
-- - Common: what the other modules share. Common.Go has Go's errors, as the chains that
--   `fmt.Errorf` builds, with their texts and the search of `errors.Is` and `errors.As`; results that
--   may be an error or a panic; and effects, as functions that pass on the state `W` of the world
--   outside the program. `W` is a parameter everywhere. Common.Word has the 64-bit `int` and `int64`
--   with their wrap-around, Common.Dict the maps, and Common.Host what the Go runtime and `ajan/lib`
--   supply: the clock, fresh ids, and the order in which a `range` visits a map, which is open.
-- - Tasks (pkg/api/business/tasks): Tasks.Types has the records of types.go and config.go.
--   Tasks.Service has `NewService`, `Init`, `UpdateTaskBucket` and `DispatchTask` of service.go, and
--   Tasks.Worker has `PickUpNextAvailableTask`: `handle_records` is its loop, `handle_record` one
--   round, `conclude` the handling of the result, `update_final_status` the last status update. The
--   repository is the interface of the source, a record of effects. The lemmas and theorems stand in
--   Tasks.Delivery (messages that stay), Tasks.Outcome (messages that go, and how a call ends),
--   Tasks.Dispatch (`DispatchTask`), Tasks.Statuses (the texts of a status), and Tasks.Rounds, which
--   compares a round with the table of decisions of Tasks.Plan.
-- - Resources (pkg/api/business/resources): Resources.Types has the records of types.go,
--   provider.go and config.go with the `Provider` interface. Resources.Service has the
--   registry, `AddProvider`, `AddResource` and `Init`, the estimate of tokens, and
--   `FindBestAvailableResource` (`find_from` is its loop, over the keys in any order).
--   Resources.Dispatch has `DispatchTask` (`book` and `unbook` are the two updates of the
--   state) and `TryProcessTask`. Resources.InputFile has the text of the batch's input file,
--   which the source only logs. Resources.Workers has several workers over one stored state:
--   `Move` is one access of one worker, `Step` one of any of them, `Reach` an interleaving.
--   Theorems: Resources.Addition and Resources.Registration (the registry), Resources.Booking,
--   Resources.Choice, Resources.Interleaving (`DispatchTask` as moves), Resources.Books (the
--   counters as sums), Resources.Serial and Resources.Ledger (workers in turn), Resources.Limits,
--   Resources.Overbooking and Resources.Exhaustion (workers at the same time), Resources.Starvation (`TryProcessTask` where every resource
--   is full), Resources.Capacity and Resources.Alone (one worker, from the choice on), and
--   Resources.Success (when a task is dispatched).
-- - Adapters: Adapters.DynamoDbStore (pkg/api/adapters/dynamodb_store) and Adapters.SqsQueue
--   (pkg/api/adapters/sqs_queue) stand over the calls of the AWS SDK, which are parameters, as are
--   the marshalling of attributes and of JSON; Adapters.Sdk is what both ask of the SDK to connect,
--   and Adapters.DynamoDbEndpoint and Adapters.SqsEndpoint are their endpoint resolvers.
--   Adapters.Repository (pkg/api/adapters/repository) stands over the store and the queue and fills
--   the interfaces of both services. Theorems: Adapters.Intake, Adapters.QueueSetup,
--   Adapters.RoundTrip, and Adapters.StateTable and Adapters.BucketTable, where the states of the
--   resources and the task buckets are maps (Adapters.Listing has the lemmas on a listing).
-- - AppContext (pkg/api/adapters/appcontext/appcontext.go): `Tick`, which hands `TryProcessTask` to
--   the loop of the tasks service. AppContext.Init has `Init` as its sequence of steps, over ajan and
--   the SDK as parameters. Theorems: AppContext.Ticks, AppContext.Startup and AppContext.Completion.
-- - Http (pkg/api/adapters/http): the two handlers. Http.Server has the registration of their routes
--   and `Run`, over httpfx as a parameter. Theorems: Http.Handlers, Http.EndToEnd, from the request
--   to the worker, Http.ToBatch, from the request to the batch, and Http.Routing, on `Run`.
-- - Providers (pkg/api/adapters/providers): Providers.OpenAi and Providers.Echo are the two clients,
--   each a value of the record `Provider`; Providers.Exchange has the requests, the answers, and what
--   both ask of Go's libraries. Theorems: Providers.Requests and Providers.Refusal.
-- - Commands (cmd/serve/main.go and cmd/cli/main.go): the listing of buckets, and `serve` with its two
--   goroutines, `http_server` and `event_loop`, over processfx as a parameter. Theorems:
--   Commands.EventLoop, Commands.Load and Commands.Starvation.
-- - Tests and its children: the theorems applied at small concrete worlds.
--
-- How the parts interact: a tick receives records from the queue, marks each as in progress, and
-- calls `TryProcessTask`, which chooses a resource, books the task on it, and asks its provider for
-- a batch; the reply decides whether the message is deleted and which status is stored.
--
-- The loops run over lists, and need no fuel, but for the event loop, which has no end of its own: it
-- takes the number of its turns as an argument, and what is stated of it is stated for every such
-- number. The
-- decimal text of a status has at most 20 digits, which a 64-bit number has. A change that a callee
-- makes to a shared `*Task` is in the reply that it returns (`DispatchTask` of the tasks package
-- returns the task only with a success: no caller reads it after an error); a change to a freshly
-- read state is in the value that is stored. A `context.Context` is passed on by the source and is
-- left out.
--
-- Not modelled: logging, metrics and tracing; what ajan does with the routes, the middlewares and
-- the goroutines that it is given, and how goroutines interleave, but for workers on one resource;
-- the loading of the configuration, which is a parameter; the generated
-- pkg/api/adapters/providers/mock_client.go; and what a failed `Init` leaves in the application
-- context, as both commands panic then.
pub mod Common
pub mod Tasks
pub mod Resources
pub mod Adapters
pub mod AppContext
pub mod Http
pub mod Providers
pub mod Commands
pub mod Tests

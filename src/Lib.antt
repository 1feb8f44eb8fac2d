-- ===== src/Lib.antt =====
-- momento-proxy: a proxy that serves memcache and RESP (Redis) clients from the Momento cache service.
--
-- A connection is either of memcache or of RESP. For memcache, a reader takes requests off the socket
-- and numbers them, a task handles each request, and a writer sends the responses in the order of the
-- numbers; the handlers use the service and, if it is configured, an in-memory cache. For RESP, one loop
-- reads, parses, handles and answers a request at a time.
--
-- What stands for what:
-- - Error: `ProxyError` of src/error.rs, the outcomes of a call under its timeout.
-- - Metrics, Metrics/Rpc: the counters and src/metrics/rpc.rs, the guard that records how a call ends.
-- - Klog: src/klog.rs, the lines of the command log. Klog/Unescape and Klog/ReadBack read them; no code
--   corresponds to that.
-- - Client: the client library of the service as a record of operations over an unknown state, and the
--   operations on floats; parameters of all handlers.
-- - Context: the state of a handler (service, events, response buffer, guard) and the steps that
--   handlers are made of. `Base.Exec` is the monad of errors and panics with that state.
-- - Cache: src/cache.rs over `Moka`, a parameter with the laws that its library documents.
-- - Memcache, Memcache/Handlers: src/protocol/memcache and `handle_memcache_request` of
--   src/frontend.rs. `run_get`, `run_get_keys`, `run_set` and `run_delete` are the functions `run_get`,
--   `get`, `set` and `delete`.
-- - Resp/Strings, Resp/Hash, Resp/Lists, Resp/Sets, Resp/SortedSets (with Ranges and Stores): the
--   functions of src/protocol/resp, one for each file and of its name. Resp/Utils: utils.rs and the
--   shapes that the commands share. Resp/Wire is a description of the RESP replies and a decoder, and
--   Resp/Answers the vocabulary of the theorems on replies; no code corresponds to them. Metrics/Observations
--   counts the observations among the events, Resp/Silent and the modules Quiet are about handlers
--   that make none, and Frontend/RespClient/Watched counts them over a connection.
--   Resp/Calls is about the calls of a command, Resp/SortedSets/Meant describes its arguments again.
-- - Frontend/Dispatch: the match over requests in `handle_resp_client` of src/frontend.rs.
-- - Frontend/RespClient: the rest of `handle_resp_client`.
-- - Frontend/Connection: `handle_memcache_client_concrete` of src/frontend.rs. Reader, tasks and writer
--   take turns as the steps of one state. Frontend/Writer, Frontend/Backlog: what its writer does with
--   messages; its flags and its writes to the socket are in Frontend/Connection. Frontend/Connection/Refinement describes the connection as the client sees it.
-- - Frontend/Detect: `handle_memcache_client` of src/frontend.rs.
-- - Frontend/Socket: `do_read`, `do_read2` and `do_write2` of src/main.rs.
-- - Metrics/Listing: the list that `--stats` prints, of `main`. Metrics/Export: src/metrics/builder.rs.
-- - Metrics/Endpoints, Metrics/Connection: src/metrics/proxy.rs with util.rs, and connection.rs.
-- - Config: src/momento_proxy.rs. Startup: `main` and `spawn` of src/main.rs and the loading of the
--   configuration, over a `Machine` that stands for files, environment, sockets and parsers.
-- - Listener: src/listener.rs, the listeners of a process and the tasks of connections as steps.
-- - Admin, Admin/Usage: src/admin.rs.
-- - Examples: the theorems at concrete inputs.
--
-- How the code is read: a request arrives parsed, since the parsers are libraries; a parser and a
-- composer of responses are parameters. Arithmetic wraps around, as in a release build. A panic ends the
-- process, which is the result `panicked`; nothing is dropped or observed after it, since the hook of
-- `main` exits. A `HashMap` is the list of its entries in the order
-- of iteration, a `HashSet` that of its elements, with its order of iteration as a parameter. Counters, log lines and histogram observations are events in the order in which
-- they happen; latencies are not modelled. The reads of one memcache get, which run concurrently, are
-- taken to run one after another; `others` is what other requests do meanwhile to the in-memory cache,
-- which they share. A time is a number of seconds. Loops are recursions over lists, but
-- for the writer's loop over its backlog, which has the length of the backlog as fuel, since each
-- round removes an entry. The two loads at the head of the writer's loop are taken to be one step, and
-- the reader's wait counts rounds, not seconds.
--
-- Not modelled: logging, the parser of the command line and the insides of the runtimes, which are
-- libraries.
mod Base
pub mod Error
pub mod Metrics
pub mod Klog
pub mod Client
pub mod Config
pub mod Startup
pub mod Listener
pub mod Admin
pub mod Context
pub mod Cache
pub mod Memcache
pub mod Resp
pub mod Frontend
pub mod Examples

-- ===== src/Lib.antt =====
-- Gargantua is a web framework in C: a server reads HTTP requests, a router picks the handler of the
-- application, and a runtime gives it arenas, JSON, a database and its response. This library
-- models the parts of it that carry the logic and proves what they promise.
--
-- Files, and the code that they model (paths from the repository's root):
--   Common: shared notation; C strings as lists of bytes, with the functions of <string.h> and
--     <strings.h> that the code calls; functions that return -1 as `Option`.
--   Http: src/http/http.c with include/http.h. `Http` has the lexical pieces and the request line,
--     `Http.Parse` the headers, the search for the head's end and `http_parse_request`.
--     The loop over the headers takes max_headers + 1 rounds of fuel: each round stores a header or
--     ends, and the code refuses the header after the 64th.
--   Route: src/http/route.c with include/route.h: `path_matches` on segments, `route_find_exact` and
--     its wrapper as one search over the table, `route_allow`. The loop over a path's segments takes
--     the code's own guard as fuel.
--   Response: src/http/response.c with include/response.h: the headers and the status that a handler
--     sets, and their printing. The handlers' calls are the data type `Call`.
--   Arena: src/core/arena.c with include/arena.h: `Arena` has the operations, `Arena.Valid` the
--     invariant, `Arena.Alloc`, `Arena.Fits` and `Arena.Reset` what allocation and reset do. The doubling loop takes
--     64 rounds of fuel, more than a 64-bit size can be doubled. What malloc
--     and mmap answer is a parameter.
--   Buffer: src/core/dynbuf.c with include/dynbuf.h: `Buffer` has the operations, `Buffer.Reserve` the
--     invariant and the growth, with 64 rounds of fuel as in the arena, `Buffer.Contents` the buffer as
--     a queue of bytes. What mmap and realloc answer is a parameter.
--   Auth: src/runtime/auth.c: `Auth` has the tokens' setup, the comparison in constant time, and the
--     gate in front of a route, `Auth.Secret` and `Auth.Gate` what they decide. The settings that
--     src/core/config.c reads are a parameter.
--   Config: src/core/config.c: the table of settings and the environment's precedence; the parsing of
--     the file is not modelled.
--   Scheduler: src/runtime/scheduler.c with include/scheduler.h: its start, startup and stop, and the
--     arenas of its tasks; `Scheduler.States` has the states. How a task's body ends, the creation of
--     threads and the lock are parameters; what the threads do once they run is not modelled.
--   Paths: `split_path` of src/server/server_http.c and `url_decode` of src/runtime/runtime_error.c:
--     `Paths.Decode` has the decoding as a relation, `Paths.Safe` what the accepted paths are. The loops take
--     the text's length as fuel, each round taking a byte at least.
--   Json: src/http/json.c with include/json.h. `Json` has the scanners of strings, numbers and literals as
--     the lengths that they take, `Json.Copy` the copying of a string, `Json.Parse` the parser, with
--     one more rounds of fuel than there are bytes; `Json.Parse.Moves` and `Json.Parse.RoundMoves` sort its
--     rounds into four moves, `Json.Parse.Tokens` and `Json.Parse.Leave` keep an invariant through each, `Json.Parse.Nested` draws
--     the conclusion for the whole. `Json.Grammar` is the grammar of JSON texts, `Json.Lexical` and
--     `Json.Numbers` relate the scanners to it; `Json.Parse.Completes` and `Json.Parse.Rounds` read the rounds
--     from the end of a text, `Json.Parse.Accepted` the whole.
--   Sink: the bounded text of src/runtime/runtime.c. `Sink.Escape` has the escaped text as a reference,
--     `Sink.Utf8` and `Sink.Scan` the reader's scanner on it, `Sink.Read` its copying, `Sink.RoundTrip` both.
--   Errors: the failure of a request in src/runtime/runtime_error.c: `Errors.Calls` the calls that record it,
--     `Errors.Valid` the invariant, `Errors.Collect` what they collect, `Errors.Document` the error document.
--     The thread's variables are a record; the digits of the status have ten rounds of fuel.
--   StaticFiles: src/http/static_files.c with include/static_files.h: `static_file_read` over the operating
--     system's calls as a parameter, with the code's own bound on the steps; `StaticFiles.Served` has what it
--     gives out.
--   Reading: `read_request` and `handle_expect_continue` of src/server/server_http.c, with the code's own bound on
--     the rounds; `Reading.Checks` has what a round decides on the bytes at hand, `Reading.Received` the loop.
--   Cors: `cors_prepare`, `header_single_value` and `list_contains` of src/server/server_http.c: `Cors.Allowed` has the
--     lookup in comma lists, each round of which takes a byte at least, `Cors.Origin` the origin that is allowed.
--   Connections: `client_limit`, `queue_push` and `queue_pop` of src/server/server.c, and the threads of
--     src/server/server_worker.c that call them: `Connections.Ring` has the ring against an abstract queue,
--     `Connections.Clients`, `Connections.Limit` and `Connections.Rate` the table of clients, `Connections.Server` the threads as a step
--     relation, one step for what runs under a lock, with the clock and the new sockets as parameters of the
--     steps; `Connections.Server.Reached` has the states that they reach.
-- Connections hands a socket to a worker, for which Reading fills a Buffer and has Http parse it. The
-- parsed request gives the method and the target, Paths takes the path out of the target for Route to
-- look up, and Response prints the headers behind the status line, with the origin that Cors allows. A
-- request that fails collects its errors in Errors, whose document is written through Sink.
--
-- Not modelled: the reading and writing of records as JSON, the lookup of members and the values of tokens, the answer to a CORS preflight, the setup
-- of static files, templates, the database layer and its SQL,
-- the HTTP client, the code generator, sockets, TLS and processes, the scheduler's threads and the signals.
-- Each thread has a response of its own, so that Response is sequential.
--
-- Numbers are natural numbers; where the code computes with a bounded type, the bound is written
-- out. Pointers into a buffer are the bytes from there on.
pub mod Common
pub mod Arena
pub mod Auth
pub mod Buffer
pub mod Config
pub mod Connections
pub mod Cors
pub mod Errors
pub mod Http
pub mod Json
pub mod Paths
pub mod Reading
pub mod Response
pub mod Route
pub mod Scheduler
pub mod Sink
pub mod StaticFiles

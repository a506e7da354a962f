-- ===== src/Lib.antt =====
-- Thruster (Fanta): a web framework with an intelligent routing tree and middleware.
--
-- An app keeps one route tree for each HTTP method. Routes and middleware are registered under
-- paths; `commit` pushes the middleware down to the handlers; a request is looked up in the tree
-- of its method, and the handler that comes out turns the generated context into the response.
--
-- The files, and the sources they model:
--   Prelude      library names passed on, Boolean tests, `Option` binds, results, list lemmas
--   Text         strings as lists of code points; `str::split` and its laws (Text/Split), `trim`,
--                decimal numbers, UTF-8, and its lossy reading (Text/Lossy)
--   Map          `HashMap` as an association list
--   Middleware   thruster/src/parser/middleware_traits.rs, what `generate_tuples!` of
--                thruster-proc/src/lib.rs writes, thruster/src/core/errors.rs; Middleware/Chain
--                shows a handler as the run of a row of functions; Middleware/Generated has the
--                macros of thruster-proc/src/lib.rs, Middleware/Expansion what they come to,
--                Middleware/Impls what `expand_combine!` writes and Middleware/Attribute
--                what `middleware_fn` does to a file
--   Tree         thruster/src/parser/tree.rs: Tree/Params and Tree/Node (data), Tree/Children (the
--                shape), Tree/Match (lookup), Tree/Insert (registration), Tree/Commit, Tree/Graft
--                (sub-trees), Tree/Merge, Tree/Print; Tree/Route specifies the lookup,
--                after ROUTE_RESOLUTION.md, on the tree before it is committed
--   Context      the traits of thruster/src/core/context.rs and thruster/src/core/request.rs
--   App          thruster/src/app/thruster_app.rs: App/Methods (which tree), App/Serving (from
--                registration to response), App/Using (`use_middleware` and `use_sub_app`),
--                App/NotFound (`set404` and unmatched requests), App/Query (query strings),
--                App/Built (what holds of every app that registrations built)
--   Http         thruster/src/core/request.rs and thruster/src/core/response.rs; Http/Framing shows
--                when `decode` yields a request, Http/Arrival what comes of the parts of a
--                message, Http/Bounds that the slices lie in the buffer; Http/Reply is
--                `TestResponse` of thruster/src/app/testing_async.rs; Http/Client reads
--                what `encode` writes, with the numbers of Http/Numbers
--   Basic        thruster/src/context/basic_context.rs; Basic/Reading and Basic/Wire read its
--                responses back, Basic/Unmatched is `App::new_basic` and a request without a route
--   Hyper        thruster/src/context/typed_hyper_context.rs, its cookies in Hyper/Cookies;
--                Hyper/Twice sets two cookies, Hyper/Body reads a request's body, Hyper/Fast is
--                thruster/src/context/fast_hyper_context.rs, Hyper/Basic is
--                thruster/src/context/basic_hyper_context.rs (Hyper/Basic/Typed compares the two),
--                Hyper/Service is the service of thruster/src/server/hyper_server.rs and the
--                helper of thruster/src/app/testing_hyper_async.rs
--   Builtin      thruster/src/middleware: Query, Cookies, Files and Headers (the short ones);
--                Builtin/Files/Threads has the accesses of the file cache that threads share
--   Server       the loop of thruster/src/server/homegrown_server.rs; Server/Secure is that of
--                thruster/src/server/ssl_server.rs, Server/Framed has the calls of `decode` that
--                the framed socket makes, Server/Connection goes from the bytes that
--                arrive to the responses that are sent, Server/Wire from there to what a client
--                reads, Server/Accept has the accept loop and the tasks it spawns, in any
--                order, Server/Start makes the servers of thruster/src/server, Server/Date is
--                thruster/src/core/date.rs, with its 128 bytes in Server/Date/Buffer
--   Testing      the helpers of thruster/src/app/testing_async.rs
--   Examples     error_handling.rs, mutable_state.rs, nesting.rs and using_state.rs of
--                thruster/examples, whole apps on the library
--   Tests        runs of the code's own tests, and the theorems at concrete inputs
--
-- How the model corresponds to the code. A method on `&mut self` returns the new value. A future
-- is its output, since each is awaited where it is made. A panic is `none`: `combine` panics on
-- more than sixteen functions, and what calls it passes that on. A mutable reference into the tree
-- is the node that it points to and a function that writes a node back to the same place. A `Node`
-- is its fields, its wildcard and its children, three data types in a mutual block. Loops over the
-- pieces of a path are recursion on the list of pieces, and need no fuel. The map of the fast
-- matches is an association list that is only read by key.
--
-- Libraries are parameters: `httparse` and the header name of `http` (`Parser`), `serde_json`,
-- the clock and the rendering of `time`, hyper's requests, responses, header maps and streams of
-- a body, the TLS libraries, the environment and the disk, what the framed socket takes. What it
-- yields follows the documentation of tokio-util: it calls `decode` with a fuel of two for each
-- read, which is enough (Server/Framed/Fuel), and its error at the end is a parameter. A length
-- or an offset of 64 bits keeps its wrap-around in `decode`; a decimal number is printed with a
-- fuel of twenty digits, which is enough below 10^20 (Text/Decimal). The table of the headers of
-- a context is in the order of insertion, where the standard library leaves the order open. A
-- request's method and path are text where a trait gives no room for a panic; those that
-- `httparse` finds are.
--
-- Not modelled: sockets, the TLS handshake and hyper's own loop, which are I/O; the loop of
-- `start_small_load_optimized`, which drops what `process` returns; the parser of Rust items that
-- the macros call; timing output; the benches and the other examples, which are
-- servers with one or two routes; and thruster/src/app/testing.rs, which no module names.
pub mod App
pub mod Basic
pub mod Builtin
pub mod Context
pub mod Examples
pub mod Http
pub mod Hyper
pub mod Map
pub mod Middleware
pub mod Prelude
pub mod Server
pub mod Testing
pub mod Tests
pub mod Text
pub mod Tree

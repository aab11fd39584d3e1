-- ===== src/Lib.antt =====
-- CGI web server: a model of the server from its configuration to its requests: the request
-- path, the method handlers, the rate limiters, the router, the roles and the logger.
--
-- The program. A connection becomes a session (src/Session.cpp), which makes a transaction and
-- runs the pipeline of middlewares on it (src/Middleware.cpp). The logger middleware writes an
-- entry for it; the error handler catches what the others throw and calls the method handler of
-- the route when they return; the parser reads the request (src/http.cpp) and asks the router
-- for its endpoint (src/Router.cpp); the rate limiters count it; the authenticator checks and
-- issues tokens. The configuration (src/config.cpp) fills the router and the pipeline at
-- startup. Log entries go through a ring to a worker thread (src/logger.cpp).
--
-- The files.
--   Base: lists, tests on numbers, maps (Base.Assoc, `std::unordered_map` as an association
--     list) and the C++ integers (Base.Int).
--   Text: byte strings and the `std::string` operations used; Text.Number is `std::stoi` and
--     `std::to_string`.
--   Http.Status, Http.Method, Http.Response, Http.Request, Http.Form, Http.Args, Http.Io:
--     src/http.h and src/http.cpp, a function for each function there, under its name. An
--     exception is a value of Result, and so is, as a throw that nothing catches, a call that
--     never comes back.
--   Limit.Window, Limit.Bucket: the loops of the two rate limiters on one 64-bit word;
--     Limit.Window.Race runs several threads; Limit.Window.Threads and Limit.Bucket.Threads
--     let any number of threads make their loads and exchanges in the order of any schedule
--     (Limit.Schedule).
--   Log: the ring, its pop and the worker; Log.Queue has the queue that it refines.
--     Log.Texts: the texts of log entries. Log.Sink: src/Sink.cpp, the file that a day has
--     and the loop that writes a message. Log.Threads: the two halves of a push, and what a
--     logger that stops between them writes. Log.Macros: src/logger_macros.h.
--   Config: src/config.cpp, a module for each kind of setting. Config.Roles: roles and
--     `loadRoles`; Config.Times: times, rates and numbers; Config.Keys: the key functions of
--     limiters, which Pipeline.Keys runs on a request; Config.Limiters: the limiters and the
--     pipeline; Config.Routes: routes and error pages; Config.Secret: the JWT secret;
--     Config.Settings: threads, ports, TLS and `initialize`, which composes them all.
--     Config.Xml is the part of tinyxml2 that is called, as an interface.
--   Router: endpoints, error pages, and the lookups that add an endpoint for a file.
--   Pipeline: transactions and the state that requests share; Pipeline.Auth,
--     Pipeline.Limiting, Pipeline.Stages and Pipeline.Pages are the middlewares and the error
--     pages.
--   Pipeline.Streams, Pipeline.Handlers: src/Streamer.cpp and the four method handlers, as
--     steps that return or throw and leave a state. Pipeline.Limiting.Isolation,
--     Pipeline.Limiting.Alone: the clients of one limiter. Pipeline.Ready: what every request
--     needs of the router and the limiters, and keeps. Pipeline.Session: src/Session.cpp, and
--     connections one after another.
--   Socket: src/Socket.cpp, the two classes of sockets over what asio answers.
--   Server: src/Server.cpp, the errors of the accept loop; Server.Sessions: the socket and
--     the session of each accept; Server.Main: src/main.cpp, from the path of the
--     configuration to the sessions.
--   Tests: the theorems at concrete inputs.
--
-- How it is modelled. A byte is a number, a text a list of them. Stateful code takes and gives
-- its state; a middleware is a function from a state to a Run, which keeps the state when it
-- throws. Integers of 32 and 64 bits wrap where the source's do. Time, the socket, the file
-- system, the JSON parser, jwt-cpp, tinyxml2 and the scripts are parameters: the records World,
-- Jwt, Xml, Source, Startup and Machine, and function arguments. What a write of the socket
-- comes back with may depend on all that was sent before. In the configuration, no result stands
-- for a server that stops, or whose behaviour is undefined.
--
-- Fuel. The header loop runs on the length of the text, and each round takes at least one byte.
-- The fixed-window loop has two rounds, which is all that it can make alone: the round after a
-- successful exchange fails. The token bucket's loop runs over the attempts that are made. The
-- worker's drain runs on the number of entries between tail and head. The stream of a file has a
-- round for each byte and one more, and each round takes a byte at least. The loop of the error
-- pages runs on fuel that no number suffices for where it does not end. The write loop runs over
-- the writes that the socket answers, and has no result while it waits for one more; a request
-- for which it has none never comes back, while the others go on.
--
-- Not modelled. The coroutines and threads of the server (src/Server.cpp), raw sockets; whether
-- the acceptor is bound, the certificates load and the threads start are parameters
-- (Server.Main). Of src/Streamer.cpp, descriptors and `waitpid`; the system calls that start a
-- script succeed or not by a parameter. Of src/logger.cpp, the clock, `vsnprintf` and
-- `backtrace`, whose results are parameters. Of src/http.cpp, `build_json`, which nothing calls,
-- and the timer of `backoff`. Sessions come one after another, and a request meets a limiter
-- alone, except in Limit.Window.Race, Limit.Window.Threads, Limit.Bucket.Atomic and
-- Limit.Bucket.Threads; Log.Threads has one push between its halves. Accesses that race in the
-- source are left out: a search of a limiter's clients without the lock beside an insertion, and
-- two threads on one place of the ring. The times of a log entry are left out.
pub mod Base
pub mod Config
pub mod Http
pub mod Limit
pub mod Log
pub mod Pipeline
pub mod Router
pub mod Server
pub mod Socket
pub mod Tests
pub mod Text

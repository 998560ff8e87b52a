-- ===== src/Lib.antt =====
-- The Boost.Asio study programs: a model of the HTTP client and the HTTP server of Chapter-05, of the
-- asynchronous TCP client and server of Chapter-03 and Chapter-04, and of the smaller programs.
--
-- The programs are separate `main`s over Boost.Asio. An object of a program registers a handler for
-- each asynchronous operation; `io_service::run` calls the handler when the operation completes, and
-- the handler starts the next operation, or ends the exchange. Here a handler is a function of the
-- object, of the completion (the error code, and the bytes that the operation appended to the
-- `streambuf`) and of what the synchronous calls return. It gives the operations that it starts, in
-- order, and its end: one operation pending with the handler that it calls, the end of the object,
-- or a fault, which is an exception out of `io_service::run` or a stop of the process. A run of an
-- object is a list of events, with every error and every content. A program of synchronous calls is
-- the list of its calls with what becomes of an error of each, run on the results of the calls.
--
-- All paths are below `Boost.Asio Study/`.
--
-- HttpServer: Chapter-05, Section-02, 05-02-01-http_server.cpp, class `Service`. The functions have
--   the names of the methods; a part of a method that tests or loops has a function of its own, which
--   says so. State has the object and what its handlers find and do. Headers and AnyBlock are about the
--   loop over the header fields, with Grammar for what the fields of any bytes are; Requests and AnyLine are
--   about the request line, Responses about `process_request` and `send_response`, Rounds about each handler,
--   Lifecycle about whole runs, Serving about a whole exchange, Faults about one that ends in a fault.
-- HttpAcceptor: `Acceptor` and `main` of 05-02-01-http_server.cpp.
-- HttpClient: Chapter-05, Section-01, 05-01-01-http_client.cpp, `HTTPRequest`, `HTTPResponse` and the
--   callback `handler` of its `main`, with State as above. Headers, Blocks and Endless are about the
--   loop over the header lines, Status about the status line, Asking and Exchange about a whole
--   exchange, Cancel about `cancel`, Rounds about each handler, Lifecycle about whole runs; Program
--   has the setters and getters and `main`, Closing `HTTPClient` and the end of `main`; Mutex has the
--   handlers with their calls on `m_cancel_mux`, Free what holds of these.
-- HttpInterop: the client on the bytes that the server writes; Exchange has both ends.
-- AsyncTcpServer: Chapter-04, Section-03, 04-03-01-async_tcp_server.cpp, `Service`, `Acceptor`, `main`.
--   Exchange is about one service, Accepts about the acceptor and `main`.
-- PoolServer: `Server` and the body of `main`, which that server and the HTTP server have in common.
--   Joins counts the threads that it creates and joins, Outcomes is about the ends of `main`.
-- Listener: the runs of an acceptor, over what the two acceptors have in common.
-- AsyncServers: a whole asynchronous server, the acceptor with all the services that it has started,
--   over an interface that both servers fill in Tcp and Http. Independence is about the services among
--   one another, Halts about the end of all handlers, Mains about the two `main`s.
-- AsyncTcpClient: Chapter-03, Section-03, 03-03-01-multi_thread_async_tcp_client.cpp. A client has all its
--   sessions and, in `m_active_sessions`, positions of them by id. Runs has its events, Callbacks,
--   Results, Aborts, Registry, DistinctIds and CancelRequest what holds of runs; Locks has the two
--   mutexes and the threads that lock them, Deadlock and LockProgress what holds of these; Accesses has
--   what the threads access between their locks, RaceFree and Races what holds of that; Program the
--   constructor and `main`, MainRuns what holds of `main`.
-- TcpInterop: that client and a service of AsyncTcpServer.
-- SyncInterop: the synchronous clients with the servers that they can talk to.
-- Transfer: Chapter-02, 02-03-01-sync_write.cpp, 02-04-01-sync_read.cpp, 02-05-01-asnyc_write.cpp and
--   02-06-01-asnyc_read.cpp, the loops. Writes and Reads compare the two of each kind.
-- LoopServer: the synchronous servers of Chapter-04, Section-01 and Section-02 and of Chapter-05,
--   Section-04. Clients is about what a client means for the others, Silent about one that sends
--   nothing, Stops about the end; Threads has the threads of `Server` as a step relation,
--   Interleavings and Waits what holds of them.
-- Mains: the `main`s of Chapter-01, Chapter-02 and Chapter-06 that are sequences of calls. Exits and
--   Faults are about their ends, Exits also those of SyncClients: Chapter-03, Section-01,
--   03-01-01-sync_tcp_client.cpp, Section-02, 03-02-01-sync_udp_client.cpp, and Chapter-05, Section-03,
--   05-03-01-ssl_sync_tcp_client.cpp. Calls has the calls.
-- Timers: Chapter-06, Section-02, 06-02-01-timer.cpp. Buffers: the programs that only set up buffers.
-- HttpText: header fields as both exchange them. Stream: `std::getline`, `get` and `>>` on the bytes of
--   a buffer. Decimal: `std::to_string` and `std::stoul`, with the 32-bit `unsigned long` of the Windows
--   builds that the project file is for. Dict and IdMap: `std::map` from strings to strings, and from
--   numbers to numbers. Asio: error codes, faults and completions. Base: shared names.
--
-- What Boost.Asio and the file system do is no part of the repository. The values of Asio's error
-- constants are the parameter `Errors`, of which `IsErrors` states what is documented; what a
-- synchronous call returns, and the files, are in `World` or an argument; what arrives is the event.
--
-- Loops without a bound in the source take fuel. `header_fuel` gives the length of the buffer plus
-- two rounds. That is enough for the server's loop on every input; for the client's, a loop that does
-- not end by then never ends, and that is the fault `endless_loop`. The loop of the TCP client's
-- constructor has one round more than threads; the loops of Transfer and LoopServer recur on the
-- results of their calls, of which there may be any number.
--
-- Not modelled: most of what is printed (an action `log` stands for the line); the options of the SSL
-- context, which are calls with no arguments; `main.cpp`, which is empty.
-- In AsyncServers the handlers are whole steps too: those of different services share nothing that
-- they write. An exception out of a thread of the pool, and a write through null, end the process; in
-- PoolServer, which does not follow the handlers, that is a field of its `World`.
-- In a run of `HTTPRequest` a handler is one step, and `cancel` comes between the handlers: under its
-- mutex, a handler's test and start are one step with respect to `cancel`. In the same way the
-- events of AsyncTcpClient are whole calls and handlers; Locks and Accesses look at what the threads
-- do within them. In Accesses a handler is given with what it reads in `m_was_cancelled`, and a call of
-- `cancelRequest` with the session that it finds, which the map has to agree with when it is found.

pub mod Asio
pub mod AsyncServers
pub mod AsyncTcpClient
pub mod AsyncTcpServer
pub mod Base
pub mod Buffers
pub mod Calls
pub mod Decimal
pub mod Dict
pub mod HttpAcceptor
pub mod HttpClient
pub mod HttpInterop
pub mod HttpServer
pub mod HttpText
pub mod IdMap
pub mod Listener
pub mod LoopServer
pub mod Mains
pub mod PoolServer
pub mod Stream
pub mod SyncClients
pub mod SyncInterop
pub mod TcpInterop
pub mod Timers
pub mod Transfer

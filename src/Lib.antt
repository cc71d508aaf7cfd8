-- ===== src/Lib.antt =====
-- A model of the web server in http_server, and the theorems about it.
--
-- The server answers GET and HEAD requests for files. Listeners accept connections and queue a client
-- for each; a builder puts the clients into a map of waiting tasks and adds an event for each
-- descriptor; a controller, called by the event loop, reads header and body and moves a complete task
-- to the queue of the workers; a worker runs three functions for a task: it parses the request,
-- finds the file, and builds and sends the response.
--
-- The files, by the code that they model:
-- - Prelude (with Tests, Lists and Int): shared names, lists and integers over the machine's natural
--   numbers. Result: the exceptions of http_server/include/exceptions.hpp and of the standard library
--   as values; undefined behaviour and exhausted fuel are values too, so that a theorem can deny them.
-- - Text, Dict, Decimal: the members of std::string that the code calls, with npos as `none`;
--   std::map<std::string, std::string> as a sorted list of pairs; std::to_string and std::stoi.
-- - Http.Method, Http.Request: http_server/src/HttpRequest.cpp. `parse` is the constructor.
-- - Http.RequestCreator: http_server/src/HttpRequestCreator.cpp. `create` is the constructor.
-- - Http.Response, Http.ContentType, Http.Headers: http_server/src/HttpResponse.cpp. `create` is the
--   constructor.
-- - Http.ResponseReader: http_server/src/HttpResponseReader.cpp. `read` is the constructor.
-- - Socket.Open, Socket.Address, Socket.Send, Socket.Receive: http_server/socket/src/socket.cpp. The
--   answers of the system are data that a call consumes.
-- - Client: http_server/HTTPClient/src/HTTPClient.cpp, with the static helpers in Client.Pieces
--   and the constructors that open a socket in Client.Opening.
-- - Tasks.FileCache, Tasks.Locate, Tasks.Process: http_server/async/src/TaskFuncs.cpp. Tasks.Sharing
--   takes its `ReadFile` apart into the steps that several workers interleave.
-- - Worker: http_server/async/src/Worker.cpp and Task.cpp. A round of `Loop` is `loop_round`,
--   and `loop` runs one for each task. Worker.Site is what a worker is to answer;
--   Worker.Functions has the members of a task with any three functions.
-- - Listener: http_server/async/src/Listener.cpp, the object.
-- - Pipeline: http_server/async/src/Listener.cpp, TaskBuilder.cpp and TasksController.cpp. The shared
--   queues, the map and the events are one state; Pipeline.Reachability has the steps of the threads.
--   Pipeline.Threads takes the round of the builder and the handler apart into their statements;
--   Pipeline.Conserved keeps account of the clients, and Pipeline.Everywhere
--   says what holds of each.
-- - EventLoop: http_server/async/include/EventLoop.hpp. `run_loop` and `add_event` are the next step of
--   one thread each; `Step` has the interleavings.
-- - Exchange: what the parts give together, from a request on the wire to its response.
-- - Config, Startup: http_server/src/main.cpp, the configuration file and the main function.
-- - Sleep: http_server/async/src/msleep.cpp.
-- - Master: http_server/async/src/Master.cpp. `Stop` is `stop_step`, one step for each statement;
--   `Master.Step` has the interleavings with the threads of Pipeline.
-- - Tests: runs of the model, and the theorems at concrete inputs.
--
-- Text is a list of bytes. A loop without an obvious measure runs on fuel: the loops over headers and
-- over separators get one round more than the text has bytes, which is enough since the position grows
-- in each round, and the digits of a number `n` get `n + 1` rounds. Where the fuel is enough the
-- theorems give the result itself, so that they would fail if it ran out.
--
-- Parameters: the printed time; the document root; the file system as a function from names to
-- contents; the file cache, as the interface Tasks.FileCache.FileCache; the answers of the system to
-- socket calls and to `nanosleep`; libevent, as the interface EventLoop.EventBase; what the queue of
-- tasks brings to a worker.
--
-- Not modelled: the vendored libraries (dates, lock-free queues, the file cache), and the memory that
-- shared pointers share where nothing else can write to it.
-- What the program prints is not modelled.
pub mod Prelude
pub mod Result
pub mod Text
pub mod Dict
pub mod Decimal
pub mod Socket
pub mod Http
pub mod Client
pub mod Tasks
pub mod Worker
pub mod Listener
pub mod Master
pub mod Startup
pub mod Pipeline
pub mod EventLoop
pub mod Exchange
pub mod Config
pub mod Sleep
pub mod Tests

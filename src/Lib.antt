-- ===== src/Lib.antt =====
-- zuvloop: an asyncio event loop in Python on top of libuv.
--
-- The Python half of the loop is a tower of classes, each a layer of operations on the one below:
-- LoopBase (zuvloop/_base.py), SocketOperations (zuvloop/_sockets.py), SendfileOperations
-- (zuvloop/_sendfile.py) and ConnectionOperations (zuvloop/_connect.py). Beside it stands the listening
-- Server (zuvloop/_server.py), which accepts connections and hands them to native transports
-- (zig/transport.zig); every transport that belongs to a server reports its end by `_detach`. The layers
-- meet in the readiness watchers of descriptors, in the futures that calls wait for, and in the protocol
-- callbacks that a transport makes.
--
-- Base holds what the files share: Boolean tests on numbers (Base/Tests), lists with take, drop and their
-- lengths (Base/Lists), lists as sets (Base/Sets), dicts (Base/Dicts), Python's exceptions and calls that raise
-- (Base/Exceptions) and integers (Base/Int).
--
-- Server models zuvloop/_server.py with the accepting half of zuvloop/_connect.py and the closing of a
-- transport in zig/transport.zig. Server/Defs has the state of the Server object and of the transports,
-- TLS tasks and waiters around it, Server/Accept the accept loop, `_attach_transport` and `_accept_tls`,
-- Server/Close `close`, `close_clients` and `abort_clients`, Server/Waiting `wait_closed` and
-- `serve_forever`. Server/Steps has the steps that the event loop can take on that state in any order, and
-- the states that they reach from a new server; Counting, Admission, Handshakes, Waking, Frames, Sound and
-- Closing prove what every step keeps in the runs in which no TLS handshake fails over unsent bytes, Rounds what
-- one readiness callback does, Shut what `close` does, and Faults what `close` unlinks and what such a
-- handshake does to the count.
--
-- Sockets models zuvloop/_sockets.py: the registrations of `_watch` and `_unwatch` in Sockets/Watching, the
-- attempts of `_retry_ready` and the loop of `sock_sendall` in Sockets/Retrying, and `sock_connect` in
-- Sockets/Dialing and Sockets/Connecting.
--
-- Sendfile models zuvloop/_sendfile.py: the checks, the loop over `os.sendfile`, the fallback loops and
-- `sock_sendfile` in Sendfile/Defs, with what they send in Sendfile/Native and Sendfile/Fallback; `sendfile`
-- over kinds of transports in Sendfile/Dispatch and Sendfile/Dispatching; the protocol that
-- stands in during a transfer in Sendfile/Protocol and Sendfile/Restoring; the transfer of a native transport,
-- with its write buffer from zig/transport.zig, in Sendfile/Stream, treated in Sendfile/Owning,
-- Sendfile/Waking and Sendfile/Draining; the fallback with the stand-in in Sendfile/Falling, treated in
-- Sendfile/Fallen and Sendfile/Giving. Sendfile/Copying follows the blocks of the fallback loops, and
-- Sendfile/Parts is about a write that fails when it has sent a part of its block. A future that a call
-- awaits stays done once it is done, whatever the transport does before the call wakes up.
--
-- Connect models the rest of zuvloop/_connect.py: Connect/Defs has `_connect_one` and `_connect_tcp`
-- one address after another, with the sockets that they leave open in Connect/Leaving;
-- Connect/Racing has the race of `happy_eyeballs_delay`, with its errors in Connect/Raced and its sockets in
-- Connect/Holding and Connect/Stopping; the errors that the attempts collect are in
-- Connect/Blaming and the outcome in Connect/Refusing; Connect/Binding has `_bind_tcp`, treated in
-- Connect/Listening; Connect/Checks has the argument checks, treated in Connect/Validity; Connect/Creating has
-- `create_connection`, `create_unix_connection` and `connect_accepted_socket` as wholes, Connect/Datagram
-- `create_datagram_endpoint`, both treated in Connect/Handing; Connect/Serving has `create_server` and
-- `create_unix_server`, treated in Connect/Served; Connect/Piping has `_connect_pipe` and `_HangupWatch`, treated
-- in Connect/Piped; Connect/Subprocess has `subprocess_shell`, `subprocess_exec` and `send_signal`, treated in
-- Connect/Living; Connect/Upgrading has `start_tls`, treated in Connect/Upgraded.
--
-- Signals models the signal handlers of zuvloop/_loop.py with the wakeup descriptor of zuvloop/_base.py:
-- Signals/Defs has the state that the loops of a process share and the deferred clean-up, Signals/Wakeup
-- the descriptor, Signals/Handlers adding, removing and closing, Signals/Delivery the pipe. Ownership, Safety,
-- Adding and Closing prove what each keeps of the descriptor, for the steps of Signals/Steps; Undoing is
-- about calls that undo one another, Arriving about the pipe. A deferred clean-up can run between any two
-- Python calls of the main thread; in the model it can come at the places where the code reads again what it may
-- have changed, and between calls.
--
-- Processes models zuvloop/_process.py: the reaper, which polls the children from a thread: Processes/Reaper
-- has its thread and `register`, Processes/Watching the dict and the tuple of a round, Processes/Steps and
-- Processes/Reaping any interleaving of the two. Processes/Spawning has `Popen.__init__`, `spawn_libuv` and `open_stream`, with the
-- descriptors that they open in Processes/Descriptors and Processes/Opening; Processes/Refining compares
-- the reaper with what it promises.
--
-- Loop models more of zuvloop/_base.py: `call_exception_handler` in Loop/Reporting, treated in Loop/Escaping;
-- `run_forever` and `run_until_complete` in Loop/Running, treated in Loop/Restoring; `close`,
-- `_teardown_self_pipe` and `__del__` in Loop/Closing, treated in Loop/Closed;
-- the default executor in Loop/Executors, treated in Loop/Accounting; the asynchronous generators in
-- Loop/Generators.
--
-- Instrumentation models zuvloop/_instrumentation.py: Instrumentation/Defs has the reports and their bounded texts,
-- treated in Instrumentation/Bounds, and Instrumentation/Sampling the tests for providers and `_on_sample` of
-- zuvloop/_base.py, treated in Instrumentation/Latch.
--
-- What the operating system, libuv and a protocol answer is an argument: a loop runs over the list of the
-- answers that it gets, one for each round, and where the list ends the call is still waiting. No loop
-- needs fuel. A method that awaits is cut at the await: what runs before it and what runs after are two
-- definitions, and steps of others come between. Tokens, futures, tasks and transports are numbers.
--
-- The race of `happy_eyeballs_delay` is modelled by itself; `_connect_tcp` as a whole takes what
-- `staggered_race` leaves as a parameter, and so does `Popen` what `subprocess.Popen` leaves. A transport that
-- is closed with bytes to write keeps its descriptor; that it is closed later is not followed in Connect.
-- `os.stat` and `os.unlink` of a socket file are one step, `_watch` is taken not to raise, and no pid comes
-- again that a poll of `Popen.send_signal` made free before the reaper polled its process.
--
-- Not modelled: the C loop but for the tests of its `close`, what asyncio's subprocess transport does with a
-- child, what an SSLProtocol does with its bytes, the Zig extension but for the closing of a
-- transport and the marks of its write buffer, libuv itself, the ssl module, the contents of messages, and reprs and properties
-- that only read. A protocol factory is taken not to call back into the server that runs it.
pub mod Base
pub mod Connect
pub mod Instrumentation
pub mod Loop
pub mod Processes
pub mod Sendfile
pub mod Server
pub mod Signals
pub mod Sockets

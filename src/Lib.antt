-- ===== src/Lib.antt =====
-- Verification library of php-websocket, a PHP extension with a WebSocket protocol codec, a
-- connection object and a single-threaded server.
--
-- The program's parts, and the modules that model them:
-- * websocket_protocol.c (Protocol): frames and their encoding. `pack_payload` packs a payload
--   (Protocol/Frame, with `encode` and `pack`, the PHP methods), `unpack` is what `Protocol::decode`
--   and `Protocol::unpack` run (Protocol/Unpack), with masking (Protocol/Mask), UTF-8
--   (Protocol/Utf8), close payloads (Protocol/Close) and opcodes (Protocol/Opcode). Exceptions are
--   values (Protocol/Result). Protocol/Header and Protocol/RoundTrip hold the lemmas on what is
--   packed, Protocol/Mask/Laws and Protocol/Utf8/Correct those on the other two.
-- * websocket_connection.c (Connection): the connection object (Connection/State), its write queue
--   (Connection/Queue), `send_frame` and `send_close_frame` (Connection/Send), and the PHP methods
--   (Connection/Methods). Connection/Stream, Flush, Sound, Sent, Refused and Delivered hold the
--   lemmas on the queue and the bytes on their way, Connection/Willing, Progress and Drained those
--   on a kernel that takes bytes again and again.
-- * websocket_server_runtime.c (Server): the parser of client frames (Server/Frames), messages,
--   fragments and the loop over the read buffer (Server/Messages), the loop over `recv` and the
--   read buffer's growth (Server/Reads), options, time limits and heartbeat (Server/Timers), the
--   operations on a connection as steps (Server/Reachable), the responses that the server writes
--   itself (Server/Answers), the handshake with the application (Server/Handshake), the closing and
--   the purge of connections (Server/Connections), accepting (Server/Accept), a pass over the
--   connections (Server/Round), and the main loop with its end (Server/Loop).
-- * websocket_http.c (Http): the parser of the upgrade request (Http/Text, Http/Tokens,
--   Http/Upgrade), its laws (Http/Lines; Http/Asked, Written, Trusted and Accepted), and the headers
--   as the application sees them (Http/Headers, with Request::header of websocket_server.c).
-- * websocket_server.c (Api): the PHP classes of the server: options (Api/Options), subprotocols,
--   listen, run and stop (Api/Server), and the handshake response (Api/Responses). PHP's values
--   are strings or something else, and exceptions are values (Api/Values).
-- * drivers/ (Drivers): drivers/poll.c and drivers/select.c keep tables of watched descriptors
--   (Drivers/Poll, Drivers/Select), with the laws in Drivers/Poll/Watches and Refines and in
--   Drivers/Select/Agrees and Ready. drivers/epoll.c and drivers/kqueue.c leave the watch set to
--   the kernel (Drivers/Epoll, Drivers/Kqueue): the system calls are functions on a kernel's state,
--   and what they are documented to do stands in Drivers/Epoll/Kernel and Drivers/Kqueue/Kernel, for
--   the laws of Drivers/Epoll/Watches, Drivers/Kqueue/Loop and Watches. The system calls of the
--   waits are parameters. websocket.c chooses one of the drivers (Drivers/Choice).
-- * Tests holds runs of the definitions and the theorems at concrete inputs. Base has the shared
--   names, byte strings, integers and bits.
--
-- How they interact: the server reads bytes into the connection's read buffer, parses frames from
-- it, gathers fragments in the connection and calls the application's handler; handler, control
-- frames and time limits send through the connection, which packs with the protocol's
-- `pack_payload` and keeps in its queue what the kernel does not take. In front of the frames the
-- handshake reads the request with the parser of websocket_http.c, asks the application, and
-- writes its answer to the socket itself. The main loop waits on the driver, accepts or reads what
-- is ready, goes over all connections, and purges those that are closed.
--
-- State and operations: a function of the source that changes an object is a function from the
-- object's record (and `Net`, what is outside of it) to the new one, with the source's result in
-- front. The kernel is a script of answers: `sends` for `send`, `watches` for the driver's
-- `watch_write`, a list of `Recv` for `recv`; a script that has run out answers that the call would
-- block. `wire` is what the kernel has taken, in the main loop of all connections together. A round
-- of the main loop takes from outside what `wait`, `accept`, `recv` and the clock answer, and
-- whether the server still runs (Server/Loop `Turn`). The application's handlers, the random mask,
-- base64 and the accept key's digest are parameters. Bytes are natural numbers, with `IsBytes` for
-- their range where it matters; `size_t` is 64 bits wide, and the machine's byte order is the
-- parameter `Endian`. Memory that cannot be allocated is not modelled.
--
-- The application's handlers are functions of the connection that they are called with. A PHP
-- closure can keep other connection objects, and close them or send to them from its calls; such
-- handlers are not modelled, and what is said of the server's passes over its connections holds for
-- handlers that act on their own connection only.
--
-- Fuel: the loop over the read buffer has fuel for its bytes, since every frame takes at least
-- four of them; the doubling of the read buffer has fuel for the bytes needed, since it adds at
-- least one; the loop over a request's lines has fuel for the bytes of the request, since every
-- line takes at least two; the loops over `kevent` have fuel for the interrupts that can still come.
--
-- Not modelled: the making of the listener, the random mask and the accept key, which are system
-- calls and the engine's functions; the setters of closures; the getters of a connection's id and
-- remote address; the registration with the engine; reference counts and the cached strings of a
-- connection.
pub mod Base
pub mod Protocol
pub mod Connection
pub mod Server
pub mod Http
pub mod Drivers
pub mod Api
mod Tests

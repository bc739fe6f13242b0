-- ===== src/Lib.antt =====
-- A verification library for noray, the server under noray/ that introduces the players of a game to
-- each other and relays UDP datagrams between those that cannot reach each other.
--
-- The program. A host registers over TCP ('register-host') and gets an open and a private identifier.
-- It sends its private identifier to the UDP registrar, which thereby learns the host's address. A
-- client names the host's open identifier: 'connect' tells both parties each other's address, and
-- 'connect-relay' makes a relay for each and tells both the other's port. A relay is a bound UDP socket
-- on a port: a datagram that arrives there from the address of another relay is sent on from that
-- relay's port. Limits on bandwidth, lifetime and traffic are listeners of the relay handler's events;
-- a periodic job frees relays that are idle; a datagram from an unknown sender makes a relay for it.
--
-- The files, and the code that they are about (below noray/src/):
--   Base                  lists, texts, keyed stores (JavaScript's Map, in insertion order), and
--                         actions: a state passed on, with a result or the error that was thrown
--   Relay/Address         relay/net.address.mjs: NetAddress, its equals, toString and fromRinfo
--   Relay/Entry           relay/relay.entry.mjs: RelayEntry, its equals and id
--   Relay/Pool            relay/udp.socket.pool.mjs: getPort is get_port, returnPort return_port, etc.
--   Relay/Limiter         relay/bandwidth.limiter.mjs: validate
--   Relay/Handler         relay/udp.relay.handler.mjs: createRelay, freeRelay, clear; relay and the
--                         sockets' 'message' listeners in Relay/Handler/Transmit
--   Relay/Constraints     relay/constraints.mjs: the limits, as the listeners of 'transmit' and 'destroy'
--   Relay/Cleanup         relay/udp.relay.cleanup.mjs: cleanupUdpRelayTable
--   Relay/Dynamic         relay/dynamic.relaying.mjs: #handle up to its await is handle, the rest resume
--   Repository            repository.mjs: add, update, find, list, remove, the mappers and the merger
--   Hosts                 hosts/host.entity.mjs and hosts/host.repository.mjs
--   Server/Hosting        hosts/host.commands.mjs: 'register-host', and the socket's 'close'
--   Server/Connecting     connection/connection.commands.mjs, and the reactor's onError of noray.mjs
--   Server/Registrar      relay/udp.remote.registrar.mjs: #handle
--   System                relay/relay.mjs: start, the events in any order, and the listener of 'close'
--   Lifecycle             noray.mjs with the hooks of its modules, metrics/metrics.mjs, relay/relay.mjs,
--                         hosts/host.mjs and connection/connection.mjs, and bin/noray.mjs (in noray/)
--   Metrics               metrics/metrics.mjs: the answer to a request
--   Taplog                scripts/taplog.mjs (in noray/): the two patterns and the listeners
--   Config                config.parsers.mjs: boolean and enumerated; integer in Config/Numbers, number in
--                         Config/Numbers/Decimals, byteSize and duration in Config/Units, ports in
--                         Config/Ports; config.mjs and the level of logger.mjs in Config/Settings
--   Utils                 utils.mjs: memoize, chunks, range, combine, formatByteSize, formatDuration and
--                         generateWordId; assertions.mjs; sleep, asSingletonFactory and withTimeout
--                         in Utils/Timing
--   Wordlist              wordlist.mjs: the words, in parts
--   Tests                 the theorems at concrete states
-- A component's file has its state and operations; the files below it are named for what they prove.
-- Relay/Handler/Frame and Server/Frame say which properties the methods keep by what they write, and
-- System/Induction carries such a property over every history of events; System/Framing does so for a
-- property of the relays alone.
-- Relay/Handler/Accounting counts the ports that the operations of the handler keep, and
-- Relay/Handler/Releasing says what freeRelay does in a well-formed handler;
-- Relay/Handler/Refinement has the map from addresses to ports that the handler implements.
-- Relay/Handler takes the listeners of others as the parameter `Listeners`; Relay/Constraints and
-- Relay/Dynamic provide them, and System puts them together.
--
-- How the code is read. Times are whole microseconds and each event reads the clock once. Sizes are
-- bytes. A text is its list of UTF-16 code units. A port that is not set is 0. The free ports are kept
-- with the array's end first, where push and pop work. Metrics and datagrams that are sent are effects
-- in a trace, newest first. An object that the code changes in place is changed in the store that holds
-- it. An error that a listener throws ends the event; System records an error that nothing catches,
-- thrown or rejected, in `crashed`, after which no event has an effect, as Node stops the process.
-- Parameters stand for what is not in the repository: the identifiers that the generators return, the
-- port that the operating system binds, the text that the TCP library reads from a command, nanoid's
-- alphabet, and the random indices of generateWordId. System takes its settings as whole numbers of
-- microseconds and bytes; Config keeps a number as the decimal that was read, and a product or a
-- quotient of doubles by its two parts.
--
-- Bounds and fuel. Numbers are naturals without a bound: ports are at most 65535, and the times and
-- sizes in question are integers that doubles hold exactly. The bounds of setTimeout, from 1 ms to
-- 2147483647 ms, are in Utils/Timing; every other delay is a millisecond. Loops are recursion on a list. The one
-- recursion on fuel is the printing of a decimal number, with the number's successor as its fuel; that
-- this is enough follows from reading the digits back (Base/Texts/Decimal). An array that is made by its
-- length has fewer than 2 ^ 32 elements, as JavaScript demands.
--
-- Not modelled: logging, the metrics registry and the durations that the handler measures, which are
-- output; the connections of the TCP library, whose commands reach System as events; the clock and the
-- timers, which are the runtime's, so that a promise is what it settles to and after how long, and the
-- start of noray is the sequence of what the runtime reports; what the commands that Taplog feeds do; the
-- client in Rust.
pub mod Base
pub mod Relay
pub mod Repository
pub mod Hosts
pub mod Server
pub mod System
pub mod Lifecycle
pub mod Taplog
pub mod Metrics
pub mod Config
pub mod Utils
pub mod Wordlist
mod Tests

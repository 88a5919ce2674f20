-- ===== src/Lib.antt =====
-- lwproxy, a proxy that carries UDP and a few TCP services over WebSocket and WebTransport.
--
-- A client asks for an address of the private network and gets a passcode with it; with the passcode
-- it binds ports, and a bound link then carries frames, each a datagram with the address of the other
-- end. Frames to an address of the private network go to whoever bound it; all others go out through
-- a translation task, and replies come back by the same task.
--
-- The files, and the code that they model (paths from the root of the repository):
--   Frame, Frame/*          src/service/net/packet.rs: `Frame` and its `encode` and `decode`
--   Code, Code/*            src/service/net/code.rs: addresses, `Passcode`
--   Network, Network/*      src/service/net/network.rs: `NetworkState`, `Network`, `BindHandler`
--   Translate, Translate/*  src/service/net/network.rs: `translate`, `relay_reply`
--   Dns, Dns/*              src/service/dnsproxy.rs: `DNSProxy`
--   Connect, Connect/*      src/service/connectproxy.rs: `ConnectProxy`
--   Lease, Lease/*          src/service/lease.rs, and the leases of the services
--   Service, Service/*      src/service/service.rs, src/service/client.rs
--   Commands, Commands/*    src/service/commands.rs: `CommandProcessor`
--   Stream, Stream/*        src/webtransport/client.rs: `WebTransportClientRunner`
--   Socket, Socket/*        src/websocket/client.rs: `WebSocketClientRunner`
--   Proxy, Proxy/*          the tasks of all clients, in both clients' `run` and `run_inner`
--   Startup, Startup/*      src/settings.rs, src/main.rs, and which listeners they start
--   Endpoint                src/websocket/listener.rs, runner.rs, and the same of src/webtransport
--   Listen, Listen/*        the accept loops, and all listeners with the proxy
--   Text, Text/*            `str` and `[u8]`, on ASCII text
--   IpText                  `IpAddr` from text and `Ipv6Addr` to text, as in `core::net`
--   Wire, Wire/*            the `bytes` crate as an interface with laws, and numbers as bytes
--   HashMap, HashMap/*      `std::collections::HashMap`
--   Net                     `std::net` addresses
--   Result                  `anyhow::Result`, with panics as a third outcome
--   Base, Base/*            shared names, tests and lists
--   Tests, Tests/*          runs, and each theorem at a concrete input
--
-- An operation on the tables is a function from the tables to the tables, as each holds the lock from
-- its first read to its last write. Readings of the clock, new channels and the answers of sockets
-- and channels are arguments; what is done to sockets and channels is a list of effects. The
-- generator of random numbers is the parameter `Rng`, the `bytes` crate the parameter `Buf`; both are
-- records whose laws are what their documentation says, and Tests and Wire/Model meet them.
-- The two loops that draw until a draw fits, in `random_address` and `assign`, take fuel; their
-- theorems say which fuel is enough for the draws at hand.
--
-- A client's session is a function from events to a turn, which says whether the session goes on, and
-- to the effects in their order. Events carry what the transport, the channels and the circumstances of
-- a command answer, so that a theorem on all events holds in all orders in which they may come.
-- The tables in a session are those of all clients. What others do to them between its turns is an
-- event as well; within a turn, which may carry out several commands, no other client's turn falls:
-- where one falls between two commands of a read, the read is taken as two events.
-- Proxy puts the sessions together: each step is a turn of one client's task in the world as the
-- others left it, and the steps of all clients come in any order. A channel that a step
-- makes is one that no task reads yet: `unbounded_channel` makes a new one.
--
-- A `HashMap` is iterated over in the order of its entries, which the standard library leaves open;
-- Network/Views has the tables of the network without that order.
--
-- At start-up, the files, what the libraries read in them and the certificates that they generate are
-- the parameter `Files`; whether `rustls` installs its provider is an argument.
--
-- Endpoint has one listener, which start-up makes and starts. Listen puts all listeners and the proxy
-- together: accept loops turn connections into clients of the proxy.
--
-- Not modelled: logging, the parsing of the command line, TLS and the handshakes of the transports,
-- which are calls of libraries.
mod Base
pub mod Text
pub mod IpText
pub mod Result
pub mod HashMap
pub mod Net
pub mod Wire
pub mod Frame
pub mod Code
pub mod Translate
pub mod Network
pub mod Dns
pub mod Connect
pub mod Lease
pub mod Service
pub mod Commands
pub mod Stream
pub mod Socket
pub mod Proxy
pub mod Endpoint
pub mod Startup
pub mod Listen
mod Tests

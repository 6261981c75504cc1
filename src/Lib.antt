-- ===== src/Lib.antt =====
-- Lightway, a VPN protocol, and the parts of it that this library models.
--
-- The program: a client and a server exchange packets that begin with a header (lightway-core/src/wire.rs).
-- Inside them are frames: authentication, data, fragments of data, pings, negotiation. The core decodes the
-- frames from a borrowed buffer (lightway-core/src/borrowed_bytesmut.rs), puts fragments together
-- (lightway-core/src/connection/fragment_map.rs), and finds the largest packet that the path carries with
-- pings of growing size (lightway-core/src/connection/dplpmtud.rs). Packets of the express lane carry
-- counters, which a sliding window (lightway-expresslane/src/replay_window.rs) accepts once each, in a session
-- (lightway-expresslane/src/session.rs) whose keys the connection (lightway-core/src/connection.rs) exchanges,
-- rotates and gives up when the path is unhealthy. The client
-- keeps the connection alive with pings of its own (lightway-client/src/keepalive.rs). The server hands out
-- addresses (lightway-server/src/ip_manager.rs) and finds the connection of a packet by its address or its
-- session (lightway-server/src/connection_manager/connection_map.rs). Where an address of a packet is rewritten,
-- its checksum is updated (lightway-core/src/utils.rs).
--
-- Base.antt, Base/: names and lemmas that the modules share: lists indexed by native numbers, Boolean tests,
-- bits of numbers, association lists.
--
-- Wire.antt, Wire/: lightway-core/src/wire.rs and lightway-core/src/wire/. Wire/Buffer.antt is the
-- `BorrowedBytesMut`: its decoders return a value, an error or `panic`, which is an assertion of the source
-- that fails, and carry the buffer along. A `BytesMut` is the list of its bytes, a string the list of its
-- UTF-8 bytes. Integers are written big-endian by the `bytes` crate: Wire/BigEndian.antt is an interface with
-- the laws that its documentation gives, and Wire/Bytes.antt fills it with a definition that computes. A file
-- for each frame has its `try_from_wire` and `append_to_wire`; Wire/Frame.antt is the `Frame` that holds them
-- all, Wire/Header.antt the header. Wire/Reads.antt and Wire/Steps.antt hold the rules by which a decoder
-- reads back what was written, Wire/Safety.antt those by which it fails no assertion.
--
-- Versions.antt, Versions/: lightway-core/src/version.rs and lightway-expresslane/src/version.rs.
--
-- Replay.antt, Replay/: lightway-expresslane/src/replay_window.rs. Replay/Slots.antt is about single slots of
-- the bitmap, Replay/History.antt about the counters that were accepted.
--
-- Expresslane.antt, Expresslane/: lightway-expresslane/src/. Expresslane/Aead.antt has the errors, the keys and
-- the cipher's trait, an interface: what is sealed opens under the same key, lengths are kept, tags have 16
-- bytes. Expresslane/Session.antt is the session with its keys and counters, Expresslane/Packets.antt its data
-- path. A method on `&self` answers the new session, and Expresslane/Histories.antt lists calls in the order
-- in which they take effect. Expresslane/Cipher.antt fills the interface for the tests. The
-- trait's default `seal_into` and `open_into` are modelled, not their overrides in
-- lightway-expresslane/src/aead/pool.rs.
--
-- Connection.antt, Connection/: lightway-core/src/connection.rs with lightway-core/src/connection/. Each file
-- takes the fields of a connection that its part uses: Connection/Encoding.antt the codec's switch,
-- Connection/Lane.antt, Connection/Configs.antt and
-- Connection/Health.antt the express lane, Connection/KeyUpdate.antt the clock of
-- key updates, Connection/Inside.antt packets of the express lane between the wire and the inside,
-- with the list of plugins (lightway-core/src/plugin.rs),
-- Connection/Errors.antt the classes of errors. A method answers the new state, its effects
-- (events, frames, ticks, published keys) and its result; where it ends in `send_frame_or_queue`, that call is
-- its result. Time, random keys and the reading of a statistics provider are arguments. The loss ratio, a
-- quotient of floats in the source, is compared in integers, which agree below 2^52 packets.
--
-- Fragments.antt, Fragments/: lightway-core/src/connection/fragment_map.rs. The cache of the `lru` crate is
-- the interface `LruCache`, with the laws that an entry is what was stored, or was evicted. The loop over the
-- stored fragments is structural recursion on them. Connection/Fragmenting.antt is the other end, which splits
-- a packet.
--
-- Dplpmtud.antt, Dplpmtud/: lightway-core/src/connection/dplpmtud.rs. The caller's timer is the last thing
-- that it was told. Integers of 16 bits wrap where the source adds to them. Dplpmtud/Rounds.antt follows the
-- search on a path that answers the probes it carries and loses the others.
--
-- Keepalive.antt, Keepalive/: lightway-client/src/keepalive.rs, one step for each branch of the `select!`.
-- The runtime, which chooses the branch, is a list of events; the channel and the timers are outside.
--
-- IpManager.antt, IpManager/: lightway-server/src/ip_manager/ip_pool.rs and lightway-server/src/ip_manager.rs.
-- A network of the `ipnet` crate is the list of its hosts with two addresses, and a subnet a test. The lock
-- around the manager makes each operation one step. `new` of the manager is `new_manager`, `free` is `release`;
-- the methods of the trait, on the state of a connection, are in IpManager/States.antt.
--
-- ConnectionMap.antt, ConnectionMap/: lightway-server/src/connection_manager/connection_map.rs. A socket
-- address is a number, and so is a session identifier. `VacantEntry::insert` is `insert_vacant`.
--
-- Checksum.antt, Checksum/: the incremental update of checksums in lightway-core/src/utils.rs. `Sub` is `sub`.
--
-- Fuel: the loop that splits a packet runs on the length of the packet, which is enough where fragments have a
-- positive size; every other loop runs over a list, a number of bits or events that are given.
--
-- Not modelled: logging, metrics and capacity hints (`reserve`), which change nothing that is returned;
-- `debug_assert`, which release builds leave out, unless a definition says so; random session identifiers;
-- sockets, tunnels, routes and timers of the operating system; the TLS library and the authentication back
-- ends; of lightway-core/src/connection.rs the TLS session with its queue of frames, authentication, what a
-- plugin does with a packet, and the packet paths other than those of the express lane and of fragments.
pub mod Base
pub mod Replay
pub mod Wire
pub mod Versions
pub mod Keepalive
pub mod Dplpmtud
pub mod Fragments
pub mod IpManager
pub mod ConnectionMap
pub mod Expresslane
pub mod Connection
pub mod Checksum

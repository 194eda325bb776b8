-- ===== src/Lib.antt =====
-- A model of the RakNet library: the 24-bit numbers and the sequence order (src/protocol/uint24.rs),
-- the packet ids and classes (src/protocol/packet.rs), the messages of src/protocol/magic.rs and
-- src/protocol/codec.rs, the frame codec (src/protocol/frame.rs), the
-- reliability levels (src/reliability/levels.rs), the ranges of acknowledged numbers and the ACK and
-- NACK packets (src/reliability/ack.rs), the ordered channels (src/reliability/ordered.rs), the queue of
-- unacknowledged packets (src/reliability/send_queue.rs), the reassembly of split packets
-- (src/reliability/fragment.rs), the receive window (src/reliability/recv_window.rs), the state of a
-- connection (src/state/connection.rs, src/state/metrics.rs, src/state/shared.rs), the handlers and the
-- tasks of a connection (src/connection.rs), the listener (src/listener.rs), the client
-- (src/client.rs) and the making of sockets (src/socket.rs).
--
-- How the parts interact: the listener answers the requests of a handshake and makes a connection. A
-- datagram that arrives at a connection has its sequence number checked against the `RecvWindow`, so that
-- a repeated one is dropped, and noted for the next ACK, an
-- `AckRangeList` that `encode_ack` writes and the peer's `decode_ack_nack` reads. The frames of the
-- datagram are read by `Frame::decode`; the level of a frame says which indices it carries. The
-- fragments of a split packet are collected by the `FragmentQueue`; the
-- payload of an ordered frame goes through the `OrderedChannel` of its channel number. On the sending
-- side a payload that is too long for one frame is cut into fragments, and a datagram waits in the
-- `SendQueue` until a range of an ACK covers its number; a tick sends it again when it waits too long.
-- All handlers of a connection work on one `SharedState`.
--
-- Files:
--   Base, Base/*            Booleans, lists, results of fallible code, bits of numbers, sorted maps.
--   Protocol/Uint24, /*     `u24`: Laws (arithmetic), Bytes (byte orders), Sequence (`seq_less_than`,
--                           `seq_in_range`), Atomic (`AtomicU24`, one indivisible step per call).
--   Protocol/Packet         the ids, the flags and `is_datagram`, `is_ack`, `is_nack`.
--   Protocol/Buffer, Reads  the interface of the `bytes` crate, with its documented laws, and what
--                           follows from them; Buffer/Reference has an instance of it.
--   Protocol/Frame, /*      `Frame`, `encode` (Encode) and `decode` (Decode).
--   Protocol/Magic, Codec   the magic and the unconnected messages; Codec/Pings has their round trips.
--   Protocol/Address        socket addresses on the wire.
--   Protocol/Opening, Login the messages of the handshake, and of the login and the connected pings.
--   Protocol/Safety, /*     what any bytes from the network may do to the decoders.
--   Protocol/Datagram       datagrams; in each of these folders, RoundTrip decodes what was encoded.
--   Reliability/Levels      `Reliability`.
--   Reliability/Ack, /*     `AckRange` and `AckRangeList`: Spaced (well-formed lists and what they
--                           hold), Place and Insert (`insert`), Canonical, Sequences, Codec (the packets).
--   Reliability/Ordered, /* `OrderedChannel`: Drain (its loop), Delivery (one call), Exactly (whole
--                           histories), Limits (its queue).
--   Reliability/SendQueue, /*  `SendQueue`: Ranges (`acknowledge_range` and the ranges of an ACK),
--                           Orderly (its limit and its order) and History (all histories).
--   Reliability/Fragment, /* `FragmentQueue`: Joined (the fragments of a packet), Reassembly,
--                           Limits (the number of its splits).
--   Reliability/BitVec      the interface of the `bitvec` crate, and an instance of it.
--   Reliability/RecvWindow, /* `RecvWindow`: Marks (the bits that a call sets), Verdict (its outcomes).
--   State/Connection, /*    `ConnectionState` and its atomic cell: Lifecycle (its transitions).
--   State/Metrics, Shared   `ConnectionMetrics` (Average: the round-trip time) and `SharedState`.
--   Connection/World        what a function of a connection reads and changes: an `Action` is a function
--                           on a `World`, which holds the `SharedState`, the packets that were sent and
--                           the payloads that were delivered; `?` and panics keep the changes made.
--   Connection/Sending, /*  `send_reliable_frame`, `send_fragmented`, `send_task`; Chunks (the pieces).
--   Connection/Frames, /*   `handle_frame` and what it calls; Channels (ordered frames).
--   Connection/Receive, /*  `handle_packet`, `handle_datagram`, `handle_ack`, `receive_task`; Acks,
--                           Arrival and Delivery (datagrams), Fuel (the loop over the frames).
--   Connection/Ticking, /*  `tick_task` and what it calls, `close`; Flush (`flush_acks` and the peer), Resend
--                           (`check_retransmissions`).
--   Connection/Stream, /*   `RakNetStream` and its calls; Ended (the tasks after the end).
--   Connection/Sharing, /*  the steps of the tasks on the shared state: Sound and Invariant (what every
--                           step keeps), Traces (the handlers are made of these steps), Tasks.
--   Connection/Transfer     from the sending side of one connection to the receiving side of another.
--   Socket, /*              the making of sockets: Options (what is set).
--   Client, /*              `connect` and its steps; Discovery (`discover_mtu` and `connect`),
--                           Agreement (a client that meets a listener).
--   Listener, /*            `RakNetListener` and its handlers; Handshake (what a peer is answered),
--                           Keeps, Peers and Table (the table of connections), Overlap (handlers that
--                           overlap: Histories, Race, Settled).
-- A folder's Examples are its tests. Functions and types have the names of the source.
--
-- Numbers: all machine integers are natural numbers; wrap-around is written out (`wrapping_add32`,
-- `% 2 ^ w`), and plain `+` that overflows is a panic where the source can reach it. A fallible
-- function gives a `Result` with `ok`, `err` and `panic`. A `&mut` argument is a result.
-- Instants and durations are numbers of one unit, microseconds in a connection, and the clock is an
-- argument; the 64-bit counters of the queues and the window do not wrap. A `BTreeMap` is an association
-- list in the order of its keys.
-- The socket, the clocks and the peer's address of a connection are the parameter `Env`, the sockets
-- of the listener are `Sockets`, what the client's socket takes and gets is
-- `Network`, and the calls that make a socket are `Socket2`. A task is a
-- function over the packets or payloads that it gets, or over the clocks of its rounds. The tasks of a
-- connection interleave at the borders of the steps of Connection/Sharing, each of which is one access
-- to an atomic or the use of one lock; a theorem on a whole handler is about a handler that runs alone.
-- A packet is cut to the 2048 bytes of the buffer by `receive_task`; those that the listener and the client
-- get are what their buffers hold. What the tasks of a stream do while `connect` still works on it is a
-- part of `Network`.
-- The handlers of the listener run in one piece, and in Listener/Overlap the handler of the second
-- request runs in two, so that several of them overlap.
-- The loop over the frames of a datagram has the number of bytes as fuel: a frame takes bytes off the
-- buffer. The loop of `OrderedChannel::insert` takes a packet from the queue in every round: the length of
-- the queue is fuel enough. The loops over ranges run once per number.
--
-- Not modelled: memory orders, formatting and printing, rates in f64 and the timers. What a task does
-- between two of its steps is fixed by its handler only when the handler runs alone: on interleaved histories the
-- theorems are about the shared state, not about the packets that are sent.
pub mod Base
pub mod Client
pub mod Connection
pub mod Listener
pub mod Protocol
pub mod Reliability
pub mod Socket
pub mod State

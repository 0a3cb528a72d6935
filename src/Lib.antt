-- ===== src/Lib.antt =====
-- Verification of ubass-rs, a protocol for streams of bytes over UDP: packets with a byte format that
-- macros derive, buffers that are filled chunk by chunk, and parity packets that make up for loss.
--
-- How the parts interact. A sender reads its track from a `ReadableBuffer` (src/api/types.rs) in
-- chunks of 1368 bytes. Each chunk becomes a `DataPacket` (src/manager/packets.rs), is added to a batch
-- of the error correction (src/packet_processor/fec), and is written by the `Serialize` trait
-- (src/packet_processor/serialize.rs), which ubass_macros/src/lib.rs derives for every packet. The
-- receiver reads the packet, adds it to its own batch, and writes the payload to a `WriteableBuffer`; a
-- packet that is lost is recovered from the parity of the batch.
--
-- Files, and the code they model:
--   Base           numbers, lists, bits, and `Outcome`: `Ok`, `Err(())` or a panic.
--   Wire           Wire/Codec is src/packet_processor/serialize.rs; Wire/Derive is what the derive macros
--                  of ubass_macros/src/lib.rs generate; Wire/Laws, Wire/Structs and Wire/Enums say when
--                  a format is lawful and that the macros keep it so.
--   Packets        src/manager/packets.rs: Packets/Kinds (the enums), Packets/Scalars (the one-field
--                  structs), Packets/Flags (`Options`), Packets/Streams, Packets/Control,
--                  Packets/Handshake, Packets/Replies (the packets), Packets/Packet (`Packet`, and the
--                  `serialize!` macro of src/packet_processor/outbound.rs), Packets/New (the
--                  constructors).
--   Buffers        src/api/types.rs: Buffers/Areas (`Area` and its use in `occupy`), Buffers/Writeable
--                  (`WriteableBuffer`), Buffers/Readable (`ReadableBuffer`), Buffers/Transfer (one
--                  buffer written from the other).
--   Fec            src/packet_processor/fec/mod.rs (the data of a packet) and, in Fec/Batch,
--                  src/packet_processor/fec/xor.rs (the batches); Fec/Xor has the maps of open batches.
--   Clock          `Timestamp` of src/manager/types.rs.
--   Retransmit     `ByteRange::concat` of src/manager/packets.rs, and `coalesce_byte_positions` and
--                  `split_range_into_chunks` of src/manager/state.rs.
--   State          src/manager/state.rs: State/Requests (`StreamingFrom`), State/Fingerprints
--                  (`FingerprintWindow`), State/Acks (`PendingAckWindow`, and the fingerprints of
--                  packets), State/Batches (`SessionFecState`), State/Dispatch
--                  (`dispatch_retransmit_request`), State/Streams (`StreamState` and
--                  `ConnectionStates`, with `received_data_packet` in State/Streams/Received and
--                  `recovered_packet` in State/Streams/Recovered), State/Addresses
--                  (`AddressSessionIdTable`), State/Sessions (the tables of `ProtocolState`),
--                  State/Sending (the events and ticks of `send_on_session`),
--                  State/FecPrune (a round of `FecPruneTask`).
--   Examples       runs of the theorems on small inputs.
--
-- How state and operations correspond. A struct is a record with the source's fields, a method that
-- changes it returns the new record. A build is told by `debug`: with debug assertions and overflow
-- checks, which panic, or without them, where `u32`s wrap around. Positions are `u32`s; `usize`s are
-- taken to be large enough for the sizes of lists. A byte is a number below 256 where that matters.
--
-- A session that receives: `received_data_packet` writes the payload to the `WriteableBuffer` of its
-- `StreamingFrom`, notes the batch in its `SessionFecState`, and asks for what is missing by
-- `finalize_sweep_pick` or `score_policy_pick` and `dispatch_retransmit_request`. At its end it gives the
-- packet to `received` of the error correction, whose map of open batches is an argument. What is sent is a
-- list of packets and addresses, and the message that a stream shows to the application is part of its state.
--
-- Time is a number of milliseconds that an operation gets as its argument. In State/Acks the address of a
-- session and the hash are functions; which identifiers are drawn at random is an argument too.
--
-- Bounds and fuel. `send_all` calls `next` until it returns `None`: one call more than there are chunks
-- is enough. `split_range_into_chunks` runs its iterator `length / 1368 + 2` times at most, which is more
-- than a range has chunks. `chunks` of a list has as many steps as the list elements. The theorems on
-- buffers hold for sizes below 2³² - 1368, beyond which a position of the code does not fit a `u32`.
--
-- Not modelled: sockets, tasks, channels and most locks: each call on the maps of batches, on a stream, on
-- the tables of sessions and on the window of acknowledgements is one step, and only the window of
-- fingerprints is split at its locks; the cipher; the scores of areas, which are floating point;
-- Reed-Solomon coding, which is an external crate's, as is the hash of fingerprints; what an `Err`
-- leaves in a buffer; the routines of the manager; and the pipelines of the packet processor.
pub mod Base
pub mod Wire
pub mod Packets
pub mod Buffers
pub mod Fec
pub mod Examples
pub mod Clock
pub mod Retransmit
pub mod State

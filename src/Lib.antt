-- ===== src/Lib.antt =====
-- A verification library for tinyproto: framing of messages for serial links, the full-duplex protocol
-- above it, and the simpler protocols for one frame at a time.
--
-- Base: names of the libraries passed on, tests on native numbers, lists, bits and codes.
-- Crc models src/proto/crc.rs: the two tables, `Crc8`, `Crc16` and `Crc32` with `new`, `reset`,
--   `sum_byte`, `sum_bytes` and `get`, and `get_crc_field_size`. A checksum is a record with the
--   register. Crc/Register has the bit-serial register that the tables are compared with.
-- Error models src/proto/error.rs: `from_code` and `to_code`, with the codes as integers.
-- Hdlc/Stuffing has the escaping that both framers share.
-- Hdlc/Ll models src/proto/hdlc/low_level_ll.rs. `HdlcLl` is a record with the source's fields, and each
--   method gives its result and the new record. Defs: creation, `reset` and the queues. Rx: `run_rx`, by
--   recursion on the bytes; the round of state End, which takes no byte, is `settle`. Tx: `run_tx`,
--   where an output slice is given by its length and the result is the bytes written; `none` stands for
--   a panic or for running out of the fuel 3 n + 3 for n bytes. Every byte takes at most three rounds, two
--   of which only change the state, and so the fuel is enough. Link joins a transmitter and a receiver.
-- Hdlc/High models src/proto/hdlc/high_level.rs: `Hdlc` with its events and callbacks. The callback of the channel is
--   a parameter, as in Light, and the loops over it run on fuel; a wait without a limit for a bit that is not set is
--   `none`. Notify and Reads have the callbacks, Exchange joins two handles.
-- Hdlc/Encoder models src/proto/hdlc/low_level.rs: `encode` and `decode`.
-- Hdlc/Frame models src/proto/hdlc/frame.rs: `HdlcFrame` with `new`, `push` and indexing by a number.
-- Hdlc/Node models src/proto/hdlc/node.rs: `Pipeline` over any type of nodes with the interface `NodeInterface`, a
--   parameter. Chain describes what it links.
-- Light models src/proto/light.rs: `send` and `read` over channel callbacks that are parameters, with a
--   clock that tells the time since the call began; the loops run on fuel, and a round of `read` is one call of
--   its callback.
-- Fd models the data structures of src/proto/fd. Defines: the constants and states of defines.rs. Frames:
--   the headers and queued frames of frames.rs. IQueueControl: i_queue_control.rs, the sequence numbers of
--   the sliding window; the loop of `confirm_sent_frames` has the fuel 8, which is enough for numbers
--   of three bits. FrameQueue: frame_queue.rs, with a slot as an option. Peers: peers.rs, with
--   the clock as an argument in milliseconds.
-- Fd/Protocol models src/proto/fd/protocol.rs: the handle `TinyFd` as a record, each method with the new
--   handle as its result, and `none` for a panic or a loop that does not end. Events: the event bits; a method
--   borrows the handle, so that no bit changes while it waits. Defs: creation and settings; a callback
--   is a flag and its calls are listed in `calls`. Send: `send_packet`, `disconnect` and the queueing of frames.
--   Connect, Handlers and Receive: what arrives, from `on_rx_data` to the handlers of U-, I- and S-frames;
--   `on_rx_data` has the fuel 2 n + 1 for n bytes, as only a frame that was pending takes a round without a
--   byte. Timers and Transmit: `get_tx_data`, with the clock as an argument. Valid has what every method keeps,
--   up to sequences of calls, and Outcome what the handlers, the timers and the calls do.
-- Fd/Delivery puts the two ends of a direction of a connection together: steps are the operations of
--   i_queue_control.rs and frame_queue.rs that protocol.rs calls, over channels that lose frames. The places of
--   the payloads are counted without a bound, and the numbers of three bits are these modulo 8. A step may tell
--   the number expected at any time; Course has the steps where only an accepted frame is answered.
-- Fd/Session puts two handles together, each with the other as its only peer, over channels that carry the
--   frames of both directions. Codes: the control bytes. Station, Framer, Sending, Confirming, Receiving and
--   Waiting: what each call does to the numbers, the queue and the deliveries of a handle. Views, Refined, Moves,
--   Arrivals and Refine: that this is a step of Fd/Delivery in either direction. Handshake and Opening: from
--   `new` to such a connection. The framer's turn is a move; the bytes of a frame go from framer to framer as in
--   Hdlc/Ll/Link. An S-frame leaves the queue by the loop of the code, and is a move if it tells its number in
--   the order in which the station came to expect the numbers, an order that the code does not always keep (see
--   Tests/Session). U-frames are under way in Handshake and Opening only.
-- Tests: runs and the theorems at concrete inputs.
--
-- Numbers are natural numbers; a cast to a byte is a remainder. Lengths of slices are not bounded.
-- Not modelled: the texts of the errors, and the examples.
pub mod Base
pub mod Crc
pub mod Error
pub mod Hdlc
pub mod Fd
pub mod Light
pub mod Tests

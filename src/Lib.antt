-- ===== src/Lib.antt =====
-- The oxisound workspace (crates/*): Rust audio, MIDI and OSC input and output. The crates exchange
-- `MidiMessage`s of oxisound-core; oxisound-smf reads them from Standard MIDI Files and writes them
-- back.
--
-- - Common: what the files share. Results holds the outcome of a fallible routine: a value, an error
--   of the source, a Rust panic, or a loop that used up its fuel. Reading is the monad of the
--   parsers, which take a cursor and return it moved. Slices are Rust's indexing and slicing, with
--   their panics. Int and Bits are the casts and masks of machine words, Utf8 is `from_utf8`.
-- - Midi: `MidiMessage` of crates/oxisound-core/src/lib.rs. Midi/Clock is `MidiClock` of the same
--   file, Midi/SysEx the reassembler of crates/oxisound-jack/src/midi_util.rs, Midi/Ports the parser
--   of incoming bytes of crates/oxisound-midi/src/lib.rs.
-- - Osc: crates/oxisound-osc, the types of src/lib.rs, the decoder of src/decode.rs (Readers the
--   low-level ones, Decode the rest, Total what holds of it on any input) and the encoder of
--   src/encode.rs (Encode). Wire says what the bytes of a packet should be, and RoundTrip joins the
--   decoder to it.
-- - Config: the device and stream configurations of crates/oxisound-core/src/lib.rs. Builders are the
--   presets and builders, Checks `validate` and `supports_config`, Selectors the device selectors,
--   Routing `apply_interleaved`, which the output callback of Cpal/Streams calls.
-- - Ring: the ring buffer of the `ringbuf` crate, as a record of operations and of the laws that its
--   documentation gives; Ring/Lists is a bounded list that has them. Jack, Cpal and Pulse take it as
--   a parameter.
-- - Jack: the MIDI ports of crates/oxisound-jack/src/midi.rs, whose input port feeds the reassembler
--   of Midi/SysEx. The buffer that an output port writes to is a parameter, a record like that of the
--   ring, whose writes can be refused. Chunks is on the pieces of a message, Loopback on its way from
--   an output port to an input port, Partial on a ring that fills up.
-- - Formats: the sample formats of crates/oxisound-core/src/lib.rs and their counterparts on the wire,
--   crates/oxisound-pulse/src/format.rs with `whole_samples` of src/model.rs;
--   Buffers, the sizes of the server's buffers, of the same file.
-- - Pulse: crates/oxisound-pulse. Samples is the conversion of samples of src/format.rs. Playback and
--   Capture are the streams of src/linux/stream.rs, each with the side of the handle and the side of
--   the reactor; Playback/Interleaved has them step by step, with Wakeup and Order on all their
--   interleavings, and Playback/Flush is the wait of `flush`. Devices is src/model.rs with
--   src/linux/device.rs: Roles on the device information, Opening on the streams that are opened,
--   Capacity on their ring. Deadline is src/timeout.rs. Env is src/env.rs, Candidates on the socket
--   that it finds.
-- - Cpal/Adaptive: crates/oxisound-cpal/src/adaptive.rs, the sizer of the stream's buffer.
--   Cpal/Streams: the output stream of src/streams.rs and the output callback of
--   src/stream_builders.rs, which share a ring buffer; Traces is on their events in any order.
--   Cpal/Duplex: the duplex stream of src/streams.rs and its resampler; Aligned is on the rings,
--   Rendering and Pump on clocks that agree.
--   Cpal/Recovery: the loop of the recovery thread of src/recovery.rs.
--   Cpal/Ranges: the supported configurations of src/config_helpers.rs and the formats of
--   src/error.rs; Support is on what they accept of a device.
--   Cpal/Watcher: the rounds of the device watcher of src/watcher.rs; Replay is on its events.
-- - Smf: crates/oxisound-smf/src/lib.rs, the types of a file. Bytes, Vlq and Parser are parser.rs,
--   function by function; Vlq and Writer are writer.rs. Valid says which files are in the ranges of
--   the format, Writer/Encoding what the bytes of a file should be, and RoundTrip joins the two.
--   Timing is timing.rs, the tempo map: Tempo on the tempo in force, Order on the table, Elapsed on
--   the time of a tick. Player is player.rs: Merge on the events with their times, Playing on the
--   loop that sends them.
--
-- A `u8`, `u16`, `u32` or `usize` is a natural number, with `% 2 ^ w` where the source casts or
-- shifts bits out; a `String` is the list of its bytes, and in Pulse/Env of its characters. An index that a byte slice bounds
-- (`*pos + n`) is taken not to overflow `usize`. Errors carry a message in the source, and one
-- constructor for each message here.
--
-- Loops: `track_loop` has the chunk's length for fuel, and each round takes a byte at least;
-- `collect_groups` has five rounds, one more than its array has room for; `read_groups` and
-- `parse_tracks` count as the source does. `decode_with_depth` spends a round for each level of
-- bundles, of which the source's own cap allows 33, and `read_elements` one for each byte of its
-- input, where an element takes four bytes at least. `send_chunks` has a round for each byte, of which
-- a chunk takes one at least, and `while_pop` one for each element of the ring and one more.
-- `flush_loop` has 2001 rounds, one for each millisecond of its limit and the first.
--
-- Threads: an operation of a stream, a callback, and a round of the recovery thread are single steps,
-- taken in any order. An atomic counter wraps at 2 ^ 64. A mutex is a value with a mark that a thread
-- panicked holding it. The handle and the reactor of a PulseAudio playback stream interleave within
-- their operations: `Step` has one step for each access to the ring, the waker's slot or the discard.
--
-- Not modelled: the rest of the audio backends (oxisound-cpal, oxisound-jack, oxisound-pulse), the
-- network and device code of oxisound-midi, oxisound-osc and oxisound-session, which call foreign
-- libraries; what waits on a clock (`flush` of the cpal stream); and the division of `bpm`, which is
-- in floating point. The seconds of the tempo map and of the player, the floats of the PulseAudio
-- formats, and those of the duplex resampler, are parameters.
pub mod Common
pub mod Config
pub mod Cpal
pub mod Formats
pub mod Jack
pub mod Midi
pub mod Osc
pub mod Ring
pub mod Pulse
pub mod Smf

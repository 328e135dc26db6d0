-- ===== src/Lib.antt =====
-- flowcat, a voice-agent runtime: frames of audio, text and control flow through a chain of
-- processors, each a loop of its own with two input lanes, from a telephone or WebRTC transport
-- through voice-activity detection and the speech and language services and back. This library
-- models the parts of it that are logic of its own.
--
-- Base holds the shared names: Boolean tests on the native numbers, lists measured by them, bytes,
-- text as code points, JSON values, decimal numerals, and the outcome of code that may return an error or panic. An
-- index past the end of a slice is a panic, so that a theorem with another outcome says that no
-- access is out of bounds. A float is its bit pattern. A number is printed on fuel, the number itself,
-- which is at least the count of its digits less one.
--
-- Frame models flowcat-core/src/processor/frame.rs: `Frame` with its class, `uninterruptible`,
-- `name`, `is_terminal` and `kind`.
--
-- Runtime models flowcat-core/src/processor/runtime.rs, and `Envelope`, `Link` and the processor's
-- interface of flowcat-core/src/processor/mod.rs. `step` is one iteration of `run_processor`: the
-- biased choice between the system lane and the other, or the exit when both are closed and empty, then
-- the arm for the frame. A processor is a
-- record of functions on its state, what the loop sends is a list, and the frame ids that the code
-- takes from a global counter are counted in the loop's state. A send to a dropped receiver, and
-- observers, are not modelled.
--
-- Rtp and its child modules model flowcat-core/src/sip/rtp.rs: the header of an outgoing packet, the
-- parser of a datagram, and the jitter buffer under Rtp.Jitter, with its 16-bit serial numbers.
--
-- Dtmf models flowcat-telephony/src/dtmf/rfc2833.rs, and Dtmf.Events the receiver and the sender of
-- flowcat-telephony/src/dtmf/mod.rs. The tone detector of dtmf/goertzel.rs filters floats, and is
-- left out.
--
-- Vad models flowcat-core/src/audio/vad.rs: `VadStateMachine` with its `u32` counts wrapping, and
-- under Vad.Stream `MockVad` and `VadProcessor`. Floats are compared by their bit patterns as IEEE
-- 754 does; division, rounding, the casts and the volume of a window are parameters. The loop of
-- `drain_windows` runs on fuel, the length of the buffer, which is enough since each turn takes a
-- window of at least one sample. The ONNX analyzer is a library's.
--
-- Turn models flowcat-core/src/audio/turn.rs but for `SmartTurn`, which runs an ONNX model: the silence
-- tracker, `MockTurn` and `TurnProcessor`, on the windows of Base.Blocks. The arithmetic of floats is a
-- parameter.
--
-- Relay models flowcat-core/src/pipeline/context_relay.rs: the processor with the tasks that it spawns, a
-- task that ends being a step of its own. What a compactor returns is an input of that step, and the
-- clock of a frame; Relay.Compactor has the compactor that asks a language model, a parameter.
--
-- Adapters models flowcat-core/src/service/adapters.rs, the processors around the services, which are
-- parameters; a stream is the list of what it yields, each frame with the interrupt flag at that time.
--
-- Codec models flowcat-core/src/codec.rs: the G.711 functions, and `Resampler` with its carry buffer
-- and its errors. rubato, the G.711 tables and the operations on floats are parameters. The loop of
-- `process` runs on fuel, the length of the buffer, which is enough since each turn takes a block.
--
-- Sdp models flowcat-core/src/sip/sdp.rs, the builders and the parser of session descriptions, on code
-- points; an address is its four numbers.
--
-- Graph models flowcat-agent/src/graph.rs: `Graph::parse` as `parse_spec`, where what serde reads of
-- the document, or why it refuses it, is a parameter, and `parse` is what follows; `outgoing` and `is_terminal`, and under Graph.Cardinality `cardinality_errors`. A
-- `HashMap` is an association list with one entry for each key; the order in which it yields its
-- values is a parameter.
--
-- Graph.Names has the display name of a node and the global prompt.
--
-- Template models the interpolation of flowcat-agent/src/engine.rs, `var_interpolate_at` and what it
-- calls; the clock of chrono with its time zones, and the text that serde_json prints, are
-- parameters. The loop over the braces runs on fuel, one more than the length of the text, which is
-- enough since each round takes at least two code points.
--
-- Engine models `Engine` of the same file: Engine.Prompt `current_prompt`, Engine.Steps the calls of
-- the host. It walks the graph of Graph and fills its prompts by Template. The Unicode table of
-- `is_alphanumeric` and the variable that serde reads are parameters beside those of Graph and
-- Template.
--
-- FcallFilter models flowcat-core/src/agent/fcall_filter.rs, with the text that serde_json prints
-- for the arguments as a parameter. Transcript models flowcat-core/src/transcript.rs up to the JSON
-- of `render`.
--
-- Parallel models the fan-in of flowcat-core/src/pipeline/parallel.rs over a sequence of arrivals from
-- the branches; the fan-out copies each frame, and is left out.
--
-- Strategy models flowcat-core/src/audio/strategy.rs: Strategy.Start the strategies that start a
-- turn or interrupt the bot, Strategy.Stop those that end a turn, where Strategy.Stop.Patience has
-- the contract of the trait as a record that both fill, and Strategy.Mute those that mute the user.
--
-- Wake models `WakeCheckFilter` of flowcat-core/src/agent/wakeword.rs, with offsets in the bytes of
-- UTF-8 as in the source, the time as a number that comes with each frame, and `to_lowercase` as a
-- parameter.
--
-- Ivr models flowcat-core/src/agent/ivr.rs, and Voicemail flowcat-core/src/agent/voicemail.rs, with
-- `to_lowercase` and the time between two floats of seconds as parameters.
--
-- Aggregate models flowcat-core/src/agent/text_filter.rs: the simple aggregator and the one that skips
-- tags, Aggregate.Pattern the one for pairs of patterns, Aggregate.Markdown the filter, and
-- Aggregate.Processor the processors around them. Offsets count code points, where the source counts
-- the bytes of the same ones. Text is searched on fuel, its length, which is enough since each match
-- is of at least one code point; the removal of regions runs on one more than the length, which is
-- enough where each pattern starts with something, by the rules without fuel of Aggregate.Regions; the
-- source does not return where one does not.
--
-- What a processor sends of its own is a list of Runtime.Sends, envelopes passed on and frames made.
--
-- The parts touch in the frames: Dtmf.Events, Vad.Stream and FcallFilter consume and produce those
-- of Frame in the envelopes of Runtime, and Parallel passes those envelopes on.
--
-- Not modelled are the services, transports and carriers, which are network I/O, the assembly of the
-- pipelines, and what computes on float samples itself: mixers, filters and detectors.
pub mod Base
pub mod Frame
pub mod Rtp
pub mod Runtime
pub mod Dtmf
pub mod Relay
pub mod Adapters
pub mod Codec
pub mod Turn
pub mod Vad
pub mod Graph
pub mod Template
pub mod Engine
pub mod Ivr
pub mod Voicemail
pub mod Aggregate
pub mod Sdp
pub mod FcallFilter
pub mod Transcript
pub mod Parallel
pub mod Strategy
pub mod Wake

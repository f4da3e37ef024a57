-- ===== src/Lib.antt =====
-- A model of the core logic of pixi-ai, an application that animates an avatar, listens and answers: the
-- avatar's bones and how a frame of tracking moves them, the video decoder, the capture of speech, the plugin
-- systems and the agent that talks to a language model.
--
-- The parts, the file that models each and the code it is about:
--   Video      crates/video-decoder. Dpb is util/ring_buffer.rs, Playback util/timestamp.rs, Annexb,
--              Samples and Mp4 demux/mp4.rs, Backend backend/mod.rs, Software backend/software.rs over an
--              interface of demuxers that Mp4 fills, Types the types they share.
--   Audio      crates/audio-capture. Capture is lib.rs, which cuts the blocks of a device into frames for
--              the capture of speech; Resample is resample.rs.
--   Speech     crates/speech-capture. Segmenter is segmenter.rs, Worker one frame of the loop of lib.rs,
--              which feeds the segmenter and hands its events to the callback.
--   Plugin     crates/go-plugin. Protocol is protocol.rs, what host and plugin tell each other first;
--              Server the choice of a version in server.rs, Broker and Mux the two brokers of further
--              connections, grpc_broker.rs and mux_broker.rs, Secure the checksum of secure.rs, Info the
--              descriptions of plugin_info.rs. Rpc is the calls of rpc_codec.rs, rpc_client.rs and
--              rpc_server.rs, Client how client.rs starts a plugin with runner.rs.
--   DynPlug    crates/dynplug. Manager and its child Calls are manager.rs with native.rs and wasm.rs.
--   Llm        crates/llm and crates/llm-agent. Types are the messages, Agent is agent.rs with memory.rs
--              and tools.rs, Bridge the runner of speech.rs, which feeds transcripts to the agent, and
--              its child Queue the channel that the callback fills. Base64 is the encoding of audio in
--              crates/llm/src/types.rs, Config config.rs, Anthropic providers/anthropic.rs.
--   LuaImgui   crates/lua-imgui. Commands is commands.rs, the replay of what a script recorded.
--   Vrm        crates/vrm. BoneName and Bone are bone.rs, Bone.Tree the loop of compute_joint_matrices,
--              AnimationPlayer and BoneGroup are animation_player.rs, BlendShape blendshape.rs, LookAt
--              look_at.rs; F32 is the arithmetic that they share.
--   App        crates/app. AutoBlink is auto_blink.rs, TrackerThread tracker_thread.rs with its worker,
--              Mascot mascot.rs. Rig is apply_rig_to_model of update.rs, which puts what the solvers of
--              crates/solver found on the bones and blend shapes of Vrm; Frame is update_frame of
--              update.rs up to that call, with TrackerThread and AutoBlink in it, and the keys T and I
--              of app.rs; its child Running is about frames, keys and the worker in any order.
--   Common     helpers: tests on numbers, lists, text as code points, integers, split and trim, decimals,
--              maps and bitwise operations.
-- A definition has the name of the function it models. A method takes its object and gives the new one
-- back beside the result; a Result is a data type of the module; an event that a callback gets stands in a
-- list, in order. The child modules prove, each named for what it is about, and Tests modules run.
--
-- Parameters stand for what the code calls but does not hold: VAD, whisper and the end-of-turn detector,
-- file reads and the float conversions of time, the construction of a decoder's session, the operating
-- system with its libraries, sockets, channels and timers, openh264, SHA-256, msgpack, HTTP and JSON, the
-- floats of a blink and of the avatar with the vectors, quaternions and matrices of glam, the solvers, the
-- language model and its tools, which act on a world of any type.
--
-- Bounds: a Duration is a count of nanoseconds, and the clock saturates at the largest one. The counts of
-- a sample table are unbounded here, where a sum of ticks in the code could only overflow in a file of 2^64
-- ticks; so are the offsets of samples, whose sum in the code overflows where a chunk offset that the file
-- gives is close to 2^64.
-- A u32 is below 2^32 where text is parsed and printed. The loop of avcc_to_annex_b gets one round for
-- each byte and one more, and each round takes at least one byte; the digits of n get n + 1 rounds, and
-- each divides by ten. The agent's loop has as many rounds as max_iterations. The decode loop gets one
-- round more than the demuxer has packets left, and each round that goes on takes one; the replay of
-- commands gets one round for each command; serving calls gets one for each byte that arrives and one
-- more. A block of samples is cut with one round for each sample and one more, which is enough where a
-- frame is not empty; resampling gets as many rounds as positions up to the end. The queue of
-- compute_joint_matrices gets one round for each root and for each child in the lists of the nodes, and
-- one more; the search among key frames gets as many rounds as there are key frames, and halves what is
-- left in each.
--
-- Not modelled: the hardware backends, opening a file through mp4parse, reading a glTF or FBX file,
-- threads and channel timeouts, certificates and the gRPC connections of go-plugin, the bindings of Lua,
-- the shutdown of a connection before its plugin is killed, what a system makes of a variable without a name,
-- the drawing, the window and the camera, tracking, solving, the physics of the hair and inference, which
-- drive devices or compute in floats.
pub mod App
pub mod Audio
pub mod Common
pub mod DynPlug
pub mod Llm
pub mod LuaImgui
pub mod Plugin
pub mod Speech
pub mod Video
pub mod Vrm

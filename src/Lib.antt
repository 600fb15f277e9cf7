-- ===== src/Lib.antt =====
-- A verification library of aabox, the daemon that plays the phone's side of Android Auto over USB
-- (crates/aabox-aapd) and the tool that patches and signs APKs for it (crates/aabox-resigner).
--
-- The parts and how they interact. The daemon reads and writes AAP frames on a byte stream: a
-- channel, flags, a length and a payload. It answers the version handshake in the clear, runs a TLS
-- handshake inside frames, and from then on every payload is a TLS record. The control loop decrypts
-- a frame, dispatches on the channel and the message id, and sends the replies and what the audio,
-- video and navigation tasks queue, in fragments where a message is long. The resigner patches the
-- reads of `Build.VERSION.SDK_INT` in the DEX files of an APK and signs the archive again.
--
-- Which file models which part:
--   Common        byte strings, lists measured in native numbers, `Result`, and lemmas on them
--   Framing       crates/aabox-aapd/src/framing.rs: `Frame::encode`, `Frame::parse`
--   Ids           crates/aabox-common/src/channel_id.rs: the two enumerations and `try_from`
--   Effect        code that may fail over a state, and the stream (`AsyncRead + AsyncWrite`)
--   Control       crates/aabox-aapd/src/control.rs: `read_frame`, `write_frame`, the handshakes
--   Encrypted     crates/aabox-aapd/src/encrypted.rs, and `send_encrypted` of control_channel.rs
--   ControlChannel  crates/aabox-aapd/src/control_channel.rs: `dispatch_control` and what it calls
--   Nal           crates/aabox-aapd/src/channels/video/nal.rs
--   Video         crates/aabox-aapd/src/channels/video/pipeline.rs: handles and streaming tasks
--                 Video.Capture: channels/video/source.rs, both sources; Video.Choice: which
--                 of them a start takes
--   Channels      crates/aabox-aapd/src/channels: `input::handle`, `video::handle`, the fallback
--                 `audio::handle`, and `encode_instruction` of nav.rs
--   Audio         crates/aabox-aapd/src/channels/audio.rs: the manager, its tasks, sinks and sources
--   Sensor        crates/aabox-aapd/src/channels/sensor.rs: `SensorHandler`
--   Dispatch      crates/aabox-aapd/src/control_channel.rs: `dispatch`, `handle_frame`, the loop of
--                 `run`
--   Nav           crates/aabox-aapd/src/nav: the sources, `spawn_nav_runner`, `DestinationFile`
--   Tunnel        crates/aabox-aapd/src/tls_tunnel.rs: the two handshakes
--   Usb           crates/aabox-aapd/src/usb: `UsbAccessoryStream` and `is_accessory_start`
--   Dex           crates/aabox-resigner/src/dex.rs: `patch_dex` and all that it calls; Dex.Format: the
--                 instructions in the words of the format
--   Sign          crates/aabox-resigner/src/sign.rs: `sign_apk_v2` and all that it calls, and the
--                 decoding of PEM (Sign.Pem)
--   Apk           crates/aabox-resigner/src/apk.rs, `process_apk` of lib.rs, and `handle_one` and
--                 `is_carcar_apk_filename` of watcher.rs
-- The operations keep the names of the functions; `parse_header` is `DexHeader::parse`, and a loop
-- is a function named `..._loop` or for what one round does. A buffer or a file is a list of bytes,
-- and what a function changes in place is part of its result.
--
-- Numbers are natural numbers. Where the code narrows a number or its arithmetic may wrap, the
-- remainder is written out; `usize` has 64 bits, and `u32` arithmetic wraps as in the release build.
--
-- Code that is not of the repository is a parameter: the stream of tokio (`Transport`), rustls
-- (`Side`, and `Handshaking` for the handshake), SHA-1, SHA-256 and RSA of ring, the crate zip
-- (`Zip`), the generated protobuf messages with prost (`Messages`, `ChannelMessages`,
-- `SensorMessages`), the file system (`Files`, `LogFiles`, `Host`), the routing service, and
-- floating point (`Floats`). What a theorem asks of them stands in its hypotheses or in `IsLawful`,
-- `IsReadable`, `IsAppending`, `IsFlushing` and `IsWritable`. What other threads and processes do is
-- an input: the arms that `select!` takes, what polling a blocking call gives, the bytes that
-- `screenrecord` writes.
--
-- Bounds and fuel: `read_uleb128` makes five rounds, as the code does. `rewrite_sget_in_insns` has
-- one round more than the stream has bytes, and each takes two at least; `digest_chunks` has as many
-- as the region has bytes; `send_fragments` has one more than the message has bytes, and each sends
-- one at least; the scans of nal.rs have one for each byte. The loops that wait for rustls to write
-- or read nothing more take their fuel from the caller; `IsLawful` bounds the pieces of one payload by
-- it, and for reading the lengths of the ciphertext and the payload are enough. In a run of the video
-- pipeline a call of a handle is one step, and so is what a task does up to its next wait; the runs
-- are those in which the 64-bit generation does not wrap.
-- The loops of the TLS handshake have their rounds as fuel, and more rounds than there are pieces
-- to write are enough for a flight. `loop_round` is one round of the loop of `run`; a run ends where
-- it gives none.
--
-- Not modelled: logging, processes, timers, HTTP and JSON, configfs, ioctls and inotify; the
-- start-up in main.rs, the constant tables of services.rs, the configurations of rustls in tls.rs,
-- and the loading of the keys in `Signer::load`.
pub mod Common
pub mod Framing
pub mod Ids
pub mod Effect
pub mod Control
pub mod Dex
pub mod Encrypted
pub mod ControlChannel
pub mod Nal
pub mod Sign
pub mod Video
pub mod Channels
pub mod Audio
pub mod Usb
pub mod Tunnel
pub mod Sensor
pub mod Dispatch
pub mod Nav
pub mod Apk

-- ===== src/Lib.antt =====
-- PLANK: the parts of the remote workstation's C code that decide what crosses the network and
-- what happens to it on the Host.
--
-- A Client and a Host exchange packets over several lanes: packets of setup and control, events,
-- chunks of clipboard text, and records of camera pictures. Headers under protocol/plank-
-- transport/include define the bytes of each lane as inline C functions, which both ends compile
-- in.
--
-- Transport models those headers, one file per header. A function keeps its name without the
-- prefix: Transport.Control.decode is plank_transport_control_decode. A byte buffer is the list of
-- its bytes, and a pointer is an Option, none for a null pointer. A function that returns 0 or -1
-- and fills its outputs gives an Option of what it leaves in them; where the code writes its
-- outputs also on failure (the camera headers), the model gives the result and the outputs. An
-- argument has_x stands for x != NULL. The offset of a write is a literal, and the write
-- overwrites the list there.
--   - Transport.BigEndian: the reads and writes of 16 and 32 bits that the control, event and
--     setup headers each carry a copy of.
--   - Transport.Control: plank_transport_control.h; Transport.Event: plank_transport_event.h;
--     Transport.Setup: plank_transport_setup.h; Transport.Input: plank_transport_input.h;
--     Transport.Profiles: plank_encoding_profiles.h.
--   - Transport.Clipboard: plank_clipboard_wire.h, and Transport.Clipboard.Text its check of UTF-8
--     text.
--   - Transport.Camera: plank_transport_camera.h, with the camera commands of the control lane;
--     Transport.CameraEncoded: plank_transport_camera_encoded.h.
--
-- Media models apps/host/macos/media, what the macOS Host keeps about pictures, sound and clocks
-- while it streams; a function keeps its name without the prefix (Media.TapBuffer.push is
-- PLANKTapPush).
--   - Media.VideoRecovery: video-recovery.h; Media.ReverseClock: reverse-media-clock.h;
--     Media.FrameTiming: frame-timing.h, its append.
--   - Media.CameraPayload: native-camera-payload.h. The parser of H.264 access units, Jpeg that of
--     JPEG pictures, and Choice the choice between the two. The rounds of both loops run on fuel,
--     which is the size of the payload, since a round takes two bytes at least.
--   - Media.MicDecoder: microphone-decoder.h; what AudioConverter does is an argument.
--   - Media.Diagnostics: stream-diagnostics.h; Media.TapPolicy: audio-tap-policy.h.
--   - Media.TapBuffer: audio-tap-buffer.h. Contents reads the ring as a queue of blocks, and Runs
--     has its operations in any order.
--
-- Audio models apps/host/macos/audio-device: Audio.MicQueue is microphone-queue.h, where the PCM
-- of the Client's microphone waits, and Audio.MicQueue.Render its rendering.
--   - Audio.CoreAudio: the constants of Core Audio that the drivers use. Audio.Clients: the table
--     of clients, the same code in both drivers; its loops are from output-driver.c.
--   - Audio.OutputDriver: output-driver.c. Sizes is propertySize, Properties what may be asked and
--     set, Get and Set the two calls; Sharing and Runs are about the clients. Audio.MicDriver:
--     microphone-driver.c, in the same parts.
--   - Audio.MicBuffer: microphone-buffer.h. Each atomic store is a function on a slot, and a
--     reader's load sees the buffer at its own number, so Concurrent and Heard put the producer's
--     stores between any two loads.
--   - Audio.MicLink: microphone-link.h and microphone-driver-ipc.h, how the control queue admits a
--     producer and gates the readers. XPC and dispatch are not modelled: a message is what the
--     handler reads of it.
--
-- Camera models apps/host/macos/camera-device: Camera.Link is camera-link.h, the slots that the
-- Host writes and the camera extension reads. Concurrent has the producer's stores as steps,
-- Snapshot the reader's loads between them, and Delivery a write and a read one after the other.
--
-- Auth models apps/host/macos/auth: Auth.AccountPolicy is account-policy.h, who may attach to a
-- graphical session.
--
-- Probes models what the qualification programs compute: Probes.Native10 is probes/x11/plank-
-- probe-x11-native10.cpp, its channel codes and its unpacking of rows.
--
-- Samples are floats in the source. They are a type parameter of the model, and the operations on
-- them are arguments: is_finite of the ring, and the record Float of the queue. The arrays of a
-- ring are functions of the index. Each call of the ring is one step; the order of two accesses
-- within a call is not modelled.
--
-- In each component the parent file holds the definitions, RoundTrip what the encoder writes and
-- that the decoder gives it back, Sound what the decoder accepts, and Tests runs and instances of
-- the theorems. Common holds the names of the libraries, the Boolean tests, C arrays as lists and
-- bit operations as arithmetic.
--
-- Integers are natural numbers: each reduction that a cast of the source makes is written out. The
-- loop over the bytes of a text runs on fuel, which is the length of the text, since each round
-- takes a byte at least; the other loops run on what is left of their count.
--
-- Not modelled: the Rust transport and what it is called through, the Objective-C hosts, files and
-- devices, and what the probes call of graphics hardware, Xlib and the kernel.
pub mod Audio
pub mod Auth
pub mod Camera
pub mod Common
pub mod Media
pub mod Probes
pub mod Transport

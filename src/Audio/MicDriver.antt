-- ===== src/Audio/MicDriver.antt =====
-- microphone-driver.c: the input device, its clients and its clock. `is_driver` is
-- `driver == DRIVER`, and `has_x` is `x != NULL`. What the system gives (the time, the tick length, what
-- an UUID is) is an argument of the call that asks for it. A call under the lock is one step.
-- With PLANK_MICROPHONE_IPC the driver also has the link of microphone-driver-ipc.h, see MicLink.
pub mod Sizes
pub mod Properties
pub mod Get
pub mod Set
pub mod Sharing
pub mod Runs
mod Tests
use plank.Common.{
  ℕ, ◌+◌, ◌-◌, ◌*◌, ◌%◌, ◌^◌, Bool, true, false, not, ◌||◌, ◌&&◌, ltb, leb, ◌==◌, ◌!=◌,
  if◌then◌else◌, Option, none, some, List, replicate,
}
use plank.Common.Bits.{u32, u64}
use plank.Audio.CoreAudio.{
  Object, Status, no_error, bad_object, illegal_operation, unsupported_operation, bad_pointer,
  no_interface, device, stream, is_device, is_stream,
}
use plank.Audio.MicBuffer.{Buffer, Float, frames, max_io, init, reset, read, silences}
use plank.Audio.OutputDriver.{Timestamp, timestamp_frames}
use plank.Audio.Clients.{Client, max_clients, known, claim, dismiss, change, one_more, one_less}

-- The static variables. `Real` is float and double.
pub record Driver (Real : Type 0) : Type 0 where
  pub buffer : Buffer Real
  pub has_host : Bool
  pub clients : List Client
  pub running : ℕ
  pub anchor : ℕ
  pub clock_seed : ℕ
  pub ticks_per_frame : Real
  pub references : ℕ

-- The static variables when the driver is loaded. A `double` without an initializer is `nought`, and
-- the samples of the buffer are `silence`.
pub initial : {Real : Type 0} → Real → Real → Driver Real
initial silence nought = record {
  buffer = record {
    generation = 0;
    first_frame = 0;
    samples = λ k. record { frame = 0; bits = (silence, silence) };
  };
  has_host = false;
  clients = replicate max_clients (record { id = 0; used = false; running = false });
  running = 0;
  anchor = 0;
  clock_seed = 0;
  ticks_per_frame = nought;
  references = 1;
}

module _ {Real : Type 0} where
  -- The result, whether `*result` is the driver afterwards, and the state.
  pub query : Bool → Bool → Bool → Driver Real → Status × Bool × Driver Real
  query is_driver has_result supported d =
      if not has_result
      then (bad_pointer, false, d)
      else if not is_driver
      then (no_interface, false, d)
      else if not supported
      then (no_interface, false, d)
      else (no_error, true, record d { references = one_more d.references })

  pub retain : Bool → Driver Real → ℕ × Driver Real
  retain is_driver d =
      if is_driver
      then (u32 (d.references + 1), record d { references = one_more d.references })
      else (0, d)

  -- The loop around the compare-and-exchange, as one step.
  pub release : Bool → Driver Real → ℕ × Driver Real
  release is_driver d =
      if not is_driver
      then (0, d)
      else if d.references != 0
      then (d.references - 1, record d { references = d.references - 1 })
      else (0, d)

  pub initialize : Float Real → Bool → Bool → Real → ℕ → Driver Real → Status × Driver Real
  initialize float is_driver has_owner ticks now d =
      if not is_driver || not has_owner
      then (illegal_operation, d)
      else if not d.has_host
      then (
        no_error,
        record d {
          ticks_per_frame = ticks;
          buffer = init float;
          anchor = now;
          clock_seed = 1;
          has_host = true;
        },
      )
      else (no_error, d)

  pub add_client : Bool → Object → Option ℕ → Driver Real → Status × Driver Real
  add_client is_driver object none d = (bad_object, d)
  add_client is_driver object (some id) d =
      let table = claim id d.clients in
      if not is_driver || not (is_device object)
      then (bad_object, d)
      else if known id d.clients
      then (no_error, d)
      else elim table [
        | none ↦ (illegal_operation, d)
        | some claimed ↦ (no_error, record d { clients = claimed })
      ]

  pub remove_client : Bool → Object → Option ℕ → Driver Real → Status × Driver Real
  remove_client is_driver object none d = (bad_object, d)
  remove_client is_driver object (some id) d =
      let (was_running, table) = dismiss id d.clients in
      if not is_driver || not (is_device object) then (bad_object, d) else (
        no_error,
        record d {
          running = if was_running then one_less d.running else d.running;
          clients = table;
        },
      )

  -- The state after the loop of `changeIO` has found the client.
  pub apply_change : Bool → Bool → List Client → ℕ → Driver Real → Driver Real
  apply_change start changes table now d =
      if not changes
      then record d { clients = table }
      else if start
      then if d.running == 0
        then record d {
          clients = table;
          buffer = reset 0 d.buffer;
          anchor = now;
          clock_seed = u64 (d.clock_seed + 1);
          running = one_more d.running;
        }
        else record d { clients = table; running = one_more d.running }
      else record d { clients = table; running = one_less d.running }

  pub change_io : Bool → Object → ℕ → Bool → ℕ → Driver Real → Status × Driver Real
  change_io is_driver object client start now d =
      let found = change client start d.clients in
      if not is_driver || not (is_device object) || not d.has_host
      then (bad_object, d)
      else elim found [
        | none ↦ (illegal_operation, d)
        | some (changes, table) ↦ (no_error, apply_change start changes table now d)
      ]

  pub start_io : Bool → Object → ℕ → ℕ → Driver Real → Status × Driver Real
  start_io is_driver object client now d = change_io is_driver object client true now d

  pub stop_io : Bool → Object → ℕ → ℕ → Driver Real → Status × Driver Real
  stop_io is_driver object client now d = change_io is_driver object client false now d

  -- `periods d t` is floor(d / (t * 15840)) and `ticks s t` is s * t, both in double.
  pub timestamp :
      (ℕ → Real → ℕ)
      → (ℕ → Real → ℕ)
      → Bool
      → Object
      → Bool
      → ℕ
      → Driver Real
      → Status × Option Timestamp
  timestamp periods ticks is_driver object has_results now d =
      let elapsed = (now + 2 ^ 64 - d.anchor) % 2 ^ 64 in
      let sample = periods elapsed d.ticks_per_frame * timestamp_frames in
      if not is_driver || not (is_device object) || not has_results || not d.has_host
      then (illegal_operation, none)
      else (
        no_error,
        some (record {
          sample = sample;
          time = u64 (d.anchor + ticks sample d.ticks_per_frame);
          seed = d.clock_seed;
        }),
      )

-- The result, and whether `*result` is set to kAudioObjectUnknown.
pub create : Bool → Status × Bool
create has_result = (unsupported_operation, has_result)

pub destroy : Status
destroy = unsupported_operation

pub configuration : Bool → Object → Status
configuration is_driver object =
    if is_driver && is_device object then unsupported_operation else bad_object

-- `is_input_read` is `operation == kAudioServerPlugInIOOperationReadInput`. The outputs are `will` and `inPlace`.
pub will_io : Bool → Object → Bool → Bool → Status × Option (Bool × Bool)
will_io is_driver object has_results is_input_read =
    if not is_driver || not (is_device object) || not has_results
    then (bad_object, none)
    else (no_error, some (is_input_read, true))

pub boundary_io : Bool → Object → ℕ → Status
boundary_io is_driver object frames =
    if is_driver && is_device object && leb frames max_io then no_error else illegal_operation

-- What PLANKMicBufferRead leaves behind a pointer to `count` frames; its loads see `memory`.
pub direct_read : {Real : Type 0} → Float Real → (ℕ → Buffer Real) → ℕ → ℕ → List (Real × Real)
direct_read float memory count position = elim (read float memory position true count).1 [
  | none ↦ silences (float.silence, float.silence) count
  | some out ↦ out
]

-- What `performIO` leaves in `main`, after the memset: `position` is the time of the cycle in frames,
-- where it is valid, finite and between 0 and UINT64_MAX / 2. `heard` is what the reader of the build
-- leaves from a position on: PLANKMicBufferRead, or micIPCRead.
pub input_of :
    {Real : Type 0}
    → Float Real
    → (ℕ → List (Real × Real))
    → Option ℕ
    → ℕ
    → Driver Real
    → List (Real × Real)
input_of float heard none count d = silences (float.silence, float.silence) count
input_of float heard (some position) count d =
    if d.running == 0 then silences (float.silence, float.silence) count else heard position

-- `has_buffers` is `main && cycle`.
pub perform_io :
    {Real : Type 0}
    → Float Real
    → (ℕ → List (Real × Real))
    → Bool
    → Object
    → Object
    → Bool
    → ℕ
    → Bool
    → Option ℕ
    → Driver Real
    → Status × Option (List (Real × Real))
perform_io float heard is_driver object target is_input_read count has_buffers position d =
    if not is_driver
      || not (is_device object)
      || not (is_stream target)
      || not is_input_read
      || ltb max_io count
      || not has_buffers
    then (illegal_operation, none)
    else (no_error, some (input_of float heard position count d))

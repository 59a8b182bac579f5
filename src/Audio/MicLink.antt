-- ===== src/Audio/MicLink.antt =====
-- microphone-link.h and microphone-driver-ipc.h: the shared region between the microphone's driver and
-- its producer, the control queue that admits a producer for a lease, and the gate of the reader. A turn
-- of the control queue is one step; `now` is mach_absolute_time. `ticksPerFrame` is set once, before
-- the queue runs, so what the code computes from it is a `Clock`.
pub mod Gate
pub mod Lease
mod Tests
use plank.Common.{
  ℕ, zero, suc, ◌+◌, ◌-◌, ◌*◌, ◌/◌, ◌%◌, ◌^◌, Bool, true, false, not, ◌||◌, ◌&&◌, ltb, leb, ◌==◌,
  ◌!=◌, if◌then◌else◌, Option, none, some, List, [], ◌∷◌, min,
}
use plank.Common.Bits.{u64}
use plank.Audio.MicBuffer.{Float, Buffer, reset, write, read, silences}
use plank.Audio.MicDriver.{Driver, direct_read}

abbrev pub link_version : ℕ
link_version = 2

abbrev pub packet_frames : ℕ
packet_frames = 480

-- (uint64_t)(ticksPerFrame * PLANKMicRate), twice that and half of it, and
-- (uint64_t)(elapsed / ticksPerFrame).
pub record Clock : Type 0 where
  pub one_second : ℕ
  pub two_seconds : ℕ
  pub half_second : ℕ
  pub frames_since : ℕ → ℕ

-- PLANKMicLink
pub record Link (Real : Type 0) : Type 0 where
  pub version : ℕ
  pub clock_sequence : ℕ
  pub anchor : ℕ
  pub seed : ℕ
  pub running : ℕ
  pub producer_seed : ℕ
  pub deadline : ℕ
  pub ticks_per_frame : Real
  pub samples : Buffer Real

-- The static variables of the driver and of its link.
pub record State (Real : Type 0) : Type 0 where
  pub driver : Driver Real
  pub has_peer : Bool
  pub link : Option (Link Real)
  pub lease : ℕ
  pub broker_deadline : ℕ
  pub connect_at : ℕ
  pub copied_seed : ℕ
  pub copied_generation : ℕ
  pub input_deadline : ℕ
  pub input_lease : ℕ

-- What xpc_shmem_map gives: the size, and the region where it is mapped.
pub record Region (Real : Type 0) : Type 0 where
  pub bytes : ℕ
  pub mapping : Option (Link Real)

-- A message of the peer, the words of it by micWord. `memory` is the entry where it is of the type
-- XPC_TYPE_SHMEM.
pub record Message (Real : Type 0) : Type 0 where
  pub is_own_peer : Bool
  pub is_error : Bool
  pub is_root : Bool
  pub is_dictionary : Bool
  pub version : Option ℕ
  pub operation : Option ℕ
  pub lease : Option ℕ
  pub entries : ℕ
  pub memory : Option (Region Real)
  pub has_reply : Bool

-- What the handler does with the peer.
pub data Reply : Type 0 where
  ignores : Reply
  cancels : Reply
  replies : Bool → Reply

-- `(page ? (sizeof(PLANKMicLink) + page - 1) / page * page : 0)`
pub link_bytes : ℕ → ℕ → ℕ
link_bytes size page = if page == 0 then 0 else (size + page - 1) / page * page

abbrev pub word_or_zero : Option ℕ → ℕ
word_or_zero none = 0
word_or_zero (some n) = n

abbrev pub is_word : Option ℕ → ℕ → Bool
is_word none n = false
is_word (some m) n = m == n

abbrev pub has_word : Option ℕ → Bool
has_word none = false
has_word (some m) = true

module _ {Real : Type 0} where
  pub drop_link : State Real → State Real
  drop_link s =
      let driver = s.driver in
      record s {
        driver = record driver { buffer = reset 0 driver.buffer };
        link = none;
        lease = 0;
        broker_deadline = 0;
        copied_seed = 0;
        copied_generation = 0;
        input_deadline = 0;
        input_lease = 0;
      }

  pub is_valid : Message Real → Bool
  is_valid m =
      m.is_root
      && m.is_dictionary
      && is_word m.version link_version
      && has_word m.operation
      && has_word m.lease
      && word_or_zero m.lease != 0

  -- Operation 1, once the memory is mapped.
  pub attach : Clock → ℕ → ℕ → ℕ → Option (Region Real) → State Real → Bool × State Real
  attach clock bytes now lease none s = (false, s)
  attach clock bytes now lease (some region) s =
      let dropped = drop_link s in
      elim region.mapping [
        | none ↦ (false, s)
        | some mapping ↦
            if region.bytes == bytes && mapping.version == link_version
            then (
              true,
              record dropped {
                link = some (record mapping { ticks_per_frame = s.driver.ticks_per_frame });
                lease = lease;
                broker_deadline = u64 (now + clock.two_seconds);
                input_lease = lease;
              },
            )
            else (false, s)
      ]

  -- The operations of a valid message.
  pub operate : Clock → ℕ → ℕ → Message Real → State Real → Bool × State Real
  operate clock bytes now m s =
      let lease = word_or_zero m.lease in
      let attached = attach clock bytes now lease m.memory s in
      if is_word m.operation 1 && m.entries == 4
      then attached
      else if is_word m.operation 2 && m.entries == 3 && lease == s.lease
      then (true, record s { broker_deadline = u64 (now + clock.two_seconds) })
      else if is_word m.operation 3 && m.entries == 3
      then (true, if lease == s.lease then drop_link s else s)
      else (false, s)

  -- The handler of `micConnect`; `bytes` is micLinkBytes.
  pub receive : Clock → ℕ → ℕ → Message Real → State Real → Reply × State Real
  receive clock bytes now m s =
      let (accepted, next) = operate clock bytes now m s in
      let dropped = drop_link s in
      if not m.is_own_peer
      then (ignores, s)
      else if m.is_error
      then (cancels, record dropped { has_peer = false })
      else if not (is_valid m) || not m.has_reply
      then (cancels, dropped)
      else (replies accepted, next)

module _ {Real : Type 0} (float : Float Real) where
  -- `isfinite(x) ? fminf(1, fmaxf(-1, x)) : 0`
  sanitized : Real → Real
  sanitized x = if float.is_finite x then float.clamp x else float.silence

  -- The frame at an index of an array.
  nth : List (Real × Real) → ℕ → Real × Real
  nth [] i = (float.silence, float.silence)
  nth (x ∷ xs) i = let later = nth xs (i - 1) in if i == 0 then x else later

  -- The loop over the blocks, from a block on with n left. `shared` is the producer's buffer at each
  -- load of a block's read.
  pub copy_blocks : (ℕ → ℕ → Buffer Real) → ℕ → ℕ → ℕ → Buffer Real → Buffer Real
  copy_blocks shared block zero frame b = b
  copy_blocks shared block (suc n) frame b =
      let heard = direct_read float (shared block) packet_frames frame in
      let samples : ℕ → Real × Real = λ i. (sanitized (nth heard i).0, sanitized (nth heard i).1) in
      let written = (write float frame (some samples) packet_frames b).1 in
      copy_blocks shared (suc block) n (u64 (frame + packet_frames)) written

  -- `micIPCTick` with a link whose broker's time is not over.
  pub tick_link : Clock → (ℕ → ℕ → Buffer Real) → ℕ → Link Real → State Real → State Real
  tick_link clock shared now link s =
      let driver = s.driver in
      let published = record link {
        clock_sequence = u64 (link.clock_sequence + 2);
        anchor = driver.anchor;
        seed = driver.clock_seed;
        running = driver.running;
      } in
      let generation = link.samples.generation in
      let is_new = driver.clock_seed != s.copied_seed || generation != s.copied_generation in
      let buffer = if is_new then reset 0 driver.buffer else driver.buffer in
      let linked = record s {
        driver = record driver { buffer = buffer };
        link = some published;
        copied_seed = driver.clock_seed;
        copied_generation = generation;
        input_deadline = if is_new then 0 else s.input_deadline;
      } in
      let block = clock.frames_since (now - driver.anchor) / packet_frames * packet_frames in
      let frame = if leb packet_frames block then block - packet_frames else block in
      let cap = u64 (now + clock.half_second) in
      if driver.running == 0
        || ltb now driver.anchor
        || leb link.deadline now
        || link.producer_seed != driver.clock_seed
      then record linked { input_deadline = 0 }
      else record linked {
        driver = record driver { buffer = copy_blocks shared 0 5 frame buffer };
        input_deadline = min (min link.deadline cap) s.broker_deadline;
      }

  -- `micIPCTick` after it has seen to its peer.
  pub tick_broker : Clock → (ℕ → ℕ → Buffer Real) → ℕ → Option (Link Real) → State Real → State Real
  tick_broker clock shared now none s = s
  tick_broker clock shared now (some link) s =
      let dropped = drop_link s in
      let linked = tick_link clock shared now link s in
      if leb s.broker_deadline now then dropped else linked

  pub tick : Clock → (ℕ → ℕ → Buffer Real) → ℕ → State Real → State Real
  tick clock shared now s =
      let connected =
        if not s.has_peer && leb s.connect_at now
        then record s { connect_at = u64 (now + clock.one_second); has_peer = true }
        else s in
      tick_broker clock shared now s.link connected

  -- `micIPCRead` into frames that are silent: `before` and `after` are the times of its two looks at
  -- the clock, `early` and `late` the states that they see, and the buffer's loads see `memory`.
  pub gated_read : (ℕ → Buffer Real) → ℕ → ℕ → State Real → State Real → ℕ → ℕ → List (Real × Real)
  gated_read memory before after early late count position =
      let blank = silences (float.silence, float.silence) count in
      let heard = direct_read float memory count position in
      let lease = early.input_lease in
      if lease == 0 || leb early.input_deadline before
      then blank
      else if lease != late.input_lease || leb late.input_deadline after
      then blank
      else heard

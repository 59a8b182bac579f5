-- ===== src/Audio/MicQueue.antt =====
-- microphone-queue.h: the PCM of the Client's microphone between its arrival and its rendering. A
-- `Sample` is float; `Float` holds the operations on floats that the queue calls.
pub mod Bounds
pub mod Render
pub mod Submitted
mod Tests
use plank.Common.{
  ℕ, zero, suc, ◌+◌, ◌-◌, ◌*◌, ◌/◌, ◌%◌, ◌^◌, Bool, true, false, not, ◌||◌, ◌&&◌, ltb, leb, ◌==◌,
  ◌!=◌, if◌then◌else◌, Option, none, some, is_null, pointee_or,
}
use plank.Common.Bits.{u32, u64}

abbrev pub queue_frames : ℕ
queue_frames = 2880

abbrev pub target_frames : ℕ
target_frames = 960

abbrev pub packet_frames : ℕ
packet_frames = 480

abbrev pub rate : ℕ
rate = 48000

abbrev pub max_age_ns : ℕ
max_age_ns = 100_000_000

abbrev pub capture_limit : ℕ
capture_limit = 0x7fff_ffff_ffff_ffff - 10_000_000

-- `blend i consume x y` is x * (1 - w) + y * w, where w is the fractional part of i * consume / 480;
-- `clamp` keeps a sample between -1 and 1.
pub record Float (Sample : Type 0) : Type 0 where
  pub silence : Sample
  pub is_finite : Sample → Bool
  pub clamp : Sample → Sample
  pub blend : ℕ → ℕ → Sample → Sample → Sample

pub record Queue (Sample : Type 0) : Type 0 where
  pub samples : ℕ → Sample
  pub arrived : ℕ → ℕ
  pub captured : ℕ → ℕ
  pub next_sample : ℕ
  pub expired_frames : ℕ
  pub discarded_frames : ℕ
  pub head : ℕ
  pub count : ℕ
  pub average_frames256 : ℕ
  pub has_sample : Bool
  pub primed : Bool

abbrev pub update {ℓ} : {A : Type ℓ} → (ℕ → A) → ℕ → A → ℕ → A
update f k a i = if i == k then a else f i

-- What `submit` is called with.
pub record Packet (Sample : Type 0) : Type 0 where
  pub samples : Option (ℕ → Sample)
  pub count : ℕ
  pub sample_time : ℕ
  pub capture_time : ℕ

module _ {Sample : Type 0} (float : Float Sample) where
  pub set_frame : Queue Sample → ℕ → Sample → Sample → ℕ → ℕ → Queue Sample
  set_frame q frame left right arrived captured = record q {
    samples = update (update q.samples (frame * 2) left) (frame * 2 + 1) right;
    arrived = update q.arrived frame arrived;
    captured = update q.captured frame captured;
  }

  -- The loop over the frames that are discarded, with those left and the index.
  pub wipe : ℕ → ℕ → Queue Sample → Queue Sample
  unfolding set_frame
  wipe zero i q = q
  wipe (suc rest) i q =
      wipe rest (i + 1) (set_frame q ((q.head + i) % queue_frames) float.silence float.silence 0 0)

  pub discard : Queue Sample → ℕ → Queue Sample
  unfolding wipe
  discard queue n =
      let q = wipe n 0 queue in
      record q { head = (q.head + n) % queue_frames; count = (q.count + 2 ^ 32 - n) % 2 ^ 32 }

  pub flush : Queue Sample → Queue Sample
  unfolding discard
  flush queue = record (discard queue queue.count) {
    head = 0;
    primed = false;
    average_frames256 = 0;
  }

  pub clear : Queue Sample → Queue Sample
  unfolding flush
  clear queue = record (flush queue) { has_sample = false; next_sample = 0 }

  pub is_fresh : ℕ → ℕ → Bool
  is_fresh now arrived = leb arrived now && ltb (now - arrived) max_age_ns

  -- The loop that counts the expired frames, on the frames that are left.
  pub count_expired : Queue Sample → ℕ → ℕ → ℕ → ℕ
  unfolding is_fresh
  count_expired q now zero expired = expired
  count_expired q now (suc rest) expired =
      let older = count_expired q now rest (expired + 1) in
      if is_fresh now (q.arrived ((q.head + expired) % queue_frames)) then expired else older

  pub expire : Queue Sample → ℕ → Queue Sample
  unfolding flush discard count_expired
  expire q now =
      let n = count_expired q now q.count 0 in
      if q.count != 0 && ltb now (q.arrived ((q.head + q.count - 1) % queue_frames))
      then record (flush q) { expired_frames = u64 (q.expired_frames + q.count) }
      else if n != 0
      then record (discard q n) { expired_frames = u64 (q.expired_frames + n); primed = false }
      else q

  -- The loop that fills a gap with silence.
  pub pad : ℕ → ℕ → Queue Sample → Queue Sample
  unfolding set_frame
  pad zero now q = q
  pad (suc rest) now q =
      let r = set_frame q ((q.head + q.count) % queue_frames) float.silence float.silence now 0 in
      pad rest now (record r { count = q.count + 1 })

  pub all_finite : ℕ → ℕ → (ℕ → Sample) → Bool
  all_finite zero i samples = true
  all_finite (suc rest) i samples =
      let others = all_finite rest (i + 1) samples in
      if not (float.is_finite (samples i)) then false else others

  -- The loop that appends a packet, with the frames left and the index.
  pub append : ℕ → ℕ → (ℕ → Sample) → ℕ → ℕ → Queue Sample → Queue Sample
  unfolding set_frame
  append zero i samples capture_time now q = q
  append (suc rest) i samples capture_time now q =
      let left = float.clamp (samples (i * 2)) in
      let right = float.clamp (samples (i * 2 + 1)) in
      let captured =
        if capture_time != 0 then u64 (capture_time + i * 1_000_000_000 / rate) else 0 in
      let r = set_frame q ((q.head + q.count) % queue_frames) left right now captured in
      append rest (i + 1) samples capture_time now (record r { count = q.count + 1 })

  -- What `submit` does about the frames that are missing before the packet.
  pub bridge : Queue Sample → ℕ → ℕ → ℕ → Queue Sample
  unfolding flush pad
  bridge q n sample_time now =
      let missing = sample_time - q.next_sample in
      if q.has_sample && sample_time != q.next_sample
      then if leb missing (2 * packet_frames) && leb (q.count + missing + n) queue_frames
        then pad missing now q
        else flush q
      else q

  pub make_room : Queue Sample → ℕ → Queue Sample
  unfolding discard
  make_room q n =
      let over = q.count + n - queue_frames in
      if ltb queue_frames (q.count + n)
      then record (discard q over) { discarded_frames = u64 (q.discarded_frames + over) }
      else q

  pub bad_packet : Queue Sample → Packet Sample → Bool
  bad_packet q p =
      ltb capture_limit p.capture_time
      || is_null p.samples
      || p.count != packet_frames
      || p.sample_time % packet_frames != 0
      || ltb (2 ^ 64 - 1 - p.count) p.sample_time
      || (q.has_sample && ltb p.sample_time q.next_sample)

  -- `submit` behind its checks.
  pub take_packet : Queue Sample → Packet Sample → (ℕ → Sample) → ℕ → Queue Sample
  unfolding expire bridge make_room append
  take_packet q p samples now =
      let bridged = bridge (expire q now) p.count p.sample_time now in
      let timed = record bridged {
        has_sample = true;
        next_sample = u64 (p.sample_time + p.count);
      } in
      append p.count 0 samples p.capture_time now (make_room timed p.count)

  pub submit : Queue Sample → Packet Sample → ℕ → Bool × Queue Sample
  unfolding take_packet all_finite bad_packet
  submit q p now =
      let samples = pointee_or p.samples (λ i. float.silence) in
      if bad_packet q p || not (all_finite (p.count * 2) 0 samples)
      then (false, q)
      else (true, take_packet q p samples now)

  -- PLANKMicQueueSubmit: a packet without a capture time.
  pub submit_untimed : Queue Sample → Packet Sample → ℕ → Bool × Queue Sample
  submit_untimed q p now = submit q (record p { capture_time = 0 }) now

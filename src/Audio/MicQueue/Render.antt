-- ===== src/Audio/MicQueue/Render.antt =====
-- microphone-queue.h, PLANKMicQueueRenderTimed: one block of 10 ms is taken off the queue.
pub mod Bounds
use plank.Common.{
  ℕ, zero, suc, ◌+◌, ◌-◌, ◌*◌, ◌/◌, ◌%◌, Bool, true, false, not, ◌||◌, ◌&&◌, ltb, leb, ◌==◌, ◌!=◌,
  if◌then◌else◌,
}
use plank.Audio.MicQueue.{Float, Queue, queue_frames, target_frames, packet_frames, discard, expire}

-- What a call leaves behind its pointers.
pub record Rendering (Sample : Type 0) : Type 0 where
  pub output : ℕ → Sample
  pub capture_time : ℕ
  pub queue : Queue Sample

-- The quotient of C, whose sign is that of the difference: a step of 1/32 towards the new value.
pub smooth : ℕ → ℕ → ℕ
smooth average now =
    if leb average now then average + (now - average) / 32 else average - (average - now) / 32

pub choose_consume : ℕ → ℕ
choose_consume average =
    let low = (target_frames + packet_frames) * 256 in
    let high = (target_frames + 3 * packet_frames / 2) * 256 in
    if ltb high average then 481 else if ltb average low then 479 else 480

module _ {Sample : Type 0} (float : Float Sample) where
  pub prime : Queue Sample → Queue Sample
  prime q =
      if not q.primed && leb target_frames q.count
      then record q { primed = true; average_frames256 = q.count * 256 }
      else q

  -- The sample of a frame of the queue, counted from the head.
  pub sample_at : Queue Sample → ℕ → ℕ → Sample
  sample_at q frame channel = q.samples (((q.head + frame) % queue_frames) * 2 + channel)

  -- One sample of the output; the loops over the frames and the two channels set each index once.
  pub output_sample : Queue Sample → ℕ → ℕ → ℕ → Sample
  unfolding sample_at
  output_sample q consume i channel =
      let a = i * consume / packet_frames in
      let b = if ltb (a + 1) consume then a + 1 else consume - 1 in
      float.blend i consume (sample_at q a channel) (sample_at q b channel)

  pub output_block : Queue Sample → ℕ → ℕ → Sample
  unfolding output_sample
  output_block q consume k =
      if ltb k (packet_frames * 2) then output_sample q consume (k / 2) (k % 2) else float.silence

  -- The loop that gives up the capture time at a jump, with the frames left and the index.
  pub capture_loop : Queue Sample → ℕ → ℕ → ℕ → ℕ
  capture_loop q zero i time = time
  capture_loop q (suc rest) i time =
      let before = q.captured ((q.head + i - 1) % queue_frames) in
      let after = q.captured ((q.head + i) % queue_frames) in
      let later = capture_loop q rest (i + 1) time in
      if before == 0 || leb after before || ltb 2_000_000 (after - before) then 0 else later

  pub capture_of : Queue Sample → ℕ → ℕ
  unfolding capture_loop
  capture_of q consume = capture_loop q (consume - 1) 1 (q.captured q.head)

  -- With room for the output and the capture time.
  pub render : Queue Sample → ℕ → Bool × Rendering Sample
  unfolding prime smooth choose_consume output_block capture_of
  render queue now =
      let q = prime (expire float queue now) in
      let average = smooth q.average_frames256 (q.count * 256) in
      let wanted = choose_consume average in
      let consume = if ltb q.count wanted then q.count else wanted in
      let smoothed = record q { average_frames256 = average } in
      if not q.primed || ltb q.count 479
      then (
        false,
        record {
          output = λ k. float.silence;
          capture_time = 0;
          queue = record q { primed = false };
        },
      )
      else (
        true,
        record {
          output = output_block q consume;
          capture_time = capture_of q consume;
          queue = discard float smoothed consume;
        },
      )

  -- PLANKMicQueueRender: the capture time has no pointer to go to.
  pub render_untimed : Queue Sample → ℕ → Bool × (ℕ → Sample) × Queue Sample
  render_untimed queue now = let (rendered, r) = render queue now in (rendered, r.output, r.queue)

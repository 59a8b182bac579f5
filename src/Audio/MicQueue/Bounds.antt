-- ===== src/Audio/MicQueue/Bounds.antt =====
-- The queue stays within its storage: what each operation does to the head and the count.
use plank.Common.{
  ℕ, zero, suc, ◌+◌, ◌-◌, ◌%◌, ◌^◌, ◌≤◌, ◌<◌, ◌≡◌, ◌≢◌, ◌⊎◌, inl, inr, refl, ◌∙◌, arith, true, ◌&&◌,
  ltb, ◌!=◌, Bool-cases,
}
use plank.Audio.MicQueue.{
  Float, Queue, queue_frames, set_frame, wipe, discard, flush, is_fresh, count_expired, expire,
}

-- The head is a frame of the storage, and the frames that wait fit in it.
pub record IsValid {Sample : Type 0} (q : Queue Sample) : Type 0 where
  pub in_storage : q.head < queue_frames
  pub fits : q.count ≤ queue_frames

module _ {Sample : Type 0} (float : Float Sample) where
  wipe_same :
      (rest i : ℕ) (q : Queue Sample)
      → ((wipe float rest i q).head ≡ q.head)
        × ((wipe float rest i q).count ≡ q.count)
        × ((wipe float rest i q).next_sample ≡ q.next_sample)
        × ((wipe float rest i q).has_sample ≡ q.has_sample)
  unfolding wipe set_frame
  wipe_same zero i q = (refl, refl, refl, refl)
  wipe_same (suc rest) i q = wipe_same rest (i + 1) (set_frame float q _ _ _ _ _)

  -- A discard of at most the frames that wait moves the head past them.
  pub discard_lem :
      (q : Queue Sample) (n : ℕ)
      → IsValid q
      → n ≤ q.count
      → IsValid (discard float q n)
        × ((discard float q n).count ≡ q.count - n)
        × ((discard float q n).head ≡ (q.head + n) % queue_frames)
        × ((discard float q n).next_sample ≡ q.next_sample)
        × ((discard float q n).has_sample ≡ q.has_sample)
  unfolding discard
  discard_lem q n valid few =
      let (h, c, s, b) = wipe_same n 0 q in
      let fewer : (q.count + 2 ^ 32 - n) % 2 ^ 32 ≡ q.count - n = omega (arith, valid.fits, few) in
      rw (h, c, fewer)
        (record { in_storage = omega arith; fits = omega (arith, valid.fits) }, refl, refl, s, b)

  pub flush_lem :
      (q : Queue Sample)
      → IsValid q
      → IsValid (flush float q)
        × ((flush float q).count ≡ 0)
        × ((flush float q).next_sample ≡ q.next_sample)
        × ((flush float q).has_sample ≡ q.has_sample)
  unfolding flush
  flush_lem q valid =
      let (v, c, h, s, b) = discard_lem q q.count valid (omega arith) in
      let none_left : (discard float q q.count).count ≡ 0 = omega (arith, c) in
      (record { in_storage = omega arith; fits = omega (arith, none_left) }, none_left, s, b)

  -- A frame that is not among the wiped ones keeps its time of arrival.
  wipe_other :
      (rest i k : ℕ) (q : Queue Sample)
      → ((j : ℕ) → i ≤ j → j < i + rest → k ≢ (q.head + j) % queue_frames)
      → (wipe float rest i q).arrived k ≡ q.arrived k
  unfolding wipe set_frame
  wipe_other zero i k q other = refl
  wipe_other (suc rest) i k q other =
      let differs : k ≢ (q.head + i) % queue_frames = other i (omega arith) (omega arith) in
      wipe_other rest (i + 1) k (set_frame float q _ _ _ _ _)
        (λ j low high. other j (omega arith) (omega arith))
      ∙ ground (arith, differs)

  count_expired_lem :
      (q : Queue Sample) (now rest e : ℕ)
      → (e ≤ count_expired float q now rest e)
        × (count_expired float q now rest e ≤ e + rest)
        × ((count_expired float q now rest e ≡ e + rest)
            ⊎ (is_fresh float now
                  (q.arrived ((q.head + count_expired float q now rest e) % queue_frames))
                ≡ true))
  unfolding count_expired
  count_expired_lem q now zero e = (omega arith, omega arith, inl (omega arith))
  count_expired_lem q now (suc rest) e =
      let (low, high, cases) = count_expired_lem q now rest (e + 1) in
      elim (Bool-cases (is_fresh float now (q.arrived ((q.head + e) % queue_frames)))) [
        | inl fresh ↦ rw fresh (omega arith, omega arith, inr fresh)
        | inr old ↦ rw old (
          omega (arith, low),
          omega (arith, high),
          elim cases [ inl all ↦ inl (omega (arith, all)) | inr next ↦ inr next ],
        )
      ]

  discard_arrived :
      (q : Queue Sample) (n k : ℕ)
      → ((j : ℕ) → 0 ≤ j → j < 0 + n → k ≢ (q.head + j) % queue_frames)
      → (discard float q n).arrived k ≡ q.arrived k
  unfolding discard
  discard_arrived q n k other = wipe_other n 0 k q other

  -- Where the frame behind the discarded ones is fresh, it is the oldest one left.
  discard_fresh :
      (q : Queue Sample) (now n : ℕ)
      → IsValid q
      → n ≤ q.count
      → (n ≡ q.count) ⊎ (is_fresh float now (q.arrived ((q.head + n) % queue_frames)) ≡ true)
      → ((discard float q n).count ≡ 0)
        ⊎ (is_fresh float now ((discard float q n).arrived (discard float q n).head) ≡ true)
  discard_fresh q now n valid few (inl all) =
      let (v, c, h, s, b) = discard_lem q n valid few in inl (omega (arith, c, all))
  discard_fresh q now n valid few (inr fresh) =
      let (v, c, h, s, b) = discard_lem q n valid few in
      elim (all_or_less n q.count few) [
        | inl all ↦ inl (omega (arith, c, all))
        | inr less ↦ inr (
            rw h (
              rw
                (discard_arrived q n ((q.head + n) % queue_frames)
                  (λ j low high. omega (arith, less, valid.fits, high)))
                fresh))
      ]
    where
      all_or_less : (a b : ℕ) → a ≤ b → (a ≡ b) ⊎ (a < b)
      all_or_less a b h = omega arith

  -- On a valid queue, `expire` keeps the queue valid with no more frames than before, and the
  -- sample time that is expected as it was; the oldest frame that then waits, if any does, is
  -- fresh.
  pub expire_lem :
      (q : Queue Sample) (now : ℕ)
      → IsValid q
      → let next = expire float q now in
        IsValid next
        × (next.count ≤ q.count)
        × (next.next_sample ≡ q.next_sample)
        × (next.has_sample ≡ q.has_sample)
        × ((next.count ≡ 0) ⊎ (is_fresh float now (next.arrived next.head) ≡ true))
  unfolding expire
  expire_lem q now valid =
      elim (Bool-cases
        (q.count != 0 && ltb now (q.arrived ((q.head + q.count - 1) % queue_frames)))) [
          | inl back ↦
              let (v, c, s, b) = flush_lem q valid in
              rw back
                (record { in_storage = v.in_storage; fits = v.fits }, omega (arith, c), s, b, inl c)
          | inr fine ↦
              let n = count_expired float q now q.count 0 in
              let (low, high, cases) = count_expired_lem q now q.count 0 in
              let (v, c, h, s, b) = discard_lem q n valid (omega (arith, high)) in
              let fresh =
                discard_fresh q now n valid (omega (arith, high))
                  (elim cases [ inl all ↦ inl (omega (arith, all)) | inr next ↦ inr next ]) in
              elim (Bool-cases (n != 0)) [
                | inl some_old ↦
                    rw (fine, some_old)
                      (
                        record { in_storage = v.in_storage; fits = v.fits },
                        omega (arith, c),
                        s,
                        b,
                        fresh,
                      )
                | inr none_old ↦
                    let same : n ≡ 0 = ground (arith, none_old) in
                    rw (fine, none_old) (valid, omega arith, refl, refl, kept same cases)
              ]
        ]
    where
      kept :
          count_expired float q now q.count 0 ≡ 0
          → (count_expired float q now q.count 0 ≡ 0 + q.count)
            ⊎ (is_fresh float now
                  (q.arrived ((q.head + count_expired float q now q.count 0) % queue_frames))
                ≡ true)
          → (q.count ≡ 0) ⊎ (is_fresh float now (q.arrived q.head) ≡ true)
      kept same (inl all) = inl (omega (arith, same, all))
      kept same (inr fresh) =
          let here : (q.head + count_expired float q now q.count 0) % queue_frames ≡ q.head =
            omega (arith, same, valid.in_storage) in
          inr (rw (← here) fresh)

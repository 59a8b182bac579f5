-- ===== src/Audio/MicLink/Gate.antt =====
-- The gate of the reader: what a message and a turn of the timer leave of its times.
use plank.Common.{
  ℕ, ◌+◌, ◌≤◌, ◌≡◌, inl, inr, refl, arith, Bool, true, not, ◌||◌, ◌&&◌, ltb, leb, ◌==◌, ◌!=◌,
  Option, none, some, Bool-cases, Option-cases,
}
use plank.Common.Bits.{u64}
use plank.Audio.MicBuffer.{Float, Buffer}
use plank.Audio.MicLink.{
  Clock, Link, State, Region, Message, is_word, word_or_zero, drop_link, is_valid, attach, operate,
  receive, tick_link, tick_broker, tick,
}

-- A message that asks for a lease, or for more of it.
abbrev pub is_renewal : {Real : Type 0} → Message Real → Bool
is_renewal m = is_valid m && (is_word m.operation 1 || is_word m.operation 2)

-- No admission lasts beyond the limit, and without a link nothing is heard.
pub record IsGated {Real : Type 0} (limit : ℕ) (s : State Real) : Type 0 where
  pub broker : s.broker_deadline ≤ limit
  pub input : s.input_deadline ≤ limit
  pub closed : (s.link ≡ none) → (s.input_deadline ≡ 0) × (s.input_lease ≡ 0)

module _ {Real : Type 0} where
  drop_link-IsGated : (limit : ℕ) (s : State Real) → IsGated limit (drop_link s)
  unfolding drop_link
  drop_link-IsGated limit s = record {
    broker = omega arith;
    input = omega arith;
    closed = λ e. (refl, refl);
  }

  attach-IsGated :
      (clock : Clock) (bytes now lease limit : ℕ) (memory : Option (Region Real)) (s : State Real)
      → u64 (now + clock.two_seconds) ≤ limit
      → IsGated limit s
      → IsGated limit (attach clock bytes now lease memory s).1
  unfolding attach drop_link
  attach-IsGated clock bytes now lease limit none s room g = g
  attach-IsGated clock bytes now lease limit (some region) s room g =
      elim (Option-cases region.mapping) [
        | inl unmapped ↦ rw unmapped g
        | inr (mapping, mapped) ↦
            elim (Bool-cases (region.bytes == bytes && mapping.version == 2)) [
              | inl good ↦
                  rw (mapped, good)
                    (record { broker = room; input = omega arith; closed = λ e. absurd (cc e) })
              | inr bad ↦ rw (mapped, bad) g
            ]
      ]

  operate-IsGated :
      (clock : Clock) (bytes now limit : ℕ) (m : Message Real) (s : State Real)
      → ((is_word m.operation 1 || is_word m.operation 2) ≡ true
          → u64 (now + clock.two_seconds) ≤ limit)
      → IsGated limit s
      → IsGated limit (operate clock bytes now m s).1
  unfolding operate
  operate-IsGated clock bytes now limit m s room g =
      let lease = word_or_zero m.lease in
      elim (Bool-cases (is_word m.operation 1 && m.entries == 4)) [
        | inl attaches ↦
            let soon : u64 (now + clock.two_seconds) ≤ limit = room (ground (arith, attaches)) in
            rw attaches (attach-IsGated clock bytes now lease limit m.memory s soon g)
        | inr other ↦
            elim (Bool-cases (is_word m.operation 2 && m.entries == 3 && lease == s.lease)) [
              | inl renews ↦
                  let soon : u64 (now + clock.two_seconds) ≤ limit =
                    room (ground (arith, renews)) in
                  rw (other, renews) (record { broker = soon; input = g.input; closed = g.closed })
              | inr neither ↦ elim (Bool-cases (is_word m.operation 3 && m.entries == 3)) [
                | inl revokes ↦ elim (Bool-cases (lease == s.lease)) [
                  | inl same ↦ rw (other, neither, revokes, same) (drop_link-IsGated limit s)
                  | inr stale ↦ rw (other, neither, revokes, stale) g
                ]
                | inr none_of_them ↦ rw (other, neither, none_of_them) g
              ]
            ]
      ]

  pub receive-IsGated :
      (clock : Clock) (bytes now limit : ℕ) (m : Message Real) (s : State Real)
      → (is_renewal m ≡ true → u64 (now + clock.two_seconds) ≤ limit)
      → IsGated limit s
      → IsGated limit (receive clock bytes now m s).1
  unfolding receive is_valid operate
  receive-IsGated clock bytes now limit m s room g =
      let closed = drop_link-IsGated limit s in
      elim (Bool-cases (not m.is_own_peer)) [
        | inl foreign ↦ rw foreign g
        | inr own ↦ elim (Bool-cases m.is_error) [
          | inl broken ↦
              rw (own, broken)
                (record { broker = closed.broker; input = closed.input; closed = closed.closed })
          | inr fine ↦ elim (Bool-cases (not (is_valid m) || not m.has_reply)) [
            | inl refused ↦ rw (own, fine, refused) closed
            | inr valid ↦
                let good : is_valid m ≡ true = ground (arith, valid) in
                rw (own, fine, valid)
                  (operate-IsGated clock bytes now limit m s (λ asks. room (rw (good, asks) refl))
                    g)
          ]
        ]
      ]

module _ {Real : Type 0} (float : Float Real) where
  tick_link-IsGated :
      (clock : Clock) (shared : ℕ → ℕ → Buffer Real) (now limit : ℕ) (link : Link Real)
      (s : State Real)
      → IsGated limit s
      → IsGated limit (tick_link float clock shared now link s)
  unfolding tick_link
  tick_link-IsGated clock shared now limit link s g =
      elim (Bool-cases (
        s.driver.running == 0
        || ltb now s.driver.anchor
        || leb link.deadline now
        || link.producer_seed != s.driver.clock_seed)) [
          | inl stops ↦
              rw stops
                (record { broker = g.broker; input = omega arith; closed = λ e. absurd (cc e) })
          | inr goes ↦ rw goes (record {
            broker = g.broker;
            input = omega (arith, g.broker);
            closed = λ e. absurd (cc e);
          })
        ]

  tick_broker-IsGated :
      (clock : Clock) (shared : ℕ → ℕ → Buffer Real) (now limit : ℕ) (o : Option (Link Real))
      (s : State Real)
      → IsGated limit s
      → IsGated limit (tick_broker float clock shared now o s)
  unfolding tick_broker
  tick_broker-IsGated clock shared now limit none s g = g
  tick_broker-IsGated clock shared now limit (some link) s g =
      elim (Bool-cases (leb s.broker_deadline now)) [
        | inl over ↦ rw over (drop_link-IsGated limit s)
        | inr lasts ↦ rw lasts (tick_link-IsGated clock shared now limit link s g)
      ]

  pub tick-IsGated :
      (clock : Clock) (shared : ℕ → ℕ → Buffer Real) (now limit : ℕ) (s : State Real)
      → IsGated limit s
      → IsGated limit (tick float clock shared now s)
  unfolding tick
  tick-IsGated clock shared now limit s g =
      elim (Bool-cases (not s.has_peer && leb s.connect_at now)) [
        | inl connects ↦ rw connects (
            tick_broker-IsGated clock shared now limit s.link
              (record s { connect_at = u64 (now + clock.one_second); has_peer = true })
              (record { broker = g.broker; input = g.input; closed = g.closed }))
        | inr waits ↦ rw waits (tick_broker-IsGated clock shared now limit s.link s g)
      ]

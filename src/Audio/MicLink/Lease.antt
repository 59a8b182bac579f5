-- ===== src/Audio/MicLink/Lease.antt =====
-- Only the broker renews what a producer may say: the gate of the reader never opens longer than the
-- broker's messages allow.
use plank.Common.{
  ℕ, ◌+◌, ◌≤◌, ◌≡◌, ◌⊎◌, inl, inr, refl, arith, true, leb, Option, none, some, List, [], ◌∷◌,
}
use plank.Common.Bits.{u64}
use plank.Audio.MicBuffer.{Float, Buffer, silences}
use plank.Audio.MicDriver.{Driver}
use plank.Audio.MicLink.{Clock, Link, State, Message, receive, tick, gated_read}
use plank.Audio.MicLink.Gate.{is_renewal, IsGated, receive-IsGated, tick-IsGated}

-- What happens to the driver: a message, a turn of the timer, what Core Audio's calls make of the
-- driver, and whatever the producer does to the region.
pub data Event (Real : Type 0) : Type 0 where
  messages : ℕ → Message Real → Event Real
  timers : (ℕ → ℕ → Buffer Real) → ℕ → Event Real
  calls : Driver Real → Event Real
  produces : Link Real → Event Real

abbrev replaced : {Real : Type 0} → Link Real → Option (Link Real) → Option (Link Real)
replaced link none = none
replaced link (some old) = some link

module _ {Real : Type 0} (float : Float Real) (clock : Clock) (bytes : ℕ) where
  abbrev pub step : State Real → Event Real → State Real
  step s (messages now m) = (receive clock bytes now m s).1
  step s (timers shared now) = tick float clock shared now s
  step s (calls driver) = record s { driver = driver }
  step s (produces link) = record s { link = replaced link s.link }

  abbrev pub run : State Real → List (Event Real) → State Real
  run s [] = s
  run s (event ∷ events) = run (step s event) events

  -- Every renewal among the events ends at the limit at the latest.
  abbrev pub IsWithin : ℕ → List (Event Real) → Type 0
  IsWithin limit [] = limit ≡ limit
  IsWithin limit (messages now m ∷ events) =
      (is_renewal m ≡ true → u64 (now + clock.two_seconds) ≤ limit) × IsWithin limit events
  IsWithin limit (timers shared now ∷ events) = IsWithin limit events
  IsWithin limit (calls driver ∷ events) = IsWithin limit events
  IsWithin limit (produces link ∷ events) = IsWithin limit events

module _ {Real : Type 0} (float : Float Real) where
  run-IsGated :
      (clock : Clock) (bytes limit : ℕ) (s : State Real) (events : List (Event Real))
      → IsWithin float clock bytes limit events
      → IsGated limit s
      → IsGated limit (run float clock bytes s events)
  run-IsGated clock bytes limit s [] within g = g
  run-IsGated clock bytes limit s (messages now m ∷ events) within g =
      run-IsGated clock bytes limit (receive clock bytes now m s).1 events within.1
        (receive-IsGated clock bytes now limit m s within.0 g)
  run-IsGated clock bytes limit s (timers shared now ∷ events) within g =
      run-IsGated clock bytes limit (tick float clock shared now s) events within
        (tick-IsGated float clock shared now limit s g)
  run-IsGated clock bytes limit s (calls driver ∷ events) within g =
      run-IsGated clock bytes limit (record s { driver = driver }) events within
        (record { broker = g.broker; input = g.input; closed = g.closed })
  run-IsGated clock bytes limit s (produces link ∷ events) within g =
      let next = record s { link = replaced link s.link } in
      run-IsGated clock bytes limit next events within (record {
        broker = g.broker;
        input = g.input;
        closed = λ e. g.closed (still_none link s.link e);
      })
    where
      still_none : (link : Link Real) (o : Option (Link Real)) → replaced link o ≡ none → o ≡ none
      still_none link none e = refl
      still_none link (some old) e = absurd (cc e)

  -- Whatever the producer puts into the region and however often the timer runs: where no message
  -- renews the lease beyond the limit, nothing but silence is heard from the limit on, and nothing at
  -- any time where there is no link.
  pub lease_lem :
      (clock : Clock) (bytes limit : ℕ) (s : State Real) (events : List (Event Real))
      (memory : ℕ → Buffer Real) (before after count position : ℕ) (late : State Real)
      → IsGated limit s
      → IsWithin float clock bytes limit events
      → let next = run float clock bytes s events in
        ((limit ≤ before) ⊎ (next.link ≡ none))
        → gated_read float memory before after next late count position
          ≡ silences (float.silence, float.silence) count
  unfolding gated_read
  lease_lem clock bytes limit s events memory before after count position late g within over =
      let next = run float clock bytes s events in
      let h : IsGated limit next = run-IsGated clock bytes limit s events within g in
      let past : leb next.input_deadline before ≡ true = elim over [
        | inl late_read ↦ ground (arith, late_read, h.input)
        | inr unlinked ↦ ground (arith, (h.closed unlinked).0)
      ] in
      ground (arith, past)

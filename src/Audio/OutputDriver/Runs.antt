-- ===== src/Audio/OutputDriver/Runs.antt =====
-- Every sequence of calls of the system, from when the driver is loaded.
use plank.Common.{ℕ, ◌≤◌, ◌≡◌, arith, Bool, Option, List, [], ◌∷◌}
use plank.Audio.CoreAudio.{Object, Address}
use plank.Audio.Clients.{max_clients}
use plank.Audio.Clients.Shared.{shared_few, free_table-IsShared}
use plank.Audio.OutputDriver.{
  Driver, initial, query, retain, release, initialize, add_client, remove_client, change_io,
}
use plank.Audio.OutputDriver.Properties.{Reals}
use plank.Audio.OutputDriver.Set.{Data, set}
use plank.Audio.OutputDriver.Set.Volume.{set_keeps_clients}
use plank.Audio.OutputDriver.Sharing.{
  IsValid, add_client-IsValid, remove_client-IsValid, change_io-IsValid,
}

-- What the system calls that changes the driver; the time is what mach_absolute_time would give. The
-- other entries of the interface give answers only.
pub data Call (Real : Type 0) : Type 0 where
  queries : Bool → Bool → Bool → Call Real
  retains releases : Bool → Call Real
  initializes : Bool → Bool → Real → ℕ → Call Real
  adds removes : Bool → Object → Option ℕ → Call Real
  changes_io : Bool → Object → ℕ → Bool → ℕ → Call Real
  sets : Bool → Object → Option Address → ℕ → Option (Data Real) → Call Real

module _ {Real : Type 0} (reals : Reals Real) where
  abbrev pub step : Driver Real → Call Real → Driver Real
  step d (queries is_driver has_result supported) = (query is_driver has_result supported d).2
  step d (retains is_driver) = (retain is_driver d).1
  step d (releases is_driver) = (release is_driver d).1
  step d (initializes is_driver has_owner ticks now) =
      (initialize is_driver has_owner ticks now d).1
  step d (adds is_driver object info) = (add_client is_driver object info d).1
  step d (removes is_driver object info) = (remove_client is_driver object info d).1
  step d (changes_io is_driver object client start now) =
      (change_io is_driver object client start now d).1
  step d (sets is_driver object address size input) =
      (set reals d is_driver object address size input).1

  abbrev pub run : Driver Real → List (Call Real) → Driver Real
  run d [] = d
  run d (call ∷ calls) = run (step d call) calls

  same_sharing :
      (d next : Driver Real)
      → IsValid d
      → next.clients ≡ d.clients
      → next.running ≡ d.running
      → IsValid next
  same_sharing d next v c r = rw (c, r) v

  query_lem :
      (is_driver has_result supported : Bool) (d : Driver Real)
      → let next = (query is_driver has_result supported d).2 in
        (next.clients ≡ d.clients) × (next.running ≡ d.running)
  unfolding query
  query_lem is_driver has_result supported d = ground arith

  retain_lem :
      (is_driver : Bool) (d : Driver Real)
      → let next = (retain is_driver d).1 in (next.clients ≡ d.clients) × (next.running ≡ d.running)
  unfolding retain
  retain_lem is_driver d = ground arith

  release_lem :
      (is_driver : Bool) (d : Driver Real)
      → let next = (release is_driver d).1 in
        (next.clients ≡ d.clients) × (next.running ≡ d.running)
  unfolding release
  release_lem is_driver d = ground arith

  initialize_lem :
      (is_driver has_owner : Bool) (ticks : Real) (now : ℕ) (d : Driver Real)
      → let next = (initialize is_driver has_owner ticks now d).1 in
        (next.clients ≡ d.clients) × (next.running ≡ d.running)
  unfolding initialize
  initialize_lem is_driver has_owner ticks now d = ground arith

  -- Every call keeps the table whole, the identities distinct and the running count right.
  pub step-IsValid : (d : Driver Real) (call : Call Real) → IsValid d → IsValid (step d call)
  step-IsValid d (queries is_driver has_result supported) v =
      let (c, r) = query_lem is_driver has_result supported d in
      same_sharing d (query is_driver has_result supported d).2 v c r
  step-IsValid d (retains is_driver) v =
      let (c, r) = retain_lem is_driver d in same_sharing d (retain is_driver d).1 v c r
  step-IsValid d (releases is_driver) v =
      let (c, r) = release_lem is_driver d in same_sharing d (release is_driver d).1 v c r
  step-IsValid d (initializes is_driver has_owner ticks now) v =
      let (c, r) = initialize_lem is_driver has_owner ticks now d in
      same_sharing d (initialize is_driver has_owner ticks now d).1 v c r
  step-IsValid d (adds is_driver object info) v = add_client-IsValid is_driver object info d v
  step-IsValid d (removes is_driver object info) v = remove_client-IsValid is_driver object info d v
  step-IsValid d (changes_io is_driver object client start now) v =
      (change_io-IsValid is_driver object client start now d v).0
  step-IsValid d (sets is_driver object address size input) v =
      let (c, r) = set_keeps_clients reals d is_driver object address size input in
      same_sharing d (set reals d is_driver object address size input).1 v c r

  run-IsValid : (d : Driver Real) (calls : List (Call Real)) → IsValid d → IsValid (run d calls)
  run-IsValid d [] v = v
  run-IsValid d (call ∷ calls) v = run-IsValid (step d call) calls (step-IsValid d call v)

  initial-IsValid : (unity nought : Real) → IsValid (initial unity nought)
  unfolding initial
  initial-IsValid unity nought = free_table-IsShared

  -- From when the driver is loaded, whatever the system calls: the table has 64 slots, no identity has
  -- two of them, and `running` is the number of clients that run, at most 64. The calls are those of
  -- the references, of the initialization, of the clients, of starting and stopping IO, and of setting
  -- a property, in any order and number.
  pub output_run_lem :
      (calls : List (Call Real))
      → let d = run (initial reals.unity reals.nought) calls in
        IsValid d × (d.running ≤ max_clients)
  output_run_lem calls =
      let v =
        run-IsValid (initial reals.unity reals.nought) calls
          (initial-IsValid reals.unity reals.nought) in
      let d = run (initial reals.unity reals.nought) calls in (v, shared_few d.clients d.running v)

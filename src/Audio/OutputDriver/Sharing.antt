-- ===== src/Audio/OutputDriver/Sharing.antt =====
-- What the calls about clients do to the table and to the count of running clients.
use plank.Common.{
  ℕ, ◌==◌, ◌≡◌, ◌⊎◌, inl, inr, refl, arith, Bool, true, false, not, ◌||◌, Option, none, some, List,
  Bool-cases, Option-cases,
}
use plank.Audio.CoreAudio.{Object, is_device}
use plank.Audio.Clients.{Client, known, claim, change}
use plank.Audio.Clients.Shared.{
  IsShared, claim-IsShared, dismiss-IsShared, change-IsShared, next_running,
}
use plank.Audio.OutputDriver.{Driver, add_client, remove_client, apply_change, change_io}

module _ {Real : Type 0} where
  abbrev pub IsValid : Driver Real → Type 0
  IsValid d = IsShared d.clients d.running

  pub add_client-IsValid :
      (is_driver : Bool) (object : Object) (info : Option ℕ) (d : Driver Real)
      → IsValid d
      → IsValid (add_client is_driver object info d).1
  unfolding add_client
  add_client-IsValid is_driver object none d v = v
  add_client-IsValid is_driver object (some id) d v =
      elim (Bool-cases (not is_driver || not (is_device object))) [
        | inl bad ↦ rw bad v
        | inr good ↦ elim (Bool-cases (known id d.clients)) [
          | inl old ↦ rw (good, old) v
          | inr new ↦ elim (Option-cases (claim id d.clients)) [
            | inl full ↦ rw (good, new, full) v
            | inr (table, claimed) ↦
                let next = claim-IsShared id d.running d.clients table v new claimed in
                rw (good, new, claimed) next
          ]
        ]
      ]

  pub remove_client-IsValid :
      (is_driver : Bool) (object : Object) (info : Option ℕ) (d : Driver Real)
      → IsValid d
      → IsValid (remove_client is_driver object info d).1
  unfolding remove_client
  remove_client-IsValid is_driver object none d v = v
  remove_client-IsValid is_driver object (some id) d v =
      elim (Bool-cases (not is_driver || not (is_device object))) [
        | inl bad ↦ rw bad v
        | inr good ↦ rw good (dismiss-IsShared id d.running d.clients v)
      ]

  apply_change_lem :
      (start changes : Bool) (table : List Client) (now : ℕ) (d : Driver Real)
      → let next = apply_change start changes table now d in
        (next.clients ≡ table)
        × (next.running ≡ next_running start changes d.running)
        × ((next.clock_seed ≡ d.clock_seed) ⊎ (d.running ≡ 0))
  unfolding apply_change
  apply_change_lem start false table now d = (refl, refl, inl refl)
  apply_change_lem false true table now d = (refl, refl, inl refl)
  apply_change_lem true true table now d = elim (Bool-cases (d.running == 0)) [
    | inl none_ran ↦
        let idle : d.running ≡ 0 = ground (arith, none_ran) in rw none_ran (refl, refl, inr idle)
    | inr some_ran ↦ rw some_ran (refl, refl, inl refl)
  ]

  -- A change of IO keeps the table and the count right, and the clock only starts again where no
  -- client ran.
  pub change_io-IsValid :
      (is_driver : Bool) (object : Object) (client : ℕ) (start : Bool) (now : ℕ) (d : Driver Real)
      → IsValid d
      → let next = (change_io is_driver object client start now d).1 in
        IsValid next × ((next.clock_seed ≡ d.clock_seed) ⊎ (d.running ≡ 0))
  unfolding change_io
  change_io-IsValid is_driver object client start now d v =
      elim (Bool-cases (not is_driver || not (is_device object) || not d.has_host)) [
        | inl bad ↦ rw bad (v, inl refl)
        | inr good ↦ elim (Option-cases (change client start d.clients)) [
          | inl missing ↦ rw (good, missing) (v, inl refl)
          | inr ((changes, table), found) ↦
              let next = change-IsShared client d.running start changes d.clients table v found in
              let (c, r, seed) = apply_change_lem start changes table now d in
              rw (good, found) (rw (c, r) next, seed)
        ]
      ]

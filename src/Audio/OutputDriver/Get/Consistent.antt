-- ===== src/Audio/OutputDriver/Get/Consistent.antt =====
-- The three calls about properties agree: what exists can be read, whole.
use plank.Common.{
  ℕ, ◌≤◌, ◌≡◌, ◌≢◌, refl, ap, arith, Bool, true, false, ◌==◌, Option, none, some, Option-cases,
  Bool-cases, inl, inr, ◌⊎◌,
}
use plank.Audio.CoreAudio.{Object, Scope, Selector, Address, no_error, Answer, answer_size}
use plank.Audio.OutputDriver.{Driver}
use plank.Audio.OutputDriver.Sizes.{
  general_size, plug_in_size, device_size, side_size, streams_size, level_size, control_size,
  stream_size, look_up, property_size,
}
use plank.Audio.OutputDriver.Properties.{Reals, has, size_of}
use plank.Audio.OutputDriver.Get.{Outcome, copies, fails, deliver, value_of, get}

module _ {Real : Type 0} where
  abbrev pub IsSized : ℕ → Outcome Real → Type 0
  IsSized n (copies answer) = answer_size answer ≡ n
  IsSized n (fails status) = ◌≡◌ {A = ℕ} 0 1

  pub deliver_lem :
      (n capacity : ℕ) (value : Outcome Real)
      → n ≤ capacity
      → ((n ≢ 0) → IsSized n value)
      → let (status, actual, written) = deliver n capacity false value in
        (status ≡ no_error)
        × (actual ≡ n)
        × (((n ≡ 0) × (written ≡ none))
            ⊎ ((answer : Answer Real) × (written ≡ some answer) × (answer_size answer ≡ n)))
  unfolding deliver
  deliver_lem n capacity value room sized = elim (Bool-cases (n == 0)) [
    | inl nothing ↦ let e : n ≡ 0 = ground (arith, nothing) in ground (arith, e, room)
    | inr something ↦
        let e : n ≢ 0 = ground (arith, something) in answered n capacity value room e (sized e)
  ]
    where
      answered :
          (n capacity : ℕ) (value : Outcome Real)
          → n ≤ capacity
          → n ≢ 0
          → IsSized n value
          → let (status, actual, written) = deliver n capacity false value in
            (status ≡ no_error)
            × (actual ≡ n)
            × (((n ≡ 0) × (written ≡ none))
                ⊎ ((answer : Answer Real) × (written ≡ some answer) × (answer_size answer ≡ n)))
      answered n capacity (copies answer) room e sized = (
        ground (arith, e, room),
        ground (arith, e, room),
        inr (answer, ground (arith, e, room), sized),
      )
      answered n capacity (fails why) room e sized = absurd (omega (arith, sized))

module _ {Real : Type 0} (reals : Reals Real) where
  value_size :
      (d : Driver Real) (object : Object) (scope : Scope) (n : ℕ) (input : Real) (own : Bool)
      (selector : Selector)
      → reals.is_finite input ≡ true
      → look_up object scope selector ≡ some n
      → n ≢ 0
      → IsSized n (value_of reals d object scope n input true own selector)
  unfolding look_up general_size plug_in_size device_size side_size streams_size level_size
      control_size stream_size value_of
  value_size d object scope n input own selector f e some_bytes = ground arith

has_parts :
    (object : Object) (address : Address)
    → has true object (some address) ≡ true
    → (n : ℕ) × (property_size object (some address) true ≡ (no_error, n))
      × (look_up object address.scope address.selector ≡ some n)
unfolding has property_size
has_parts object address e = elim (Option-cases (look_up object address.scope address.selector)) [
  | inl none_found ↦ absurd (ground (arith, none_found, e))
  | inr (n, found) ↦ (n, ground (arith, found, e), found)
]

-- Every other answer of `has` comes with a refusal of `get` that leaves the data alone.
has_not :
    (is_driver : Bool) (object : Object) (address : Option Address)
    → has is_driver object address ≡ false
    → (size_of is_driver object address true).0 ≢ no_error
unfolding has size_of
has_not is_driver object address e = ground (arith, e)

module _ {Real : Type 0} (reals : Reals Real) where
  get_delivers :
      (d : Driver Real) (object : Object) (address : Address) (own : Bool) (n capacity : ℕ)
      (input : Real)
      → property_size object (some address) true ≡ (no_error, n)
      → get reals d true object (some address) true own capacity true (some input)
        ≡ deliver n capacity false
            (value_of reals d object address.scope n input true own address.selector)
  unfolding get size_of
  get_delivers d object address own n capacity input e = rw (ap (λ r. r.0) e, ap (λ r. r.1) e) refl

  -- What `has` says exists, `get` gives, in the size that the size call says: with room for it, a
  -- qualifier where one is asked for and a finite number to convert, the status is no_error, and the
  -- answer that is copied has exactly the size, or there is nothing to copy.
  pub output_get_lem :
      (d : Driver Real) (object : Object) (address : Address) (own : Bool) (capacity : ℕ)
      (input : Real)
      → has true object (some address) ≡ true
      → let needed = (size_of true object (some address) true).1 in
        needed ≤ capacity
        → reals.is_finite input ≡ true
        → let (status, actual, written) =
            get reals d true object (some address) true own capacity true (some input) in
          (status ≡ no_error)
          × (actual ≡ needed)
          × (((needed ≡ 0) × (written ≡ none))
              ⊎ ((answer : Answer Real) × (written ≡ some answer) × (answer_size answer ≡ needed)))
  unfolding size_of
  output_get_lem d object address own capacity input exists room finite =
      let (n, sized, found) = has_parts object address exists in
      let same : (property_size object (some address) true).1 ≡ n = ap (λ r. r.1) sized in
      let v = value_of reals d object address.scope n input true own address.selector in
      rw (get_delivers d object address own n capacity input sized, same)
        (deliver_lem n capacity v (omega (arith, same, room))
          (value_size reals d object address.scope n input own address.selector finite found))

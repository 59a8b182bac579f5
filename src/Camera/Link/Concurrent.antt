-- ===== src/Camera/Link/Concurrent.antt =====
-- A slot while the producer writes: its stamp tells whether it is still the same.
use plank.Common.{ℕ, ◌+◌, ◌*◌, ◌/◌, ◌%◌, ◌<◌, ◌≡◌, ◌⊎◌, inl, inr, refl, arith}
use plank.Camera.Link.{
  Slot, open_slot, store_size, store_host_time, store_arrived, store_word, close_slot,
}

-- A store of the producer, whose serial numbers grow.
pub data Step : Slot → Slot → Type 0 where
  opens : (s : Slot) (serial : ℕ) → s.stamp / 2 < serial → Step s (open_slot serial s)
  sizes : (s : Slot) (size : ℕ) → s.stamp % 2 ≡ 1 → Step s (store_size size s)
  times : (s : Slot) (time : ℕ) → s.stamp % 2 ≡ 1 → Step s (store_host_time time s)
  arrives : (s : Slot) (time : ℕ) → s.stamp % 2 ≡ 1 → Step s (store_arrived time s)
  fills : (s : Slot) (index : ℕ) (word : ℕ → ℕ) → s.stamp % 2 ≡ 1 → Step s (store_word index word s)
  closes : (s : Slot) (serial : ℕ) → s.stamp ≡ serial * 2 + 1 → Step s (close_slot serial s)

pub data Steps : Slot → Slot → Type 0 where
  here : (s : Slot) → Steps s s
  more : (s next last : Slot) → Step s next → Steps next last → Steps s last

-- The slot is past the record with the serial number.
abbrev IsPast : ℕ → Slot → Type 0
IsPast serial s = serial < s.stamp / 2

IsPast-Step : (serial : ℕ) (s next : Slot) → Step s next → IsPast serial s → IsPast serial next
unfolding open_slot store_size store_host_time store_arrived store_word close_slot
IsPast-Step serial s next (opens _ later new) past = omega (arith, new, past)
IsPast-Step serial s next (sizes _ size odd) past = past
IsPast-Step serial s next (times _ time odd) past = past
IsPast-Step serial s next (arrives _ time odd) past = past
IsPast-Step serial s next (fills _ index word odd) past = past
IsPast-Step serial s next (closes _ later e) past = omega (arith, e, past)

IsPast-Steps : (serial : ℕ) (s last : Slot) → Steps s last → IsPast serial s → IsPast serial last
IsPast-Steps serial s last (here _) past = past
IsPast-Steps serial s last (more _ next _ one rest) past =
    IsPast-Steps serial next last rest (IsPast-Step serial s next one past)

-- The first store after a record is closed is that of the next one.
closed-Step : (serial : ℕ) (s next : Slot) → Step s next → s.stamp ≡ serial * 2 → IsPast serial next
unfolding open_slot store_size store_host_time store_arrived store_word close_slot
closed-Step serial s next (opens _ later new) e = omega (arith, new, e)
closed-Step serial s next (sizes _ size odd) e = absurd (omega (arith, odd, e))
closed-Step serial s next (times _ time odd) e = absurd (omega (arith, odd, e))
closed-Step serial s next (arrives _ time odd) e = absurd (omega (arith, odd, e))
closed-Step serial s next (fills _ index word odd) e = absurd (omega (arith, odd, e))
closed-Step serial s next (closes _ later odd) e = absurd (omega (arith, odd, e))

closed-Steps :
    (serial : ℕ) (s last : Slot)
    → Steps s last
    → s.stamp ≡ serial * 2
    → (last ≡ s) ⊎ IsPast serial last
closed-Steps serial s last (here _) e = inl refl
closed-Steps serial s last (more _ next _ one rest) e =
    inr (IsPast-Steps serial next last rest (closed-Step serial s next one e))

-- Where the stamp is the same even number before and after, nothing has changed in between.
pub unchanged :
    (serial : ℕ) (s middle last : Slot)
    → Steps s middle
    → Steps middle last
    → s.stamp ≡ serial * 2
    → last.stamp ≡ serial * 2
    → middle ≡ s
unchanged serial s middle last before after e again = elim (closed-Steps serial s middle before e) [
  | inl same ↦ same
  | inr past ↦
      let gone = IsPast-Steps serial middle last after past in absurd (omega (arith, gone, again))
]

-- ===== src/Media/Diagnostics/Labels.antt =====
-- A failure is only ever told by one of the fixed labels, and input is timed within bounds.
use plank.Common.{
  ℕ, ◌+◌, ◌^◌, ◌≤◌, ◌<◌, ◌≡◌, ◌≢◌, ◌⊎◌, inl, inr, refl, arith, Option, none, some, List, [], ◌∷◌,
  Bool-cases,
}
use text.Mathlib.Text.{◌==◌, starts_with}
use Prim.Native.String.{String}
use plank.Media.Diagnostics.{Lane, lanes, lane_label, failure_class, InputTiming, note}

abbrev pub IsOneOf : String → List String → Type 0
IsOneOf s [] = ◌≡◌ {A = ℕ} 0 1
IsOneOf s (x ∷ xs) = (s ≡ x) ⊎ IsOneOf s xs

-- What a log may show.
abbrev pub labels : List String
labels =
    "none" ∷ "input-receive-queue-exhausted" ∷ "data-receive-queue-exhausted"
    ∷ "input-receiver-failed" ∷ "data-receiver-failed" ∷ "data-sender-failed"
    ∷ "video-sender-failed" ∷ "audio-sender-failed" ∷ "stats-sampler-failed"
    ∷ "input-receiver-ended" ∷ "data-receiver-ended" ∷ "other" ∷ []

-- Every lane of a list has a label of the list.
abbrev AreOf : List String → List Lane → Type 0
AreOf fixed [] = IsOneOf "other" fixed
AreOf fixed (lane ∷ rest) = IsOneOf lane.label fixed × AreOf fixed rest

lane_label-IsOneOf :
    (error : String) (fixed : List String) (rest : List Lane)
    → AreOf fixed rest
    → IsOneOf (lane_label error rest) fixed
unfolding lane_label
lane_label-IsOneOf error fixed [] known = known
lane_label-IsOneOf error fixed (lane ∷ rest) (first, known) =
    elim (Bool-cases (starts_with error lane.prefix)) [
      | inl begins ↦ rw begins first
      | inr other ↦ rw other (lane_label-IsOneOf error fixed rest known)
    ]

lanes-AreOf : AreOf labels lanes
lanes-AreOf = (
  inr (inr (inr (inl refl))),
  (
    inr (inr (inr (inr (inl refl)))),
    (
      inr (inr (inr (inr (inr (inl refl))))),
      (
        inr (inr (inr (inr (inr (inr (inl refl)))))),
        (
          inr (inr (inr (inr (inr (inr (inr (inl refl))))))),
          (
            inr (inr (inr (inr (inr (inr (inr (inr (inl refl)))))))),
            (
              inr (inr (inr (inr (inr (inr (inr (inr (inr (inl refl))))))))),
              (
                inr (inr (inr (inr (inr (inr (inr (inr (inr (inr (inl refl)))))))))),
                inr (inr (inr (inr (inr (inr (inr (inr (inr (inr (inr (inl refl))))))))))),
              ),
            ),
          ),
        ),
      ),
    ),
  ),
)

-- Whatever the text of an error is, what is told of it is one of the twelve fixed labels.
pub failure_class-IsOneOf : (error : Option String) → IsOneOf (failure_class error) labels
unfolding failure_class
failure_class-IsOneOf none = inl refl
failure_class-IsOneOf (some error) = elim (Bool-cases (error == "")) [
  | inl nothing ↦ rw nothing (inl refl)
  | inr something ↦
      elim (Bool-cases
        (error == "native input receiver failed: native input receive queue exhausted")) [
          | inl input ↦ rw (something, input) (inr (inl refl))
          | inr second ↦
              elim (Bool-cases (
                error
                == "native data receiver failed: native reliable data receive queue exhausted")) [
                  | inl bulk ↦ rw (something, second, bulk) (inr (inr (inl refl)))
                  | inr third ↦
                      rw (something, second, third)
                        (lane_label-IsOneOf error labels lanes lanes-AreOf)
                ]
        ]
]

-- No more events are slow than there are, and the slow ones are no longer than the longest.
pub record IsTimed (t : InputTiming) : Type 0 where
  pub few : t.slow ≤ t.count
  pub long : t.slow ≢ 0 → 20_000_000 ≤ t.maximum

note-IsTimed :
    (t : InputTiming) (start end : ℕ)
    → IsTimed t
    → t.count + 1 < 2 ^ 64
    → IsTimed (note t start end)
unfolding note
note-IsTimed t start end h room = record {
  few = ground (arith, h.few, room);
  long = ground (arith, h.long, h.few, room);
}

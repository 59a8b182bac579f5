-- ===== src/Media/TapBuffer/Tests.antt =====
-- Runs of the ring, and its theorems at concrete inputs. A sample is a number here, and finite below 100.
use plank.Common.{
  ℕ, ◌+◌, ◌≤◌, ◌<◌, ◌≡◌, ◌⊎◌, refl, arith, Bool, true, false, ltb, none, some, List, [], ◌∷◌,
  length,
}
use plank.Media.TapBuffer.{
  Block, Buffer, Input, slots, left_sample, right_sample, copy, fill, store, init, push, peek, pop,
}
use plank.Media.TapBuffer.Contents.{contents, IsValid}
use plank.Media.TapBuffer.Queue.{IsPush, push-IsPush}
use plank.Media.TapBuffer.Reads.{peek_lem}
use plank.Media.TapBuffer.Runs.{Reaches, pushes, stays, then_step, Reaches-IsValid, push_succeeds}

abbrev finite : ℕ → Bool
finite x = ltb x 100

abbrev empty_block : Block ℕ ℕ
empty_block = record {
  frames = 0;
  host_time = 0;
  callback_time = 0;
  sample_time = 0;
  samples = λ i. 0;
}

abbrev fresh : Buffer ℕ ℕ
fresh = record {
  read_index = 0xffff_ffff;
  write_index = 0xffff_ffff;
  failed = 0;
  overruns = 3;
  stopped = false;
  blocks = λ i. empty_block;
}

abbrev ramp : ℕ → ℕ
ramp i = i + 1

abbrev input : Input ℕ ℕ
input = record {
  left = some ramp;
  right = none;
  frames = 2;
  host_time = 77;
  sample_time = 5;
  callback_time = 78;
}

fresh-IsValid : IsValid fresh
fresh-IsValid = record { read_fits = omega arith; write_fits = omega arith; bounded = omega arith }

-- The index wraps around.
push_wraps : (push finite fresh input).1.write_index ≡ 0
unfolding push copy store fill left_sample right_sample
push_wraps = refl

frames_waiting : List (Block ℕ ℕ) → List ℕ
frames_waiting [] = []
frames_waiting (block ∷ rest) =
    block.frames
    ∷ block.samples 0
    ∷ block.samples 1
    ∷ block.samples 2
    ∷ block.samples 3
    ∷ frames_waiting rest

push-contents : frames_waiting (contents (push finite fresh input).1) ≡ 2 ∷ 1 ∷ 2 ∷ 3 ∷ 4 ∷ []
unfolding frames_waiting contents push copy store fill left_sample right_sample
push-contents = refl

push-IsPush_example :
    IsValid (push finite fresh input).1 × IsPush finite fresh input (push finite fresh input)
push-IsPush_example = push-IsPush finite fresh input fresh-IsValid

abbrev pushed : Buffer ℕ ℕ
pushed = record {
  read_index = 3;
  write_index = 5;
  failed = 0;
  overruns = 2;
  stopped = false;
  blocks = λ i. record {
    frames = i;
    host_time = 0;
    callback_time = 0;
    sample_time = 0;
    samples = λ j. 0;
  };
}

pushed-IsValid : IsValid pushed
pushed-IsValid = record { read_fits = omega arith; write_fits = omega arith; bounded = omega arith }

peek_lem_example :
    ((peek pushed ≡ none) × (contents pushed ≡ []))
    ⊎ ((block : Block ℕ ℕ) × (peek pushed ≡ some block)
        × (contents pushed ≡ block ∷ contents (pop pushed))
        × IsValid (pop pushed))
peek_lem_example = peek_lem pushed pushed-IsValid

abbrev no_blocks : ℕ → Block ℕ ℕ
no_blocks i = empty_block

one_push : Reaches finite (init no_blocks) (push finite (init no_blocks) input).1
one_push = then_step stays (pushes input)

Reaches-IsValid_example :
    IsValid (push finite (init no_blocks) input).1
    × (length (contents (push finite (init no_blocks) input).1) ≤ slots)
Reaches-IsValid_example =
    Reaches-IsValid finite no_blocks (push finite (init no_blocks) input).1 one_push

small_samples :
    (j : ℕ)
    → j < 2
    → (finite (left_sample ramp none j) ≡ true) × (finite (right_sample ramp none j) ≡ true)
unfolding left_sample right_sample
small_samples j h = ground arith

push_succeeds_example : (push finite fresh input).0 ≡ true
push_succeeds_example =
    push_succeeds finite fresh input ramp refl (omega arith) refl (omega arith) (omega arith)
      (omega arith) small_samples

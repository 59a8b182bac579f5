-- ===== src/Transport/Camera/Commands.antt =====
-- The camera commands through the control lane: what the sender encodes is what the receiver's
-- `control_decode` gives, and what `control_decode` accepts or refuses.
use plank.Common.{
  ℕ, ◌*◌, ◌/◌, ◌^◌, ◌≤◌, ◌<◌, ◌≡◌, ◌≢◌, ◌⊎◌, arith, Bool, true, false, ◌==◌, if◌then◌else◌, none,
  Option, some, inl, inr, refl, ap, Bool-cases, List, [], ◌∷◌, ◌++◌, length, take, take-append_eq,
}
use plank.Common.Bits.{u32}
use plank.Transport.BigEndian.{read_u32}
use plank.Transport.BigEndian.Laws.{join_u32-bytes}
use plank.Transport.Control
use plank.Transport.Control.{Packet, Encoded}
use plank.Transport.Control.RoundTrip.{
  words_bytes, packet_bytes, encode_lem, decode-packet_bytes, length-packet_bytes,
}
use plank.Transport.Camera.{
  Command, Outputs, set_camera, camera_applied, camera_keyframe, camera_enabled, camera_unavailable,
  uint64_max, read_u64, decode_command, control_decode,
}
use plank.Transport.Camera.Words.{join_u64-bytes}

-- The command that a decoded control packet carries.
abbrev pub command : Packet → Command
command p = record {
  packet_type = p.packet_type;
  payload = some p.payload;
  payload_size = p.payload_size;
}

-- The states that a command of a type may carry. A key frame request carries none.
abbrev pub IsState : ℕ → ℕ → Type 0
IsState type state =
    ((type ≡ set_camera) × (state ≤ camera_enabled))
    ⊎ ((type ≡ camera_applied) × (state ≤ camera_unavailable))
    ⊎ ((type ≡ camera_keyframe) × (state ≡ 0))

-- The words of the control packet for a command.
abbrev pub command_words : ℕ → ℕ → ℕ → List ℕ
command_words type generation state =
    if type == camera_keyframe
    then u32 (generation / 2 ^ 32) ∷ u32 generation ∷ []
    else u32 (generation / 2 ^ 32) ∷ u32 generation ∷ state ∷ []

read_generation :
    (generation : ℕ) (rest : List ℕ)
    → generation < 2 ^ 64
    → read_u64 (words_bytes (u32 (generation / 2 ^ 32) ∷ u32 generation ∷ []) ++ rest) 0
      ≡ generation
unfolding read_u64 read_u32
read_generation generation rest h = rw (join_u64-bytes generation h)

read_state :
    (a b state : ℕ) → state < 2 ^ 32 → read_u32 (words_bytes (a ∷ b ∷ state ∷ [])) 8 ≡ state
unfolding read_u32
read_state a b state h = rw (join_u32-bytes state h)

decode_command-words :
    (type generation state : ℕ)
    → 0 < generation
    → generation < uint64_max
    → IsState type state
    → let words = command_words type generation state in
      decode_command type (words_bytes words) (length words * 4)
      ≡ (true, record { generation = generation; value = state })
unfolding decode_command
decode_command-words type generation state pos top s =
    let small : generation < 2 ^ 64 = omega arith in
    let fits : state < 2 ^ 32 = ground arith in
    ground (
      arith,
      read_generation generation [] small,
      read_generation generation (words_bytes (state ∷ [])) small,
      read_state (u32 (generation / 2 ^ 32)) (u32 generation) state fits,
    )

few_words : (type generation state : ℕ) → length (command_words type generation state) ≤ 3
few_words type generation state = ground arith

-- A camera command crosses the control lane: the packet of its words is encoded, the bytes of the
-- packet are decoded, and `control_decode` gives the generation and the state. The generation is
-- neither 0 nor the largest word, the state is one that the type carries, and the output has room
-- for a packet of three words.
pub control_decode_across :
    (type generation state : ℕ) (output : List ℕ) (old : Outputs)
    → 0 < generation
    → generation < uint64_max
    → IsState type state
    → 20 ≤ length output
    → let words = command_words type generation state in
      (e : Encoded) × (p : Packet) × (Control.encode type
          (some words)
          (length words)
          (some output)
          (length output)
          true
        ≡ some e)
      × (Control.decode (some (take e.output_size e.output)) e.output_size true ≡ some p)
      × (control_decode (some (command p)) (some old)
          ≡ (true, some (record { generation = generation; value = state })))
control_decode_across type generation state output old pos top s room =
    let words : List ℕ = command_words type generation state in
    let few = few_words type generation state in
    let small : type < 2 ^ 16 = ground arith in
    (
      _,
      record { packet_type = type; payload = words_bytes words; payload_size = length words * 4 },
      encode_lem type words output (length output) few (omega (arith, few)),
      rw (take-append_eq _ (packet_bytes type words) _ (length-packet_bytes type words))
          (decode-packet_bytes type words small few),
      unfold control_decode in rw (decode_command-words type generation state pos top s),
    )

-- The generation and the state that the bytes of a command say: its size is that of its type, the
-- generation is neither 0 nor the largest word, and the state is one that the type carries.
pub record IsAccepted (type : ℕ) (payload : List ℕ) (size : ℕ) (new : Outputs) : Type 0 where
  pub sized : size ≡ (if type == camera_keyframe then 8 else 12)
  pub generation_read : new.generation ≡ read_u64 payload 0
  pub not_zero : 0 < new.generation
  pub not_largest : new.generation ≢ uint64_max
  pub state_read : new.value ≡ (if size == 12 then read_u32 payload 8 else 0)
  pub state : IsState type new.value

decode_command_cases :
    (type : ℕ) (payload : List ℕ) (size : ℕ)
    → let (good, new) = decode_command type payload size in
      ((good ≡ true) × IsAccepted type payload size new)
      ⊎ ((good ≡ false) × (new ≡ record { generation = 0; value = 0 }))
unfolding decode_command
decode_command_cases type payload size = elim (Bool-cases (decode_command type payload size).0) [
  | inr refused ↦ inr (refused, ground (arith, refused))
  | inl accepted ↦ inl (
    accepted,
    record {
      sized = ground (arith, accepted);
      generation_read = ground (arith, accepted);
      not_zero = ground (arith, accepted);
      not_largest = ground (arith, accepted);
      state_read = ground (arith, accepted);
      state = ground (arith, accepted);
    },
  )
]

-- One of the pointers is null: that of the packet, one of the outputs, or the packet's payload.
abbrev pub HasNull : Option Command → Option Outputs → Type 0
HasNull packet outputs =
    (packet ≡ none) ⊎ (outputs ≡ none) ⊎ ((c : Command) × (packet ≡ some c) × (c.payload ≡ none))

-- None of them is, and the answer is the one that the packet's bytes give: success with the generation
-- and the state that they say, or failure with cleared outputs.
abbrev pub IsDecoded : Option Command → Option Outputs → Bool → Option Outputs → Type 0
IsDecoded packet outputs good new =
    (c : Command) × (payload : List ℕ) × (old : Outputs) × (packet ≡ some c)
    × (c.payload ≡ some payload)
    × (outputs ≡ some old)
    × (((good ≡ true)
          × ((out : Outputs) × (new ≡ some out)
              × IsAccepted c.packet_type payload c.payload_size out))
        ⊎ ((good ≡ false) × (new ≡ some (record { generation = 0; value = 0 }))))

control_decode-some :
    (type size : ℕ) (o : Option (List ℕ)) (old : Outputs)
    → let c : Command = record { packet_type = type; payload = o; payload_size = size } in
      let (good, new) = control_decode (some c) (some old) in
      (HasNull (some c) (some old) × (good ≡ false) × (new ≡ some old))
      ⊎ IsDecoded (some c) (some old) good new
unfolding control_decode
control_decode-some type size none old = inl (inr (inr (_, refl, refl)), refl, refl)
control_decode-some type size (some payload) old = inr (
  _,
  payload,
  old,
  refl,
  refl,
  refl,
  elim (decode_command_cases type payload size) [
    | inl (good, accepted) ↦ inl (good, (_, refl, accepted))
    | inr (bad, cleared) ↦ inr (bad, ap some cleared)
  ],
)

-- What `control_decode` gives, whatever its pointers are. With a null pointer, be it the packet, an
-- output or the payload: failure, and the outputs are as they were. With none: success, with the
-- generation and the state that the payload says, where the size is that of the type, the generation is
-- neither 0 nor the largest word and the state is one that the type carries; or failure, with cleared
-- outputs.
pub control_decode_cases :
    (packet : Option Command) (outputs : Option Outputs)
    → let (good, new) = control_decode packet outputs in
      (HasNull packet outputs × (good ≡ false) × (new ≡ outputs))
      ⊎ IsDecoded packet outputs good new
unfolding control_decode
control_decode_cases none outputs = inl (inl refl, refl, refl)
control_decode_cases (some c) none = inl (inr (inl refl), refl, refl)
control_decode_cases (some c) (some old) =
    control_decode-some c.packet_type c.payload_size c.payload old

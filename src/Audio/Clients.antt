-- ===== src/Audio/Clients.antt =====
-- The table of clients that both drivers keep: 64 slots, walked by index. The list is the table from
-- the index on.
pub mod Laws
pub mod Shared
use plank.Common.{
  ℕ, ◌+◌, ◌-◌, ◌%◌, ◌^◌, Bool, true, false, not, ◌&&◌, ◌==◌, if◌then◌else◌, Option, none, some,
  List, [], ◌∷◌,
}
use plank.Common.Bits.{u32}

abbrev pub max_clients : ℕ
max_clients = 64

pub record Client : Type 0 where
  pub id : ℕ
  pub used : Bool
  pub running : Bool

abbrev pub is_client : ℕ → Client → Bool
is_client id c = c.used && c.id == id

-- The first loop of `addClient`.
pub known : ℕ → List Client → Bool
known id [] = false
known id (c ∷ cs) = let rest = known id cs in if is_client id c then true else rest

-- The second loop of `addClient`: the first unused slot, or none.
pub claim : ℕ → List Client → Option (List Client)
claim id [] = none
claim id (c ∷ cs) =
    let rest = claim id cs in
    if not c.used
    then some (record { id = id; used = true; running = false } ∷ cs)
    else elim rest [ none ↦ none | some table ↦ some (c ∷ table) ]

-- The loop of `removeClient`: whether the client was running, and the table afterwards.
pub dismiss : ℕ → List Client → Bool × List Client
dismiss id [] = (false, [])
dismiss id (c ∷ cs) =
    let (was_running, rest) = dismiss id cs in
    if is_client id c
    then (c.running, record c { used = false; running = false } ∷ cs)
    else (was_running, c ∷ rest)

abbrev pub differ : Bool → Bool → Bool
differ true b = not b
differ false b = b

-- The loop of `changeIO`: none if there is no such client, else whether its state changes, and the
-- table afterwards.
pub change : ℕ → Bool → List Client → Option (Bool × List Client)
change id start [] = none
change id start (c ∷ cs) =
    let later = change id start cs in
    if is_client id c
    then some (differ c.running start, record c { running = start } ∷ cs)
    else elim later [ none ↦ none | some (changes, rest) ↦ some (changes, c ∷ rest) ]

-- `atomic_fetch_add` and `atomic_fetch_sub` of 1 on 32 bits.
abbrev pub one_more : ℕ → ℕ
one_more n = u32 (n + 1)

abbrev pub one_less : ℕ → ℕ
one_less n = (n + 2 ^ 32 - 1) % 2 ^ 32

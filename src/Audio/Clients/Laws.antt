-- ===== src/Audio/Clients/Laws.antt =====
-- What the loops over the client table keep: the length, the count of running clients, and that an
-- identity has at most one slot.
use plank.Common.{
  ℕ, suc, ◌+◌, ◌≤◌, ◌<◌, ◌≡◌, ◌≢◌, ◌⊎◌, inl, inr, refl, arith, Bool, true, false, not, ◌&&◌, ◌==◌,
  if◌then◌else◌, none, some, List, [], ◌∷◌, length, Bool-cases, Option-cases,
}
use plank.Audio.Clients.{
  Client, max_clients, one_less, is_client, known, claim, dismiss, differ, change,
}

abbrev pub one_if : Bool → ℕ
one_if b = if b then 1 else 0

abbrev pub count_running : List Client → ℕ
count_running [] = 0
count_running (c ∷ cs) = one_if c.running + count_running cs

-- How many slots the identity holds.
abbrev pub count_id : ℕ → List Client → ℕ
count_id id [] = 0
count_id id (c ∷ cs) = one_if (is_client id c) + count_id id cs

abbrev pub count_used : List Client → ℕ
count_used [] = 0
count_used (c ∷ cs) = one_if c.used + count_used cs

-- No slot that is free counts as running.
abbrev pub IsTidy : List Client → Type 0
IsTidy [] = Unit
IsTidy (c ∷ cs) = ((c.used ≡ true) ⊎ (c.running ≡ false)) × IsTidy cs

pub known_lem :
    (id : ℕ) (t : List Client)
    → ((known id t ≡ true) × (0 < count_id id t)) ⊎ ((known id t ≡ false) × (count_id id t ≡ 0))
unfolding known
known_lem id [] = inr (refl, refl)
known_lem id (c ∷ cs) = let rest = known_lem id cs in ground (arith, rest)

claim_cases :
    (id : ℕ) (c : Client) (cs t' : List Client)
    → claim id (c ∷ cs) ≡ some t'
    → ((c.used ≡ false) × (t' ≡ record { id = id; used = true; running = false } ∷ cs))
      ⊎ ((c.used ≡ true) × (rest : List Client) × (claim id cs ≡ some rest) × (t' ≡ c ∷ rest))
unfolding claim
claim_cases id c cs t' e = elim (Option-cases (claim id cs)) [
  | inl full ↦ elim (Bool-cases c.used) [
    | inl used ↦ absurd (ground (arith, full, used, e))
    | inr free ↦ inl (free, ground arith)
  ]
  | inr (rest, claimed) ↦ elim (Bool-cases c.used) [
    | inl used ↦ inr (used, rest, claimed, ground arith)
    | inr free ↦ inl (free, ground arith)
  ]
]

claim_empty : (id : ℕ) (t : List Client) → claim id [] ≢ some t
unfolding claim
claim_empty id t e = ground (arith, e)

change_empty : (id : ℕ) (start : Bool) (r : Bool × List Client) → change id start [] ≢ some r
unfolding change
change_empty id start r e = ground (arith, e)

-- A claimed slot is one more for its identity and for no other, and it is not running.
pub claim_lem :
    (id j : ℕ) (t t' : List Client)
    → IsTidy t
    → claim id t ≡ some t'
    → (length t' ≡ length t)
      × (count_running t' ≡ count_running t)
      × (count_id j t' ≡ count_id j t + one_if (id == j))
      × (count_used t' ≡ suc (count_used t))
      × IsTidy t'
claim_lem id j [] t' tidy e = absurd (claim_empty id t' e)
claim_lem id j (c ∷ cs) t' tidy e = elim (claim_cases id c cs t' e) [
  | inl (free, same) ↦ rw same (ground (arith, free))
  | inr (used, rest, claimed, same) ↦
      let later = claim_lem id j cs rest tidy.1 claimed in rw same (ground (arith, later, used))
]

pub claim-none : (id : ℕ) (t : List Client) → claim id t ≡ none → count_used t ≡ length t
unfolding claim
claim-none id [] e = refl
claim-none id (c ∷ cs) e = elim (Option-cases (claim id cs)) [
  | inl full ↦ let later = claim-none id cs full in ground (arith, later)
  | inr (rest, claimed) ↦ absurd (ground (arith, claimed, e))
]

dismiss_cases :
    (id : ℕ) (c : Client) (cs : List Client)
    → ((is_client id c ≡ true)
        × (dismiss id (c ∷ cs) ≡ (c.running, record c { used = false; running = false } ∷ cs)))
      ⊎ ((is_client id c ≡ false)
          × (dismiss id (c ∷ cs) ≡ ((dismiss id cs).0, c ∷ (dismiss id cs).1)))
unfolding dismiss
dismiss_cases id c cs = elim (Bool-cases (is_client id c)) [
  | inl this ↦ inl (this, rw this refl)
  | inr other ↦ inr (other, rw other refl)
]

-- A dismissed slot is one less for its identity and for no other, and one less running if it ran.
pub dismiss_lem :
    (id j : ℕ) (t : List Client)
    → IsTidy t
    → let (ran, t') = dismiss id t in
      (length t' ≡ length t)
      × (count_running t' + one_if ran ≡ count_running t)
      × (count_id j t' + one_if (known id t && id == j) ≡ count_id j t)
      × IsTidy t'
unfolding dismiss known
dismiss_lem id j [] tidy = (refl, refl, refl, tt)
dismiss_lem id j (c ∷ cs) tidy =
    let later = dismiss_lem id j cs tidy.1 in
    elim (dismiss_cases id c cs) [
      | inl (this, same) ↦ rw same (ground (arith, this))
      | inr (other, same) ↦ rw same (ground (arith, later, other))
    ]

change_cases :
    (id : ℕ) (start changes : Bool) (c : Client) (cs t' : List Client)
    → change id start (c ∷ cs) ≡ some (changes, t')
    → ((is_client id c ≡ true)
        × (changes ≡ differ c.running start)
        × (t' ≡ record c { running = start } ∷ cs))
      ⊎ ((rest : List Client) × (change id start cs ≡ some (changes, rest)) × (t' ≡ c ∷ rest))
unfolding change
change_cases id start changes c cs t' e = elim (Bool-cases (is_client id c)) [
  | inl this ↦ inl (this, ground (arith, this, e), ground (arith, this, e))
  | inr other ↦ elim (Option-cases (change id start cs)) [
    | inl missing ↦ absurd (ground (arith, other, missing, e))
    | inr ((flag, rest), later) ↦
        inr (rest, ground (arith, other, later, e), ground (arith, other, later, e))
  ]
]

-- A change of IO keeps every identity in its slot; the count of running clients follows the change.
pub change_lem :
    (id j : ℕ) (start changes : Bool) (t t' : List Client)
    → IsTidy t
    → change id start t ≡ some (changes, t')
    → (length t' ≡ length t)
      × (count_id j t' ≡ count_id j t)
      × (count_running t' + one_if (changes && not start)
          ≡ count_running t + one_if (changes && start))
      × IsTidy t'
change_lem id j start changes [] t' tidy e = absurd (change_empty id start _ e)
change_lem id j start changes (c ∷ cs) t' tidy e = elim (change_cases id start changes c cs t' e) [
  | inl (this, flag, same) ↦ rw same (ground (arith, this, flag))
  | inr (rest, later, same) ↦
      let others = change_lem id j start changes cs rest tidy.1 later in
      rw same (ground (arith, others))
]

pub change-none :
    (id : ℕ) (start : Bool) (t : List Client) → (change id start t ≡ none) → (known id t ≡ false)
unfolding change known
change-none id start [] e = refl
change-none id start (c ∷ cs) e = elim (Bool-cases (is_client id c)) [
  | inl this ↦ absurd (ground (arith, this, e))
  | inr other ↦ elim (Option-cases (change id start cs)) [
    | inl missing ↦ let later = change-none id start cs missing in ground (arith, other, later)
    | inr (found, later) ↦ absurd (ground (arith, other, later, e))
  ]
]

pub running_few : (t : List Client) → count_running t ≤ length t
running_few [] = omega arith
running_few (c ∷ cs) = let rest = running_few cs in ground (arith, rest)

-- The 32-bit counters of a table that is not longer than they count.
pub one_less_lem :
    (ran : Bool) (after before running : ℕ)
    → after + one_if ran ≡ before
    → running ≡ before
    → before ≤ max_clients
    → (if ran then one_less running else running) ≡ after
one_less_lem true after before running e r few = omega arith
one_less_lem false after before running e r few = omega arith

-- ===== src/Audio/Clients/Shared.antt =====
-- A client table together with the count of running clients that a driver keeps beside it.
use plank.Common.{
  ℕ, ◌+◌, ◌≤◌, ◌≡◌, refl, sym, ◌∙◌, arith, Bool, true, false, not, ◌&&◌, if◌then◌else◌, some, List,
  length, replicate,
}
use plank.Audio.Clients.{Client, max_clients, known, claim, dismiss, change, one_more, one_less}
use plank.Audio.Clients.Laws.{
  one_if, count_running, count_id, IsTidy, known_lem, claim_lem, dismiss_lem, change_lem,
  running_few, one_less_lem,
}

-- The table has 64 slots, no identity has two of them, and the count is right.
pub record IsShared (t : List Client) (running : ℕ) : Type 0 where
  pub whole : length t ≡ max_clients
  pub tidy : IsTidy t
  pub once : (id : ℕ) → count_id id t ≤ 1
  pub counted : running ≡ count_running t

pub shared_few : (t : List Client) (running : ℕ) → IsShared t running → running ≤ max_clients
shared_few t running v = omega (arith, v.counted, v.whole, running_few t)

pub free_table-IsShared :
    IsShared (replicate max_clients (record { id = 0; used = false; running = false })) 0
free_table-IsShared = record {
  whole = refl;
  tidy = ground arith;
  once = λ id. omega arith;
  counted = refl;
}

pub claim-IsShared :
    (id running : ℕ) (t t' : List Client)
    → IsShared t running
    → known id t ≡ false
    → claim id t ≡ some t'
    → IsShared t' running
claim-IsShared id running t t' v new claimed =
    let (len, run, one, used, tidy) = claim_lem id id t t' v.tidy claimed in
    record {
      whole = len ∙ v.whole;
      tidy = tidy;
      once = λ j.
          let (l, r, others, u, d) = claim_lem id j t t' v.tidy claimed in
          ground (arith, others, v.once j, known_lem id t, new);
      counted = v.counted ∙ sym run;
    }

pub dismiss-IsShared :
    (id running : ℕ) (t : List Client)
    → IsShared t running
    → let (ran, t') = dismiss id t in IsShared t' (if ran then one_less running else running)
dismiss-IsShared id running t v =
    let (len, run, one, tidy) = dismiss_lem id id t v.tidy in
    record {
      whole = len ∙ v.whole;
      tidy = tidy;
      once =
          λ j. let (l, r, others, d) = dismiss_lem id j t v.tidy in omega (arith, others, v.once j);
      counted =
          one_less_lem (dismiss id t).0 _ _ running run v.counted
            (omega (arith, running_few t, v.whole));
    }

-- The count after a change of IO.
abbrev pub next_running : Bool → Bool → ℕ → ℕ
next_running start changes running =
    if not changes then running else if start then one_more running else one_less running

next_running_lem :
    (start changes : Bool) (after before running : ℕ)
    → after + one_if (changes && not start) ≡ before + one_if (changes && start)
    → running ≡ before
    → before ≤ max_clients
    → next_running start changes running ≡ after
next_running_lem start false after before running e r few = omega arith
next_running_lem true true after before running e r few = omega arith
next_running_lem false true after before running e r few = omega arith

pub change-IsShared :
    (id running : ℕ) (start changes : Bool) (t t' : List Client)
    → IsShared t running
    → change id start t ≡ some (changes, t')
    → IsShared t' (next_running start changes running)
change-IsShared id running start changes t t' v found =
    let (len, ids, run, tidy) = change_lem id id start changes t t' v.tidy found in
    record {
      whole = len ∙ v.whole;
      tidy = tidy;
      once = λ j.
          let (l, others, n, d) = change_lem id j start changes t t' v.tidy found in
          omega (arith, others, v.once j);
      counted =
          next_running_lem start changes _ _ running run v.counted
            (omega (arith, running_few t, v.whole));
    }

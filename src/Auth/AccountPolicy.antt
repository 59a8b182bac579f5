-- ===== src/Auth/AccountPolicy.antt =====
-- account-policy.h: the identities of accounts and graphical scopes, and who may attach.
mod Admission
mod Tests
use plank.Common.{
  ℕ, zero, suc, ◌-◌, ◌^◌, Bool, true, false, not, ◌&&◌, ◌||◌, ◌==◌, ◌!=◌, if◌then◌else◌, List,
  get_or, replicate,
}

-- `uuid` is an array of 16 bytes.
pub record AccountIdentity : Type 0 where
  pub uid : ℕ
  pub uuid : List ℕ

pub data GraphicalPhase : Type 0 where
  unavailable : GraphicalPhase
  sign_in : GraphicalPhase
  desktop : GraphicalPhase

pub same_phase : GraphicalPhase → GraphicalPhase → Bool
same_phase unavailable unavailable = true
same_phase sign_in sign_in = true
same_phase desktop desktop = true
same_phase unavailable sign_in = false
same_phase unavailable desktop = false
same_phase sign_in unavailable = false
same_phase sign_in desktop = false
same_phase desktop unavailable = false
same_phase desktop sign_in = false

pub record GraphicalIdentity : Type 0 where
  pub active : Bool
  pub generation : ℕ
  pub account : AccountIdentity
  pub phase : GraphicalPhase

abbrev pub uuid_size : ℕ
uuid_size = 16

abbrev pub empty_uuid : List ℕ
empty_uuid = replicate uuid_size 0

-- `memcmp(a, b, n) == 0`, from the index on.
pub same_bytes : ℕ → ℕ → List ℕ → List ℕ → Bool
same_bytes zero i a b = true
same_bytes (suc n) i a b =
    let rest = same_bytes n (suc i) a b in if get_or a i 0 == get_or b i 0 then rest else false

pub account_identity_valid : AccountIdentity → Bool
account_identity_valid account =
    account.uid != 0
    && account.uid != 2 ^ 32 - 1
    && not (same_bytes uuid_size 0 account.uuid empty_uuid)

pub graphical_identity_valid : GraphicalIdentity → Bool
graphical_identity_valid scope =
    if not scope.active || scope.generation == 0
    then false
    else if same_phase scope.phase desktop
    then account_identity_valid scope.account
    else same_phase scope.phase sign_in
      && scope.account.uid == 0
      && same_bytes uuid_size 0 scope.account.uuid empty_uuid

pub same_graphical_scope : GraphicalIdentity → GraphicalIdentity → Bool
same_graphical_scope before after =
    graphical_identity_valid before
    && graphical_identity_valid after
    && before.generation == after.generation
    && same_phase before.phase after.phase
    && before.account.uid == after.account.uid
    && same_bytes uuid_size 0 before.account.uuid after.account.uuid

pub account_may_attach : AccountIdentity → GraphicalIdentity → GraphicalIdentity → Bool
account_may_attach verified before after =
    account_identity_valid verified
    && same_graphical_scope before after
    && (same_phase after.phase sign_in
        || (verified.uid == after.account.uid
            && same_bytes uuid_size 0 verified.uuid after.account.uuid))

-- ===== src/Auth/AccountPolicy/Tests.antt =====
-- Runs of the policy, and its theorem at a concrete user.
use plank.Common.{◌≡◌, ◌⊎◌, refl, true, false, ◌∷◌, replicate}
use plank.Auth.AccountPolicy.{
  AccountIdentity, GraphicalIdentity, sign_in, desktop, same_phase, same_bytes,
  account_identity_valid, graphical_identity_valid, same_graphical_scope, account_may_attach,
}
use plank.Auth.AccountPolicy.Admission.{IsUser, IsHeld, account_may_attach_lem}

abbrev owner : AccountIdentity
owner = record { uid = 501; uuid = 7 ∷ replicate 15 1 }

abbrev other_user : AccountIdentity
other_user = record { uid = 502; uuid = 8 ∷ replicate 15 1 }

abbrev owner_desktop : GraphicalIdentity
owner_desktop = record { active = true; generation = 3; account = owner; phase = desktop }

abbrev sign_in_window : GraphicalIdentity
sign_in_window = record {
  active = true;
  generation = 2;
  account = record { uid = 0; uuid = replicate 16 0 };
  phase = sign_in;
}

owner_admitted : account_may_attach owner owner_desktop owner_desktop ≡ true
unfolding account_may_attach same_graphical_scope graphical_identity_valid account_identity_valid
    same_phase same_bytes
owner_admitted = refl

other_refused : account_may_attach other_user owner_desktop owner_desktop ≡ false
unfolding account_may_attach same_graphical_scope graphical_identity_valid account_identity_valid
    same_phase same_bytes
other_refused = refl

-- The user signed in between the two looks at the scope.
phase_refused : account_may_attach owner sign_in_window owner_desktop ≡ false
unfolding account_may_attach same_graphical_scope graphical_identity_valid account_identity_valid
    same_phase same_bytes
phase_refused = refl

account_may_attach_lem_example :
    IsUser owner
    × (owner_desktop ≡ owner_desktop)
    × IsHeld owner_desktop
    × ((desktop ≡ sign_in) ⊎ (owner ≡ owner))
account_may_attach_lem_example =
    account_may_attach_lem owner owner_desktop owner_desktop refl refl refl owner_admitted

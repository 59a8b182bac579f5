-- ===== src/Auth/AccountPolicy/Admission.antt =====
-- Who is admitted, said without the code's tests.
use plank.Common.{
  ℕ, zero, suc, ◌-◌, ◌^◌, ◌≡◌, ◌≢◌, ◌↔◌, ◌⊎◌, inl, inr, refl, ap, ap₂, sym, drop, ◌∙◌, arith, Bool,
  true, false, ◌==◌, if◌then◌else◌, List, [], ◌∷◌, length, get_or, Bool-cases,
}
use plank.Auth.AccountPolicy.{
  AccountIdentity, GraphicalPhase, unavailable, sign_in, desktop, GraphicalIdentity, uuid_size,
  empty_uuid, same_phase, same_bytes, account_identity_valid, graphical_identity_valid,
  same_graphical_scope, account_may_attach,
}

same_bytes-shift :
    (n i x y : ℕ) (a b : List ℕ) → same_bytes n (suc i) (x ∷ a) (y ∷ b) ≡ same_bytes n i a b
unfolding same_bytes
same_bytes-shift zero i x y a b = refl
same_bytes-shift (suc n) i x y a b =
    ap (λ rest. if get_or a i 0 == get_or b i 0 then rest else false)
      (same_bytes-shift n (suc i) x y a b)

test_both :
    (x y : ℕ) (rest : Bool) → (if x == y then rest else false) ≡ true → (x ≡ y) × (rest ≡ true)
test_both x y rest e = ground arith

both_test : (x y : ℕ) (rest : Bool) → x ≡ y → rest ≡ true → (if x == y then rest else false) ≡ true
both_test x y rest e f = ground arith

-- The comparison of whole arrays of one length is equality.
same_bytes_iff :
    (n : ℕ) (a b : List ℕ) → length a ≡ n → length b ≡ n → (same_bytes n 0 a b ≡ true) ↔ (a ≡ b)
unfolding same_bytes
same_bytes_iff zero [] [] la lb = (λ e. refl, λ e. refl)
same_bytes_iff zero (x ∷ a) b la lb = absurd (omega arith)
same_bytes_iff zero [] (y ∷ b) la lb = absurd (omega arith)
same_bytes_iff (suc n) [] b la lb = absurd (omega arith)
same_bytes_iff (suc n) (x ∷ a) [] la lb = absurd (omega arith)
same_bytes_iff (suc n) (x ∷ a) (y ∷ b) la lb =
    let (to, from) = same_bytes_iff n a b (omega arith) (omega arith) in
    rw (same_bytes-shift n 0 x y a b) (
      λ e. let (heads, tails) = test_both x y (same_bytes n 0 a b) e in ap₂ ◌∷◌ heads (to tails),
      λ e. both_test x y (same_bytes n 0 a b) (ap (λ l. get_or l 0 0) e) (from (ap (drop 1) e)),
    )

-- An account of a person: neither root nor the number that stands for no account, and with a UUID.
abbrev pub IsUser : AccountIdentity → Type 0
IsUser account = (account.uid ≢ 0) × (account.uid ≢ 2 ^ 32 - 1) × (account.uuid ≢ empty_uuid)

abbrev pub IsWhole : AccountIdentity → Type 0
IsWhole account = length account.uuid ≡ uuid_size

-- A scope that is held: the sign-in window, which has no account, or the desktop of a user.
abbrev pub IsHeld : GraphicalIdentity → Type 0
IsHeld scope =
    (scope.active ≡ true)
    × (scope.generation ≢ 0)
    × (((scope.phase ≡ sign_in) × (scope.account.uid ≡ 0) × (scope.account.uuid ≡ empty_uuid))
        ⊎ ((scope.phase ≡ desktop) × IsUser scope.account))

account_identity_valid_iff :
    (account : AccountIdentity)
    → IsWhole account
    → (account_identity_valid account ≡ true) ↔ IsUser account
unfolding account_identity_valid
account_identity_valid_iff account whole =
    let (to, from) = same_bytes_iff uuid_size account.uuid empty_uuid whole refl in
    elim (Bool-cases (same_bytes uuid_size 0 account.uuid empty_uuid)) [
      | inl same ↦ rw same (λ e. absurd (ground arith), λ (a, b, other). absurd (other (to same)))
      | inr different ↦ rw different (
        λ e. (ground arith, ground arith, λ q. absurd (bad (sym different ∙ from q))),
        λ (a, b, other). ground arith,
      )
    ]
  where
    bad : false ≢ true
    bad e = ground arith

same_phase_refl : (p : GraphicalPhase) → same_phase p p ≡ true
unfolding same_phase
same_phase_refl unavailable = refl
same_phase_refl sign_in = refl
same_phase_refl desktop = refl

same_phase_lem : (p q : GraphicalPhase) → same_phase p q ≡ true → p ≡ q
unfolding same_phase
same_phase_lem unavailable unavailable e = refl
same_phase_lem sign_in sign_in e = refl
same_phase_lem desktop desktop e = refl
same_phase_lem unavailable sign_in e = absurd (ground arith)
same_phase_lem unavailable desktop e = absurd (ground arith)
same_phase_lem sign_in unavailable e = absurd (ground arith)
same_phase_lem sign_in desktop e = absurd (ground arith)
same_phase_lem desktop unavailable e = absurd (ground arith)
same_phase_lem desktop sign_in e = absurd (ground arith)

valid_parts :
    (scope : GraphicalIdentity)
    → graphical_identity_valid scope ≡ true
    → (scope.active ≡ true)
      × (scope.generation ≢ 0)
      × (((same_phase scope.phase desktop ≡ true) × (account_identity_valid scope.account ≡ true))
          ⊎ ((same_phase scope.phase sign_in ≡ true)
              × (scope.account.uid ≡ 0)
              × (same_bytes uuid_size 0 scope.account.uuid empty_uuid ≡ true)))
unfolding graphical_identity_valid
valid_parts scope e = ground arith

held :
    (scope : GraphicalIdentity)
    → IsWhole scope.account
    → graphical_identity_valid scope ≡ true
    → IsHeld scope
held scope whole e =
    let (active, generation, cases) = valid_parts scope e in
    (
      active,
      generation,
      elim cases [
        | inl (phase, account) ↦ inr (
          same_phase_lem scope.phase desktop phase,
          (account_identity_valid_iff scope.account whole).0 account,
        )
        | inr (phase, root, uuid) ↦ inl (
          same_phase_lem scope.phase sign_in phase,
          root,
          (same_bytes_iff uuid_size scope.account.uuid empty_uuid whole refl).0 uuid,
        )
      ],
    )

scope_parts :
    (before after : GraphicalIdentity)
    → same_graphical_scope before after ≡ true
    → (graphical_identity_valid before ≡ true)
      × (graphical_identity_valid after ≡ true)
      × (before.generation ≡ after.generation)
      × (same_phase before.phase after.phase ≡ true)
      × (before.account.uid ≡ after.account.uid)
      × (same_bytes uuid_size 0 before.account.uuid after.account.uuid ≡ true)
unfolding same_graphical_scope
scope_parts before after e = ground arith

attach_parts :
    (verified : AccountIdentity) (before after : GraphicalIdentity)
    → account_may_attach verified before after ≡ true
    → (account_identity_valid verified ≡ true)
      × (same_graphical_scope before after ≡ true)
      × ((same_phase after.phase sign_in ≡ true)
          ⊎ ((verified.uid ≡ after.account.uid)
              × (same_bytes uuid_size 0 verified.uuid after.account.uuid ≡ true)))
unfolding account_may_attach
attach_parts verified before after e = ground arith

same_account :
    (a b : AccountIdentity)
    → IsWhole a
    → IsWhole b
    → a.uid ≡ b.uid
    → same_bytes uuid_size 0 a.uuid b.uuid ≡ true
    → a ≡ b
same_account a b wa wb uid uuid =
    ap₂ (λ x y. record { uid = x; uuid = y }) uid
      ((same_bytes_iff uuid_size a.uuid b.uuid wa wb).0 uuid)

-- Whoever is admitted is a user, the scope did not change on the way, and it is held: it is the sign-in
-- window, or the desktop of this very user. The arrays have 16 bytes.
pub account_may_attach_lem :
    (verified : AccountIdentity) (before after : GraphicalIdentity)
    → IsWhole verified
    → IsWhole before.account
    → IsWhole after.account
    → account_may_attach verified before after ≡ true
    → IsUser verified
      × (before ≡ after)
      × IsHeld after
      × ((after.phase ≡ sign_in) ⊎ (verified ≡ after.account))
account_may_attach_lem verified before after wv wb wa e =
    let (user, scope, choice) = attach_parts verified before after e in
    let (good, still, generation, phase, uid, uuid) = scope_parts before after scope in
    let now = held after wa still in
    let account = same_account before.account after.account wb wa uid uuid in
    let phases = same_phase_lem before.phase after.phase phase in
    (
      (account_identity_valid_iff verified wv).0 user,
      λ i. record {
        active = ((held before wb good).0 ∙ sym now.0) i;
        generation = generation i;
        account = account i;
        phase = phases i;
      },
      now,
      elim choice [
        | inl window ↦ inl (same_phase_lem after.phase sign_in window)
        | inr (same_uid, same_uuid) ↦
            inr (same_account verified after.account wv wa same_uid same_uuid)
      ],
    )

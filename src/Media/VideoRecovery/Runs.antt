-- ===== src/Media/VideoRecovery/Runs.antt =====
-- Sequences of sent pictures: a lost picture is remembered until a key picture is accepted.
use plank.Common.{
  ◌≡◌, refl, arith, Bool, true, false, ◌||◌, not, ◌&&◌, List, [], ◌∷◌, ◌++◌, All, ◌↔◌,
}
use plank.Media.VideoRecovery.{Recovery, begin, sent}

-- What the transport said of one picture.
pub record Outcome : Type 0 where
  pub key : Bool
  pub accepted : Bool
  pub evicted : Bool

abbrev pub send_all : Recovery → List Outcome → Recovery
send_all state [] = state
send_all state (o ∷ os) = send_all (sent state o.key o.accepted o.evicted) os

-- The outcome loses a picture that no accepted key picture makes up for.
abbrev pub loses : Outcome → Bool
loses o = not (o.key && o.accepted) && (not o.accepted || o.evicted)

abbrev pub mends : Outcome → Bool
mends o = o.key && o.accepted

sent_lem :
    (state : Recovery) (o : Outcome)
    → ((loses o ≡ true) → (sent state o.key o.accepted o.evicted).requested ≡ true)
      × ((mends o ≡ true) → (sent state o.key o.accepted o.evicted).requested ≡ false)
      × ((loses o ≡ false)
          → state.requested ≡ false
          → (sent state o.key o.accepted o.evicted).requested ≡ false)
      × ((mends o ≡ false)
          → state.requested ≡ true
          → (sent state o.key o.accepted o.evicted).requested ≡ true)
unfolding sent
sent_lem state o = ground arith

kept_requested :
    (state : Recovery) (os : List Outcome)
    → All (λ o. mends o ≡ false) os
    → state.requested ≡ true
    → (send_all state os).requested ≡ true
kept_requested state [] none_mends e = e
kept_requested state (o ∷ os) none_mends e =
    kept_requested (sent state o.key o.accepted o.evicted) os none_mends.1
      ((sent_lem state o).3 none_mends.0 e)

kept_settled :
    (state : Recovery) (os : List Outcome)
    → All (λ o. loses o ≡ false) os
    → state.requested ≡ false
    → (send_all state os).requested ≡ false
kept_settled state [] none_loses e = e
kept_settled state (o ∷ os) none_loses e =
    kept_settled (sent state o.key o.accepted o.evicted) os none_loses.1
      ((sent_lem state o).2 none_loses.0 e)

send_all-append :
    (state : Recovery) (before after : List Outcome)
    → send_all state (before ++ after) ≡ send_all (send_all state before) after
send_all-append state [] after = refl
send_all-append state (o ∷ before) after =
    send_all-append (sent state o.key o.accepted o.evicted) before after

-- Over any outcomes: if an outcome loses a picture and no later one mends the stream, the request
-- stands at the end; if an outcome mends the stream and no later one loses a picture, no request
-- stands at the end.
pub send_all_lem :
    (state : Recovery) (before after : List Outcome) (o : Outcome)
    → ((loses o ≡ true)
        → All (λ x. mends x ≡ false) after
        → (send_all state (before ++ (o ∷ after))).requested ≡ true)
      × ((mends o ≡ true)
          → All (λ x. loses x ≡ false) after
          → (send_all state (before ++ (o ∷ after))).requested ≡ false)
send_all_lem state before after o = (
  λ lost none_mends.
      rw (send_all-append state before (o ∷ after))
        (kept_requested _ after none_mends ((sent_lem (send_all state before) o).0 lost)),
  λ mended none_loses.
      rw (send_all-append state before (o ∷ after))
        (kept_settled _ after none_loses ((sent_lem (send_all state before) o).1 mended)),
)

-- A picture is begun exactly when one is requested and none is being encoded. `begin` leaves the
-- request as it was; once it has begun a picture one is being encoded, and a second `begin` starts
-- none.
pub begin_lem :
    (state : Recovery)
    → let (begun, next) = begin state in
      ((begun ≡ true) ↔ ((state.requested ≡ true) × (state.encoding ≡ false)))
      × (next.requested ≡ state.requested)
      × ((begun ≡ true) → next.encoding ≡ true)
      × ((begin next).0 ≡ false)
unfolding begin
begin_lem state = ground arith

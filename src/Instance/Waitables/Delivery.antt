-- ===== src/Instance/Waitables/Delivery.antt =====
-- internal/instance/waitable.go: how a set delivers the event of a subtask, and the loans that a
-- subtask holds until then.
use component_model.Prelude.{
  ℕ, ◌+◌, ◌-◌, ◌≡◌, ◌≢◌, refl, List, [], ◌∷◌, ◌++◌, true, false, not, ◌&&◌, none, some, arith,
  Result, ok, Bool-cases, inl, inr, All,
}
use component_model.Instance.Waitables.{
  EventTuple, event_subtask, Store, WaitableError, has_pending_event, any_pending, state_code,
  new_subtask, put_subtask, resolved, resolve_delivered, add_lender, release, deliver_resolve,
  Closures, take_sub_event, get_pending_event, first_pending, set_get_pending_event, poll,
}
use component_model.Instance.Waitables.Membership.{count, count-append}
use component_model.Instance.Handles.{update}

-- Several loans to one subtask, one after the other.
unfoldable pub lend_all : ℕ → List ℕ → Store → Store
lend_all p [] st = st
lend_all p (h ∷ hs) st = lend_all p hs (add_lender p h st)

count-release : (hs : List ℕ) (counts : ℕ → ℕ) (k : ℕ) → release hs counts k ≡ counts k - count k hs
unfolding release count
count-release [] counts k = omega arith
count-release (h ∷ hs) counts k =
    ground (arith, count-release hs (update counts h (counts h - 1)) k)

-- The loans made are the ones that a delivery will give back.
loans :
    (p : ℕ) (hs held : List ℕ) (st : Store) (counts : ℕ → ℕ)
    → (st.subtasks p).lenders ≡ some held
    → ((k : ℕ) → st.lend_counts k ≡ counts k + count k held)
    → (k : ℕ) → (deliver_resolve p (lend_all p hs st)).lend_counts k ≡ counts k
unfolding lend_all deliver_resolve add_lender
loans p [] held st counts holds owed k =
    rw holds (ground (arith, count-release held st.lend_counts k, owed k))
loans p (h ∷ hs) held st counts holds owed k =
    loans p hs (held ++ (h ∷ [])) (add_lender p h st) counts (ground arith)
      (λ j. ground (arith, count-append j h held, owed j)) k

-- Whatever handles are lent to a new subtask, the same one several times included, the delivery of
-- its resolve leaves every handle's count of loans as it was before the subtask.
pub deliver-lend_all :
    (p : ℕ) (hs : List ℕ) (st : Store) (k : ℕ)
    → (deliver_resolve p (lend_all p hs (put_subtask p new_subtask st))).lend_counts k
      ≡ st.lend_counts k
unfolding new_subtask count
deliver-lend_all p hs st k =
    loans p hs [] (put_subtask p new_subtask st) st.lend_counts (ground arith) (λ j. omega arith) k

sub-pending :
    (w p si : ℕ) (st : Store)
    → (st.waitables w).pending_sub ≡ some (p, si)
    → has_pending_event w st ≡ true
unfolding has_pending_event
sub-pending w p si st armed = ground arith

first_found :
    (before after : List ℕ) (w : ℕ) (st : Store)
    → All (λ v. has_pending_event v st ≡ false) before
    → has_pending_event w st ≡ true
    → (first_pending (before ++ (w ∷ after)) st ≡ some w)
      × (any_pending (before ++ (w ∷ after)) st ≡ true)
unfolding first_pending any_pending
first_found [] after w st quiet pending = (ground arith, ground arith)
first_found (v ∷ before) after w st quiet pending =
    let (first, any) = first_found before after w st quiet.1 pending in
    (ground (arith, quiet.0), ground (arith, quiet.0))

module _ (call : Closures) where
  taken :
      (w p si : ℕ) (st : Store)
      → let (answer, u) = take_sub_event call w p si st in
        ((◌≡◌ {A = Result WaitableError EventTuple}
            (ok answer)
            (ok (record { code = event_subtask; p1 = si; p2 = state_code (st.subtasks p).state })))
          × ((u.waitables w).pending_sub ≡ none)
          × ((v : ℕ) → v ≢ w → u.waitables v ≡ st.waitables v)
          × (u.sets ≡ st.sets)
          × (resolved (st.subtasks p) ≡ true → resolve_delivered (u.subtasks p) ≡ true))
  unfolding take_sub_event deliver_resolve resolve_delivered resolved
  taken w p si st =
      elim (Bool-cases (resolved (st.subtasks p) && not (resolve_delivered (st.subtasks p)))) [
        | inl due ↦
            rw due (ground arith, ground arith, (λ v ne. ground arith), refl, (λ r. ground arith))
        | inr not_due ↦
            rw not_due (refl, ground arith, (λ v ne. ground arith), refl, (λ r. ground arith))
      ]

  sub_event :
      (w p si : ℕ) (st : Store)
      → (st.waitables w).pending_sub ≡ some (p, si)
      → get_pending_event call w st
        ≡ (ok (take_sub_event call w p si st).0, (take_sub_event call w p si st).1)
  unfolding get_pending_event
  sub_event w p si st armed = rw (get_pending_event, armed) refl

  set_event :
      (s w : ℕ) (st : Store)
      → first_pending (st.sets s).elems st ≡ some w
      → set_get_pending_event call s st ≡ get_pending_event call w st
  unfolding set_get_pending_event
  set_event s w st found = rw (set_get_pending_event, found) refl

  -- If the first member of a set that has an event has the event of a subtask, `poll` answers with
  -- the index and the present state of the subtask. The event is taken off the waitable, all other
  -- waitables and all sets stay, and the resolve of a resolved subtask counts as delivered.
  pub poll-first :
      (before after : List ℕ) (s w p si : ℕ) (st : Store)
      → (st.sets s).elems ≡ before ++ (w ∷ after)
      → All (λ v. has_pending_event v st ≡ false) before
      → (st.waitables w).pending_sub ≡ some (p, si)
      → let (answer, u) = poll call s st in
        (answer
          ≡ ok (record { code = event_subtask; p1 = si; p2 = state_code (st.subtasks p).state }))
        × ((u.waitables w).pending_sub ≡ none)
        × ((v : ℕ) → v ≢ w → u.waitables v ≡ st.waitables v)
        × (u.sets ≡ st.sets)
        × (resolved (st.subtasks p) ≡ true → resolve_delivered (u.subtasks p) ≡ true)
  unfolding poll
  poll-first before after s w p si st members quiet armed =
      let (first, any) = first_found before after w st quiet (sub-pending w p si st armed) in
      let found : first_pending (st.sets s).elems st ≡ some w = rw members first in
      rw (members, any, set_event s w st found, sub_event w p si st armed) (taken w p si st)

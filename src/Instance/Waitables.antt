-- ===== src/Instance/Waitables.antt =====
-- internal/instance/waitable.go: waitables, the sets they are waited on in, and subtasks. A pointer
-- is a number, and the store holds what stands behind it; a subtask and the waitable it embeds have
-- the same number. A panic is an error of its own.
pub mod Membership
pub mod Delivery
mod Runs
use component_model.Prelude.{
  ℕ, zero, suc, ◌+◌, ◌-◌, List, [], ◌∷◌, ◌++◌, Bool, true, false, not, ◌&&◌, ◌||◌, Option, none,
  some, ◌==◌, ltb, leb, if◌then◌else◌, Result, ok, err, stuck, length,
}
use component_model.Instance.Handles.{update}

-- The codes of the events that this file delivers, and those of others by their number.
pub data EventCode : Type 0 where
  event_none event_subtask : EventCode
  event_other : ℕ → EventCode

pub record EventTuple : Type 0 where
  pub code : EventCode
  pub p1 : ℕ
  pub p2 : ℕ

-- `pending_event` is the number of a closure, `pending_sub` a subtask with its index.
pub record Waitable : Type 0 where
  pub pending_event : Option ℕ
  pub pending_sub : Option (ℕ × ℕ)
  pub wset : Option ℕ
  pub sync_waiter : Bool

pub record WaitableSet : Type 0 where
  pub elems : List ℕ
  pub num_waiting : ℕ

pub data SubtaskState : Type 0 where
  starting started returned cancelled_before_started cancelled_before_returned : SubtaskState

-- `lenders` is nil, `none`, once the resolve has been delivered.
pub record Subtask : Type 0 where
  pub state : SubtaskState
  pub lenders : Option (List ℕ)
  pub flat_results : List ℕ

-- `lend_counts` is the field `lendCount` of each resource entry, an int in the source, here a number
-- that stops at 0.
pub record Store : Type 0 where
  pub waitables : ℕ → Waitable
  pub sets : ℕ → WaitableSet
  pub subtasks : ℕ → Subtask
  pub lend_counts : ℕ → ℕ

pub data WaitableError : Type 0 where
  -- How many are still joined, or still blocked.
  still_joined still_blocked : ℕ → WaitableError
  not_resolved : WaitableError
  panics_pending panics_no_pending panics_results : WaitableError

abbrev pub put_waitable : ℕ → Waitable → Store → Store
put_waitable w x st = record st { waitables = update st.waitables w x }

abbrev pub put_elems : ℕ → List ℕ → Store → Store
put_elems s elems st = record st { sets = update st.sets s (record (st.sets s) { elems = elems }) }

unfoldable pub set_pending_event : ℕ → ℕ → Store → Store
set_pending_event w ev st = put_waitable w (record (st.waitables w) { pending_event = some ev }) st

unfoldable pub set_pending_subtask_event : ℕ → ℕ → ℕ → Store → Store
set_pending_subtask_event w task si st =
    put_waitable w (record (st.waitables w) { pending_sub = some (task, si) }) st

abbrev pub is_set {ℓ} : {A : Type ℓ} → Option A → Bool
is_set none = false
is_set (some a) = true

unfoldable pub has_pending_event : ℕ → Store → Bool
has_pending_event w st =
    is_set (st.waitables w).pending_event || is_set (st.waitables w).pending_sub

-- `hasPendingEvent` of a set.
unfoldable pub any_pending : List ℕ → Store → Bool
unfolding has_pending_event
any_pending [] st = false
any_pending (w ∷ elems) st = has_pending_event w st || any_pending elems st

-- `s.elems` without the first `w`.
unfoldable pub remove : ℕ → List ℕ → List ℕ
remove w [] = []
remove w (e ∷ elems) = let rest = remove w elems in if e == w then elems else e ∷ rest

-- `join`: out of the set it is in, then into the new one if there is one.
unfoldable pub leave : ℕ → Option ℕ → Store → Store
unfolding remove
leave w none st = st
leave w (some s) st = put_elems s (remove w (st.sets s).elems) st

unfoldable pub enter : ℕ → Option ℕ → Store → Store
enter w none st = st
enter w (some s) st = put_elems s ((st.sets s).elems ++ (w ∷ [])) st

unfoldable pub join : ℕ → Option ℕ → Store → Store
unfolding leave enter
join w wset st =
    let left = leave w (st.waitables w).wset st in
    enter w wset (put_waitable w (record (left.waitables w) { wset = wset }) left)

unfoldable pub drop_waitable : ℕ → Store → Result WaitableError (Unit {0}) × Store
unfolding has_pending_event join
drop_waitable w st =
    if has_pending_event w st then (err panics_pending, st) else (ok tt, join w none st)

unfoldable pub drop_set : ℕ → Store → Result WaitableError (Unit {0})
drop_set s st =
    if ltb 0 (length (st.sets s).elems)
    then err (still_joined (length (st.sets s).elems))
    else (if ltb 0 (st.sets s).num_waiting
        then err (still_blocked (st.sets s).num_waiting)
        else ok tt)

-- The numbers of the states, in the source's order.
abbrev pub state_code : SubtaskState → ℕ
state_code starting = 0
state_code started = 1
state_code returned = 2
state_code cancelled_before_started = 3
state_code cancelled_before_returned = 4

unfoldable pub new_subtask : Subtask
new_subtask = record { state = starting; lenders = some []; flat_results = [] }

abbrev pub put_subtask : ℕ → Subtask → Store → Store
put_subtask p x st = record st { subtasks = update st.subtasks p x }

unfoldable pub resolved : Subtask → Bool
resolved x = leb 2 (state_code x.state)

unfoldable pub resolve_delivered : Subtask → Bool
resolve_delivered x = not (is_set x.lenders)

-- `append(nil, h)` is a slice of one element.
abbrev appended : Option (List ℕ) → ℕ → List ℕ
appended none h = h ∷ []
appended (some hs) h = hs ++ (h ∷ [])

unfoldable pub add_lender : ℕ → ℕ → Store → Store
add_lender p h st =
    put_subtask p (record (st.subtasks p) { lenders = some (appended (st.subtasks p).lenders h) })
      (record st { lend_counts = update st.lend_counts h (st.lend_counts h + 1) })

abbrev is_returned : SubtaskState → Bool
is_returned returned = true
is_returned state = false

unfoldable pub resolve : ℕ → SubtaskState → List ℕ → Store → Result WaitableError (Unit {0}) × Store
resolve p state flat_results st =
    if not (is_returned state) && ltb 0 (length flat_results) then (err panics_results, st) else (
      ok tt,
      put_subtask p (record (st.subtasks p) { state = state; flat_results = flat_results }) st,
    )

-- The loop over the lenders.
unfoldable pub release : List ℕ → (ℕ → ℕ) → ℕ → ℕ
release [] counts = counts
release (h ∷ hs) counts = release hs (update counts h (counts h - 1))

abbrev lent_list : Option (List ℕ) → List ℕ
lent_list none = []
lent_list (some hs) = hs

unfoldable pub deliver_resolve : ℕ → Store → Store
unfolding release
deliver_resolve p st =
    put_subtask p (record (st.subtasks p) { lenders = none })
      (record st { lend_counts = release (lent_list (st.subtasks p).lenders) st.lend_counts })

unfoldable pub drop_subtask : ℕ → Store → Result WaitableError (Unit {0}) × Store
unfolding resolve_delivered drop_waitable
drop_subtask p st =
    if resolve_delivered (st.subtasks p) then drop_waitable p st else (err not_resolved, st)

-- The first member with an event, in the order of joining.
unfoldable pub first_pending : List ℕ → Store → Option ℕ
unfolding has_pending_event
first_pending [] st = none
first_pending (w ∷ elems) st =
    let rest = first_pending elems st in if has_pending_event w st then some w else rest

-- What a closure answers when it is called, and what it does to the store.
abbrev pub Closures : Type 0
Closures = ℕ → Store → EventTuple × Store

module _ (call : Closures) where
  -- `getPendingEvent` of a waitable with a subtask's event.
  unfoldable pub take_sub_event : ℕ → ℕ → ℕ → Store → EventTuple × Store
  unfolding resolved resolve_delivered deliver_resolve
  take_sub_event w p si st =
      let cleared = put_waitable w (record (st.waitables w) { pending_sub = none }) st in
      let x = cleared.subtasks p in
      let after =
        if resolved x && not (resolve_delivered x) then deliver_resolve p cleared else cleared in
      (record { code = event_subtask; p1 = si; p2 = state_code (after.subtasks p).state }, after)

  -- A waitable with no event has no closure to call.
  unfoldable pub get_pending_event : ℕ → Store → Result WaitableError EventTuple × Store
  unfolding take_sub_event
  get_pending_event w st = elim (st.waitables w).pending_sub [
    | some (p, si) ↦ let (ev, after) = take_sub_event w p si st in (ok ev, after)
    | none ↦ elim (st.waitables w).pending_event [
      | none ↦ (err panics_no_pending, st)
      | some ev ↦
          let (tuple, after) =
            call ev (put_waitable w (record (st.waitables w) { pending_event = none }) st) in
          (ok tuple, after)
    ]
  ]

  unfoldable pub set_get_pending_event : ℕ → Store → Result WaitableError EventTuple × Store
  unfolding first_pending get_pending_event
  set_get_pending_event s st = elim (first_pending (st.sets s).elems st) [
    | none ↦ (err panics_no_pending, st)
    | some w ↦ get_pending_event w st
  ]

  unfoldable pub poll : ℕ → Store → Result WaitableError EventTuple × Store
  unfolding any_pending set_get_pending_event
  poll s st =
      if any_pending (st.sets s).elems st
      then set_get_pending_event s st
      else (ok (record { code = event_none; p1 = 0; p2 = 0 }), st)

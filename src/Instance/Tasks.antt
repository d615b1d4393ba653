-- ===== src/Instance/Tasks.antt =====
-- internal/instance/task.go: the states of a task, its cancellation, and the entry of tasks into an
-- instance. A task is a number where an instance points to it. `onResolve` is a list of what was
-- answered to it. A request for cancellation that resumes the task says so in its answer: what the
-- task then does is a call of its own.
pub mod Once
pub mod Exclusive
mod Runs
use component_model.Prelude.{
  ℕ, zero, suc, ◌+◌, List, [], ◌∷◌, ◌++◌, Bool, true, false, not, ◌&&◌, ◌||◌, Option, none, some,
  ◌==◌, ltb, if◌then◌else◌, Result, ok, err, stuck,
}
use component_model.Abi.Value.{Value}

pub data TaskState : Type 0 where
  initial started pending_cancel cancel_delivered resolved : TaskState

-- Where a task is parked; a stackful task is parked at its entry or in a block.
pub data Park : Type 0 where
  park_none park_entry park_wait park_yield park_blocked : Park

pub data TaskError : Type 0 where
  already_resolved no_cancellation : TaskError
  borrows_remain : ℕ → TaskError
  request_on_resolved : TaskError

-- What the callback of a resolve gets, or what the task keeps where there is none.
pub data Resolution : Type 0 where
  returned : List Value → Resolution
  cancelled : Resolution

pub record Task : Type 0 where
  pub state : TaskState
  pub num_borrows : ℕ
  pub resolutions : List Resolution
  pub stackful : Bool
  pub park : Park
  pub cancellable : Bool
  pub cancel_wake : Bool

unfoldable pub is_resolved : TaskState → Bool
is_resolved resolved = true
is_resolved t = false

unfoldable pub is_pending_cancel : TaskState → Bool
is_pending_cancel pending_cancel = true
is_pending_cancel t = false

unfoldable pub is_cancel_delivered : TaskState → Bool
is_cancel_delivered cancel_delivered = true
is_cancel_delivered t = false

unfoldable pub resolve : Resolution → Task → Task
resolve r t = record t { state = resolved; resolutions = t.resolutions ++ r ∷ [] }

unfoldable pub return_values : List Value → Task → Result TaskError Task
unfolding is_resolved resolve
return_values vals t =
    if is_resolved t.state
    then err already_resolved
    else (if ltb 0 t.num_borrows
        then err (borrows_remain t.num_borrows)
        else ok (resolve (returned vals) t))

unfoldable pub cancel_deliverable : Task → Bool
unfolding is_pending_cancel
cancel_deliverable t = is_pending_cancel t.state

unfoldable pub deliver_pending_cancel : Bool → Task → Bool × Task
unfolding is_pending_cancel
deliver_pending_cancel cancellable_here t =
    if cancellable_here && is_pending_cancel t.state
    then (true, record t { state = cancel_delivered })
    else (false, t)

unfoldable pub cancel_resolve : Task → Result TaskError Task
unfolding is_cancel_delivered resolve
cancel_resolve t =
    if not (is_cancel_delivered t.state)
    then err no_cancellation
    else (if ltb 0 t.num_borrows
        then err (borrows_remain t.num_borrows)
        else ok (resolve cancelled t))

-- The part of an instance that decides who runs. `sync_base` is the task below the guest's.
pub record Entry : Type 0 where
  pub backpressure : ℕ
  pub num_waiting_to_enter : ℕ
  pub exclusive_held : Bool
  pub exclusive_owner : Option ℕ
  pub active_task : Option ℕ
  pub sync_base : Option ℕ
  pub may_enter : Bool

abbrev pub is_owner : ℕ → Option ℕ → Bool
is_owner me none = false
is_owner me (some owner) = owner == me

unfoldable pub held_by_other : ℕ → Entry → Bool
held_by_other me inst = inst.exclusive_held && not (is_owner me inst.exclusive_owner)

unfoldable pub is_blocked : Park → Bool
is_blocked park_blocked = true
is_blocked p = false

unfoldable pub is_parked : Park → Bool
is_parked park_none = false
is_parked p = true

-- The tests of the three arms for a task that has started.
unfoldable pub resumes_now : ℕ → Entry → Task → Bool
unfolding held_by_other is_blocked is_parked
resumes_now me inst t =
    if t.stackful
    then is_blocked t.park && t.cancellable && not (held_by_other me inst) && inst.may_enter
    else (if is_blocked t.park
        then t.cancellable && not (held_by_other me inst) && inst.may_enter
        else is_parked t.park && t.cancellable && not inst.exclusive_held && inst.may_enter)

abbrev deliver_now : Task → Result TaskError (Bool × Task)
deliver_now t = ok (true, record t { state = cancel_delivered; cancel_wake = true })

-- The `switch` on the state. The answer says whether the task is resumed at once.
unfoldable pub request_from : ℕ → Entry → Task → TaskState → Result TaskError (Bool × Task)
unfolding resumes_now
request_from me inst t initial = deliver_now t
request_from me inst t started =
    if resumes_now me inst t then deliver_now t else ok (false, record t { state = pending_cancel })
request_from me inst t s = err request_on_resolved

unfoldable pub request_cancellation : ℕ → Entry → Task → Result TaskError (Bool × Task)
unfolding request_from
request_cancellation me inst t = request_from me inst t t.state

unfoldable pub has_backpressure : Entry → Bool
has_backpressure inst = ltb 0 inst.backpressure || inst.exclusive_held

unfoldable pub try_enter : ℕ → Entry → Bool × Entry
unfolding has_backpressure
try_enter me inst =
    if has_backpressure inst || ltb 0 inst.num_waiting_to_enter then (false, inst) else (
      true,
      record inst { active_task = some me; exclusive_held = true; exclusive_owner = some me },
    )

unfoldable pub enter_run : ℕ → Entry → Entry
enter_run me inst = record inst {
  may_enter = false;
  active_task = some me;
  exclusive_held = true;
  exclusive_owner = some me;
}

unfoldable pub leave_run : Entry → Entry
leave_run inst = record inst {
  exclusive_held = false;
  exclusive_owner = none;
  active_task = inst.sync_base;
  may_enter = true;
}

unfoldable pub suspend_run : Entry → Entry
suspend_run inst = record inst { active_task = inst.sync_base; may_enter = true }

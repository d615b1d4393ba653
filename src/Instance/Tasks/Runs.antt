-- ===== src/Instance/Tasks/Runs.antt =====
-- internal/instance/task.go: runs of tasks.
use component_model.Prelude.{◌≡◌, refl, List, [], ◌∷◌, Bool, true, false, not, none, ok}
use component_model.Abi.Value.{uint32_value}
use component_model.Instance.Tasks.{
  TaskState, initial, started, resolved, park_wait, Task, Entry, cancelled, is_resolved,
  request_cancellation, deliver_pending_cancel, cancel_resolve, try_enter, leave_run,
  has_backpressure,
}
use component_model.Instance.Tasks.Once.{
  Call, start, return, acknowledge, request, calls, IsOnce, MayResume, calls-IsOnce,
  request-comes_through,
}
use component_model.Instance.Tasks.Exclusive.{try, run_on, moves, IsHeldBy, try_enter-excludes}

abbrev waiting : TaskState → Task
waiting state = record {
  state = state;
  num_borrows = 0;
  resolutions = [];
  stackful = false;
  park = park_wait;
  cancellable = true;
  cancel_wake = false;
}

abbrev free_instance : Entry
free_instance = record {
  backpressure = 0;
  num_waiting_to_enter = 0;
  exclusive_held = false;
  exclusive_owner = none;
  active_task = none;
  sync_base = none;
  may_enter = true;
}

abbrev history : List Call
history =
    start ∷ request 3 free_instance ∷ acknowledge ∷ return (uint32_value 7 ∷ []) ∷ acknowledge ∷ []

calls-IsOnce_example : IsOnce (calls history (waiting initial))
unfolding IsOnce is_resolved
calls-IsOnce_example = calls-IsOnce history (waiting initial) refl

request-comes_through_example :
    (resumes : Bool) × (asked : Task) × (after : Task) × (request_cancellation 3 free_instance
        (waiting started)
      ≡ ok (resumes, asked))
    × (resumes ≡ true → MayResume 3 free_instance (waiting started))
    × (MayResume 3 free_instance (waiting started) → resumes ≡ true)
    × ((deliver_pending_cancel true asked).0 ≡ not resumes)
    × (cancel_resolve (deliver_pending_cancel true asked).1 ≡ ok after)
    × (after.state ≡ resolved)
    × (after.resolutions ≡ cancelled ∷ [])
request-comes_through_example = request-comes_through 3 free_instance (waiting started) refl refl

abbrev entered : Entry
entered = (try_enter 3 free_instance).1

try_enter-excludes_example :
    IsHeldBy 3 (moves 3 (run_on ∷ try 4 ∷ []) entered)
    × (try_enter 5 (moves 3 (run_on ∷ try 4 ∷ []) entered)
        ≡ (false, moves 3 (run_on ∷ try 4 ∷ []) entered))
    × ((later : Entry)
        → later.backpressure ≡ 0
        → later.num_waiting_to_enter ≡ 0
        → (try_enter 5 (leave_run later)).0 ≡ true)
unfolding try_enter has_backpressure
try_enter-excludes_example = try_enter-excludes 3 5 free_instance (run_on ∷ try 4 ∷ []) refl

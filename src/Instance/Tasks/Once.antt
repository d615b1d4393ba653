-- ===== src/Instance/Tasks/Once.antt =====
-- internal/instance/task.go: a task is resolved once, and a cancellation comes through.
use component_model.Prelude.{
  ℕ, suc, ◌-◌, ◌≡◌, ◌≢◌, ◌⊎◌, none, some, Option, inl, inr, refl, sym, ap, ◌∙◌, arith, List, [],
  ◌∷◌, ◌++◌, Bool, true, false, not, ltb, if◌then◌else◌, Result, ok, err, length, length-append,
  Bool-cases,
}
use component_model.Abi.Value.{Value}
use component_model.Instance.Tasks.{
  TaskState, Park, park_none, park_entry, park_wait, park_yield, park_blocked, held_by_other,
  is_owner, is_blocked, is_parked, initial, started, pending_cancel, cancel_delivered, resolved,
  Task, TaskError, request_on_resolved, Entry, Resolution, returned, cancelled, is_resolved,
  is_cancel_delivered, is_pending_cancel, resolve, return_values, deliver_pending_cancel,
  cancel_resolve, request_from, request_cancellation, resumes_now,
}

-- The calls that a task sees; `start` is the run of its `onStart`.
pub data Call : Type 0 where
  start : Call
  return : List Value → Call
  suspend : Bool → Call
  acknowledge : Call
  request : ℕ → Entry → Call
  borrow give_back : Call

-- A call that fails leaves the task as it was.
abbrev kept : Task → Result TaskError Task → Task
kept t (ok after) = after
kept t r = t

abbrev kept_second : Task → Result TaskError (Bool × Task) → Task
kept_second t (ok (resumes, after)) = after
kept_second t r = t

abbrev started_from : TaskState → TaskState
started_from initial = started
started_from s = s

unfoldable pub one_call : Call → Task → Task
unfolding return_values deliver_pending_cancel cancel_resolve request_cancellation
one_call start t = record t { state = started_from t.state }
one_call (return vals) t = kept t (return_values vals t)
one_call (suspend cancellable) t = (deliver_pending_cancel cancellable t).1
one_call acknowledge t = kept t (cancel_resolve t)
one_call (request me inst) t = kept_second t (request_cancellation me inst t)
one_call borrow t = record t { num_borrows = suc t.num_borrows }
one_call give_back t = record t { num_borrows = t.num_borrows - 1 }

unfoldable pub calls : List Call → Task → Task
unfolding one_call
calls [] t = t
calls (c ∷ cs) t = calls cs (one_call c t)

-- A task has one resolution if it is resolved, and none before.
unfoldable pub IsOnce : Task → Type 0
IsOnce t = length t.resolutions ≡ (if is_resolved t.state then 1 else 0)

IsOnce-more :
    (r : Resolution) (t : Task) → IsOnce t → is_resolved t.state ≡ false → IsOnce (resolve r t)
unfolding IsOnce resolve is_resolved
IsOnce-more r t once before =
    let none_before : length t.resolutions ≡ 0 = rw before at once in
    omega (arith, length-append t.resolutions (r ∷ []), none_before)

started_from-still : (s : TaskState) → is_resolved (started_from s) ≡ is_resolved s
unfolding is_resolved
started_from-still initial = refl
started_from-still s = refl

same-IsOnce :
    (t after : Task)
    → after.resolutions ≡ t.resolutions
    → is_resolved after.state ≡ is_resolved t.state
    → IsOnce t
    → IsOnce after
unfolding IsOnce
same-IsOnce t after same still once = rw (same, still) once

return-IsOnce : (vals : List Value) (t : Task) → IsOnce t → IsOnce (kept t (return_values vals t))
unfolding return_values
return-IsOnce vals t once = elim (Bool-cases (is_resolved t.state)) [
  | inl after ↦ rw after once
  | inr before ↦ elim (Bool-cases (ltb 0 t.num_borrows)) [
    | inl lent ↦ rw (before, lent) once
    | inr free ↦ rw (before, free) (IsOnce-more (returned vals) t once before)
  ]
]

delivered-open : (s : TaskState) → is_cancel_delivered s ≡ true → is_resolved s ≡ false
unfolding is_cancel_delivered is_resolved
delivered-open cancel_delivered e = refl
delivered-open s e = cc

cancel-IsOnce : (t : Task) → IsOnce t → IsOnce (kept t (cancel_resolve t))
unfolding cancel_resolve
cancel-IsOnce t once = elim (Bool-cases (is_cancel_delivered t.state)) [
  | inr other ↦ rw other once
  | inl delivered ↦ elim (Bool-cases (ltb 0 t.num_borrows)) [
    | inl lent ↦ rw (delivered, lent) once
    | inr free ↦
        rw (delivered, free) (IsOnce-more cancelled t once (delivered-open t.state delivered))
  ]
]

pending-open : (s : TaskState) → is_pending_cancel s ≡ true → is_resolved s ≡ false
unfolding is_pending_cancel is_resolved
pending-open pending_cancel e = refl
pending-open s e = cc

suspend-IsOnce : (here : Bool) (t : Task) → IsOnce t → IsOnce (deliver_pending_cancel here t).1
unfolding deliver_pending_cancel is_resolved
suspend-IsOnce false t once = once
suspend-IsOnce true t once = elim (Bool-cases (is_pending_cancel t.state)) [
  | inl pending ↦ rw pending (same-IsOnce t _ refl (sym (pending-open t.state pending)) once)
  | inr other ↦ rw other once
]

-- The answers to a request, by the state of the task.
request-initial :
    (me : ℕ) (inst : Entry) (t : Task)
    → t.state ≡ initial
    → request_cancellation me inst t
      ≡ ok (true, record t { state = cancel_delivered; cancel_wake = true })
unfolding request_cancellation request_from
request-initial me inst t e = ap (λ (s : TaskState). request_from me inst t s) e

request-started :
    (me : ℕ) (inst : Entry) (t : Task)
    → t.state ≡ started
    → request_cancellation me inst t ≡ (
        if resumes_now me inst t
        then ok (true, record t { state = cancel_delivered; cancel_wake = true })
        else ok (false, record t { state = pending_cancel }))
unfolding request_cancellation request_from
request-started me inst t e = ap (λ (s : TaskState). request_from me inst t s) e

request-other :
    (me : ℕ) (inst : Entry) (t : Task) (s : TaskState)
    → t.state ≡ s
    → (s ≡ initial) ⊎ (s ≡ started) ⊎ (request_cancellation me inst t ≡ err request_on_resolved)
unfolding request_cancellation request_from
request-other me inst t initial e = inl refl
request-other me inst t started e = inr (inl refl)
request-other me inst t s e = inr (inr (ap (λ (x : TaskState). request_from me inst t x) e))

opened : (s : TaskState) {t : TaskState} → t ≡ s → is_resolved s ≡ false → false ≡ is_resolved t
opened s e o = sym (ap is_resolved e ∙ o)

request-IsOnce :
    (me : ℕ) (inst : Entry) (t : Task)
    → IsOnce t
    → IsOnce (kept_second t (request_cancellation me inst t))
unfolding is_resolved
request-IsOnce me inst t once = elim (request-other me inst t t.state refl) [
  | inl fresh ↦
      rw (request-initial me inst t fresh) (same-IsOnce t _ refl (opened initial fresh refl) once)
  | inr (inl running) ↦ elim (Bool-cases (resumes_now me inst t)) [
    | inl now ↦
        rw (request-started me inst t running, now)
          (same-IsOnce t _ refl (opened started running refl) once)
    | inr later ↦
        rw (request-started me inst t running, later)
          (same-IsOnce t _ refl (opened started running refl) once)
  ]
  | inr (inr refused) ↦ rw refused once
]

one_call-IsOnce : (c : Call) (t : Task) → IsOnce t → IsOnce (one_call c t)
unfolding one_call
one_call-IsOnce start t once =
    same-IsOnce t (one_call start t) refl (started_from-still t.state) once
one_call-IsOnce (return vals) t once = return-IsOnce vals t once
one_call-IsOnce (suspend cancellable) t once = suspend-IsOnce cancellable t once
one_call-IsOnce acknowledge t once = cancel-IsOnce t once
one_call-IsOnce (request me inst) t once = request-IsOnce me inst t once
one_call-IsOnce borrow t once = same-IsOnce t (one_call borrow t) refl refl once
one_call-IsOnce give_back t once = same-IsOnce t (one_call give_back t) refl refl once

-- Whatever the calls, a task that has one resolution if it is resolved and none before stays so.
pub calls-IsOnce : (cs : List Call) (t : Task) → IsOnce t → IsOnce (calls cs t)
unfolding calls
calls-IsOnce [] t once = once
calls-IsOnce (c ∷ cs) t once = calls-IsOnce cs (one_call c t) (one_call-IsOnce c t once)

-- What it takes to resume a task inside the request: it is parked where it may be cancelled, nobody
-- runs in the instance, and if the instance is held exclusively, then by this task, in a block. A
-- stackful task is parked in a block anyway.
abbrev pub MayResume : ℕ → Entry → Task → Type 0
MayResume me inst t =
    (t.cancellable ≡ true)
    × (inst.may_enter ≡ true)
    × (t.park ≢ park_none)
    × (t.stackful ≡ true → t.park ≡ park_blocked)
    × (inst.exclusive_held ≡ true → (t.park ≡ park_blocked) × (inst.exclusive_owner ≡ some me))

owner-tests :
    (me : ℕ) (owner : Option ℕ)
    → (is_owner me owner ≡ true → owner ≡ some me) × (owner ≡ some me → is_owner me owner ≡ true)
owner-tests me none = ((λ e. cc), (λ e. cc))
owner-tests me (some other) = ((λ e. ground arith), (λ e. ground arith))

-- The tests of the source, for a task that is parked outside a block and for one that is in one.
unblocked-tests :
    (me : ℕ) (inst : Entry) (t : Task)
    → is_blocked t.park ≡ false
    → is_parked t.park ≡ true
    → t.park ≢ park_none
    → t.park ≢ park_blocked
    → (resumes_now me inst t ≡ true → MayResume me inst t)
      × (MayResume me inst t → resumes_now me inst t ≡ true)
unfolding resumes_now
unblocked-tests me inst t outside parked somewhere unblocked = (
  λ e. (
    ground arith,
    ground arith,
    somewhere,
    (λ deep. absurd (ground arith)),
    (λ held. absurd (ground arith)),
  ),
  λ (c, m, p, deep, held). elim (Bool-cases t.stackful) [
    | inl s ↦ absurd (unblocked (deep s))
    | inr s ↦ elim (Bool-cases inst.exclusive_held) [
      | inl h ↦ absurd (unblocked (held h).0)
      | inr h ↦ rw (s, outside, parked, c, m, h) refl
    ]
  ],
)

blocked-tests :
    (me : ℕ) (inst : Entry) (t : Task)
    → is_blocked t.park ≡ true
    → t.park ≡ park_blocked
    → t.park ≢ park_none
    → (resumes_now me inst t ≡ true → MayResume me inst t)
      × (MayResume me inst t → resumes_now me inst t ≡ true)
unfolding resumes_now held_by_other
blocked-tests me inst t inside at somewhere =
    let (to, from) = owner-tests me inst.exclusive_owner in
    (
      λ e. (ground arith, ground arith, somewhere, (λ deep. at), (λ held. (at, to (ground arith)))),
      λ (c, m, p, deep, held). elim (Bool-cases inst.exclusive_held) [
        | inl h ↦ let mine = from (held h).1 in ground (arith, mine)
        | inr h ↦ ground arith
      ],
    )

park-tests :
    (me : ℕ) (inst : Entry) (t : Task) (p : Park)
    → t.park ≡ p
    → (resumes_now me inst t ≡ true → MayResume me inst t)
      × (MayResume me inst t → resumes_now me inst t ≡ true)
unfolding resumes_now is_blocked is_parked
park-tests me inst t park_none at = ((λ e. ground arith), (λ (c, m, p, deep, held). absurd (p at)))
park-tests me inst t park_entry at =
    unblocked-tests me inst t (rw at refl) (rw at refl) (λ s. cc) (λ s. cc)
park-tests me inst t park_wait at =
    unblocked-tests me inst t (rw at refl) (rw at refl) (λ s. cc) (λ s. cc)
park-tests me inst t park_yield at =
    unblocked-tests me inst t (rw at refl) (rw at refl) (λ s. cc) (λ s. cc)
park-tests me inst t park_blocked at = blocked-tests me inst t (rw at refl) at (λ s. cc)

resumes_now-MayResume :
    (me : ℕ) (inst : Entry) (t : Task)
    → (resumes_now me inst t ≡ true → MayResume me inst t)
      × (MayResume me inst t → resumes_now me inst t ≡ true)
resumes_now-MayResume me inst t = park-tests me inst t t.park refl

-- A request to a task that has started and has no borrows left comes through: either the task is
-- resumed at once with its cancellation delivered, or the next suspension that can be cancelled
-- delivers it; the acknowledgement then resolves the task as cancelled. It is resumed at once if and
-- only if it is parked where it may be cancelled, a stackful task in a block, nobody runs in the
-- instance, and the instance is not held exclusively, or by this task in a block.
pub request-comes_through :
    (me : ℕ) (inst : Entry) (t : Task)
    → t.state ≡ started
    → t.num_borrows ≡ 0
    → (resumes : Bool) × (asked : Task) × (after : Task) × (request_cancellation me inst t
        ≡ ok (resumes, asked))
      × (resumes ≡ true → MayResume me inst t)
      × (MayResume me inst t → resumes ≡ true)
      × ((deliver_pending_cancel true asked).0 ≡ not resumes)
      × (cancel_resolve (deliver_pending_cancel true asked).1 ≡ ok after)
      × (after.state ≡ resolved)
      × (after.resolutions ≡ t.resolutions ++ cancelled ∷ [])
unfolding deliver_pending_cancel is_pending_cancel cancel_resolve is_cancel_delivered resolve
request-comes_through me inst t running free = elim (Bool-cases (resumes_now me inst t)) [
  | inl now ↦
      let asked = record t { state = cancel_delivered; cancel_wake = true } in
      (
        true,
        asked,
        resolve cancelled asked,
        rw (request-started me inst t running, now) refl,
        (λ r. (resumes_now-MayResume me inst t).0 now),
        (λ m. refl),
        refl,
        rw free refl,
        refl,
        refl,
      )
  | inr later ↦
      let asked = record t { state = pending_cancel } in
      (
        false,
        asked,
        resolve cancelled (record t { state = cancel_delivered }),
        rw (request-started me inst t running, later) refl,
        (λ r. cc),
        (λ m. sym later ∙ (resumes_now-MayResume me inst t).1 m),
        refl,
        rw free refl,
        refl,
        refl,
      )
]

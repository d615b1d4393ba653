-- ===== src/Instance/Sched.antt =====
-- internal/instance/sched.go: the queue of completions and the parked tasks of a composition tree.
-- A thunk and a parked task are numbers; what they do to the scheduler and to the rest of the
-- program, the world, is an argument.
pub mod Drive
mod Runs
use component_model.Prelude.{
  ℕ, zero, suc, List, [], ◌∷◌, ◌++◌, Bool, true, false, ◌&&◌, ◌||◌, not, Option, none, some, ◌==◌,
  if◌then◌else◌, Result, ok, err, stuck, length,
}

pub record Sched (World : Type 0) : Type 0 where
  pub runq : List ℕ
  pub parked : List ℕ
  pub pumping : Bool
  pub world : World

pub data SchedError : Type 0 where
  async_deadlock : SchedError
  -- The error of a thunk or of a task.
  failed : ℕ → SchedError

-- `none` is the nil error.
abbrev pub Action : Type 0 → Type 0
Action World = ℕ → Sched World → Option ℕ × Sched World

-- `unpark`'s loop: the first entry that is this task.
unfoldable pub without : ℕ → List ℕ → List ℕ
without pt [] = []
without pt (p ∷ parked) = let rest = without pt parked in if p == pt then parked else p ∷ rest

unfoldable pub is_parked : ℕ → List ℕ → Bool
is_parked pt [] = false
is_parked pt (p ∷ parked) = p == pt || is_parked pt parked

module _ {World : Type 0} where
  unfoldable pub enqueue : ℕ → Sched World → Sched World
  enqueue f s = record s { runq = s.runq ++ (f ∷ []) }

  unfoldable pub park : ℕ → Sched World → Sched World
  park pt s = record s { parked = s.parked ++ (pt ∷ []) }

  unfoldable pub unpark : ℕ → Sched World → Sched World
  unfolding without
  unpark pt s = record s { parked = without pt s.parked }

  -- `pumping` is set while the action runs.
  unfoldable pub pumped : Action World → ℕ → Sched World → Option ℕ × Sched World
  pumped act n s =
      let (e, after) = act n (record s { pumping = true }) in (e, record after { pumping = false })

  unfoldable pub first_ready : (ℕ → Sched World → Bool) → List ℕ → Sched World → Option ℕ
  first_ready ready [] s = none
  first_ready ready (pt ∷ parked) s =
      let rest = first_ready ready parked s in if ready pt s then some pt else rest

module _ {World : Type 0} (run resume_ready : Action World) (ready : ℕ → Sched World → Bool) where
  -- Whether there was progress, and the error.
  unfoldable pub step : Sched World → (Bool × Option ℕ) × Sched World
  unfolding pumped first_ready
  step s = elim s.runq [
    | th ∷ rest ↦ let (e, after) = pumped run th (record s { runq = rest }) in ((true, e), after)
    | [] ↦ elim (first_ready ready s.parked s) [
      | some pt ↦ let (e, after) = pumped resume_ready pt s in ((true, e), after)
      | none ↦ ((false, none), s)
    ]
  ]

  -- What `drive` does with the outcome of a step; `next` is the rest of the loop.
  abbrev pub drive_on :
      (Bool × Option ℕ) × Sched World
      → (Sched World → Result SchedError (Unit {0}) × Sched World)
      → Result SchedError (Unit {0}) × Sched World
  drive_on ((progressed, some e), s) next = (err (failed e), s)
  drive_on ((true, none), s) next = next s
  drive_on ((false, none), s) next = (err async_deadlock, s)

  unfoldable pub drive :
      ℕ → (Sched World → Bool) → Sched World → Result SchedError (Unit {0}) × Sched World
  unfolding step
  drive zero pred s = (stuck, s)
  drive (suc fuel) pred s =
      if pred s then (ok tt, s) else drive_on (step s) (λ u. drive fuel pred u)

  abbrev pub quiesce_on :
      (Bool × Option ℕ) × Sched World
      → (Sched World → Result SchedError Bool × Sched World)
      → Result SchedError Bool × Sched World
  quiesce_on ((progressed, some e), s) next = (err (failed e), s)
  quiesce_on ((true, none), s) next = next s
  quiesce_on ((false, none), s) next = (ok false, s)

  unfoldable pub drive_to_quiescence :
      ℕ → (Sched World → Bool) → Sched World → Result SchedError Bool × Sched World
  unfolding step
  drive_to_quiescence zero pred s = (stuck, s)
  drive_to_quiescence (suc fuel) pred s =
      if pred s then (ok true, s) else quiesce_on (step s) (λ u. drive_to_quiescence fuel pred u)

  abbrev drain_on :
      (Bool × Option ℕ) × Sched World
      → (Sched World → Result SchedError (Unit {0}) × Sched World)
      → Result SchedError (Unit {0}) × Sched World
  drain_on ((progressed, some e), s) next = (err (failed e), s)
  drain_on ((true, none), s) next = next s
  drain_on ((false, none), s) next = (ok tt, s)

  unfoldable pub drain_ready : ℕ → Sched World → Result SchedError (Unit {0}) × Sched World
  unfolding step
  drain_ready zero s = (stuck, s)
  drain_ready (suc fuel) s = drain_on (step s) (λ u. drain_ready fuel u)

  -- `pumpSnapshot`'s first loop: one step for each thunk queued at entry.
  unfoldable pub pump_queued : ℕ → Sched World → Option ℕ × Sched World
  unfolding step
  pump_queued zero s = (none, s)
  pump_queued (suc n) s = elim (step s).0.1 [
    | some e ↦ (some e, (step s).1)
    | none ↦ pump_queued n (step s).1
  ]

  unfoldable pub ready_now : List ℕ → Sched World → List ℕ
  ready_now [] s = []
  ready_now (pt ∷ parked) s =
      let rest = ready_now parked s in if ready pt s then pt ∷ rest else rest

  -- Its second loop: a task may have been unparked, or be ready no more, by the time of its turn.
  unfoldable pub resume_each : List ℕ → Sched World → Option ℕ × Sched World
  unfolding is_parked pumped
  resume_each [] s = (none, s)
  resume_each (pt ∷ tasks) s =
      let skipped = resume_each tasks s in
      let (e, after) = pumped resume_ready pt s in
      let resumed = resume_each tasks after in
      if not (is_parked pt s.parked) || not (ready pt s)
      then skipped
      else (elim e [ some x ↦ (some x, after) | none ↦ resumed ])

  unfoldable pub pump_snapshot : Sched World → Option ℕ × Sched World
  unfolding pump_queued ready_now resume_each
  pump_snapshot s =
      let (e, after) = pump_queued (length s.runq) s in
      elim e [ some x ↦ (some x, after) | none ↦ resume_each (ready_now after.parked after) after ]

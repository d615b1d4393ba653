-- ===== src/Instance/Sched/Drive.antt =====
-- internal/instance/sched.go: what the end of a `drive` says, and that it comes.
use component_model.Prelude.{
  ℕ, zero, suc, ◌<◌, ◌≡◌, ◌⊎◌, refl, List, [], ◌∷◌, Bool, true, false, none, some, arith, Result,
  ok, err, stuck, Bool-cases, Option-cases, inl, inr,
}
use component_model.Instance.Sched.{
  Sched, SchedError, async_deadlock, failed, Action, first_ready, step, drive, drive_to_quiescence,
  pumped,
}

module _ {World : Type 0} (run resume_ready : Action World) (ready : ℕ → Sched World → Bool) where
  -- There is nothing to run, and no parked task is ready.
  abbrev pub IsIdle : Sched World → Type 0
  IsIdle s = (s.runq ≡ []) × (first_ready ready s.parked s ≡ none)

  -- Steps without an error lead from a scheduler to `u`, and the predicate holds at none of them
  -- before `u`.
  pub data Leads (pred : Sched World → Bool) (u : Sched World) : Sched World → Type 0 where
    arrived : Leads pred u u
    stepped :
        (s v : Sched World)
        → pred s ≡ false
        → step run resume_ready ready s ≡ ((true, none), v)
        → Leads pred u v
        → Leads pred u s

  -- Such steps lead to a scheduler whose next step fails with this error and leaves `u`.
  abbrev pub FailsWith : (Sched World → Bool) → Sched World → ℕ → Sched World → Type 0
  FailsWith pred s e u =
      (v : Sched World) × (p : Bool) × Leads pred v s
      × (pred v ≡ false)
      × (step run resume_ready ready v ≡ ((p, some e), u))

  -- What each outcome of a `drive` from `s` says of the scheduler at its end.
  abbrev pub Outcome :
      (Sched World → Bool) → Sched World → Result SchedError (Unit {0}) × Sched World → Type 0
  Outcome pred s (ok done, u) = Leads pred u s × (pred u ≡ true)
  Outcome pred s (err async_deadlock, u) = Leads pred u s × (pred u ≡ false) × IsIdle u
  Outcome pred s (err (failed e), u) = FailsWith pred s e u
  Outcome pred s (stuck, u) = ⊥

  Outcome-earlier :
      (pred : Sched World → Bool) (s v : Sched World)
      (r : Result SchedError (Unit {0}) × Sched World)
      → pred s ≡ false
      → step run resume_ready ready s ≡ ((true, none), v)
      → Outcome pred v r
      → Outcome pred s r
  Outcome-earlier pred s v (ok done, u) waits one (leads, holds) =
      (stepped s v waits one leads, holds)
  Outcome-earlier pred s v (err async_deadlock, u) waits one (leads, waiting, idle) =
      (stepped s v waits one leads, waiting, idle)
  Outcome-earlier pred s v (err (failed e), u) waits one (w, p, leads, waiting, fails) =
      (w, p, stepped s v waits one leads, waiting, fails)
  Outcome-earlier pred s v (stuck, u) waits one ended = ended

  abbrev StepCase : Sched World → Type 0
  StepCase s =
      ((e : ℕ) × (u : Sched World) × (p : Bool) × (step run resume_ready ready s
          ≡ ((p, some e), u)))
      ⊎ ((u : Sched World) × (step run resume_ready ready s ≡ ((true, none), u)))
      ⊎ (IsIdle s × (step run resume_ready ready s ≡ ((false, none), s)))

  step_cases : (s : Sched World) → StepCase s
  unfolding step
  step_cases s = queued s.runq refl
    where
      parked_cases : s.runq ≡ [] → StepCase s
      parked_cases empty = elim (Option-cases (first_ready ready s.parked s)) [
        | inl idle ↦ inr (inr ((empty, idle), ground arith))
        | inr (pt, found) ↦ elim (Option-cases (pumped resume_ready pt s).0) [
          | inl fine ↦ inr (inl ((pumped resume_ready pt s).1, ground arith))
          | inr (e, fails) ↦ inl (e, (pumped resume_ready pt s).1, true, ground arith)
        ]
      ]

      queued : (q : List ℕ) → s.runq ≡ q → StepCase s
      queued [] empty = parked_cases empty
      queued (th ∷ rest) one = elim (Option-cases (pumped run th (record s { runq = rest })).0) [
        | inl fine ↦ inr (inl ((pumped run th (record s { runq = rest })).1, ground arith))
        | inr (e, fails) ↦ inl (e, (pumped run th (record s { runq = rest })).1, true, ground arith)
      ]

  -- If every step without an error lowers a measure of the scheduler and the program, `drive` ends
  -- within one round more than the measure. Steps without an error, at none of which the predicate
  -- holds, lead to its end: it answers without an error if the predicate holds there, with a deadlock
  -- if it does not and nothing can run, and with the error of the step that fails there.
  pub drive-Outcome :
      (pred : Sched World → Bool) (measure : Sched World → ℕ)
      (lowers : (s u : Sched World)
        → step run resume_ready ready s ≡ ((true, none), u)
        → measure u < measure s)
      (fuel : ℕ) (s : Sched World)
      → measure s < fuel
      → Outcome pred s (drive run resume_ready ready fuel pred s)
  unfolding drive
  drive-Outcome pred measure lowers zero s h = absurd (omega arith)
  drive-Outcome pred measure lowers (suc fuel) s h = elim (Bool-cases (pred s)) [
    | inl holds ↦ rw holds (arrived, holds)
    | inr waits ↦ elim (step_cases s) [
      | inl (e, u, p, fails) ↦ rw (waits, fails) (s, p, arrived, waits, fails)
      | inr (inl (u, one)) ↦
          rw (waits, one)
            (Outcome-earlier pred s u _ waits one
              (drive-Outcome pred measure lowers fuel u (omega (arith, lowers s u one))))
      | inr (inr (idle, none_left)) ↦ rw (waits, none_left) (arrived, waits, idle)
    ]
  ]

  abbrev pub QuiesceOutcome :
      (Sched World → Bool) → Sched World → Result SchedError Bool × Sched World → Type 0
  QuiesceOutcome pred s (ok true, u) = Leads pred u s × (pred u ≡ true)
  QuiesceOutcome pred s (ok false, u) = Leads pred u s × (pred u ≡ false) × IsIdle u
  QuiesceOutcome pred s (err async_deadlock, u) = ⊥
  QuiesceOutcome pred s (err (failed e), u) = FailsWith pred s e u
  QuiesceOutcome pred s (stuck, u) = ⊥

  QuiesceOutcome-earlier :
      (pred : Sched World → Bool) (s v : Sched World) (r : Result SchedError Bool × Sched World)
      → pred s ≡ false
      → step run resume_ready ready s ≡ ((true, none), v)
      → QuiesceOutcome pred v r
      → QuiesceOutcome pred s r
  QuiesceOutcome-earlier pred s v (ok true, u) waits one (leads, holds) =
      (stepped s v waits one leads, holds)
  QuiesceOutcome-earlier pred s v (ok false, u) waits one (leads, waiting, idle) =
      (stepped s v waits one leads, waiting, idle)
  QuiesceOutcome-earlier pred s v (err async_deadlock, u) waits one ended = ended
  QuiesceOutcome-earlier pred s v (err (failed e), u) waits one (w, p, leads, waiting, fails) =
      (w, p, stepped s v waits one leads, waiting, fails)
  QuiesceOutcome-earlier pred s v (stuck, u) waits one ended = ended

  -- If every step without an error lowers a measure of the scheduler and the program,
  -- `driveToQuiescence` ends within one round more than the measure. Steps without an error, at none
  -- of which the predicate holds, lead to its end: it answers true if the predicate holds there, false
  -- if it does not and nothing can run, and with the error of the step that fails there. It never
  -- answers with a deadlock.
  pub drive_to_quiescence-Outcome :
      (pred : Sched World → Bool) (measure : Sched World → ℕ)
      (lowers : (s u : Sched World)
        → step run resume_ready ready s ≡ ((true, none), u)
        → measure u < measure s)
      (fuel : ℕ) (s : Sched World)
      → measure s < fuel
      → QuiesceOutcome pred s (drive_to_quiescence run resume_ready ready fuel pred s)
  unfolding drive_to_quiescence
  drive_to_quiescence-Outcome pred measure lowers zero s h = absurd (omega arith)
  drive_to_quiescence-Outcome pred measure lowers (suc fuel) s h = elim (Bool-cases (pred s)) [
    | inl holds ↦ rw holds (arrived, holds)
    | inr waits ↦ elim (step_cases s) [
      | inl (e, u, p, fails) ↦ rw (waits, fails) (s, p, arrived, waits, fails)
      | inr (inl (u, one)) ↦
          rw (waits, one)
            (QuiesceOutcome-earlier pred s u _ waits one (
              drive_to_quiescence-Outcome pred measure lowers fuel u
                (omega (arith, lowers s u one))))
      | inr (inr (idle, none_left)) ↦ rw (waits, none_left) (arrived, waits, idle)
    ]
  ]

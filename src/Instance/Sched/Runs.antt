-- ===== src/Instance/Sched/Runs.antt =====
-- internal/instance/sched.go: runs of a scheduler whose thunks count in the world.
use component_model.Prelude.{
  ℕ, ◌+◌, ◌*◌, ◌<◌, ◌≡◌, refl, List, [], ◌∷◌, Bool, true, false, none, ◌==◌, arith, ok, err, length,
}
use component_model.Instance.Sched.{
  Sched, async_deadlock, Action, pumped, first_ready, step, drive, drive_to_quiescence, pump_queued,
  ready_now, resume_each, pump_snapshot, enqueue, park, unpark, without, is_parked,
}
use component_model.Instance.Sched.Drive.{
  Outcome, QuiesceOutcome, drive-Outcome, drive_to_quiescence-Outcome,
}

-- A thunk writes its number behind those in the world.
abbrev add : Action ℕ
add n s = (none, record s { world = 10 * s.world + n })

abbrev never : ℕ → Sched ℕ → Bool
never pt s = false

abbrev two_queued : Sched ℕ
two_queued = record { runq = 3 ∷ 4 ∷ []; parked = 7 ∷ []; pumping = false; world = 0 }

in_order :
    drive add add never 3 (λ s. s.world == 34) two_queued
    ≡ (ok tt, record { runq = []; parked = 7 ∷ []; pumping = false; world = 34 })
unfolding drive step pumped
in_order = refl

deadlocked : (drive add add never 3 (λ s. s.world == 43) two_queued).0 ≡ err async_deadlock
unfolding drive step pumped first_ready
deadlocked = refl

snapshot : (pump_snapshot add add (λ pt s. true) two_queued).1.world ≡ 347
unfolding pump_snapshot pump_queued step pumped ready_now resume_each is_parked
snapshot = refl

unparked : (unpark 7 (park 8 (enqueue 5 two_queued))).parked ≡ 8 ∷ []
unfolding unpark park enqueue without
unparked = refl

never_ready : (parked : List ℕ) (s : Sched ℕ) → first_ready never parked s ≡ none
unfolding first_ready
never_ready [] s = refl
never_ready (pt ∷ parked) s = never_ready parked s

abbrev queue_length : Sched ℕ → ℕ
queue_length s = length s.runq

add-lowers :
    (s u : Sched ℕ) → step add add never s ≡ ((true, none), u) → queue_length u < queue_length s
unfolding step pumped
add-lowers s u stepped = queued s.runq refl
  where
    queued : (q : List ℕ) → s.runq ≡ q → queue_length u < queue_length s
    queued [] empty = ground (arith, never_ready s.parked s)
    queued (th ∷ rest) one = ground arith

drive-Outcome_example :
    Outcome add add never
      (λ s. s.world == 34)
      two_queued
      (drive add add never 3 (λ s. s.world == 34) two_queued)
drive-Outcome_example =
    drive-Outcome add add never (λ s. s.world == 34) queue_length add-lowers 3 two_queued
      (omega arith)

drive_to_quiescence-Outcome_example :
    QuiesceOutcome add add never
      (λ s. s.world == 43)
      two_queued
      (drive_to_quiescence add add never 3 (λ s. s.world == 43) two_queued)
drive_to_quiescence-Outcome_example =
    drive_to_quiescence-Outcome add add never (λ s. s.world == 43) queue_length add-lowers 3
      two_queued (omega arith)

-- ===== src/Instance/Tasks/Exclusive.antt =====
-- internal/instance/task.go: at most one task holds an instance.
use component_model.Prelude.{
  ℕ, List, [], ◌∷◌, ◌≡◌, inl, inr, refl, arith, true, false, ◌||◌, ltb, some, Bool-cases,
}
use component_model.Instance.Tasks.{
  Entry, has_backpressure, try_enter, enter_run, leave_run, suspend_run,
}

-- What tasks do to an instance that is held: newcomers try, the holder runs on or suspends.
pub data WhileHeld : Type 0 where
  try : ℕ → WhileHeld
  run_on suspend : WhileHeld

unfoldable pub one_move : ℕ → WhileHeld → Entry → Entry
unfolding try_enter enter_run suspend_run
one_move holder (try other) inst = (try_enter other inst).1
one_move holder run_on inst = enter_run holder inst
one_move holder suspend inst = suspend_run inst

unfoldable pub moves : ℕ → List WhileHeld → Entry → Entry
unfolding one_move
moves holder [] inst = inst
moves holder (m ∷ ms) inst = moves holder ms (one_move holder m inst)

abbrev pub IsHeldBy : ℕ → Entry → Type 0
IsHeldBy holder inst = (inst.exclusive_held ≡ true) × (inst.exclusive_owner ≡ some holder)

held-refuses :
    (holder other : ℕ) (inst : Entry) → IsHeldBy holder inst → try_enter other inst ≡ (false, inst)
unfolding try_enter has_backpressure
held-refuses holder other inst (held, owner) = elim (Bool-cases (ltb 0 inst.backpressure)) [
  | inl pressed ↦ simp pressed
  | inr calm ↦ simp (calm, held)
]

one_move-IsHeldBy :
    (holder : ℕ) (m : WhileHeld) (inst : Entry)
    → IsHeldBy holder inst
    → IsHeldBy holder (one_move holder m inst)
unfolding one_move enter_run suspend_run
one_move-IsHeldBy holder (try other) inst held =
    rw (one_move, held-refuses holder other inst held) held
one_move-IsHeldBy holder run_on inst held = (refl, refl)
one_move-IsHeldBy holder suspend inst held = held

moves-IsHeldBy :
    (holder : ℕ) (ms : List WhileHeld) (inst : Entry)
    → IsHeldBy holder inst
    → IsHeldBy holder (moves holder ms inst)
unfolding moves
moves-IsHeldBy holder [] inst held = held
moves-IsHeldBy holder (m ∷ ms) inst held =
    moves-IsHeldBy holder ms (one_move holder m inst) (one_move-IsHeldBy holder m inst held)

entered-IsHeldBy :
    (holder : ℕ) (inst : Entry)
    → (try_enter holder inst).0 ≡ true
    → IsHeldBy holder (try_enter holder inst).1
unfolding try_enter
entered-IsHeldBy holder inst e =
    elim (Bool-cases (has_backpressure inst || ltb 0 inst.num_waiting_to_enter)) [
      | inl barred ↦ absurd (ground (arith, rw (try_enter, barred) at e))
      | inr open_door ↦ rw open_door (refl, refl)
    ]

left-admits :
    (other : ℕ) (later : Entry)
    → later.backpressure ≡ 0
    → later.num_waiting_to_enter ≡ 0
    → (try_enter other (leave_run later)).0 ≡ true
unfolding try_enter leave_run has_backpressure
left-admits other later calm alone = simp (calm, alone)

-- A task that entered holds the instance: whatever newcomers try, and however often the task runs
-- on and suspends, no other task enters before `leaveRun`; after it a task enters if there is no
-- backpressure and none waits to enter.
pub try_enter-excludes :
    (holder other : ℕ) (inst : Entry) (ms : List WhileHeld)
    → (try_enter holder inst).0 ≡ true
    → IsHeldBy holder (moves holder ms (try_enter holder inst).1)
      × (try_enter other (moves holder ms (try_enter holder inst).1)
          ≡ (false, moves holder ms (try_enter holder inst).1))
      × ((later : Entry)
          → later.backpressure ≡ 0
          → later.num_waiting_to_enter ≡ 0
          → (try_enter other (leave_run later)).0 ≡ true)
try_enter-excludes holder other inst ms entered =
    let held =
      moves-IsHeldBy holder ms (try_enter holder inst).1 (entered-IsHeldBy holder inst entered) in
    (held, held-refuses holder other _ held, λ later calm alone. left-admits other later calm alone)

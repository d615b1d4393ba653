-- ===== src/Instance/Waitables/Runs.antt =====
-- internal/instance/waitable.go: runs on a small store.
use component_model.Prelude.{
  ℕ, ◌≡◌, ◌≢◌, ◌⊎◌, refl, [], ◌∷◌, true, false, none, some, ◌==◌, if◌then◌else◌, ok, err,
}
use component_model.Instance.Waitables.{
  event_none, event_subtask, Store, still_joined, panics_pending, returned, has_pending_event,
  any_pending, remove, leave, enter, join, drop_set, drop_waitable, set_pending_subtask_event,
  state_code, new_subtask, put_subtask, resolved, resolve, resolve_delivered, add_lender,
  deliver_resolve, Closures, take_sub_event, get_pending_event, first_pending,
  set_get_pending_event, poll,
}
use component_model.Instance.Waitables.Membership.{
  count, IsConsistent, join-IsConsistent, drop_waitable-IsConsistent,
}
use component_model.Instance.Waitables.Delivery.{lend_all, deliver-lend_all, poll-first}

abbrev empty : Store
empty = record {
  waitables =
      λ w. record { pending_event = none; pending_sub = none; wset = none; sync_waiter = false };
  sets = λ s. record { elems = []; num_waiting = 0 };
  subtasks = λ p. new_subtask;
  lend_counts = λ h. 0;
}

empty-IsConsistent : IsConsistent empty
unfolding count
empty-IsConsistent v s = refl

-- Waitable 4 moves from set 1 to set 2, where 5 is.
abbrev moved : Store
moved = join 4 (some 2) (join 5 (some 2) (join 4 (some 1) empty))

moved-IsConsistent : IsConsistent moved
moved-IsConsistent =
    (join-IsConsistent 4 (some 2) _
      (join-IsConsistent 5 (some 2) _
        (join-IsConsistent 4 (some 1) empty empty-IsConsistent).0).0).0

members : (moved.sets 2).elems ≡ 5 ∷ 4 ∷ []
unfolding join leave enter remove
members = refl

left_behind : (moved.sets 1).elems ≡ []
unfolding join leave enter remove
left_behind = refl

set-dropped : drop_set 2 moved ≡ err (still_joined 2)
unfolding drop_set join leave enter remove
set-dropped = refl

-- Subtask 4 has returned, and its event is armed with the index 9.
abbrev armed : Store
armed = set_pending_subtask_event 4 4 9 (resolve 4 returned (7 ∷ []) (add_lender 4 30 moved)).1

armed-poll :
    (poll (λ n st. (record { code = event_none; p1 = 0; p2 = 0 }, st)) 2 armed).0
    ≡ ok (record { code = event_subtask; p1 = 9; p2 = 2 })
unfolding poll any_pending has_pending_event set_get_pending_event first_pending get_pending_event
    take_sub_event set_pending_subtask_event resolve add_lender join leave enter remove resolved
    resolve_delivered deliver_resolve new_subtask
armed-poll = refl

join-IsConsistent_example :
    IsConsistent (join 6 (some 1) empty)
    × ((v : ℕ)
        → ((join 6 (some 1) empty).waitables v).wset
          ≡ (if v == 6 then some 1 else (empty.waitables v).wset))
join-IsConsistent_example = join-IsConsistent 6 (some 1) empty empty-IsConsistent

drop_waitable-IsConsistent_example :
    ((has_pending_event 4 moved ≡ false)
      × ((drop_waitable 4 moved).0 ≡ ok tt)
      × IsConsistent (drop_waitable 4 moved).1
      × ((s : ℕ) → count 4 ((drop_waitable 4 moved).1.sets s).elems ≡ 0))
    ⊎ ((has_pending_event 4 moved ≡ true) × (drop_waitable 4 moved ≡ (err panics_pending, moved)))
drop_waitable-IsConsistent_example = drop_waitable-IsConsistent 4 moved moved-IsConsistent

deliver-lend_all_example :
    (deliver_resolve 4
        (lend_all 4 (30 ∷ 31 ∷ 30 ∷ []) (put_subtask 4 new_subtask moved))).lend_counts
      30
    ≡ moved.lend_counts 30
deliver-lend_all_example = deliver-lend_all 4 (30 ∷ 31 ∷ 30 ∷ []) moved 30

abbrev no_closures : Closures
no_closures n st = (record { code = event_none; p1 = 0; p2 = 0 }, st)

quiet : has_pending_event 5 armed ≡ false
unfolding has_pending_event set_pending_subtask_event resolve add_lender join leave enter remove
quiet = refl

armed-members : (armed.sets 2).elems ≡ 5 ∷ 4 ∷ []
unfolding set_pending_subtask_event resolve add_lender join leave enter remove
armed-members = refl

armed-event : (armed.waitables 4).pending_sub ≡ some (4, 9)
unfolding set_pending_subtask_event resolve add_lender join leave enter remove
armed-event = refl

poll-first_example :
    let (answer, u) = poll no_closures 2 armed in
    (answer
      ≡ ok (record { code = event_subtask; p1 = 9; p2 = state_code (armed.subtasks 4).state }))
    × ((u.waitables 4).pending_sub ≡ none)
    × ((v : ℕ) → v ≢ 4 → u.waitables v ≡ armed.waitables v)
    × (u.sets ≡ armed.sets)
    × (resolved (armed.subtasks 4) ≡ true → resolve_delivered (u.subtasks 4) ≡ true)
poll-first_example =
    poll-first no_closures (5 ∷ []) [] 2 4 4 9 armed armed-members (quiet, tt) armed-event

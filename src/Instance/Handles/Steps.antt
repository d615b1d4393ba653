-- ===== src/Instance/Handles/Steps.antt =====
-- internal/instance/resource.go: any history of calls on a handle table.
use component_model.Prelude.{
  ◌≤◌, ℕ, suc, ◌∙◌, sym, Bool, ◌&&◌, Result, stuck, ◌+◌, ◌^◌, ◌<◌, ◌≡◌, refl, List, [], ◌∷◌, true,
  false, Option, none, some, ◌==◌, arith, Bool-cases, inl, inr, Option-cases, ok, err,
}
use component_model.Prelude.Maps.{find}
use component_model.Instance.Handles.{
  ResourceEntry, TableEntry, resource, HandleTable, new_own, new_borrow, new_borrow_scoped,
  new_handle_table, fresh_entry, update,
}
use component_model.Instance.Handles.Ops.{
  Callbacks, run_dtor, drop_owned_with_dtor, close_entries, close, same_entry, finish_drop,
}
use component_model.Instance.Handles.Moves.{
  retired, take_own-Minor, drop_owned-Minor, drop-Minor, lend-Minor, unlend-Minor,
  remove_entry-Minor, register_dtor-Minor, register_host_dtor-Minor,
}
use mathlib.Core.Path.{subst}
use component_model.Instance.Handles.Closed.{close_closed}
use component_model.Instance.Handles.Valid.{IsValid, new_handle_table-IsValid}
use component_model.Instance.Handles.Calls.{
  Call, calls_new_own, calls_new_borrow, calls_new_borrow_scoped, calls_add_entry,
  calls_remove_entry, calls_drop_owned, calls_drop_owned_with_dtor, calls_take_own, calls_drop,
  calls_lend, calls_unlend, calls_register_dtor, calls_register_host_dtor, calls_close, step, run,
}
use component_model.Instance.Handles.Keeps.{
  Keeps, Behaves, same-Keeps, Minor-Keeps, Keeps-then, Keeps-wider, add_entry-Keeps, minted-Keeps,
  drained-IsValid,
}

-- How many indices a history issues at most.
abbrev pub indices : ℕ → List Call → ℕ
indices most [] = 0
indices most (c ∷ cs) = suc most + indices most cs

module _ (most : ℕ) (call : Callbacks) (behaves : Behaves most call) where
  run_dtor-Keeps :
      (dtor : Option ℕ) (r : ℕ) (t : HandleTable)
      → IsValid t
      → t.next + most < 2 ^ 32
      → Keeps most t (run_dtor call dtor r t).1
  unfolding run_dtor
  run_dtor-Keeps none r t v room = same-Keeps most t v
  run_dtor-Keeps (some dtor) r t v room = behaves dtor r t v room

  finish_drop-Keeps :
      (guest : Bool) (h : ℕ) (e : ResourceEntry) (r : Result ℕ (Unit {0}) × HandleTable)
      → IsValid r.1
      → Keeps 0 r.1 (finish_drop call guest h e r).1
  finish_drop-Keeps guest h e (err x, u) v = same-Keeps 0 u v
  finish_drop-Keeps guest h e (stuck, u) v = same-Keeps 0 u v
  finish_drop-Keeps guest h e (ok done, u) v = elim (Option-cases (find h u.entries)) [
    | inl gone ↦ rw gone (same-Keeps 0 u v)
    | inr (x, found) ↦ elim (Bool-cases (same_entry e (some x))) [
      | inl present ↦ rw (found, present) (Minor-Keeps 0 u v (retired h x u.num_borrows found))
      | inr other ↦ rw (found, other) (same-Keeps 0 u v)
    ]
  ]

  with_dtor-Keeps :
      (h : ℕ) (t : HandleTable)
      → IsValid t
      → t.next + most < 2 ^ 32
      → Keeps most t (drop_owned_with_dtor call h t).1
  unfolding drop_owned_with_dtor
  with_dtor-Keeps h t v room = elim (Option-cases (find h t.entries)) [
    | inl absent ↦ rw absent (same-Keeps most t v)
    | inr (resource e, found) ↦ elim (Bool-cases e.own) [
      | inl own ↦ elim (Bool-cases (e.lend_count == 0)) [
        | inl free ↦
            let after = run_dtor-Keeps (t.dtors e.type_idx) e.rep t v room in
            rw (found, own, free)
              (Keeps-wider (most + 0) most (omega arith)
                (Keeps-then most 0 after (finish_drop-Keeps _ h e _ after.valid)))
        | inr lent ↦ rw (found, own, lent) (same-Keeps most t v)
      ]
      | inr borrowed ↦ rw (found, borrowed) (same-Keeps most t v)
    ]
    | inr (TableEntry.waitable_set p, found) ↦ rw found (same-Keeps most t v)
    | inr (TableEntry.subtask p, found) ↦ rw found (same-Keeps most t v)
    | inr (TableEntry.stream_end p, found) ↦ rw found (same-Keeps most t v)
    | inr (TableEntry.future_end p, found) ↦ rw found (same-Keeps most t v)
    | inr (TableEntry.error_context p, found) ↦ rw found (same-Keeps most t v)
  ]

  close_entries-Keeps :
      (entries : List (ℕ × TableEntry)) (t : HandleTable)
      → IsValid t
      → t.closed ≡ true
      → t.next + most < 2 ^ 32
      → Keeps 0 t (close_entries call entries t).1
  unfolding close_entries
  close_entries-Keeps [] t v shut room = same-Keeps 0 t v
  close_entries-Keeps ((k, resource e) ∷ entries) t v shut room =
      elim (Bool-cases (e.own && t.host_dtors e.type_idx)) [
        | inl due ↦
            let after = run_dtor-Keeps (t.dtors e.type_idx) e.rep t v room in
            let still = after.exhausted shut in
            let rest =
              close_entries-Keeps entries _ after.valid (after.shut shut) (omega (arith, still)) in
            rw due (record {
              valid = rest.valid;
              issued = omega (arith, rest.issued, still);
              shut = λ c. rest.shut (after.shut c);
              exhausted = λ c. rest.exhausted (after.shut c) ∙ still;
            })
        | inr not_due ↦ rw not_due (close_entries-Keeps entries t v shut room)
      ]
  close_entries-Keeps ((k, TableEntry.waitable_set p) ∷ entries) t v shut room =
      close_entries-Keeps entries t v shut room
  close_entries-Keeps ((k, TableEntry.subtask p) ∷ entries) t v shut room =
      close_entries-Keeps entries t v shut room
  close_entries-Keeps ((k, TableEntry.stream_end p) ∷ entries) t v shut room =
      close_entries-Keeps entries t v shut room
  close_entries-Keeps ((k, TableEntry.future_end p) ∷ entries) t v shut room =
      close_entries-Keeps entries t v shut room
  close_entries-Keeps ((k, TableEntry.error_context p) ∷ entries) t v shut room =
      close_entries-Keeps entries t v shut room

  close-Keeps : (t : HandleTable) → IsValid t → t.next + most < 2 ^ 32 → Keeps 0 t (close call t).1
  unfolding close
  close-Keeps t v room = elim (Bool-cases t.closed) [
    | inl shut ↦
        subst (λ (r : Option ℕ × HandleTable). Keeps 0 t r.1) (sym (close_closed call t shut))
          (same-Keeps 0 t v)
    | inr is_open ↦
        let k =
          close_entries-Keeps t.entries (record t { closed = true; entries = []; free = [] })
            (drained-IsValid t v) refl room in
        rw is_open (record {
          valid = k.valid;
          issued = k.issued;
          shut = λ c. k.shut refl;
          exhausted = λ c. k.exhausted refl;
        })
  ]

  step-Keeps :
      (c : Call) (t : HandleTable)
      → IsValid t
      → t.next + suc most < 2 ^ 32
      → Keeps (suc most) t (step call c t)
  unfolding step new_own new_borrow new_borrow_scoped
  step-Keeps (calls_new_own type_idx rep) t v room =
      minted-Keeps most (fresh_entry type_idx rep true none t) t t.num_borrows (t.allocated + 1) v
        room
  step-Keeps (calls_new_borrow type_idx rep) t v room =
      minted-Keeps most (fresh_entry type_idx rep false none t) t t.num_borrows (t.allocated + 1) v
        room
  step-Keeps (calls_new_borrow_scoped type_idx rep scope) t v room =
      minted-Keeps most (fresh_entry type_idx rep false (some scope) t) t
        (update t.num_borrows scope (t.num_borrows scope + 1)) (t.allocated + 1) v room
  step-Keeps (calls_add_entry e) t v room = add_entry-Keeps most e t v room
  step-Keeps (calls_remove_entry h) t v room = Minor-Keeps (suc most) t v (remove_entry-Minor t h)
  step-Keeps (calls_drop_owned h) t v room = Minor-Keeps (suc most) t v (drop_owned-Minor t h)
  step-Keeps (calls_drop_owned_with_dtor h) t v room =
      Keeps-wider most (suc most) (omega arith) (with_dtor-Keeps h t v (omega arith))
  step-Keeps (calls_take_own type_idx h) t v room =
      Minor-Keeps (suc most) t v (take_own-Minor t type_idx h)
  step-Keeps (calls_drop type_idx h) t v room = Minor-Keeps (suc most) t v (drop-Minor t type_idx h)
  step-Keeps (calls_lend type_idx h) t v room = Minor-Keeps (suc most) t v (lend-Minor t type_idx h)
  step-Keeps (calls_unlend type_idx h) t v room =
      Minor-Keeps (suc most) t v (unlend-Minor t type_idx h)
  step-Keeps (calls_register_dtor type_idx dtor) t v room =
      Minor-Keeps (suc most) t v (register_dtor-Minor t type_idx dtor)
  step-Keeps (calls_register_host_dtor type_idx dtor) t v room =
      Minor-Keeps (suc most) t v (register_host_dtor-Minor t type_idx dtor)
  step-Keeps calls_close t v room =
      Keeps-wider 0 (suc most) (omega arith) (close-Keeps t v (omega arith))

  history-Keeps :
      (cs : List Call) (t : HandleTable)
      → IsValid t
      → t.next + indices most cs < 2 ^ 32
      → Keeps (indices most cs) t (run call cs t)
  unfolding run
  history-Keeps [] t v room = same-Keeps 0 t v
  history-Keeps (c ∷ cs) t v room =
      let k = step-Keeps c t v (omega arith) in
      Keeps-then (suc most) (indices most cs) k
        (history-Keeps cs (step call c t) k.valid (omega (arith, k.issued)))

  -- Destructors that make a history of calls each, whose own destructors are `call`.
  pub script-Behaves :
      (wide : ℕ) (script : ℕ → ℕ → List Call)
      → ((dtor r : ℕ) → indices most (script dtor r) ≤ wide)
      → Behaves wide (λ dtor r t. (ok tt, run call (script dtor r) t))
  script-Behaves wide script short dtor r t v room =
      Keeps-wider (indices most (script dtor r)) wide (short dtor r)
        (history-Keeps (script dtor r) t v (omega (arith, short dtor r)))

  -- A new table is in the invariant after any history of calls, `close` and drops with destructors
  -- included, if the destructors keep the invariant, a closed table closed, and issue `most` indices at
  -- most, and the 32-bit counter has that many numbers left: no handle is 0, every live handle has
  -- been issued, and no freed index is live or stands twice on the free list.
  pub run-IsValid :
      (cs : List Call) → 1 + indices most cs < 2 ^ 32 → IsValid (run call cs new_handle_table)
  unfolding new_handle_table
  run-IsValid cs room =
      (history-Keeps cs new_handle_table new_handle_table-IsValid (omega arith)).valid

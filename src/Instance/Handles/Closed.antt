-- ===== src/Instance/Handles/Closed.antt =====
-- internal/instance/resource.go, `close`: the table after it.
use component_model.Prelude.{
  ℕ, ◌≡◌, refl, List, [], ◌∷◌, true, false, ◌&&◌, Option, none, some, Bool-cases, inl, inr, err,
}
use component_model.Prelude.Maps.{find}
use component_model.Instance.Handles.{TableEntry, resource, HandleTable, unknown_handle, add_entry}
use component_model.Instance.Handles.Ops.{
  lookup, Callbacks, live_count, run_dtor, close_entries, close,
}

abbrev pub IsClosed : HandleTable → Type 0
IsClosed t = (t.closed ≡ true) × (t.entries ≡ [])

pub add_entry_closed : (e : TableEntry) (u : HandleTable) → u.closed ≡ true → add_entry e u ≡ (0, u)
unfolding add_entry
add_entry_closed e u shut = rw shut refl

pub close_closed : (call : Callbacks) (t : HandleTable) → t.closed ≡ true → close call t ≡ (none, t)
unfolding close
close_closed call t shut = rw shut refl

lookup_empty :
    (type_idx h : ℕ) (u : HandleTable)
    → u.entries ≡ []
    → lookup type_idx h u ≡ err (unknown_handle h type_idx 0)
unfolding lookup find live_count
lookup_empty type_idx h u empty = rw empty refl

module _ (call : Callbacks)
    (keeps : (dtor r : ℕ) (t : HandleTable) → IsClosed t → IsClosed (call dtor r t).1) where
  run_dtor-IsClosed :
      (o : Option ℕ) (r : ℕ) (t : HandleTable) → IsClosed t → IsClosed (run_dtor call o r t).1
  unfolding run_dtor
  run_dtor-IsClosed none r t h = h
  run_dtor-IsClosed (some dtor) r t h = keeps dtor r t h

  close_entries-IsClosed :
      (entries : List (ℕ × TableEntry)) (t : HandleTable)
      → IsClosed t
      → IsClosed (close_entries call entries t).1
  unfolding close_entries
  close_entries-IsClosed [] t h = h
  close_entries-IsClosed ((k, resource e) ∷ entries) t h =
      elim (Bool-cases (e.own && t.host_dtors e.type_idx)) [
        | inl due ↦ rw due (
            close_entries-IsClosed entries (run_dtor call (t.dtors e.type_idx) e.rep t).1
              (run_dtor-IsClosed (t.dtors e.type_idx) e.rep t h))
        | inr not_due ↦ rw not_due (close_entries-IsClosed entries t h)
      ]
  close_entries-IsClosed ((k, TableEntry.waitable_set p) ∷ entries) t h =
      close_entries-IsClosed entries t h
  close_entries-IsClosed ((k, TableEntry.subtask p) ∷ entries) t h =
      close_entries-IsClosed entries t h
  close_entries-IsClosed ((k, TableEntry.stream_end p) ∷ entries) t h =
      close_entries-IsClosed entries t h
  close_entries-IsClosed ((k, TableEntry.future_end p) ∷ entries) t h =
      close_entries-IsClosed entries t h
  close_entries-IsClosed ((k, TableEntry.error_context p) ∷ entries) t h =
      close_entries-IsClosed entries t h

  -- If the destructors leave a closed empty table closed and empty, then closing an open table ends
  -- in a closed empty table, whether or not a destructor fails: closing it again does nothing,
  -- adding an entry answers 0 and does nothing, and every handle is unknown.
  pub close-IsClosed :
      (t : HandleTable)
      → t.closed ≡ false
      → let u = (close call t).1 in
        IsClosed u
        × (close call u ≡ (none, u))
        × ((e : TableEntry) → add_entry e u ≡ (0, u))
        × ((type_idx h : ℕ) → lookup type_idx h u ≡ err (unknown_handle h type_idx 0))
  unfolding close
  close-IsClosed t is_open =
      let drained = record t { closed = true; entries = []; free = [] } in
      let (shut, empty) = close_entries-IsClosed t.entries drained (refl, refl) in
      rw is_open (
        (shut, empty),
        rw shut refl,
        (λ e. add_entry_closed e _ shut),
        (λ type_idx h. lookup_empty type_idx h _ empty),
      )

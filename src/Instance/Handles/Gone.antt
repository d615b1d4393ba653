-- ===== src/Instance/Handles/Gone.antt =====
-- internal/instance/resource.go: a handle that names nothing goes on naming nothing as long as no
-- call issues it.
use component_model.Prelude.{
  ◌⊎◌, ℕ, ◌≡◌, ◌≢◌, Bool, sym, refl, List, [], ◌∷◌, true, Option, none, some, ◌&&◌, arith,
  Bool-cases, Option-cases, inl, inr, Result, ok, err, stuck, ◌==◌,
}
use mathlib.Core.Path.{subst}
use component_model.Prelude.Maps.{find, find-put, find-erase}
use component_model.Instance.Handles.{
  ResourceEntry, TableEntry, resource, HandleTable, add_entry, new_own, new_borrow,
  new_borrow_scoped, remove_entry, get_entry, unknown_handle, not_live,
}
use component_model.Instance.Handles.Ops.{
  lookup, rep, is_own, take_own, drop, drop_owned, lend, unlend, live_count, Callbacks, run_dtor,
  drop_owned_with_dtor, close_entries, close, same_entry, finish_drop,
}
use component_model.Instance.Handles.Closed.{add_entry_closed, close_closed}
use component_model.Instance.Handles.Moves.{
  Minor, untouched, retired, rewritten, configured, take_own-Minor, drop_owned-Minor, drop-Minor,
  lend-Minor, unlend-Minor, remove_entry-Minor, register_dtor-Minor, register_host_dtor-Minor,
}
use component_model.Instance.Handles.Calls.{
  Call, calls_new_own, calls_new_borrow, calls_new_borrow_scoped, calls_add_entry,
  calls_remove_entry, calls_drop_owned, calls_drop_owned_with_dtor, calls_take_own, calls_drop,
  calls_lend, calls_unlend, calls_register_dtor, calls_register_host_dtor, calls_close, step, run,
}

-- Every method that is told the handle refuses it and leaves the table as it is.
pub record IsUnknown (call : Callbacks) (h : ℕ) (u : HandleTable) : Type 0 where
  pub no_rep :
      (type_idx : ℕ)
      → rep type_idx h u ≡ err (unknown_handle h type_idx (live_count type_idx u.entries))
  pub no_owner :
      (type_idx : ℕ)
      → is_own type_idx h u ≡ err (unknown_handle h type_idx (live_count type_idx u.entries))
  pub not_taken :
      (type_idx : ℕ)
      → take_own type_idx h u ≡ (err (unknown_handle h type_idx (live_count type_idx u.entries)), u)
  pub not_dropped :
      (type_idx : ℕ)
      → drop type_idx h u ≡ (err (unknown_handle h type_idx (live_count type_idx u.entries)), u)
  pub not_lent :
      (type_idx : ℕ)
      → lend type_idx h u ≡ (err (unknown_handle h type_idx (live_count type_idx u.entries)), u)
  pub not_given_back :
      (type_idx : ℕ)
      → unlend type_idx h u ≡ (err (unknown_handle h type_idx (live_count type_idx u.entries)), u)
  pub no_owned : drop_owned h u ≡ (err (not_live h), u)
  pub no_dtor : drop_owned_with_dtor call h u ≡ (err (not_live h), u)
  pub no_entry : get_entry h u ≡ none
  pub not_removed : remove_entry h u ≡ (none, u)

lookup_absent :
    (type_idx h : ℕ) (u : HandleTable)
    → find h u.entries ≡ none
    → lookup type_idx h u ≡ err (unknown_handle h type_idx (live_count type_idx u.entries))
unfolding lookup
lookup_absent type_idx h u gone = ground arith

pub absent-IsUnknown :
    (call : Callbacks) (h : ℕ) (u : HandleTable) → find h u.entries ≡ none → IsUnknown call h u
unfolding rep is_own take_own drop lend unlend drop_owned drop_owned_with_dtor get_entry
    remove_entry
absent-IsUnknown call h u gone = record {
  no_rep = λ type_idx. rw (lookup_absent type_idx h u gone) refl;
  no_owner = λ type_idx. rw (lookup_absent type_idx h u gone) refl;
  not_taken = λ type_idx. rw (lookup_absent type_idx h u gone) refl;
  not_dropped = λ type_idx. rw (lookup_absent type_idx h u gone) refl;
  not_lent = λ type_idx. rw (lookup_absent type_idx h u gone) refl;
  not_given_back = λ type_idx. rw (lookup_absent type_idx h u gone) refl;
  no_owned = rw gone refl;
  no_dtor = rw gone refl;
  no_entry = gone;
  not_removed = rw (remove_entry, gone) refl;
}

-- No call issues the handle. What a destructor issues is said of the destructors.
abbrev pub Spares : ℕ → Call → HandleTable → Type 0
Spares h (calls_new_own type_idx r) t = (new_own type_idx r t).0 ≢ h
Spares h (calls_new_borrow type_idx r) t = (new_borrow type_idx r t).0 ≢ h
Spares h (calls_new_borrow_scoped type_idx r scope) t = (new_borrow_scoped type_idx r scope t).0 ≢ h
Spares h (calls_add_entry e) t = (add_entry e t).0 ≢ h
Spares h c t = Unit {0}

abbrev pub SparesAll : Callbacks → ℕ → List Call → HandleTable → Type 0
SparesAll call h [] t = Unit {0}
SparesAll call h (c ∷ cs) t = Spares h c t × SparesAll call h cs (step call c t)

abbrev pub IsAbsent : ℕ → HandleTable → Type 0
IsAbsent h t = find h t.entries ≡ none

pub Minor-IsAbsent :
    (h : ℕ) (t : HandleTable) {u : HandleTable} → Minor t u → IsAbsent h t → IsAbsent h u
Minor-IsAbsent h t untouched gone = gone
Minor-IsAbsent h t (retired k e borrows found) gone = ground (arith, find-erase k h t.entries)
Minor-IsAbsent h t (rewritten k e f found) gone = ground (arith, find-put k h f t.entries)
Minor-IsAbsent h t (configured dtors host_dtors) gone = gone

free_cases : (hs : List ℕ) → (hs ≡ []) ⊎ ((k : ℕ) × (rest : List ℕ) × (hs ≡ k ∷ rest))
free_cases [] = inl refl
free_cases (k ∷ rest) = inr (k, rest, refl)

add_entry-IsAbsent :
    (h : ℕ) (e : TableEntry) (t : HandleTable)
    → IsAbsent h t
    → (add_entry e t).0 ≢ h
    → IsAbsent h (add_entry e t).1
unfolding add_entry
add_entry-IsAbsent h e t gone other = elim (Bool-cases t.closed) [
  | inl shut ↦
      subst (λ (r : ℕ × HandleTable). IsAbsent h r.1) (sym (add_entry_closed e t shut)) gone
  | inr is_open ↦ elim (free_cases t.free) [
    | inl empty ↦ ground (arith, find-put t.next h e t.entries)
    | inr (k, rest, reused) ↦ ground (arith, find-put k h e t.entries)
  ]
]

module _ (call : Callbacks) (h : ℕ)
    (silent : (dtor r : ℕ) (t : HandleTable)
      → find h t.entries ≡ none
      → find h (call dtor r t).1.entries ≡ none) where
  run_dtor-IsAbsent :
      (dtor : Option ℕ) (r : ℕ) (t : HandleTable)
      → IsAbsent h t
      → IsAbsent h (run_dtor call dtor r t).1
  unfolding run_dtor
  run_dtor-IsAbsent none r t gone = gone
  run_dtor-IsAbsent (some dtor) r t gone = silent dtor r t gone

  finish_drop-IsAbsent :
      (guest : Bool) (k : ℕ) (e : ResourceEntry) (r : Result ℕ (Unit {0}) × HandleTable)
      → IsAbsent h r.1
      → IsAbsent h (finish_drop call guest k e r).1
  finish_drop-IsAbsent guest k e (err x, u) gone = gone
  finish_drop-IsAbsent guest k e (stuck, u) gone = gone
  finish_drop-IsAbsent guest k e (ok done, u) gone =
      elim (Bool-cases (same_entry e (find k u.entries))) [
        | inl present ↦ rw present (ground (arith, find-erase k h u.entries))
        | inr other ↦ rw other gone
      ]

  with_dtor-IsAbsent :
      (k : ℕ) (t : HandleTable) → IsAbsent h t → IsAbsent h (drop_owned_with_dtor call k t).1
  unfolding drop_owned_with_dtor
  with_dtor-IsAbsent k t gone = elim (Option-cases (find k t.entries)) [
    | inl absent ↦ rw absent gone
    | inr (resource e, found) ↦ elim (Bool-cases e.own) [
      | inl own ↦ elim (Bool-cases (e.lend_count == 0)) [
        | inl free ↦
            rw (found, own, free)
              (finish_drop-IsAbsent _ k e _ (run_dtor-IsAbsent (t.dtors e.type_idx) e.rep t gone))
        | inr lent ↦ rw (found, own, lent) gone
      ]
      | inr borrowed ↦ rw (found, borrowed) gone
    ]
    | inr (TableEntry.waitable_set p, found) ↦ rw found gone
    | inr (TableEntry.subtask p, found) ↦ rw found gone
    | inr (TableEntry.stream_end p, found) ↦ rw found gone
    | inr (TableEntry.future_end p, found) ↦ rw found gone
    | inr (TableEntry.error_context p, found) ↦ rw found gone
  ]

  close_entries-IsAbsent :
      (entries : List (ℕ × TableEntry)) (t : HandleTable)
      → IsAbsent h t
      → IsAbsent h (close_entries call entries t).1
  unfolding close_entries
  close_entries-IsAbsent [] t gone = gone
  close_entries-IsAbsent ((k, resource e) ∷ entries) t gone =
      elim (Bool-cases (e.own && t.host_dtors e.type_idx)) [
        | inl due ↦
            rw due (
              close_entries-IsAbsent entries _
                (run_dtor-IsAbsent (t.dtors e.type_idx) e.rep t gone))
        | inr not_due ↦ rw not_due (close_entries-IsAbsent entries t gone)
      ]
  close_entries-IsAbsent ((k, TableEntry.waitable_set p) ∷ entries) t gone =
      close_entries-IsAbsent entries t gone
  close_entries-IsAbsent ((k, TableEntry.subtask p) ∷ entries) t gone =
      close_entries-IsAbsent entries t gone
  close_entries-IsAbsent ((k, TableEntry.stream_end p) ∷ entries) t gone =
      close_entries-IsAbsent entries t gone
  close_entries-IsAbsent ((k, TableEntry.future_end p) ∷ entries) t gone =
      close_entries-IsAbsent entries t gone
  close_entries-IsAbsent ((k, TableEntry.error_context p) ∷ entries) t gone =
      close_entries-IsAbsent entries t gone

  close-IsAbsent : (t : HandleTable) → IsAbsent h t → IsAbsent h (close call t).1
  unfolding close find
  close-IsAbsent t gone = elim (Bool-cases t.closed) [
    | inl shut ↦
        subst (λ (r : Option ℕ × HandleTable). IsAbsent h r.1) (sym (close_closed call t shut)) gone
    | inr is_open ↦ rw is_open (
        close_entries-IsAbsent t.entries (record t { closed = true; entries = []; free = [] }) refl)
  ]

  step-IsAbsent :
      (c : Call) (t : HandleTable) → IsAbsent h t → Spares h c t → IsAbsent h (step call c t)
  unfolding step new_own new_borrow new_borrow_scoped
  step-IsAbsent (calls_new_own type_idx r) t gone other = add_entry-IsAbsent h _ _ gone other
  step-IsAbsent (calls_new_borrow type_idx r) t gone other = add_entry-IsAbsent h _ _ gone other
  step-IsAbsent (calls_new_borrow_scoped type_idx r scope) t gone other =
      add_entry-IsAbsent h _ _ gone other
  step-IsAbsent (calls_add_entry e) t gone other = add_entry-IsAbsent h e t gone other
  step-IsAbsent (calls_remove_entry k) t gone s = Minor-IsAbsent h t (remove_entry-Minor t k) gone
  step-IsAbsent (calls_drop_owned k) t gone s = Minor-IsAbsent h t (drop_owned-Minor t k) gone
  step-IsAbsent (calls_drop_owned_with_dtor k) t gone s = with_dtor-IsAbsent k t gone
  step-IsAbsent (calls_take_own type_idx k) t gone s =
      Minor-IsAbsent h t (take_own-Minor t type_idx k) gone
  step-IsAbsent (calls_drop type_idx k) t gone s = Minor-IsAbsent h t (drop-Minor t type_idx k) gone
  step-IsAbsent (calls_lend type_idx k) t gone s = Minor-IsAbsent h t (lend-Minor t type_idx k) gone
  step-IsAbsent (calls_unlend type_idx k) t gone s =
      Minor-IsAbsent h t (unlend-Minor t type_idx k) gone
  step-IsAbsent (calls_register_dtor type_idx dtor) t gone s =
      Minor-IsAbsent h t (register_dtor-Minor t type_idx dtor) gone
  step-IsAbsent (calls_register_host_dtor type_idx dtor) t gone s =
      Minor-IsAbsent h t (register_host_dtor-Minor t type_idx dtor) gone
  step-IsAbsent calls_close t gone s = close-IsAbsent t gone

  pub run-IsUnknown :
      (cs : List Call) (t : HandleTable)
      → find h t.entries ≡ none
      → SparesAll call h cs t
      → IsUnknown call h (run call cs t)
  unfolding run
  run-IsUnknown [] t gone spares = absent-IsUnknown call h t gone
  run-IsUnknown (c ∷ cs) t gone (spared, later) =
      run-IsUnknown cs (step call c t) (step-IsAbsent c t gone spared) later

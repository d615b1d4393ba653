-- ===== src/Instance/Handles/Runs.antt =====
-- internal/instance/resource.go: runs of the handle table on small inputs.
use component_model.Prelude.{
  ℕ, ◌≡◌, refl, List, [], ◌∷◌, true, false, none, some, ◌==◌, if◌then◌else◌, Bool-cases, inl, inr,
  arith, ok, err,
}
use component_model.Prelude.Maps.{find, put, erase}
use component_model.Instance.Handles.{
  unknown_handle, TableEntry, ResourceEntry, resource, HandleTable, add_entry, new_handle_table,
  new_own, new_borrow_scoped, lent_out, dtor_failed, changed, register_host_dtor, register_dtor,
}
use component_model.Instance.Handles.Ops.{
  close, close_entries, run_dtor, lookup, take_own, drop, drop_owned, lend, unlend, Callbacks,
  drop_owned_with_dtor,
}
use component_model.Instance.Handles.Valid.{IsValid, Added, add_entry-Added}
use component_model.Instance.Handles.Calls.{
  Call, calls_new_own, calls_new_borrow_scoped, calls_drop_owned_with_dtor, calls_take_own,
  calls_drop, calls_register_host_dtor, calls_close, step, run,
}
use component_model.Instance.Handles.Keeps.{Behaves, Minor-Keeps}
use component_model.Instance.Handles.Steps.{run-IsValid, script-Behaves}
use component_model.Instance.Handles.Moves.{untouched, drop_owned-Minor}
use component_model.Instance.Handles.Gone.{IsUnknown, Minor-IsAbsent}
use component_model.Instance.Handles.Closed.{IsClosed, close-IsClosed}
use component_model.Instance.Handles.Once.{Recycled, take_own-Recycled, drop-Recycled, lend-blocks}

-- A destructor that gives its own handle up, and one that fails.
abbrev dtors : Callbacks
dtors n r t = if n == 0 then (ok tt, (drop_owned r t).1) else (err n, t)

-- Two owned handles and a borrow in the scope of task 5; handle 1 is given up.
abbrev history : List Call
history =
    calls_new_own 7 100
    ∷ calls_new_own 7 200
    ∷ calls_new_borrow_scoped 8 300 5
    ∷ calls_take_own 7 1
    ∷ []

abbrev table : HandleTable
table = run dtors history new_handle_table

table-is_open : table.closed ≡ false
unfolding run step new_own new_borrow_scoped take_own drop lend lookup add_entry new_handle_table
    find put erase
table-is_open = refl

table-free : table.free ≡ 1 ∷ []
unfolding run step new_own new_borrow_scoped take_own drop lend lookup add_entry new_handle_table
    find put erase
table-free = refl

table-borrows : table.num_borrows 5 ≡ 1
unfolding run step new_own new_borrow_scoped take_own drop lend lookup add_entry new_handle_table
    find put erase
table-borrows = refl

drop_scoped : (drop 8 3 table).0 ≡ ok tt
unfolding run step new_own new_borrow_scoped take_own drop lend lookup add_entry new_handle_table
    find put erase
drop_scoped = refl

drop_scoped-borrows : (drop 8 3 table).1.num_borrows 5 ≡ 0
unfolding run step new_own new_borrow_scoped take_own drop lend lookup add_entry new_handle_table
    find put erase
drop_scoped-borrows = refl

take_second : (take_own 7 2 table).0 ≡ ok 200
unfolding run step new_own new_borrow_scoped take_own drop lend lookup add_entry new_handle_table
    find put erase
take_second = refl

reused : (new_own 9 400 table).0 ≡ 1
unfolding run step new_own new_borrow_scoped take_own drop lend lookup add_entry new_handle_table
    find put erase
reused = refl

abbrev second : ResourceEntry
second = record {
  type_idx = 7;
  rep = 200;
  own = true;
  lend_count = 0;
  borrow_scope = none;
  address = 1;
}

table-second : find 2 table.entries ≡ some (resource second)
unfolding run step new_own new_borrow_scoped take_own drop lend lookup add_entry new_handle_table
    find put erase
table-second = refl

abbrev hosted : HandleTable
hosted = run dtors (calls_new_own 7 1 ∷ calls_register_host_dtor 7 0 ∷ []) new_handle_table

changed_meanwhile : (drop_owned_with_dtor dtors 1 hosted).0 ≡ err (changed 1)
unfolding run step new_own new_borrow_scoped take_own drop lend lookup add_entry new_handle_table
    find put erase register_host_dtor register_dtor drop_owned_with_dtor drop_owned
changed_meanwhile = refl

dtor_fails :
    drop_owned_with_dtor dtors 1 (register_host_dtor 7 3 hosted)
    ≡ (err (dtor_failed 3), register_host_dtor 7 3 hosted)
unfolding run step new_own new_borrow_scoped take_own drop lend lookup add_entry new_handle_table
    find put erase register_host_dtor register_dtor drop_owned_with_dtor drop_owned
dtor_fails = refl

dtors-Behaves : Behaves 0 dtors
dtors-Behaves n r t v room = elim (Bool-cases (n == 0)) [
  | inl drops ↦ rw drops (Minor-Keeps 0 t v (drop_owned-Minor t r))
  | inr fails ↦ rw fails (Minor-Keeps 0 t v untouched)
]

-- Destructors that use the table: each issues a handle and gives one up, with destructors `dtors`.
abbrev script : ℕ → ℕ → List Call
script n r = calls_new_own 7 n ∷ calls_drop_owned_with_dtor r ∷ []

abbrev scripted : Callbacks
scripted n r t = (ok tt, run dtors (script n r) t)

-- A host resource is dropped with its destructor, and the rest closed.
abbrev closing : List Call
closing =
    calls_new_own 7 1
    ∷ calls_register_host_dtor 7 0
    ∷ calls_new_own 7 2
    ∷ calls_drop_owned_with_dtor 2
    ∷ calls_close
    ∷ []

run-IsValid_example : IsValid (run scripted closing new_handle_table)
run-IsValid_example =
    run-IsValid 2 scripted (script-Behaves 0 dtors dtors-Behaves 2 script (λ n r. omega arith))
      closing (omega arith)

table-IsValid : IsValid table
table-IsValid = run-IsValid 0 dtors dtors-Behaves history (omega arith)

add_entry-Added_example : Added (resource second) table (add_entry (resource second) table)
unfolding run step new_own new_borrow_scoped take_own drop lend lookup add_entry new_handle_table
    find put erase
add_entry-Added_example =
    add_entry-Added (resource second) table table-IsValid table-is_open (omega arith)

-- `dtors` issues nothing.
dtors-silent :
    (h n r : ℕ) (t : HandleTable) → find h t.entries ≡ none → find h (dtors n r t).1.entries ≡ none
dtors-silent h n r t gone = elim (Bool-cases (n == 0)) [
  | inl drops ↦ rw drops (Minor-IsAbsent h t (drop_owned-Minor t r) gone)
  | inr fails ↦ rw fails gone
]

-- A later history, in which the handle is tried again.
abbrev later : ℕ → List Call
later h = calls_take_own 7 h ∷ calls_drop_owned_with_dtor 2 ∷ calls_close ∷ []

-- A later history in which handle 3 is dropped and issued again.
abbrev reissuing : List Call
reissuing = calls_drop 8 3 ∷ calls_new_own 9 500 ∷ []

reissues : (new_own 9 500 (step dtors (calls_drop 8 3) (take_own 7 2 table).1)).0 ≡ 3
unfolding run step new_own new_borrow_scoped take_own drop lend lookup add_entry new_handle_table
    find put erase
reissues = refl

take_own-Recycled_example :
    let u = (take_own 7 2 table).1 in Recycled dtors 2 u × IsUnknown dtors 2 (run dtors reissuing u)
take_own-Recycled_example =
    take_own-Recycled dtors 2 (dtors-silent 2) 7 200 table table-is_open take_second reissuing
      (tt, (rw reissues (λ same. ground arith), tt))

drop-Recycled_example :
    let u = (drop 8 3 table).1 in Recycled dtors 3 u × IsUnknown dtors 3 (run dtors (later 3) u)
drop-Recycled_example =
    drop-Recycled dtors 3 (dtors-silent 3) 8 table table-is_open drop_scoped (later 3)
      (tt, (tt, (tt, tt)))

lend-blocks_example :
    let u = (lend 7 2 table).1 in
    ((lend 7 2 table).0 ≡ ok tt)
    × (drop 7 2 u ≡ (err (lent_out 2 1), u))
    × (true ≡ true → take_own 7 2 u ≡ (err (lent_out 2 1), u))
    × (true ≡ true → drop_owned 2 u ≡ (err (lent_out 2 1), u))
    × ((unlend 7 2 u).0 ≡ ok tt)
    × ((k : ℕ) → find k (unlend 7 2 u).1.entries ≡ find k table.entries)
lend-blocks_example = lend-blocks 7 2 second table table-second refl

-- Every destructor fails.
abbrev failing : Callbacks
failing n r t = (err n, t)

first_error : (close failing (register_host_dtor 7 3 hosted)).0 ≡ some 3
unfolding close close_entries run_dtor register_host_dtor register_dtor run step new_own add_entry
    new_handle_table put erase
first_error = refl

hosted-is_open : hosted.closed ≡ false
unfolding run step new_own add_entry new_handle_table register_host_dtor register_dtor
hosted-is_open = refl

close-IsClosed_example :
    let u = (close failing hosted).1 in
    IsClosed u
    × (close failing u ≡ (none, u))
    × ((e : TableEntry) → add_entry e u ≡ (0, u))
    × ((type_idx h : ℕ) → lookup type_idx h u ≡ err (unknown_handle h type_idx 0))
close-IsClosed_example = close-IsClosed failing (λ dtor r t h. h) hosted hosted-is_open

-- ===== src/Instance/Handles.antt =====
-- internal/instance/resource.go: the table of handles of one component instance. A pointer to a
-- task, waitable set and so on is its number; the names that only error texts show are left out.
-- The mutex makes each method one step. A method answers with its result and the table after it.
pub mod Ops
pub mod Valid
pub mod Moves
pub mod Calls
pub mod Keeps
pub mod Steps
pub mod Gone
pub mod Once
pub mod Closed
pub mod Runs
use component_model.Prelude.{
  ℕ, zero, suc, ◌+◌, ◌-◌, ◌%◌, ◌^◌, List, [], ◌∷◌, Bool, true, false, Option, none, some, ◌==◌,
  if◌then◌else◌, Result, ok, err, stuck, ◌≡◌,
}
use component_model.Prelude.Maps.{find, put, erase}

pub record ResourceEntry : Type 0 where
  pub type_idx : ℕ
  pub rep : ℕ
  pub own : Bool
  pub lend_count : ℕ
  -- The task that a scoped borrow belongs to.
  pub borrow_scope : Option ℕ
  -- The identity of the pointer to this entry.
  pub address : ℕ

pub data TableEntry : Type 0 where
  resource : ResourceEntry → TableEntry
  waitable_set subtask stream_end future_end error_context : ℕ → TableEntry

-- `dtors` holds the number of a callback for each resource type. The head of `free` is the end of
-- the source's slice. `num_borrows` is the field of that name of each task, which the table
-- changes through `borrowScope`; the source has an int there, the model a number that stops at 0.
-- `allocated` counts the entries made, to tell pointers apart.
pub record HandleTable : Type 0 where
  pub entries : List (ℕ × TableEntry)
  pub next : ℕ
  pub free : List ℕ
  pub dtors : ℕ → Option ℕ
  pub host_dtors : ℕ → Bool
  pub closed : Bool
  pub num_borrows : ℕ → ℕ
  pub allocated : ℕ

pub data HandleError : Type 0 where
  -- The handle, the resource type and how many handles of that type are live.
  unknown_handle : ℕ → ℕ → ℕ → HandleError
  not_live not_a_resource not_own unscoped_borrow no_lends changed : ℕ → HandleError
  -- The handle, the type it belongs to and the type asked for.
  wrong_type : ℕ → ℕ → ℕ → HandleError
  lent_out : ℕ → ℕ → HandleError
  dtor_failed : ℕ → HandleError

unfoldable pub new_handle_table : HandleTable
new_handle_table = record {
  entries = [];
  next = 1;
  free = [];
  dtors = λ _. none;
  host_dtors = λ _. false;
  closed = false;
  num_borrows = λ _. 0;
  allocated = 0;
}

abbrev pub update {ℓ} : {A : Type ℓ} → (ℕ → A) → ℕ → A → ℕ → A
update f k v j = if j == k then v else f j

-- `addEntry`: a freed index first, the one freed last, else the next; 0 on a closed table.
unfoldable pub add_entry : TableEntry → HandleTable → ℕ × HandleTable
add_entry e t = if t.closed then (0, t) else (elim t.free [
  | h ∷ rest ↦ (h, record t { entries = put h e t.entries; free = rest })
  | [] ↦ (t.next, record t { entries = put t.next e t.entries; next = (t.next + 1) % 2 ^ 32 })
])

-- The entry that `&resourceEntry{...}` allocates.
abbrev pub fresh_entry : ℕ → ℕ → Bool → Option ℕ → HandleTable → TableEntry
fresh_entry type_idx rep own scope t = resource (record {
  type_idx = type_idx;
  rep = rep;
  own = own;
  lend_count = 0;
  borrow_scope = scope;
  address = t.allocated;
})

abbrev pub allocate : HandleTable → HandleTable
allocate t = record t { allocated = t.allocated + 1 }

unfoldable pub new_own : ℕ → ℕ → HandleTable → ℕ × HandleTable
new_own type_idx rep t = add_entry (fresh_entry type_idx rep true none t) (allocate t)

unfoldable pub new_borrow : ℕ → ℕ → HandleTable → ℕ × HandleTable
new_borrow type_idx rep t = add_entry (fresh_entry type_idx rep false none t) (allocate t)

-- The scope counts the borrow before the entry is made.
unfoldable pub new_borrow_scoped : ℕ → ℕ → ℕ → HandleTable → ℕ × HandleTable
new_borrow_scoped type_idx rep scope t =
    add_entry (fresh_entry type_idx rep false (some scope) t)
      (record (allocate t) { num_borrows = update t.num_borrows scope (t.num_borrows scope + 1) })

unfoldable pub get_entry : ℕ → HandleTable → Option TableEntry
get_entry h t = find h t.entries

-- `delete(t.entries, h); t.free = append(t.free, h)`
abbrev pub retire : ℕ → HandleTable → HandleTable
retire h t = record t { entries = erase h t.entries; free = h ∷ t.free }

-- `removeEntry`, whatever the kind of the entry.
unfoldable pub remove_entry : ℕ → HandleTable → Option TableEntry × HandleTable
remove_entry h t = elim (find h t.entries) [ none ↦ (none, t) | some e ↦ (some e, retire h t) ]

-- `registerDtor` and `registerHostDtor`.
unfoldable pub register_dtor : ℕ → ℕ → HandleTable → HandleTable
register_dtor type_idx dtor t = record t {
  dtors = update t.dtors type_idx (some dtor);
  host_dtors = update t.host_dtors type_idx false;
}

unfoldable pub register_host_dtor : ℕ → ℕ → HandleTable → HandleTable
unfolding register_dtor
register_host_dtor type_idx dtor t =
    let u = register_dtor type_idx dtor t in
    record u { host_dtors = update u.host_dtors type_idx true }

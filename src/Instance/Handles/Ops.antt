-- ===== src/Instance/Handles/Ops.antt =====
-- internal/instance/resource.go: the methods that resolve a handle.
use component_model.Prelude.{
  ℕ, suc, ◌+◌, ◌-◌, List, [], ◌∷◌, Bool, true, false, Option, none, some, ◌==◌, if◌then◌else◌,
  Result, ok, err, stuck, ◌>>=◌, ◌&&◌, not,
}
use component_model.Prelude.Maps.{find, put}
use component_model.Instance.Handles.{
  ResourceEntry, TableEntry, resource, HandleTable, HandleError, unknown_handle, not_live,
  not_a_resource, not_own, unscoped_borrow, no_lends, changed, wrong_type, lent_out, dtor_failed,
  retire, update,
}

-- Does the entry count as a live handle of the type?
abbrev is_of_type : ℕ → TableEntry → Bool
is_of_type type_idx (resource e) = e.type_idx == type_idx
is_of_type type_idx other = false

unfoldable pub live_count : ℕ → List (ℕ × TableEntry) → ℕ
live_count type_idx [] = 0
live_count type_idx ((h, e) ∷ entries) =
    let rest = live_count type_idx entries in if is_of_type type_idx e then suc rest else rest

-- The checks on an entry that was found.
abbrev pub as_type : ℕ → ℕ → TableEntry → Result HandleError ResourceEntry
as_type type_idx h (resource e) =
    if e.type_idx == type_idx then ok e else err (wrong_type h e.type_idx type_idx)
as_type type_idx h other = err (not_a_resource h)

unfoldable pub lookup : ℕ → ℕ → HandleTable → Result HandleError ResourceEntry
unfolding live_count
lookup type_idx h t = elim (find h t.entries) [
  | none ↦ err (unknown_handle h type_idx (live_count type_idx t.entries))
  | some raw ↦ as_type type_idx h raw
]

-- A failure leaves the table as it was.
abbrev pub on_entry {ℓ} :
    {A : Type ℓ}
    → Result HandleError ResourceEntry
    → HandleTable
    → (ResourceEntry → Result HandleError A × HandleTable)
    → Result HandleError A × HandleTable
on_entry (ok e) t k = k e
on_entry (err x) t k = (err x, t)
on_entry stuck t k = (stuck, t)

unfoldable pub rep : ℕ → ℕ → HandleTable → Result HandleError ℕ
unfolding lookup
rep type_idx h t = lookup type_idx h t >>= λ e. ok e.rep

unfoldable pub is_own : ℕ → ℕ → HandleTable → Result HandleError Bool
unfolding lookup
is_own type_idx h t = lookup type_idx h t >>= λ e. ok e.own

-- The end of `TakeOwn` and `DropOwned`, on the entry that was found.
abbrev pub take_entry : ℕ → ResourceEntry → HandleTable → Result HandleError ℕ × HandleTable
take_entry h e t =
    if e.own
    then (if e.lend_count == 0 then (ok e.rep, retire h t) else (err (lent_out h e.lend_count), t))
    else (err (not_own h), t)

unfoldable pub take_own : ℕ → ℕ → HandleTable → Result HandleError ℕ × HandleTable
unfolding lookup
take_own type_idx h t = on_entry (lookup type_idx h t) t λ e. take_entry h e t

-- `Drop`'s borrow arm: the scope of the call gets its loan back.
abbrev pub drop_borrow : ℕ → Option ℕ → HandleTable → Result HandleError (Unit {0}) × HandleTable
drop_borrow h none t = (err (unscoped_borrow h), t)
drop_borrow h (some scope) t = (
  ok tt,
  retire h (record t { num_borrows = update t.num_borrows scope (t.num_borrows scope - 1) }),
)

abbrev pub drop_entry :
    ℕ → ResourceEntry → HandleTable → Result HandleError (Unit {0}) × HandleTable
drop_entry h e t =
    if e.lend_count == 0
    then (if e.own then (ok tt, retire h t) else drop_borrow h e.borrow_scope t)
    else (err (lent_out h e.lend_count), t)

unfoldable pub drop : ℕ → ℕ → HandleTable → Result HandleError (Unit {0}) × HandleTable
unfolding lookup
drop type_idx h t = on_entry (lookup type_idx h t) t λ e. drop_entry h e t

-- An entry as a resource, for the methods that are not told the type.
abbrev pub as_resource : ℕ → Option TableEntry → Result HandleError ResourceEntry
as_resource h none = err (not_live h)
as_resource h (some (resource e)) = ok e
as_resource h (some other) = err (not_a_resource h)

unfoldable pub drop_owned : ℕ → HandleTable → Result HandleError ℕ × HandleTable
drop_owned h t = on_entry (as_resource h (find h t.entries)) t λ e. take_entry h e t

-- `e.lendCount++` and `e.lendCount--` change the entry in its place.
unfoldable pub lend : ℕ → ℕ → HandleTable → Result HandleError (Unit {0}) × HandleTable
unfolding lookup
lend type_idx h t = on_entry (lookup type_idx h t) t λ e. (
  ok tt,
  record t { entries = put h (resource (record e { lend_count = e.lend_count + 1 })) t.entries },
)

unfoldable pub unlend : ℕ → ℕ → HandleTable → Result HandleError (Unit {0}) × HandleTable
unfolding lookup
unlend type_idx h t = on_entry (lookup type_idx h t) t λ e.
    if e.lend_count == 0 then (err (no_lends h), t) else (
      ok tt,
      record t {
        entries = put h (resource (record e { lend_count = e.lend_count - 1 })) t.entries;
      },
    )

-- `current != raw`: the same pointer, whatever its fields hold by now.
abbrev pub same_entry : ResourceEntry → Option TableEntry → Bool
same_entry e none = false
same_entry e (some (resource f)) = f.address == e.address
same_entry e (some other) = false

abbrev pub is_some : Option ℕ → Bool
is_some none = false
is_some (some dtor) = true

-- What the destructor callback number `dtor` does with `rep`: it may fail, and it may use the table.
abbrev pub Callbacks : Type 0
Callbacks = ℕ → ℕ → HandleTable → Result ℕ (Unit {0}) × HandleTable

module _ (call : Callbacks) where
  unfoldable pub run_dtor : Option ℕ → ℕ → HandleTable → Result ℕ (Unit {0}) × HandleTable
  run_dtor none r t = (ok tt, t)
  run_dtor (some dtor) r t = call dtor r t

  -- The second half of `dropOwnedWithDtor`, after the callback; `guest` says whether it was one of
  -- the guest's.
  abbrev pub finish_drop :
      Bool
      → ℕ
      → ResourceEntry
      → Result ℕ (Unit {0}) × HandleTable
      → Result HandleError (ℕ × ℕ × Bool) × HandleTable
  finish_drop guest h e (ok done, t) =
      if same_entry e (find h t.entries)
      then (ok (e.type_idx, e.rep, guest), retire h t)
      else (err (changed h), t)
  finish_drop guest h e (err x, t) = (err (dtor_failed x), t)
  finish_drop guest h e (stuck, t) = (stuck, t)

  -- The destructor is chosen by the entry's own type, and runs before the handle is given up.
  unfoldable pub drop_owned_with_dtor :
      ℕ → HandleTable → Result HandleError (ℕ × ℕ × Bool) × HandleTable
  unfolding run_dtor
  drop_owned_with_dtor h t = on_entry (as_resource h (find h t.entries)) t λ e.
      if e.own
      then (if e.lend_count == 0
          then finish_drop (is_some (t.dtors e.type_idx) && not (t.host_dtors e.type_idx)) h e
              (run_dtor (t.dtors e.type_idx) e.rep t)
          else (err (lent_out h e.lend_count), t))
      else (err (not_own h), t)

  -- `close`'s loop over the entries, which the table no longer holds: the first error is kept.
  unfoldable pub close_entries : List (ℕ × TableEntry) → HandleTable → Option ℕ × HandleTable
  unfolding run_dtor
  close_entries [] t = (none, t)
  close_entries ((h, resource e) ∷ entries) t =
      let after : Result ℕ (Unit {0}) × HandleTable =
        if e.own && t.host_dtors e.type_idx
        then run_dtor (t.dtors e.type_idx) e.rep t
        else (ok tt, t) in
      let (later, u) = close_entries entries after.1 in
      (elim after.0 [ err x ↦ some x | _ ↦ later ], u)
  close_entries ((h, other) ∷ entries) t = close_entries entries t

  unfoldable pub close : HandleTable → Option ℕ × HandleTable
  unfolding close_entries
  close t =
      if t.closed
      then (none, t)
      else close_entries t.entries (record t { closed = true; entries = []; free = [] })

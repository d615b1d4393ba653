-- ===== src/Instance/Handles/Moves.antt =====
-- internal/instance/resource.go: what the methods that add no entry do to the table.
use component_model.Prelude.{
  ℕ, ◌+◌, ◌-◌, ◌≡◌, ◌⊎◌, Bool, Option, none, some, ◌==◌, arith, Bool-cases, inl, inr, Option-cases,
  ok, err,
}
use component_model.Prelude.Maps.{find, put}
use component_model.Instance.Handles.{
  ResourceEntry, TableEntry, resource, HandleTable, HandleError, remove_entry, register_dtor,
  register_host_dtor, retire, not_a_resource, wrong_type, unknown_handle, update,
}
use component_model.Instance.Handles.Ops.{
  lookup, take_own, drop, drop_owned, lend, unlend, take_entry, drop_borrow, live_count,
}

-- Nothing, or an entry that was live is retired, perhaps with a loan given back, or changed in its
-- place, or the destructors are others.
pub data Minor (t : HandleTable) : HandleTable → Type 0 where
  untouched : Minor t t
  retired :
      (h : ℕ) (e : TableEntry) (borrows : ℕ → ℕ)
      → find h t.entries ≡ some e
      → Minor t (retire h (record t { num_borrows = borrows }))
  rewritten :
      (h : ℕ) (e f : TableEntry)
      → find h t.entries ≡ some e
      → Minor t (record t { entries = put h f t.entries })
  configured :
      (dtors : ℕ → Option ℕ) (host_dtors : ℕ → Bool)
      → Minor t (record t { dtors = dtors; host_dtors = host_dtors })

-- What a successful `lookup` says of the table.
pub lookup_cases :
    (type_idx h : ℕ) (t : HandleTable)
    → ((e : ResourceEntry) × (find h t.entries ≡ some (resource e))
        × (e.type_idx ≡ type_idx)
        × (lookup type_idx h t ≡ ok e))
      ⊎ ((x : HandleError) × (lookup type_idx h t ≡ err x))
unfolding lookup
lookup_cases type_idx h t = elim (Option-cases (find h t.entries)) [
  | inl absent ↦ inr (unknown_handle h type_idx (live_count type_idx t.entries), ground arith)
  | inr (resource e, found) ↦ elim (Bool-cases (e.type_idx == type_idx)) [
    | inl matches ↦ inl (e, found, ground arith, ground arith)
    | inr other ↦ inr (wrong_type h e.type_idx type_idx, ground arith)
  ]
  | inr (TableEntry.waitable_set p, found) ↦ inr (not_a_resource h, ground arith)
  | inr (TableEntry.subtask p, found) ↦ inr (not_a_resource h, ground arith)
  | inr (TableEntry.stream_end p, found) ↦ inr (not_a_resource h, ground arith)
  | inr (TableEntry.future_end p, found) ↦ inr (not_a_resource h, ground arith)
  | inr (TableEntry.error_context p, found) ↦ inr (not_a_resource h, ground arith)
]

module _ (t : HandleTable) where
  take_entry-Minor :
      (h : ℕ) (e : ResourceEntry)
      → find h t.entries ≡ some (resource e)
      → Minor t (take_entry h e t).1
  take_entry-Minor h e found = elim (Bool-cases e.own) [
    | inl own ↦ elim (Bool-cases (e.lend_count == 0)) [
      | inl free ↦ rw (own, free) (retired h (resource e) t.num_borrows found)
      | inr lent ↦ rw (own, lent) untouched
    ]
    | inr borrowed ↦ rw borrowed untouched
  ]

  pub take_own-Minor : (type_idx h : ℕ) → Minor t (take_own type_idx h t).1
  unfolding take_own
  take_own-Minor type_idx h = elim (lookup_cases type_idx h t) [
    | inl (e, found, _, looked) ↦ rw looked (take_entry-Minor h e found)
    | inr (x, failed) ↦ rw failed untouched
  ]

  pub drop_owned-Minor : (h : ℕ) → Minor t (drop_owned h t).1
  unfolding drop_owned
  drop_owned-Minor h = elim (Option-cases (find h t.entries)) [
    | inl absent ↦ rw absent untouched
    | inr (resource e, found) ↦ rw found (take_entry-Minor h e found)
    | inr (TableEntry.waitable_set p, found) ↦ rw found untouched
    | inr (TableEntry.subtask p, found) ↦ rw found untouched
    | inr (TableEntry.stream_end p, found) ↦ rw found untouched
    | inr (TableEntry.future_end p, found) ↦ rw found untouched
    | inr (TableEntry.error_context p, found) ↦ rw found untouched
  ]

  drop_borrow-Minor :
      (h : ℕ) (e : ResourceEntry) (scope : Option ℕ)
      → find h t.entries ≡ some (resource e)
      → Minor t (drop_borrow h scope t).1
  drop_borrow-Minor h e none found = untouched
  drop_borrow-Minor h e (some scope) found =
      retired h (resource e) (update t.num_borrows scope (t.num_borrows scope - 1)) found

  pub drop-Minor : (type_idx h : ℕ) → Minor t (drop type_idx h t).1
  unfolding drop
  drop-Minor type_idx h = elim (lookup_cases type_idx h t) [
    | inl (e, found, _, looked) ↦ elim (Bool-cases (e.lend_count == 0)) [
      | inl free ↦ elim (Bool-cases e.own) [
        | inl own ↦ rw (looked, own, free) (retired h (resource e) t.num_borrows found)
        | inr borrowed ↦ rw (looked, borrowed, free) (drop_borrow-Minor h e e.borrow_scope found)
      ]
      | inr lent ↦ rw (looked, lent) untouched
    ]
    | inr (x, failed) ↦ rw failed untouched
  ]

  pub lend-Minor : (type_idx h : ℕ) → Minor t (lend type_idx h t).1
  unfolding lend
  lend-Minor type_idx h = elim (lookup_cases type_idx h t) [
    | inl (e, found, _, looked) ↦
        rw looked
          (rewritten h (resource e) (resource (record e { lend_count = e.lend_count + 1 })) found)
    | inr (x, failed) ↦ rw failed untouched
  ]

  pub unlend-Minor : (type_idx h : ℕ) → Minor t (unlend type_idx h t).1
  unfolding unlend
  unlend-Minor type_idx h = elim (lookup_cases type_idx h t) [
    | inl (e, found, _, looked) ↦ elim (Bool-cases (e.lend_count == 0)) [
      | inl none_lent ↦ rw (looked, none_lent) untouched
      | inr lent ↦
          rw (looked, lent)
            (rewritten h (resource e) (resource (record e { lend_count = e.lend_count - 1 })) found)
    ]
    | inr (x, failed) ↦ rw failed untouched
  ]

  pub remove_entry-Minor : (h : ℕ) → Minor t (remove_entry h t).1
  unfolding remove_entry
  remove_entry-Minor h = elim (Option-cases (find h t.entries)) [
    | inl absent ↦ rw (remove_entry, absent) untouched
    | inr (e, found) ↦ rw (remove_entry, found) (retired h e t.num_borrows found)
  ]

  pub register_dtor-Minor : (type_idx dtor : ℕ) → Minor t (register_dtor type_idx dtor t)
  unfolding register_dtor
  register_dtor-Minor type_idx dtor = configured _ _

  pub register_host_dtor-Minor : (type_idx dtor : ℕ) → Minor t (register_host_dtor type_idx dtor t)
  unfolding register_host_dtor register_dtor
  register_host_dtor-Minor type_idx dtor = configured _ _

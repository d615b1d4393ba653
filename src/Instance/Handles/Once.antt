-- ===== src/Instance/Handles/Once.antt =====
-- internal/instance/resource.go: a handle that is given up names nothing until its index is
-- issued again, and a handle that is lent out cannot be given up.
use component_model.Prelude.{
  ℕ, ◌+◌, ◌-◌, ◌≡◌, refl, List, true, false, Option, none, some, ◌==◌, arith, Bool-cases, inl, inr,
  ok, err,
}
use component_model.Prelude.Maps.{find, put, find-put, find-erase}
use component_model.Instance.Handles.{
  ResourceEntry, TableEntry, resource, HandleTable, add_entry, retire, get_entry, lent_out, update,
}
use component_model.Instance.Handles.Ops.{
  Callbacks, lookup, take_own, drop, drop_owned, lend, unlend, take_entry, drop_entry, drop_borrow,
}
use component_model.Instance.Handles.Moves.{lookup_cases}
use component_model.Instance.Handles.Calls.{Call, run}
use component_model.Instance.Handles.Gone.{IsUnknown, absent-IsUnknown, SparesAll, run-IsUnknown}
use component_model.Instance.Handles.Valid.{add_entry_reuses}

-- The handle is gone, and the next entry gets its index.
abbrev pub Recycled : Callbacks → ℕ → HandleTable → Type 0
Recycled call h u = IsUnknown call h u × ((e : TableEntry) → (add_entry e u).0 ≡ h)

module _ (call : Callbacks) (h : ℕ) where
  retire-Recycled :
      (t : HandleTable) (borrows : ℕ → ℕ)
      → t.closed ≡ false
      → Recycled call h (retire h (record t { num_borrows = borrows }))
  retire-Recycled t borrows is_open =
      let u = retire h (record t { num_borrows = borrows }) in
      (
        absent-IsUnknown call h u (ground (arith, find-erase h h t.entries)),
        λ e. rw (add_entry_reuses e u h t.free is_open refl) refl,
      )

  take_entry-Recycled :
      (r : ℕ) (e : ResourceEntry) (t : HandleTable)
      → t.closed ≡ false
      → (take_entry h e t).0 ≡ ok r
      → Recycled call h (take_entry h e t).1
  take_entry-Recycled r e t is_open done = elim (Bool-cases e.own) [
    | inl own ↦ elim (Bool-cases (e.lend_count == 0)) [
      | inl free ↦ rw (own, free) (retire-Recycled t t.num_borrows is_open)
      | inr lent ↦ absurd (ground arith)
    ]
    | inr borrowed ↦ absurd (ground arith)
  ]

  drop_borrow-Recycled :
      (scope : Option ℕ) (t : HandleTable)
      → t.closed ≡ false
      → (drop_borrow h scope t).0 ≡ ok tt
      → Recycled call h (drop_borrow h scope t).1
  drop_borrow-Recycled none t is_open done = absurd (ground arith)
  drop_borrow-Recycled (some scope) t is_open done =
      retire-Recycled t (update t.num_borrows scope (t.num_borrows scope - 1)) is_open

  drop_entry-Recycled :
      (e : ResourceEntry) (t : HandleTable)
      → t.closed ≡ false
      → (drop_entry h e t).0 ≡ ok tt
      → Recycled call h (drop_entry h e t).1
  drop_entry-Recycled e t is_open done = elim (Bool-cases (e.lend_count == 0)) [
    | inl free ↦ elim (Bool-cases e.own) [
      | inl own ↦ rw (free, own) (retire-Recycled t t.num_borrows is_open)
      | inr borrowed ↦
          rw (free, borrowed) (drop_borrow-Recycled e.borrow_scope t is_open (ground arith))
    ]
    | inr lent ↦ absurd (ground arith)
  ]

  taken-Recycled :
      (type_idx r : ℕ) (t : HandleTable)
      → t.closed ≡ false
      → (take_own type_idx h t).0 ≡ ok r
      → Recycled call h (take_own type_idx h t).1
  unfolding take_own
  taken-Recycled type_idx r t is_open done = elim (lookup_cases type_idx h t) [
    | inl (e, found, _, looked) ↦ rw looked (take_entry-Recycled r e t is_open (ground arith))
    | inr (x, failed) ↦ absurd (ground arith)
  ]

  dropped-Recycled :
      (type_idx : ℕ) (t : HandleTable)
      → t.closed ≡ false
      → (drop type_idx h t).0 ≡ ok tt
      → Recycled call h (drop type_idx h t).1
  unfolding drop
  dropped-Recycled type_idx t is_open done = elim (lookup_cases type_idx h t) [
    | inl (e, found, _, looked) ↦ rw looked (drop_entry-Recycled e t is_open (ground arith))
    | inr (x, failed) ↦ absurd (ground arith)
  ]

  module _
      (silent : (dtor r : ℕ) (t : HandleTable)
        → find h t.entries ≡ none
        → find h (call dtor r t).1.entries ≡ none) where
    later-IsUnknown :
        (cs : List Call) (u : HandleTable)
        → Recycled call h u
        → SparesAll call h cs u
        → Recycled call h u × IsUnknown call h (run call cs u)
    unfolding get_entry
    later-IsUnknown cs u (unknown, reused) spares =
        ((unknown, reused), run-IsUnknown call h silent cs u unknown.no_entry spares)

    -- After a successful `TakeOwn` on an open table, every method that is told the handle, whatever
    -- the type, refuses it and changes nothing, and the next entry that is added gets its index. And
    -- so it stays: after any later history of calls none of which issues the handle again, `close`
    -- and drops with destructors included, every method refuses the handle and changes nothing. (No
    -- destructor leaves an entry under the handle where there was none.)
    pub take_own-Recycled :
        (type_idx r : ℕ) (t : HandleTable)
        → t.closed ≡ false
        → (take_own type_idx h t).0 ≡ ok r
        → (cs : List Call) → SparesAll call h cs (take_own type_idx h t).1
        → let u = (take_own type_idx h t).1 in Recycled call h u × IsUnknown call h (run call cs u)
    take_own-Recycled type_idx r t is_open done cs spares =
        later-IsUnknown cs (take_own type_idx h t).1 (taken-Recycled type_idx r t is_open done)
          spares

    -- After a successful `Drop` on an open table, of an owned handle or of a borrow in the scope of a
    -- call, every method that is told the handle, whatever the type, refuses it and changes nothing,
    -- and the next entry that is added gets its index. And so it stays: after any later history of
    -- calls none of which issues the handle again, `close` and drops with destructors included, every
    -- method refuses the handle and changes nothing. (No destructor leaves an entry under the handle
    -- where there was none.)
    pub drop-Recycled :
        (type_idx : ℕ) (t : HandleTable)
        → t.closed ≡ false
        → (drop type_idx h t).0 ≡ ok tt
        → (cs : List Call) → SparesAll call h cs (drop type_idx h t).1
        → let u = (drop type_idx h t).1 in Recycled call h u × IsUnknown call h (run call cs u)
    drop-Recycled type_idx t is_open done cs spares =
        later-IsUnknown cs (drop type_idx h t).1 (dropped-Recycled type_idx t is_open done) spares

-- The entry with one more loan.
abbrev lent : ResourceEntry → ResourceEntry
lent e = record e { lend_count = e.lend_count + 1 }

lend_lem :
    (type_idx h : ℕ) (e : ResourceEntry) (t : HandleTable)
    → lookup type_idx h t ≡ ok e
    → lend type_idx h t ≡ (ok tt, record t { entries = put h (resource (lent e)) t.entries })
unfolding lend
lend_lem type_idx h e t looked = rw looked refl

lookup-found :
    (type_idx h : ℕ) (e : ResourceEntry) (t : HandleTable)
    → find h t.entries ≡ some (resource e)
    → e.type_idx ≡ type_idx
    → lookup type_idx h t ≡ ok e
unfolding lookup
lookup-found type_idx h e t found same = ground arith

lookup-put :
    (type_idx h : ℕ) (f : ResourceEntry) (t : HandleTable)
    → f.type_idx ≡ type_idx
    → lookup type_idx h (record t { entries = put h (resource f) t.entries }) ≡ ok f
unfolding lookup
lookup-put type_idx h f t same = ground (arith, find-put h h (resource f) t.entries)

-- While a handle is lent out, `Drop`, `TakeOwn` of an owned handle and `DropOwned` of an owned
-- handle refuse it with the number of its loans and leave the table as it is; `Unlend` takes the
-- loan back, after which every handle names what it named before `Lend`.
pub lend-blocks :
    (type_idx h : ℕ) (e : ResourceEntry) (t : HandleTable)
    → find h t.entries ≡ some (resource e)
    → e.type_idx ≡ type_idx
    → let u = (lend type_idx h t).1 in
      ((lend type_idx h t).0 ≡ ok tt)
      × (drop type_idx h u ≡ (err (lent_out h (e.lend_count + 1)), u))
      × (e.own ≡ true → take_own type_idx h u ≡ (err (lent_out h (e.lend_count + 1)), u))
      × (e.own ≡ true → drop_owned h u ≡ (err (lent_out h (e.lend_count + 1)), u))
      × ((unlend type_idx h u).0 ≡ ok tt)
      × ((k : ℕ) → find k (unlend type_idx h u).1.entries ≡ find k t.entries)
unfolding drop take_own drop_owned unlend
lend-blocks type_idx h e t found same =
    let again : find h (put h (resource (lent e)) t.entries) ≡ some (resource (lent e)) =
      ground (arith, find-put h h (resource (lent e)) t.entries) in
    let one : (e.lend_count + 1 == 0) ≡ false = ground arith in
    rw
      (
        lend_lem type_idx h e t (lookup-found type_idx h e t found same),
        lookup-put type_idx h (lent e) t same,
        again,
        one,
      )
      (
        refl,
        refl,
        (λ own. rw own refl),
        (λ own. rw own refl),
        refl,
        λ k. ground (
          arith,
          find-put h k (resource (record e { lend_count = e.lend_count + 1 - 1 }))
              (put h (resource (lent e)) t.entries),
          find-put h k (resource (lent e)) t.entries,
        ),
      )

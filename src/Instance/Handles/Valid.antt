-- ===== src/Instance/Handles/Valid.antt =====
-- internal/instance/resource.go: the indices of the handle table. Every live handle and every
-- freed index has been issued, and no freed index is live or stands twice on the free list.
use component_model.Prelude.{
  ℕ, ◌+◌, ◌^◌, ◌≤◌, ◌<◌, ◌≡◌, ◌≢◌, refl, List, [], ◌∷◌, false, none, some, All, arith, inl, inr,
  Option-cases,
}
use mathlib.Core.Path.{subst}
use component_model.Prelude.Maps.{find, put, erase, find-put, find-erase}
use component_model.Instance.Handles.{TableEntry, HandleTable, add_entry, new_handle_table, retire}

abbrev pub Distinct : List ℕ → Type 0
Distinct [] = Unit {0}
Distinct (h ∷ hs) = All (λ k. k ≢ h) hs × Distinct hs

-- An index below `next` that no entry has.
abbrev pub IsFreed : List (ℕ × TableEntry) → ℕ → ℕ → Type 0
IsFreed entries next h = (1 ≤ h) × (h < next) × (find h entries ≡ none)

pub record IsValid (t : HandleTable) : Type 0 where
  pub started : 1 ≤ t.next
  pub live : (h : ℕ) (e : TableEntry) → find h t.entries ≡ some e → (1 ≤ h) × (h < t.next)
  pub freed : All (IsFreed t.entries t.next) t.free
  pub distinct : Distinct t.free

pub new_handle_table-IsValid : IsValid new_handle_table
unfolding new_handle_table find
new_handle_table-IsValid = record {
  started = omega arith;
  live = λ h e f. cc;
  freed = tt;
  distinct = tt;
}

-- Freed indices stay freed when an entry is put at another index and the bound does not fall.
IsFreed-put :
    (h : ℕ) (e : TableEntry) (entries : List (ℕ × TableEntry)) (next later : ℕ) (hs : List ℕ)
    → next ≤ later
    → All (λ k. k ≢ h) hs
    → All (IsFreed entries next) hs
    → All (IsFreed (put h e entries) later) hs
IsFreed-put h e entries next later [] n d f = tt
IsFreed-put h e entries next later (k ∷ hs) n d f =
    (ground (arith, find-put h k e entries), IsFreed-put h e entries next later hs n d.1 f.1)

freed-ne :
    (entries : List (ℕ × TableEntry)) (next : ℕ) (hs : List ℕ)
    → All (IsFreed entries next) hs
    → All (λ k. k ≢ next) hs
freed-ne entries next [] f = tt
freed-ne entries next (k ∷ hs) f = ((λ e. omega arith), freed-ne entries next hs f.1)

-- What `addEntry` answers: a handle that was not live, at which the entry now stands.
abbrev pub Added : TableEntry → HandleTable → ℕ × HandleTable → Type 0
Added e t (h, u) =
    (1 ≤ h)
    × (find h t.entries ≡ none)
    × (find h u.entries ≡ some e)
    × ((k : ℕ) → k ≢ h → find k u.entries ≡ find k t.entries)
    × IsValid u

next-free : (t : HandleTable) → IsValid t → find t.next t.entries ≡ none
next-free t v = elim (Option-cases (find t.next t.entries)) [
  | inl e ↦ e
  | inr (e, f) ↦ absurd (omega (arith, v.live t.next e f))
]

placed :
    (e : TableEntry) (t : HandleTable) (h later : ℕ) (hs : List ℕ)
    → IsValid t
    → 1 ≤ h
    → find h t.entries ≡ none
    → h < later
    → t.next ≤ later
    → All (λ k. k ≢ h) hs
    → All (IsFreed t.entries t.next) hs
    → Distinct hs
    → Added e t (h, record t { entries = put h e t.entries; next = later; free = hs })
placed e t h later hs v one gone below grows apart f d = (
  one,
  gone,
  ground (arith, find-put h h e t.entries),
  λ k ne. ground (arith, find-put h k e t.entries),
  record {
    started = ground (arith, v.started);
    live = λ k x found. ground (arith, find-put h k e t.entries, v.live k x);
    freed = IsFreed-put h e t.entries t.next later hs grows apart f;
    distinct = d;
  },
)

pub add_entry_reuses :
    (e : TableEntry) (t : HandleTable) (h : ℕ) (rest : List ℕ)
    → t.closed ≡ false
    → t.free ≡ h ∷ rest
    → add_entry e t ≡ (h, record t { entries = put h e t.entries; next = t.next; free = rest })
unfolding add_entry
add_entry_reuses e t h rest is_open f = ground arith

add_entry_grows :
    (e : TableEntry) (t : HandleTable)
    → t.closed ≡ false
    → t.free ≡ []
    → t.next + 1 < 2 ^ 32
    → add_entry e t
      ≡ (t.next, record t { entries = put t.next e t.entries; next = t.next + 1; free = [] })
unfolding add_entry
add_entry_grows e t is_open f room = ground arith

-- On an open table in the invariant, `addEntry` answers a handle other than 0 that was not live;
-- the entry now stands there, every other handle names what it named, and the invariant holds.
-- (The hypothesis on `next` says that the 32-bit counter does not wrap.)
pub add_entry-Added :
    (e : TableEntry) (t : HandleTable)
    → IsValid t
    → t.closed ≡ false
    → t.next + 1 < 2 ^ 32
    → Added e t (add_entry e t)
add_entry-Added e t v is_open room = go t.free refl
  where
    go : (hs : List ℕ) → t.free ≡ hs → Added e t (add_entry e t)
    go [] empty = rw (add_entry_grows e t is_open empty room) (
        placed e t t.next (t.next + 1) [] v v.started (next-free t v) (omega arith) (omega arith) tt
          tt tt)
    go (h ∷ rest) one =
        let f = subst (All (IsFreed t.entries t.next)) one v.freed in
        let d = subst Distinct one v.distinct in
        rw (add_entry_reuses e t h rest is_open one)
          (placed e t h t.next rest v f.0.0 f.0.2 f.0.1 (omega arith) d.0 f.1 d.1)

-- A live handle that is retired leaves the invariant in place.
IsFreed-erase :
    (h : ℕ) (entries : List (ℕ × TableEntry)) (next : ℕ) (hs : List ℕ)
    → All (IsFreed entries next) hs
    → All (IsFreed (erase h entries) next) hs
IsFreed-erase h entries next [] f = tt
IsFreed-erase h entries next (k ∷ hs) f =
    (ground (arith, find-erase h k entries), IsFreed-erase h entries next hs f.1)

live-ne-freed :
    (h : ℕ) (e : TableEntry) (entries : List (ℕ × TableEntry)) (next : ℕ) (hs : List ℕ)
    → find h entries ≡ some e
    → All (IsFreed entries next) hs
    → All (λ k. k ≢ h) hs
live-ne-freed h e entries next [] found f = tt
live-ne-freed h e entries next (k ∷ hs) found f =
    ((λ same. ground arith), live-ne-freed h e entries next hs found f.1)

pub retire-IsValid :
    (h : ℕ) (e : TableEntry) (t : HandleTable)
    → IsValid t
    → find h t.entries ≡ some e
    → IsValid (retire h t)
retire-IsValid h e t v found = record {
  started = v.started;
  live = λ k x f. ground (arith, find-erase h k t.entries, v.live k x);
  freed = (
    ground (arith, find-erase h h t.entries, v.live h e found),
    IsFreed-erase h t.entries t.next t.free v.freed,
  );
  distinct = (live-ne-freed h e t.entries t.next t.free found v.freed, v.distinct);
}

-- Nor does a change of the entry at a live handle.
pub rewrite-IsValid :
    (h : ℕ) (e f : TableEntry) (t : HandleTable)
    → IsValid t
    → find h t.entries ≡ some e
    → IsValid (record t { entries = put h f t.entries })
rewrite-IsValid h e f t v found = record {
  started = v.started;
  live = λ k x g. ground (arith, find-put h k f t.entries, v.live k x, v.live h e found);
  freed =
      IsFreed-put h f t.entries t.next t.next t.free (omega arith)
        (live-ne-freed h e t.entries t.next t.free found v.freed) v.freed;
  distinct = v.distinct;
}

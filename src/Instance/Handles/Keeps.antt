-- ===== src/Instance/Handles/Keeps.antt =====
-- internal/instance/resource.go: what every call on a handle table keeps.
use component_model.Prelude.{
  ℕ, suc, ◌∙◌, sym, ◌+◌, ◌^◌, ◌≤◌, ◌<◌, ◌≡◌, refl, [], true, arith, Bool-cases, inl, inr,
}
use component_model.Prelude.Maps.{find}
use component_model.Instance.Handles.{TableEntry, HandleTable, add_entry}
use component_model.Instance.Handles.Ops.{Callbacks}
use component_model.Instance.Handles.Moves.{Minor, untouched, retired, rewritten, configured}
use mathlib.Core.Path.{subst}
use component_model.Instance.Handles.Closed.{add_entry_closed}
use component_model.Instance.Handles.Valid.{
  IsValid, add_entry-Added, retire-IsValid, rewrite-IsValid,
}

-- The invariant stays, `most` new indices are issued at most, and a closed table stays closed and
-- issues none.
pub record Keeps (most : ℕ) (t u : HandleTable) : Type 0 where
  pub valid : IsValid u
  pub issued : u.next ≤ t.next + most
  pub shut : t.closed ≡ true → u.closed ≡ true
  pub exhausted : t.closed ≡ true → u.next ≡ t.next

-- A destructor uses the table by the methods of the table only, and so keeps the invariant; `most`
-- bounds the indices that one run of a destructor issues.
abbrev pub Behaves : ℕ → Callbacks → Type 0
Behaves most call =
    (dtor r : ℕ) (t : HandleTable)
    → IsValid t
    → t.next + most < 2 ^ 32
    → Keeps most t (call dtor r t).1

pub same-Keeps : (most : ℕ) (t : HandleTable) → IsValid t → Keeps most t t
same-Keeps most t v = record {
  valid = v;
  issued = omega arith;
  shut = λ c. c;
  exhausted = λ c. refl;
}

pub Minor-Keeps :
    (most : ℕ) (t : HandleTable) {u : HandleTable} → IsValid t → Minor t u → Keeps most t u
Minor-Keeps most t v untouched = same-Keeps most t v
Minor-Keeps most t v (retired h e borrows found) =
    let r = retire-IsValid h e t v found in
    record {
      valid = record { started = r.started; live = r.live; freed = r.freed; distinct = r.distinct };
      issued = omega arith;
      shut = λ c. c;
      exhausted = λ c. refl;
    }
Minor-Keeps most t v (rewritten h e f found) = record {
  valid = rewrite-IsValid h e f t v found;
  issued = omega arith;
  shut = λ c. c;
  exhausted = λ c. refl;
}
Minor-Keeps most t v (configured dtors host_dtors) = record {
  valid = record { started = v.started; live = v.live; freed = v.freed; distinct = v.distinct };
  issued = omega arith;
  shut = λ c. c;
  exhausted = λ c. refl;
}

pub Keeps-then : (a b : ℕ) {t u w : HandleTable} → Keeps a t u → Keeps b u w → Keeps (a + b) t w
Keeps-then a b first second = record {
  valid = second.valid;
  issued = omega (arith, first.issued, second.issued);
  shut = λ c. second.shut (first.shut c);
  exhausted = λ c. second.exhausted (first.shut c) ∙ first.exhausted c;
}

pub Keeps-wider : (a b : ℕ) {t u : HandleTable} → a ≤ b → Keeps a t u → Keeps b t u
Keeps-wider a b less k = record {
  valid = k.valid;
  issued = omega (arith, less, k.issued);
  shut = k.shut;
  exhausted = k.exhausted;
}

pub add_entry-Keeps :
    (most : ℕ) (e : TableEntry) (t : HandleTable)
    → IsValid t
    → t.next + suc most < 2 ^ 32
    → Keeps (suc most) t (add_entry e t).1
unfolding add_entry
add_entry-Keeps most e t v room = elim (Bool-cases t.closed) [
  | inl shut ↦
      subst (λ (r : ℕ × HandleTable). Keeps (suc most) t r.1) (sym (add_entry_closed e t shut))
        (same-Keeps (suc most) t v)
  | inr is_open ↦ record {
    valid = (add_entry-Added e t v is_open (omega arith)).4;
    issued = ground arith;
    shut = λ c. absurd (ground arith);
    exhausted = λ c. absurd (ground arith);
  }
]

-- The counters of allocated entries and of borrows stand outside the invariant.
pub minted-Keeps :
    (most : ℕ) (e : TableEntry) (t : HandleTable) (borrows : ℕ → ℕ) (allocated : ℕ)
    → IsValid t
    → t.next + suc most < 2 ^ 32
    → Keeps (suc most) t (add_entry e (record t { num_borrows = borrows; allocated = allocated })).1
minted-Keeps most e t borrows allocated v room =
    let u = record t { num_borrows = borrows; allocated = allocated } in
    let w : IsValid u = record {
      started = v.started;
      live = v.live;
      freed = v.freed;
      distinct = v.distinct;
    } in
    let k = add_entry-Keeps most e u w room in
    record { valid = k.valid; issued = k.issued; shut = k.shut; exhausted = k.exhausted }

pub drained-IsValid :
    (t : HandleTable) → IsValid t → IsValid (record t { closed = true; entries = []; free = [] })
unfolding find
drained-IsValid t v = record { started = v.started; live = λ h e f. cc; freed = tt; distinct = tt }

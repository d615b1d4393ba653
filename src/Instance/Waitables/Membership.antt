-- ===== src/Instance/Waitables/Membership.antt =====
-- internal/instance/waitable.go, `join`: a waitable and the sets say the same of its membership.
use component_model.Prelude.{
  ℕ, suc, ◌+◌, ◌-◌, ◌≡◌, refl, ap, ◌∙◌, List, [], ◌∷◌, ◌++◌, Bool, true, false, ◌&&◌, Option, none,
  some, ◌==◌, if◌then◌else◌, arith, ok, err, Bool-cases, ◌⊎◌, inl, inr,
}
use component_model.Instance.Waitables.{
  Store, remove, leave, enter, join, drop_waitable, has_pending_event, panics_pending, put_waitable,
}

-- How often a waitable stands in a set.
unfoldable pub count : ℕ → List ℕ → ℕ
count v [] = 0
count v (e ∷ elems) = let rest = count v elems in if e == v then suc rest else rest

abbrev pub is_in : Option ℕ → ℕ → Bool
is_in none s = false
is_in (some r) s = r == s

-- A waitable stands once in the set it points to, and in no other.
abbrev pub IsConsistent : Store → Type 0
IsConsistent st =
    (v s : ℕ) → count v (st.sets s).elems ≡ (if is_in (st.waitables v).wset s then 1 else 0)

count-remove :
    (v w : ℕ) (elems : List ℕ)
    → count v (remove w elems) ≡ (if v == w then count v elems - 1 else count v elems)
unfolding count remove
count-remove v w [] = ground arith
count-remove v w (e ∷ elems) = ground (arith, count-remove v w elems)

pub count-append :
    (v w : ℕ) (elems : List ℕ)
    → count v (elems ++ (w ∷ [])) ≡ count v elems + (if w == v then 1 else 0)
unfolding count
count-append v w [] = ground arith
count-append v w (e ∷ elems) = ground (arith, count-append v w elems)

count-leave :
    (v w s : ℕ) (o : Option ℕ) (st : Store)
    → count v ((leave w o st).sets s).elems
      ≡ (if is_in o s && v == w then count v (st.sets s).elems - 1 else count v (st.sets s).elems)
unfolding leave
count-leave v w s none st = refl
count-leave v w s (some r) st = ground (arith, count-remove v w (st.sets r).elems)

count-enter :
    (v w s : ℕ) (o : Option ℕ) (st : Store)
    → count v ((enter w o st).sets s).elems
      ≡ count v (st.sets s).elems + (if is_in o s && w == v then 1 else 0)
unfolding enter
count-enter v w s none st = omega arith
count-enter v w s (some r) st = ground (arith, count-append v w (st.sets r).elems)

wset-leave : (w : ℕ) (o : Option ℕ) (st : Store) → (leave w o st).waitables ≡ st.waitables
unfolding leave
wset-leave w none st = refl
wset-leave w (some r) st = refl

wset-enter : (w : ℕ) (o : Option ℕ) (st : Store) → (enter w o st).waitables ≡ st.waitables
unfolding enter
wset-enter w none st = refl
wset-enter w (some r) st = refl

wset-join :
    (v w : ℕ) (o : Option ℕ) (st : Store)
    → ((join w o st).waitables v).wset ≡ (if v == w then o else (st.waitables v).wset)
unfolding join
wset-join v w o st =
    let left = leave w (st.waitables w).wset st in
    rw
      (
        wset-enter w o (put_waitable w (record (left.waitables w) { wset = o }) left),
        wset-leave w (st.waitables w).wset st,
      )
      (ground arith)

count-join :
    (v w s : ℕ) (o : Option ℕ) (st : Store)
    → count v ((join w o st).sets s).elems
      ≡ (if is_in (st.waitables w).wset s && v == w
          then count v (st.sets s).elems - 1
          else count v (st.sets s).elems)
        + (if is_in o s && w == v then 1 else 0)
unfolding join
count-join v w s o st =
    let left = leave w (st.waitables w).wset st in
    count-enter v w s o (put_waitable w (record (left.waitables w) { wset = o }) left)
    ∙ ap (λ (n : ℕ). n + (if is_in o s && w == v then 1 else 0))
        (count-leave v w s (st.waitables w).wset st)

-- From a store in which the waitables and the sets agree, `join` leads to one in which they agree,
-- the waitable points to the set it joined, or to none, and the others point where they did.
pub join-IsConsistent :
    (w : ℕ) (o : Option ℕ) (st : Store)
    → IsConsistent st
    → IsConsistent (join w o st)
      × ((v : ℕ) → ((join w o st).waitables v).wset ≡ (if v == w then o else (st.waitables v).wset))
join-IsConsistent w o st h = (
  (λ v s. ground (arith, count-join v w s o st, wset-join v w o st, h v s)),
  (λ v. wset-join v w o st),
)

-- `drop` of a waitable with no event pending succeeds from a consistent store and leads to one, in
-- which the waitable stands in no set; with an event pending it panics and changes nothing.
pub drop_waitable-IsConsistent :
    (w : ℕ) (st : Store)
    → IsConsistent st
    → ((has_pending_event w st ≡ false)
        × ((drop_waitable w st).0 ≡ ok tt)
        × IsConsistent (drop_waitable w st).1
        × ((s : ℕ) → count w ((drop_waitable w st).1.sets s).elems ≡ 0))
      ⊎ ((has_pending_event w st ≡ true) × (drop_waitable w st ≡ (err panics_pending, st)))
unfolding drop_waitable
drop_waitable-IsConsistent w st h = elim (Bool-cases (has_pending_event w st)) [
  | inl pending ↦ inr (pending, rw pending refl)
  | inr quiet ↦
      let (agrees, points) = join-IsConsistent w none st h in
      inl (
        quiet,
        rw quiet refl,
        rw quiet agrees,
        rw quiet (λ s. ground (arith, agrees w s, points w)),
      )
]

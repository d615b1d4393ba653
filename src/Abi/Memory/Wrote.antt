-- ===== src/Abi/Memory/Wrote.antt =====
-- internal/abi/memory.go: what a run of `Store` leaves behind, as a triple of the memory before, the
-- memory after and what later loads find. The allocator's contract stands here too.
use component_model.Prelude.{
  ℕ, ◌+◌, ◌^◌, ◌≤◌, ◌<◌, ◌≡◌, ◌⊎◌, inl, inr, refl, sym, ◌∙◌, arith, none, some, ok,
}
use component_model.Abi.Memory.{Memory, Realloc}

abbrev pub InRange : ℕ → ℕ → ℕ → Type 0
InRange lo hi k = (lo ≤ k) × (k < hi)

abbrev pub OutOfRange : ℕ → ℕ → ℕ → Type 0
OutOfRange lo hi k = (k < lo) ⊎ (hi ≤ k)

range-cases : (lo hi k : ℕ) → InRange lo hi k ⊎ OutOfRange lo hi k
range-cases lo hi k = grind arith

-- `live w k`: the guest holds the byte at `k` in use when its allocator is in the state `w`.
module _ (live : ℕ → ℕ → Type 0) where
  -- A new block of `n` bytes: a 32-bit pointer, to bytes that were free and are in use now. No byte
  -- in use has changed or is given away.
  abbrev pub IsBlock : Memory → Memory → ℕ → ℕ → Type 0
  IsBlock mem after q n =
      (q < 2 ^ 32)
      × ((k : ℕ) → live mem.world k → after.byte k ≡ mem.byte k)
      × ((k : ℕ) → live mem.world k → live after.world k)
      × ((k : ℕ) → InRange q (q + n) k → ¬ live mem.world k)
      × ((k : ℕ) → InRange q (q + n) k → live after.world k)

  -- The guest's side of `cabi_realloc`.
  abbrev pub Fresh : Realloc → Type 0
  Fresh none = Unit {0}
  Fresh (some call) =
      (align n : ℕ) (mem after : Memory) (q : ℕ)
      → call 0 0 align n mem ≡ ok (q, after)
      → IsBlock mem after q n

  abbrev pub Live : Memory → ℕ → ℕ → Type 0
  Live mem lo hi = (k : ℕ) → InRange lo hi k → live mem.world k

  -- Bytes in use outside the range are kept, and `Reads` holds of every memory that agrees with the
  -- one after on the range and on the blocks that were allocated meanwhile.
  pub record Wrote (before after : Memory) (lo hi : ℕ) (Reads : Memory → Type 0) : Type 0 where
    pub same_size : after.size ≡ before.size
    pub keeps : (k : ℕ) → live before.world k → OutOfRange lo hi k → after.byte k ≡ before.byte k
    pub stays_live : (k : ℕ) → live before.world k → live after.world k
    pub reads :
        (m : Memory)
        → m.size ≡ before.size
        → ((k : ℕ)
            → live after.world k
            → InRange lo hi k ⊎ (¬ live before.world k)
            → m.byte k ≡ after.byte k)
        → Reads m

  module _ {m0 m1 m2 : Memory} where
    -- Two writes one after the other, to ranges that do not meet.
    pub Wrote-then :
        {lo hi lo1 hi1 lo2 hi2 : ℕ} {R1 R2 : Memory → Type 0}
        → Live m0 lo hi
        → (lo ≤ lo1) × (hi1 ≤ hi) × (lo ≤ lo2) × (hi2 ≤ hi)
        → (hi1 ≤ lo2) ⊎ (hi2 ≤ lo1)
        → Wrote m0 m1 lo1 hi1 R1
        → Wrote m1 m2 lo2 hi2 R2
        → Wrote m0 m2 lo hi (λ m. R1 m × R2 m)
    Wrote-then {lo} {hi} {lo1} {hi1} {lo2} {hi2} {R1} {R2} here inside apart w1 w2 = record {
      same_size = w2.same_size ∙ w1.same_size;
      keeps = λ k l out. w2.keeps k (w1.stays_live k l) (grind arith) ∙ w1.keeps k l (grind arith);
      stays_live = λ k l. w2.stays_live k (w1.stays_live k l);
      reads = λ m size agree. (first m size agree, second m size agree);
    }
      where
        Agrees : Memory → Type 0
        Agrees m =
            (k : ℕ) → live m2.world k → InRange lo hi k ⊎ (¬ live m0.world k) → m.byte k ≡ m2.byte k

        outside_second : (k : ℕ) → InRange lo1 hi1 k ⊎ (¬ live m0.world k) → OutOfRange lo2 hi2 k
        outside_second k (inl r) = grind arith
        outside_second k (inr n) = elim (range-cases lo2 hi2 k) [
          | inl within ↦ absurd (n (here k (grind arith)))
          | inr out ↦ out
        ]

        first : (m : Memory) → m.size ≡ m0.size → Agrees m → R1 m
        first m size agree = w1.reads m size λ k l1 within.
            agree k (w2.stays_live k l1) (elim within [ inl r ↦ inl (grind arith) | inr n ↦ inr n ])
            ∙ w2.keeps k l1 (outside_second k within)

        second : (m : Memory) → m.size ≡ m0.size → Agrees m → R2 m
        second m size agree = w2.reads m (size ∙ sym w1.same_size) λ k l2 within.
            agree k l2 (elim within [
              | inl r ↦ inl (grind arith)
              | inr n ↦ inr (λ l0. n (w1.stays_live k l0))
            ])

    -- A block is allocated and then written.
    pub Wrote-block :
        {R : Memory → Type 0} (q n p : ℕ)
        → m1.size ≡ m0.size
        → ((k : ℕ) → live m0.world k → m1.byte k ≡ m0.byte k)
        → ((k : ℕ) → live m0.world k → live m1.world k)
        → ((k : ℕ) → InRange q (q + n) k → ¬ live m0.world k)
        → Wrote m1 m2 q (q + n) R
        → Wrote m0 m2 p p R
    Wrote-block q n p size kept stays free w = record {
      same_size = w.same_size ∙ size;
      keeps = λ k l out. w.keeps k (stays k l) (outside k l) ∙ kept k l;
      stays_live = λ k l. w.stays_live k (stays k l);
      reads = λ m size' agree. w.reads m (size' ∙ sym size) λ k l2 within.
          agree k l2 (inr (elim within [ inl r ↦ free k r | inr old ↦ λ l0. old (stays k l0) ]));
    }
      where
        outside : (k : ℕ) → live m0.world k → OutOfRange q (q + n) k
        outside k l = elim (range-cases q (q + n) k) [
          | inl within ↦ absurd (free k within l)
          | inr out ↦ out
        ]

  -- A larger range, and a weaker thing to read.
  pub Wrote-wider :
      {m0 m1 : Memory} {lo hi lo1 hi1 : ℕ} {R1 R : Memory → Type 0}
      → lo ≤ lo1
      → hi1 ≤ hi
      → ((m : Memory) → m.size ≡ m0.size → R1 m → R m)
      → Wrote m0 m1 lo1 hi1 R1
      → Wrote m0 m1 lo hi R
  Wrote-wider from to weaker w = record {
    same_size = w.same_size;
    keeps = λ k l out. w.keeps k l (grind arith);
    stays_live = w.stays_live;
    reads = λ m size agree. weaker m size (
        w.reads m size
          λ k l within. agree k l (elim within [ inl r ↦ inl (grind arith) | inr n ↦ inr n ]));
  }

  -- Nothing is written.
  pub Wrote-nothing :
      {R : Memory → Type 0} (m : Memory) (lo hi : ℕ)
      → ((later : Memory) → R later)
      → Wrote m m lo hi R
  Wrote-nothing m lo hi holds = record {
    same_size = refl;
    keeps = λ k l out. refl;
    stays_live = λ k l. l;
    reads = λ later size agree. holds later;
  }

  pub Live-after :
      {m0 m1 : Memory} {lo hi lo1 hi1 : ℕ} {R : Memory → Type 0}
      → Live m0 lo hi
      → Wrote m0 m1 lo1 hi1 R
      → Live m1 lo hi
  Live-after here w k r = w.stays_live k (here k r)

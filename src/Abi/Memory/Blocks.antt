-- ===== src/Abi/Memory/Blocks.antt =====
-- internal/abi/memory.go: bytes in a new block, and the pair of pointer and length that leads there.
use component_model.Prelude.{
  ℕ, ◌+◌, ◌%◌, ◌≤◌, ◌<◌, ◌^◌, ◌≡◌, inl, refl, ap, ◌∙◌, arith, List, none, some, not, ltb, Result,
  ok, err, stuck, length, take-length, ok-bind, ok-injective, wrap, wrap-eq-ok,
}
use mathlib.Core.Path.{subst}
use component_model.Abi.Layout.{Error, checked_add}
use component_model.Abi.Layout.Bounds.{checked_add_lt}
use component_model.Abi.Memory.{
  Memory, MemError, in_realloc, Realloc, layout, load_word, store_int, grow, reallocated, bytes_of,
  copy_bytes,
}
use component_model.Abi.Memory.Words.{copy_bytes-outside, bytes_of-copy_bytes, bytes_of-agree}
use component_model.Abi.Memory.Load.{load_pair}
use component_model.Abi.Memory.Store.{alloc_store_bytes, store_pair, length32}
use component_model.Abi.Memory.Wrote.{
  Wrote, Wrote-then, Wrote-block, Wrote-wider, Fresh, IsBlock, Live,
}
use component_model.Abi.Memory.Scalars.{check-holds, store_unsigned}

-- The layout's results among those of the memory.
pub layout-ok {ℓ} : {A : Type ℓ} (r : Result Error A) {a : A} → layout r ≡ ok a → r ≡ ok a
layout-ok (ok a) e = ap ok (ok-injective e)
layout-ok (err x) e = cc
layout-ok stuck e = cc

module _ (live : ℕ → ℕ → Type 0) where
  pub grow-Fresh :
      (realloc : Realloc) (align n : ℕ) (mem grown : Memory) (q : ℕ)
      → Fresh live realloc
      → grow realloc 0 0 align n mem ≡ ok (q, grown)
      → IsBlock live mem grown q n × (grown.size ≡ mem.size)
  unfolding grow
  grow-Fresh none align n mem grown q fresh e = cc
  grow-Fresh (some call) align n mem grown q fresh e = from (call 0 0 align n mem) refl e
    where
      from :
          (r : Result ℕ (ℕ × Memory))
          → call 0 0 align n mem ≡ r
          → reallocated mem.size r ≡ ok (q, grown)
          → IsBlock live mem grown q n × (grown.size ≡ mem.size)
      from (ok (p, after)) answer done =
          subst (λ (r : ℕ × Memory). IsBlock live mem r.1 r.0 n × (r.1.size ≡ mem.size))
            (ok-injective done) (fresh align n mem after p answer, refl)
      from (err x) answer done = cc
      from stuck answer done = cc

  pub store_pair-Wrote :
      (on_store label other : MemError → MemError) (mem : Memory) (p a b : ℕ) {after : Memory}
      → a < 2 ^ 32
      → b < 2 ^ 32
      → Live live mem p (p + 8)
      → store_pair on_store label mem p a b ≡ ok after
      → Wrote live mem after p (p + 8) (λ m. load_pair m other p ≡ ok (a, b))
  unfolding store_pair load_pair
  store_pair-Wrote on_store label other mem p a b a_small b_small here e =
      ok-bind (wrap on_store (store_int mem p a 4)) _ e λ m1 e1 rest.
        ok-bind (wrap label (layout (checked_add p 4))) _ rest λ p2 add e2.
          let next = layout-ok _ (wrap-eq-ok label _ add) in
          let (at, small) = checked_add_lt p 4 next in
          let w1 =
            store_unsigned live mem p a 4 {R = λ m. load_word m p 4 ≡ ok a} a_small (λ m l. l)
              (λ k (l, h). here k (l, omega arith)) (wrap-eq-ok on_store _ e1) in
          let w2 =
            store_unsigned live m1 p2 b 4 {R = λ m. load_word m p2 4 ≡ ok b} b_small (λ m l. l)
              (λ k (l, h). w1.stays_live k (here k (omega (arith, at), omega (arith, at))))
              (wrap-eq-ok on_store _ e2) in
          Wrote-wider live (omega arith) (omega arith) (λ m size (l1, l2). rw (l1, next, l2) refl)
            (Wrote-then live here
              (omega (arith, at), omega (arith, at), omega (arith, at), omega (arith, at))
              (inl (omega (arith, at))) w1 w2)

  copy_bytes-Wrote :
      (mem : Memory) (q : ℕ) (bs : List ℕ)
      → Live live mem q (q + length bs)
      → q + length bs ≤ mem.size
      → Wrote live mem
          (record mem { byte = copy_bytes q bs mem.byte })
          q
          (q + length bs)
          (λ m. (q + length bs ≤ m.size) × (bytes_of m.byte q (length bs) ≡ bs))
  copy_bytes-Wrote mem q bs here inside = record {
    same_size = refl;
    keeps = λ k l out. copy_bytes-outside q bs mem.byte k out;
    stays_live = λ k l. l;
    reads = λ m size agree. (
      omega (arith, size),
      bytes_of-agree (length bs) q _ _
            (λ k above under. agree k (here k (above, under)) (inl (above, under)))
          ∙ bytes_of-copy_bytes q bs mem.byte,
    );
  }

  pub alloc_store_bytes-Wrote :
      (realloc : Realloc) (mem : Memory) (p : ℕ) (bs : List ℕ) (q : ℕ) (after : Memory)
      → Fresh live realloc
      → length bs < 2 ^ 32
      → alloc_store_bytes realloc mem bs ≡ ok (q, after)
      → (q < 2 ^ 32)
        × Wrote live mem after p p
            (λ m. (q + length bs ≤ m.size) × (bytes_of m.byte q (length bs) ≡ bs))
  unfolding alloc_store_bytes length32
  alloc_store_bytes-Wrote realloc mem p bs q after fresh small e =
      let whole : length bs % 2 ^ 32 ≡ length bs = omega arith in
      let e0 = rw (whole, take-length bs) at e in
      ok-bind (wrap in_realloc (grow realloc 0 0 1 (length bs) mem)) _ e0 λ (q1, grown) g rest.
        let (block, size) =
          grow-Fresh realloc 1 (length bs) mem grown q1 fresh (wrap-eq-ok in_realloc _ g) in
        let (inside, done) = check-holds (not (ltb grown.size (q1 + length bs))) _ _ rest in
        let (pointer, kept, stays, free, now_live) = block in
        let written = copy_bytes-Wrote grown q1 bs now_live (ground arith) in
        subst
          (λ (r : ℕ × Memory).
            (r.0 < 2 ^ 32)
            × Wrote live mem r.1 p p
                (λ m. (r.0 + length bs ≤ m.size) × (bytes_of m.byte r.0 (length bs) ≡ bs)))
          (ok-injective done)
          (pointer, Wrote-block live q1 (length bs) p size kept stays free written)

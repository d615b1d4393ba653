-- ===== src/Instance/Streams/Refine.antt =====
-- internal/instance/stream.go: the rendezvous of buffers does what the channel promises.
use component_model.Prelude.{
  ℕ, ◌+◌, ◌-◌, ◌%◌, ◌^◌, ◌≤◌, ◌<◌, ◌≡◌, ◌≢◌, refl, sym, ap, ◌∙◌, arith, List, ◌++◌, true, false,
  ◌==◌, ltb, ok, length, take, drop, length-take, length-drop, drop-drop, length-append,
}
use mathlib.Core.Path.{subst}
use component_model.Abi.Value.{Value}
use component_model.Instance.Handles.{update}
use component_model.Instance.Streams.{
  HostBuffer, count32, add32, sub32, remain, read_buffer, write_buffer, copy_elements,
}

-- A source with these values to go, after those that were read.
pub record IsSource (b : HostBuffer) (vs : List Value) : Type 0 where
  pub whole : b.capacity ≡ length b.vals
  pub small : b.capacity < 2 ^ 32
  pub read_so_far : b.progress ≤ b.capacity
  pub to_go : drop b.progress b.vals ≡ vs

-- A destination that has these values and room for so many more.
pub record IsDestination (b : HostBuffer) (vs : List Value) (room : ℕ) : Type 0 where
  pub got : b.vals ≡ vs
  pub filled : b.progress ≡ length vs
  pub space : b.capacity ≡ b.progress + room
  pub small : b.capacity < 2 ^ 32

pub remain-IsDestination :
    (b : HostBuffer) (vs : List Value) (room : ℕ) → IsDestination b vs room → remain b ≡ room
unfolding remain sub32
remain-IsDestination b vs room d = omega (arith, d.space, d.small)

length-to_go :
    (b : HostBuffer) (vs : List Value) → IsSource b vs → b.progress + length vs ≡ b.capacity
length-to_go b vs src =
    let total = length-drop b.progress b.vals (omega (arith, src.whole, src.read_so_far)) in
    omega (arith, total, src.whole, ap length src.to_go)

pub remain-IsSource : (b : HostBuffer) (vs : List Value) → IsSource b vs → remain b ≡ length vs
unfolding remain sub32
remain-IsSource b vs src = omega (arith, length-to_go b vs src, src.small)

read_buffer-IsSource :
    (b : HostBuffer) (vs : List Value) (n : ℕ)
    → IsSource b vs
    → n ≤ length vs
    → (after : HostBuffer) × (read_buffer b n ≡ ok (take n vs, after)) × IsSource after (drop n vs)
unfolding read_buffer count32 add32
read_buffer-IsSource b vs n src enough =
    let total = length-to_go b vs src in
    let exact : (b.progress + n) % 2 ^ 32 ≡ b.progress + n = omega (arith, total, src.small) in
    let inside : ltb (length b.vals % 2 ^ 32) (b.progress + n) ≡ false =
      ground (arith, total, src.small, src.whole) in
    let forward : ltb (b.progress + n) b.progress ≡ false = ground arith in
    (
      record b { progress = b.progress + n },
      rw (exact, inside, forward, src.to_go) refl,
      record {
        whole = src.whole;
        small = src.small;
        read_so_far = omega (arith, total);
        to_go = sym (drop-drop b.progress n b.vals) ∙ ap (drop n) src.to_go;
      },
    )

write_buffer-IsDestination :
    (b : HostBuffer) (got vs : List Value) (room : ℕ)
    → IsDestination b got room
    → length vs ≤ room
    → (after : HostBuffer) × (write_buffer b vs ≡ ok after)
      × IsDestination after (got ++ vs) (room - length vs)
      × (after.capacity ≡ b.capacity)
unfolding write_buffer count32 add32
write_buffer-IsDestination b got vs room d fits =
    let exact : (b.progress + length vs % 2 ^ 32) % 2 ^ 32 ≡ b.progress + length vs =
      omega (arith, d.space, d.small) in
    let inside : ltb b.capacity (b.progress + length vs) ≡ false = ground (arith, d.space) in
    (
      record b { vals = b.vals ++ vs; progress = b.progress + length vs },
      rw (exact, inside) refl,
      record {
        got = ap (λ xs. xs ++ vs) d.got;
        filled = omega (arith, d.filled, length-append got vs);
        space = omega (arith, d.space);
        small = d.small;
      },
      refl,
    )

-- A copy of `n` values between two buffers that have them and have room for them.
pub copy_elements-moves :
    (dst src n room : ℕ) (buffers : ℕ → HostBuffer) (got vs : List Value)
    → dst ≢ src
    → IsDestination (buffers dst) got room
    → IsSource (buffers src) vs
    → n ≤ room
    → n ≤ length vs
    → (after : ℕ → HostBuffer) × (copy_elements dst src n buffers ≡ ok after)
      × IsDestination (after dst) (got ++ take n vs) (room - n)
      × IsSource (after src) (drop n vs)
      × ((after dst).capacity ≡ (buffers dst).capacity)
unfolding copy_elements
copy_elements-moves dst src n room buffers got vs apart d s fits enough =
    let (left, e_read, rest) = read_buffer-IsSource (buffers src) vs n s enough in
    let other : (dst == src) ≡ false = ground arith in
    let back : (src == dst) ≡ false = ground arith in
    let same : (dst == dst) ≡ true = ground arith in
    let same' : (src == src) ≡ true = ground arith in
    let count = length-take n vs enough in
    let (filled, e_write, more, kept) =
      write_buffer-IsDestination (buffers dst) got (take n vs) room d (omega (arith, count)) in
    (
      update (update buffers src left) dst filled,
      rw (e_read, other, e_write) refl,
      rw same (subst (λ k. IsDestination filled (got ++ take n vs) (room - k)) count more),
      rw (back, same') rest,
      rw same kept,
    )

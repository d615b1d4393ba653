-- ===== src/Leb128/Encode.antt =====
-- What `EncodeUint64` of internal/leb128/leb128.go writes, in plain arithmetic.
use component_model.Prelude.{
  ℕ, zero, suc, ◌+◌, ◌/◌, ◌%◌, ◌^◌, ◌≤◌, ◌<◌, ◌≡◌, List, [], ◌∷◌, ◌++◌, ltb, if◌then◌else◌, ok,
  arith, All,
}
use component_model.Prelude.Bits.{low_seven_any, set_top_bit, top_bit}
use component_model.Leb128.{IsByte, IsU64, encode_uint64_loop, encode_uint64}
use mathlib.Core.List.{append_assoc}

-- The groups of seven bits of `v`, lowest first, for `v` below 128 ^ (k + 1).
unfoldable pub groups : ℕ → ℕ → List ℕ
groups zero v = v ∷ []
groups (suc k) v =
    let later = groups k (v / 128) in if ltb v 128 then v ∷ [] else (v % 128 + 128) ∷ later

last_round :
    (k : ℕ) (buf : List ℕ) (v : ℕ) → v < 128 → encode_uint64_loop (suc k) buf v ≡ ok (buf ++ v ∷ [])
unfolding encode_uint64_loop
last_round k buf v h = ground (arith, low_seven_any v, top_bit v)

inner_round :
    (k : ℕ) (buf : List ℕ) (v : ℕ)
    → 128 ≤ v
    → encode_uint64_loop (suc k) buf v
      ≡ encode_uint64_loop k (buf ++ (v % 128 + 128) ∷ []) (v / 128)
unfolding encode_uint64_loop
inner_round k buf v h =
    ground (arith, low_seven_any v, set_top_bit (v % 128), top_bit (v % 128 + 128))

encode_loop-groups :
    (k : ℕ) (buf : List ℕ) (v : ℕ)
    → v < 128 ^ suc k
    → encode_uint64_loop (suc k) buf v ≡ ok (buf ++ groups k v)
unfolding groups
encode_loop-groups zero buf v h = last_round 0 buf v h
encode_loop-groups (suc k) buf v h = ground (
  arith,
  last_round (suc k) buf v,
  inner_round (suc k) buf v,
  encode_loop-groups k (buf ++ (v % 128 + 128) ∷ []) (v / 128) (omega arith),
  append_assoc buf ((v % 128 + 128) ∷ []) (groups k (v / 128)),
)

-- On every uint64 the loop ends within ten rounds, and writes the groups.
pub encode_uint64-groups : (v : ℕ) → IsU64 v → encode_uint64 v ≡ ok (groups 9 v)
unfolding encode_uint64
encode_uint64-groups v h = encode_loop-groups 9 [] v (omega arith)

pub groups-IsByte : (k v : ℕ) → v < 128 ^ suc k → All IsByte (groups k v)
unfolding groups
groups-IsByte zero v h = omega arith
groups-IsByte (suc k) v h = ground (arith, groups-IsByte k (v / 128) (omega arith))

-- ===== src/Leb128/RoundTrip.antt =====
-- The unsigned decoders of internal/leb128/leb128.go read back what the encoders write.
use component_model.Prelude.{
  ℕ, zero, suc, ◌+◌, ◌/◌, ◌%◌, ◌^◌, ◌≤◌, ◌<◌, ◌≡◌, refl, ◌∙◌, List, [], ◌∷◌, ◌++◌, ok, arith, All,
  some, lt-cases, inl, inr, length,
}
use component_model.Leb128.{
  IsByte, IsU32, IsU64, load_uint32, load_uint64, encode_uint32, encode_uint64,
}
use component_model.Leb128.Spelled.{spelled, spelled_end, spelled_go}
use component_model.Leb128.Encode.{groups, encode_uint64-groups, groups-IsByte}
use component_model.Leb128.Load32.{load_uint32-bounded}
use component_model.Leb128.Load64.{load_uint64-bounded}

groups_end : (k v : ℕ) → v < 128 → groups k v ≡ v ∷ []
unfolding groups
groups_end zero v h = refl
groups_end (suc k) v h = ground arith

groups_go : (k v : ℕ) → 128 ≤ v → groups (suc k) v ≡ (v % 128 + 128) ∷ groups k (v / 128)
unfolding groups
groups_go k v h = ground arith

spelled-groups :
    (k m v : ℕ) (rest : List ℕ)
    → v < 128 ^ suc k
    → v < 128 ^ suc m
    → spelled (suc m) (groups k v ++ rest) ≡ some (v, length (groups k v))
spelled-groups zero m v rest hk hm = rw (groups_end zero v hk) (spelled_end m v rest hk)
spelled-groups (suc k) zero v rest hk hm = rw (groups_end (suc k) v hm) (spelled_end zero v rest hm)
spelled-groups (suc k) (suc m) v rest hk hm = elim (lt-cases v 128) [
  | inl ends ↦ rw (groups_end (suc k) v ends) (spelled_end (suc m) v rest ends)
  | inr goes ↦
      rw
        (
          groups_go k v goes,
          spelled_go (suc m) (v % 128 + 128) (groups k (v / 128) ++ rest) (omega arith),
        )
        (rw (spelled-groups k m (v / 128) rest (omega arith) (omega arith)) (ground arith))
]

All-append : (xs ys : List ℕ) → All IsByte xs → All IsByte ys → All IsByte (xs ++ ys)
All-append [] ys hx hy = hy
All-append (x ∷ xs) ys hx hy = (hx.0, All-append xs ys hx.1 hy)

-- For every uint32 the encoder ends, and the decoder takes what it wrote, whatever bytes follow,
-- back to the number and the count of bytes written.
pub load-encode_uint32 :
    (v : ℕ) (rest : List ℕ)
    → IsU32 v
    → All IsByte rest
    → (bytes : List ℕ) × (encode_uint32 v ≡ ok bytes)
      × (load_uint32 (bytes ++ rest) ≡ ok (v, length bytes))
unfolding encode_uint32
load-encode_uint32 v rest h hr = (
  groups 9 v,
  encode_uint64-groups v (omega arith),
  load_uint32-bounded (groups 9 v ++ rest) (All-append _ rest (groups-IsByte 9 v (omega arith)) hr)
      ∙ rw (spelled-groups 9 4 v rest (omega arith) (omega arith)) (ground arith),
)

-- For every uint64 the encoder ends, and the 64-bit decoder takes what it wrote, whatever bytes
-- follow, back to the number and the count of bytes written.
pub load-encode_uint64 :
    (v : ℕ) (rest : List ℕ)
    → IsU64 v
    → All IsByte rest
    → (bytes : List ℕ) × (encode_uint64 v ≡ ok bytes)
      × (load_uint64 (bytes ++ rest) ≡ ok (v, length bytes))
load-encode_uint64 v rest h hr = (
  groups 9 v,
  encode_uint64-groups v h,
  load_uint64-bounded (groups 9 v ++ rest) (All-append _ rest (groups-IsByte 9 v (omega arith)) hr)
      ∙ rw (spelled-groups 9 9 v rest (omega arith) (omega arith)) (ground arith),
)

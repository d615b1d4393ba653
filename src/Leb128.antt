-- ===== src/Leb128.antt =====
-- internal/leb128/leb128.go: variable-length integers, seven bits a byte, lowest group first.
-- A byte slice is a list of numbers below 256, and the list that a loop holds is the part of
-- the slice from its index on. An unsigned word is its number, a signed one its bit pattern.
pub mod Signed
pub mod Reader
pub mod Spelled
pub mod Load32
pub mod Load64
pub mod Encode
pub mod RoundTrip
mod Runs
use component_model.Prelude.{
  ℕ, zero, suc, ◌+◌, ◌*◌, ◌/◌, ◌%◌, ◌^◌, ◌<◌, bit_and, bit_or, List, [], ◌∷◌, ◌++◌, ◌&&◌, ltb, ◌==◌,
  if◌then◌else◌, Result, ok, err, stuck,
}

pub data Error : Type 0 where
  eof overflow32 overflow33 overflow64 : Error
  -- An error of the reader's own, by a number that tells it from others.
  read_failed : ℕ → Error

abbrev pub max_varint_len32 : ℕ
max_varint_len32 = 5

abbrev pub max_varint_len64 : ℕ
max_varint_len64 = 10

abbrev pub IsByte : ℕ → Type 0
IsByte b = b < 256

abbrev pub IsU32 : ℕ → Type 0
IsU32 v = v < 2 ^ 32

abbrev pub IsU64 : ℕ → Type 0
IsU64 v = v < 2 ^ 64

-- `EncodeUint64`'s loop; the fuel counts the rounds, and a uint64 takes at most ten.
pub encode_uint64_loop : ℕ → List ℕ → ℕ → Result Error (List ℕ)
encode_uint64_loop zero buf value = stuck
encode_uint64_loop (suc fuel) buf value =
    let low = bit_and value 0x7f in
    let value' = value / 2 ^ 7 in
    let b = if value' == 0 then low else bit_or low 0x80 in
    let more = encode_uint64_loop fuel (buf ++ b ∷ []) value' in
    if bit_and b 0x80 == 0 then ok (buf ++ b ∷ []) else more

pub encode_uint64 : ℕ → Result Error (List ℕ)
encode_uint64 value = encode_uint64_loop max_varint_len64 [] value

-- `uint64(value)` keeps the number.
pub encode_uint32 : ℕ → Result Error (List ℕ)
encode_uint32 value = encode_uint64 value

-- `LoadUint32`'s loop: the first argument counts the rounds left of five, `i` those made.
pub load_uint32_loop : ℕ → List ℕ → ℕ → ℕ → ℕ → Result Error (ℕ × ℕ)
load_uint32_loop zero buf i s ret = err overflow32
load_uint32_loop (suc n) [] i s ret = err eof
load_uint32_loop (suc n) (b ∷ buf) i s ret =
    let ret' = bit_or ret (bit_and b 0x7f * 2 ^ s % 2 ^ 32) in
    let more = load_uint32_loop n buf (i + 1) ((s + 7) % 2 ^ 32) ret' in
    if ltb b 0x80
    then (if i == 4 && ltb 0 (bit_and b 0xf0)
        then err overflow32
        else ok (bit_or ret (b * 2 ^ s % 2 ^ 32), i + 1))
    else more

pub load_uint32 : List ℕ → Result Error (ℕ × ℕ)
load_uint32 buf = load_uint32_loop max_varint_len32 buf 0 0 0

pub load_uint64_loop : ℕ → List ℕ → ℕ → ℕ → ℕ → Result Error (ℕ × ℕ)
load_uint64_loop zero buf i s ret = err overflow64
load_uint64_loop (suc n) [] i s ret = err eof
load_uint64_loop (suc n) (b ∷ buf) i s ret =
    let ret' = bit_or ret (bit_and b 0x7f * 2 ^ s % 2 ^ 64) in
    let more = load_uint64_loop n buf (i + 1) ((s + 7) % 2 ^ 64) ret' in
    if ltb b 0x80
    then (if i == 9 && ltb 1 b then err overflow64 else ok (bit_or ret (b * 2 ^ s % 2 ^ 64), i + 1))
    else more

-- The check for an empty slice stands before the loop.
pub load_uint64 : List ℕ → Result Error (ℕ × ℕ)
load_uint64 [] = err eof
load_uint64 (b ∷ buf) = load_uint64_loop max_varint_len64 (b ∷ buf) 0 0 0

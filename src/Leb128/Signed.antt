-- ===== src/Leb128/Signed.antt =====
-- The signed half of internal/leb128/leb128.go. An int32, an int64 is its bit pattern, below
-- 2 ^ 32, 2 ^ 64: it is negative from 2 ^ 31, 2 ^ 63 on, and `~0` is the pattern of ones.
pub mod Excess
use component_model.Prelude.{
  ℕ, zero, suc, ◌+◌, ◌-◌, ◌*◌, ◌/◌, ◌%◌, ◌^◌, bit_and, bit_or, List, [], ◌∷◌, ◌++◌, Bool, true,
  false, ◌&&◌, ◌||◌, not, ltb, leb, ◌==◌, if◌then◌else◌, Result, ok, err, stuck,
}
use component_model.Leb128.{
  Error, eof, overflow32, overflow33, overflow64, max_varint_len32, max_varint_len64,
}

abbrev pub ones : ℕ → ℕ
ones w = 2 ^ w - 1

-- `x << n` in a word of `w` bits.
abbrev pub shl : ℕ → ℕ → ℕ → ℕ
shl w x n = x * 2 ^ n % 2 ^ w

-- `value >>= 7` of an int64 keeps the sign.
abbrev pub shr_seven : ℕ → ℕ
shr_seven value = value / 2 ^ 7 + (if ltb value (2 ^ 63) then 0 else 2 ^ 64 - 2 ^ 57)

-- `int64(value)` of an int32.
abbrev pub sign_extend : ℕ → ℕ
sign_extend value = if ltb value (2 ^ 31) then value else value + (2 ^ 64 - 2 ^ 32)

-- `EncodeInt64`'s loop; the fuel counts the rounds.
unfoldable pub encode_int64_loop : ℕ → List ℕ → ℕ → Result Error (List ℕ)
encode_int64_loop zero buf value = stuck
encode_int64_loop (suc fuel) buf value =
    let low = bit_and value 0x7f in
    let s = bit_and value 0x40 in
    let value' = shr_seven value in
    let goes_on = (not (value' == ones 64) || s == 0) && (not (value' == 0) || not (s == 0)) in
    let b = if goes_on then bit_or low 0x80 else low in
    let more = encode_int64_loop fuel (buf ++ b ∷ []) value' in
    if bit_and b 0x80 == 0 then ok (buf ++ b ∷ []) else more

unfoldable pub encode_int64 : ℕ → Result Error (List ℕ)
encode_int64 value = encode_int64_loop max_varint_len64 [] value

unfoldable pub encode_int32 : ℕ → Result Error (List ℕ)
encode_int32 value = encode_int64 (sign_extend value)

int32_overflow_check : ℕ → ℕ → ℕ → Bool
int32_overflow_check final_byte bytes_read ret =
    if ltb max_varint_len32 bytes_read
    then true
    else (if bytes_read == max_varint_len32
        then not (bit_and final_byte 0b00110000 == (if ltb ret (2 ^ 31) then 0 else 0b00110000))
        else false)

int64_overflow_check : ℕ → ℕ → ℕ → Bool
int64_overflow_check final_byte bytes_read ret =
    if ltb max_varint_len64 bytes_read
    then true
    else (if bytes_read == max_varint_len64
        then not (bit_and final_byte 0b00111110 == (if ltb ret (2 ^ 63) then 0 else 0b00111110))
        else false)

-- The end of `DecodeInt32` and `LoadInt32`, at the byte `b` that has its top bit clear.
unfoldable pub int32_finish : ℕ → ℕ → ℕ → ℕ → Result Error (ℕ × ℕ)
unfolding int32_overflow_check
int32_finish b bytes_read shift ret =
    let ret' =
      if ltb shift 32 && not (bit_and b 0x40 == 0)
      then bit_or ret (shl 32 (ones 32) shift)
      else ret in
    if int32_overflow_check b bytes_read ret' then err overflow32 else ok (ret', bytes_read)

unfoldable pub int64_finish : ℕ → ℕ → ℕ → ℕ → Result Error (ℕ × ℕ)
unfolding int64_overflow_check
int64_finish b bytes_read shift ret =
    let ret' =
      if ltb shift 64 && bit_and b 0x40 == 0x40 then bit_or ret (shl 64 (ones 64) shift) else ret in
    if int64_overflow_check b bytes_read ret' then err overflow64 else ok (ret', bytes_read)

-- The loop has no bound of its own: it ends with the slice.
unfoldable pub load_int32_loop : List ℕ → ℕ → ℕ → ℕ → Result Error (ℕ × ℕ)
load_int32_loop [] i shift ret = err eof
load_int32_loop (b ∷ buf) i shift ret =
    let ret' = bit_or ret (shl 32 (bit_and b 0x7f) shift) in
    let more = load_int32_loop buf (i + 1) (shift + 7) ret' in
    if bit_and b 0x80 == 0 then int32_finish b (i + 1) (shift + 7) ret' else more

unfoldable pub load_int32 : List ℕ → Result Error (ℕ × ℕ)
load_int32 buf = load_int32_loop buf 0 0 0

unfoldable pub load_int64_loop : List ℕ → ℕ → ℕ → ℕ → Result Error (ℕ × ℕ)
load_int64_loop [] i shift ret = err eof
load_int64_loop (b ∷ buf) i shift ret =
    let ret' = bit_or ret (shl 64 (bit_and b 0x7f) shift) in
    let more = load_int64_loop buf (i + 1) (shift + 7) ret' in
    if bit_and b 0x80 == 0 then int64_finish b (i + 1) (shift + 7) ret' else more

unfoldable pub load_int64 : List ℕ → Result Error (ℕ × ℕ)
load_int64 buf = load_int64_loop buf 0 0 0

-- `int33Mask2 = ^int33Mask` clears bit 7.
abbrev pub int33_mask2 : ℕ
int33_mask2 = ones 64 - 2 ^ 7

abbrev pub int33_mask4 : ℕ
int33_mask4 = 8589934591

-- The sign extension, the mask to 33 bits and the translation of bit 32, in `int33Finish`'s order.
int33_value : ℕ → ℕ → ℕ → ℕ
int33_value b shift ret =
    let ret' =
      if ltb shift 33 && bit_and b 0x40 == 0x40
      then bit_or ret (shl 64 int33_mask4 shift)
      else ret in
    let low = bit_and ret' int33_mask4 in
    if bit_and low (2 ^ 32) == 0 then low else (low + 2 ^ 64 - 2 ^ 33) % 2 ^ 64

unfoldable pub int33_finish : ℕ → ℕ → ℕ → ℕ → Result Error (ℕ × ℕ)
unfolding int33_value
int33_finish b shift bytes_read ret =
    let value = int33_value b shift ret in
    if ltb max_varint_len32 bytes_read
    then err overflow33
    else (if bytes_read == max_varint_len32
          && not (bit_and b 0b00100000 == (if ltb value (2 ^ 63) then 0 else 0b00100000))
        then err overflow33
        else ok (value, bytes_read))

-- `for shift < 35` makes at most five rounds, which the first argument counts down; the byte of
-- the last round is kept, 0 before the first.
unfoldable pub load_int33_loop : ℕ → List ℕ → ℕ → ℕ → ℕ → ℕ → Result Error (ℕ × ℕ)
load_int33_loop zero buf b shift i ret = int33_finish b shift i ret
load_int33_loop (suc n) [] last shift i ret = err eof
load_int33_loop (suc n) (b ∷ buf) last shift i ret =
    let ret' = bit_or ret (shl 64 (bit_and b int33_mask2) shift) in
    let more = load_int33_loop n buf b (shift + 7) (i + 1) ret' in
    if bit_and b 0x80 == 0 then int33_finish b (shift + 7) (i + 1) ret' else more

unfoldable pub load_int33_as_int64 : List ℕ → Result Error (ℕ × ℕ)
load_int33_as_int64 buf = load_int33_loop 5 buf 0 0 0 0

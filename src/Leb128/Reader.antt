-- ===== src/Leb128/Reader.antt =====
-- The decoders of internal/leb128/leb128.go that read through an io.ByteReader. The reader is a
-- parameter: a state and an operation that answers with a byte or an error and the state after.
-- Each decoder answers with Go's results and the state in which it leaves the reader.
pub mod Agree
use component_model.Prelude.{
  ℕ, zero, suc, ◌+◌, ◌*◌, ◌%◌, ◌^◌, bit_and, bit_or, ◌&&◌, ltb, ◌==◌, if◌then◌else◌, Result, ok,
  err, stuck,
}
use component_model.Leb128.{Error, overflow32, max_varint_len32}
use component_model.Leb128.Signed.{shl, int32_finish, int64_finish, int33_finish, int33_mask2}

pub record ByteReader : Type 1 where
  pub Reader : Type 0
  pub read_byte : Reader → Result Error ℕ × Reader

-- `b, err := r.ReadByte(); if err != nil { return 0, 0, err }`, and the rest on the byte.
abbrev pub on_byte {ℓ} :
    {R : Type ℓ}
    → Result Error ℕ × R
    → (ℕ → R → Result Error (ℕ × ℕ) × R)
    → Result Error (ℕ × ℕ) × R
on_byte (ok b, r) k = k b r
on_byte (err e, r) k = (err e, r)
on_byte (stuck, r) k = (stuck, r)

module _ (br : ByteReader) where
  open br use {Reader, read_byte}

  abbrev Answer : Type 0
  Answer = Result Error (ℕ × ℕ) × Reader

  decode_uint32_loop : ℕ → Reader → ℕ → ℕ → ℕ → Answer
  decode_uint32_loop zero r i s ret = (err overflow32, r)
  decode_uint32_loop (suc n) r i s ret = on_byte (read_byte r) λ b r'.
      let ret' = bit_or ret (bit_and b 0x7f * 2 ^ s % 2 ^ 32) in
      let more = decode_uint32_loop n r' (i + 1) ((s + 7) % 2 ^ 32) ret' in
      if ltb b 0x80
      then (if i == 4 && ltb 0 (bit_and b 0xf0)
          then (err overflow32, r')
          else (ok (bit_or ret (b * 2 ^ s % 2 ^ 32), i + 1), r'))
      else more

  pub decode_uint32 : Reader → Result Error (ℕ × ℕ) × Reader
  decode_uint32 r = decode_uint32_loop max_varint_len32 r 0 0 0

  -- The loop of `DecodeInt32` has no bound, so it takes fuel.
  decode_int32_loop : ℕ → Reader → ℕ → ℕ → ℕ → Answer
  decode_int32_loop zero r bytes_read shift ret = (stuck, r)
  decode_int32_loop (suc fuel) r bytes_read shift ret = on_byte (read_byte r) λ b r'.
      let ret' = bit_or ret (shl 32 (bit_and b 0x7f) shift) in
      let more = decode_int32_loop fuel r' (bytes_read + 1) (shift + 7) ret' in
      if bit_and b 0x80 == 0 then (int32_finish b (bytes_read + 1) (shift + 7) ret', r') else more

  pub decode_int32 : ℕ → Reader → Result Error (ℕ × ℕ) × Reader
  decode_int32 fuel r = decode_int32_loop fuel r 0 0 0

  decode_int64_loop : ℕ → Reader → ℕ → ℕ → ℕ → Answer
  decode_int64_loop zero r bytes_read shift ret = (stuck, r)
  decode_int64_loop (suc fuel) r bytes_read shift ret = on_byte (read_byte r) λ b r'.
      let ret' = bit_or ret (shl 64 (bit_and b 0x7f) shift) in
      let more = decode_int64_loop fuel r' (bytes_read + 1) (shift + 7) ret' in
      if bit_and b 0x80 == 0 then (int64_finish b (bytes_read + 1) (shift + 7) ret', r') else more

  pub decode_int64 : ℕ → Reader → Result Error (ℕ × ℕ) × Reader
  decode_int64 fuel r = decode_int64_loop fuel r 0 0 0

  decode_int33_loop : ℕ → Reader → ℕ → ℕ → ℕ → ℕ → Answer
  decode_int33_loop zero r b shift bytes_read ret = (int33_finish b shift bytes_read ret, r)
  decode_int33_loop (suc n) r last shift bytes_read ret = on_byte (read_byte r) λ b r'.
      let ret' = bit_or ret (shl 64 (bit_and b int33_mask2) shift) in
      let more = decode_int33_loop n r' b (shift + 7) (bytes_read + 1) ret' in
      if bit_and b 0x80 == 0 then (int33_finish b (shift + 7) (bytes_read + 1) ret', r') else more

  pub decode_int33_as_int64 : Reader → Result Error (ℕ × ℕ) × Reader
  decode_int33_as_int64 r = decode_int33_loop 5 r 0 0 0 0

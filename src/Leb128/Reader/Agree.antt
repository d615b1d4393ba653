-- ===== src/Leb128/Reader/Agree.antt =====
-- internal/leb128/leb128.go has each decoder twice, over a reader and over a slice: on a reader
-- that yields the bytes of the slice and then io.EOF the two answer the same.
use component_model.Prelude.{
  ℕ, zero, suc, ◌+◌, ◌*◌, ◌%◌, ◌^◌, ◌<◌, ◌≡◌, refl, List, [], ◌∷◌, bit_and, bit_or, ok, err, arith,
  length,
}
use component_model.Leb128.{eof, load_uint32_loop, load_uint32}
use component_model.Leb128.Signed.{
  load_int32_loop, load_int32, load_int64_loop, load_int64, load_int33_loop, load_int33_as_int64,
  shl, int33_mask2,
}
use component_model.Leb128.Reader.{
  ByteReader, decode_uint32_loop, decode_uint32, decode_int32_loop, decode_int32, decode_int64_loop,
  decode_int64, decode_int33_loop, decode_int33_as_int64,
}

module _ (br : ByteReader) where
  open br use {Reader, read_byte}

  -- What a bytes.Reader over the slice does: its bytes in order, then end of file.
  abbrev pub Delivers : List ℕ → Reader → Type 0
  Delivers [] r = (read_byte r).0 ≡ err eof
  Delivers (b ∷ buf) r = ((read_byte r).0 ≡ ok b) × Delivers buf (read_byte r).1

  uint32-agree :
      (n : ℕ) (buf : List ℕ) (r : Reader) (i s ret : ℕ)
      → Delivers buf r
      → (decode_uint32_loop br n r i s ret).0 ≡ load_uint32_loop n buf i s ret
  unfolding decode_uint32_loop load_uint32_loop
  uint32-agree zero buf r i s ret d = refl
  uint32-agree (suc n) [] r i s ret d = ground arith
  uint32-agree (suc n) (b ∷ buf) r i s ret d = ground (
    arith,
    uint32-agree n buf (read_byte r).1 (i + 1) ((s + 7) % 2 ^ 32)
        (bit_or ret (bit_and b 0x7f * 2 ^ s % 2 ^ 32)) d.1,
  )

  int32-agree :
      (fuel : ℕ) (buf : List ℕ) (r : Reader) (i s ret : ℕ)
      → Delivers buf r
      → length buf < fuel
      → (decode_int32_loop br fuel r i s ret).0 ≡ load_int32_loop buf i s ret
  unfolding decode_int32_loop load_int32_loop
  int32-agree zero buf r i s ret d h = elim h [ ]
  int32-agree (suc n) [] r i s ret d h = ground arith
  int32-agree (suc n) (b ∷ buf) r i s ret d h =
      let ret' = bit_or ret (shl 32 (bit_and b 0x7f) s) in
      ground (arith, int32-agree n buf (read_byte r).1 (i + 1) (s + 7) ret' d.1 (omega arith))

  int64-agree :
      (fuel : ℕ) (buf : List ℕ) (r : Reader) (i s ret : ℕ)
      → Delivers buf r
      → length buf < fuel
      → (decode_int64_loop br fuel r i s ret).0 ≡ load_int64_loop buf i s ret
  unfolding decode_int64_loop load_int64_loop
  int64-agree zero buf r i s ret d h = elim h [ ]
  int64-agree (suc n) [] r i s ret d h = ground arith
  int64-agree (suc n) (b ∷ buf) r i s ret d h =
      let ret' = bit_or ret (shl 64 (bit_and b 0x7f) s) in
      ground (arith, int64-agree n buf (read_byte r).1 (i + 1) (s + 7) ret' d.1 (omega arith))

  int33-agree :
      (n : ℕ) (buf : List ℕ) (r : Reader) (last s i ret : ℕ)
      → Delivers buf r
      → (decode_int33_loop br n r last s i ret).0 ≡ load_int33_loop n buf last s i ret
  unfolding decode_int33_loop load_int33_loop
  int33-agree zero buf r last s i ret d = refl
  int33-agree (suc n) [] r last s i ret d = ground arith
  int33-agree (suc n) (b ∷ buf) r last s i ret d =
      let ret' = bit_or ret (shl 64 (bit_and b int33_mask2) s) in
      ground (arith, int33-agree n buf (read_byte r).1 b (s + 7) (i + 1) ret' d.1)

  -- On a reader that yields exactly the bytes of the slice and then end of file, `DecodeUint32`,
  -- `DecodeInt32`, `DecodeInt64` and `DecodeInt33AsInt64` answer what `LoadUint32`, `LoadInt32`,
  -- `LoadInt64` and `LoadInt33AsInt64` answer on the slice, errors included; the two loops with
  -- no bound end within one round more than there are bytes.
  pub decode-load :
      (buf : List ℕ) (r : Reader) (fuel : ℕ)
      → Delivers buf r
      → length buf < fuel
      → ((decode_uint32 br r).0 ≡ load_uint32 buf)
        × ((decode_int32 br fuel r).0 ≡ load_int32 buf)
        × ((decode_int64 br fuel r).0 ≡ load_int64 buf)
        × ((decode_int33_as_int64 br r).0 ≡ load_int33_as_int64 buf)
  unfolding decode_uint32 load_uint32 decode_int32 load_int32 decode_int64 load_int64
      decode_int33_as_int64 load_int33_as_int64
  decode-load buf r fuel d h = (
    uint32-agree 5 buf r 0 0 0 d,
    int32-agree fuel buf r 0 0 0 d h,
    int64-agree fuel buf r 0 0 0 d h,
    int33-agree 5 buf r 0 0 0 0 d,
  )

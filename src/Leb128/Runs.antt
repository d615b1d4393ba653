-- ===== src/Leb128/Runs.antt =====
-- Runs of the functions of internal/leb128/leb128.go on chosen bytes, and the theorems at
-- concrete inputs.
use component_model.Prelude.{ℕ, ◌-◌, ◌≡◌, refl, List, [], ◌∷◌, ◌++◌, ok, err, arith, length}
use component_model.Leb128.{
  eof, overflow32, load_uint32, load_uint64, encode_uint32, encode_uint64, load_uint32_loop,
  encode_uint64_loop,
}
use component_model.Leb128.Spelled.{spelled}
use component_model.Leb128.Load32.{load_uint32-bounded}
use component_model.Leb128.Load64.{load_uint64-bounded}
use component_model.Leb128.RoundTrip.{load-encode_uint32, load-encode_uint64}
use component_model.Leb128.Signed.{
  load_int32, load_int32_loop, int32_finish, load_int64, load_int64_loop, int64_finish,
  encode_int64, encode_int64_loop, encode_int32, load_int33_as_int64, load_int33_loop, int33_finish,
}
use component_model.Leb128.Signed.Excess.{load_int32-excess}
use component_model.Leb128.Reader.{
  ByteReader, decode_uint32, decode_int32, decode_int64, decode_int33_as_int64,
}
use component_model.Leb128.Reader.Agree.{decode-load}

encode_624485 : encode_uint32 624485 ≡ ok (0xe5 ∷ 0x8e ∷ 0x26 ∷ [])
unfolding encode_uint32 encode_uint64 encode_uint64_loop
encode_624485 = refl

load_too_wide : load_uint32 (0xff ∷ 0xff ∷ 0xff ∷ 0xff ∷ 0x1f ∷ []) ≡ err overflow32
unfolding load_uint32 load_uint32_loop
load_too_wide = refl

load_minus_one : load_int32 (0x7f ∷ []) ≡ ok (0xffff_ffff, 1)
unfolding load_int32 load_int32_loop int32_finish
load_minus_one = refl

encode_minus_129 : encode_int32 (0xffff_ffff - 128) ≡ ok (0xff ∷ 0x7e ∷ [])
unfolding encode_int32 encode_int64 encode_int64_loop
encode_minus_129 = refl

load_minus_129 : load_int64 (0xff ∷ 0x7e ∷ []) ≡ ok (0xffff_ffff_ffff_ffff - 128, 2)
unfolding load_int64 load_int64_loop int64_finish
load_minus_129 = refl

load_int33_minus_one : load_int33_as_int64 (0x7f ∷ []) ≡ ok (0xffff_ffff_ffff_ffff, 1)
unfolding load_int33_as_int64 load_int33_loop int33_finish
load_int33_minus_one = refl

abbrev listed : ByteReader
listed = record { Reader = List ℕ; read_byte = elim [ [] ↦ (err eof, []) | b ∷ buf ↦ (ok b, buf) ] }

load_uint32-bounded_example : load_uint32 (0x80 ∷ 0x02 ∷ 9 ∷ []) ≡ ok (256, 2)
unfolding spelled
load_uint32-bounded_example = load_uint32-bounded (0x80 ∷ 0x02 ∷ 9 ∷ []) (omega arith)

load_uint64-bounded_example : load_uint64 (0x80 ∷ 0x02 ∷ 9 ∷ []) ≡ ok (256, 2)
unfolding spelled
load_uint64-bounded_example = load_uint64-bounded (0x80 ∷ 0x02 ∷ 9 ∷ []) (omega arith)

load-encode_uint32_example :
    (bytes : List ℕ) × (encode_uint32 300 ≡ ok bytes)
    × (load_uint32 (bytes ++ (7 ∷ [])) ≡ ok (300, length bytes))
load-encode_uint32_example = load-encode_uint32 300 (7 ∷ []) (omega arith) (omega arith)

load-encode_uint64_example :
    (bytes : List ℕ) × (encode_uint64 300 ≡ ok bytes)
    × (load_uint64 (bytes ++ (7 ∷ [])) ≡ ok (300, length bytes))
load-encode_uint64_example = load-encode_uint64 300 (7 ∷ []) (omega arith) (omega arith)

load_int32-excess_example :
    load_int32 (0x80 ∷ 0x80 ∷ 0x80 ∷ 0x80 ∷ 0x40 ∷ [])
    ≡ load_int32 (0x80 ∷ 0x80 ∷ 0x80 ∷ 0x80 ∷ 0x00 ∷ [])
load_int32-excess_example =
    load_int32-excess 0x80 0x80 0x80 0x80 0 [] (omega arith) (omega arith) (omega arith)
      (omega arith) (omega arith)

decode-load_example :
    ((decode_uint32 listed (0x80 ∷ 0x02 ∷ [])).0 ≡ load_uint32 (0x80 ∷ 0x02 ∷ []))
    × ((decode_int32 listed 3 (0x80 ∷ 0x02 ∷ [])).0 ≡ load_int32 (0x80 ∷ 0x02 ∷ []))
    × ((decode_int64 listed 3 (0x80 ∷ 0x02 ∷ [])).0 ≡ load_int64 (0x80 ∷ 0x02 ∷ []))
    × ((decode_int33_as_int64 listed (0x80 ∷ 0x02 ∷ [])).0 ≡ load_int33_as_int64 (0x80 ∷ 0x02 ∷ []))
decode-load_example =
    decode-load listed (0x80 ∷ 0x02 ∷ []) (0x80 ∷ 0x02 ∷ []) 3 (refl, (refl, refl)) (omega arith)

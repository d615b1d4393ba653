-- ===== src/Instance/Streams/Pack.antt =====
-- internal/instance/stream.go, `packCopyResult`: the number that a builtin answers with.
use component_model.Prelude.{bit_or, ℕ, ◌*◌, ◌/◌, ◌%◌, ◌^◌, ◌≤◌, ◌<◌, ◌≡◌, ◌≢◌, arith, ◌∙◌, ap}
use component_model.Prelude.Bits.{bit_or_disjoint}
use component_model.Instance.Streams.{
  max_buffer_len, blocked_sentinel, CopyResult, copy_completed, copy_dropped, copy_cancelled,
  copy_code, pack_copy_result,
}

copy_code-lt : (r : CopyResult) → copy_code r < 3
unfolding copy_code
copy_code-lt copy_completed = omega arith
copy_code-lt copy_dropped = omega arith
copy_code-lt copy_cancelled = omega arith

-- Up to the largest length of a buffer, the result stands in the low four bits of the number and
-- the progress above them, and the number is not the one that says that the call is blocked.
pub pack_copy_result-unpacks :
    (r : CopyResult) (progress : ℕ)
    → progress ≤ max_buffer_len
    → (pack_copy_result r progress % 16 ≡ copy_code r)
      × (pack_copy_result r progress / 16 ≡ progress)
      × (pack_copy_result r progress ≢ blocked_sentinel)
unfolding pack_copy_result
pack_copy_result-unpacks r progress small =
    let code = copy_code-lt r in
    let shifted : progress * 2 ^ 4 % 2 ^ 32 ≡ progress * 2 ^ 4 = omega arith in
    let packed =
      ap (bit_or (copy_code r)) shifted
      ∙ bit_or_disjoint 4 (copy_code r) progress (omega (arith, code)) in
    (
      omega (arith, code, packed),
      omega (arith, code, packed),
      λ same. omega (arith, code, packed, same),
    )

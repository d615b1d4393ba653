-- ===== src/Abi/Layout/Runs.antt =====
-- Layouts of chosen types, and the theorems about internal/abi/layout.go at concrete inputs.
use component_model.Prelude.{
  ℕ, ◌+◌, ◌%◌, ◌^◌, ◌≤◌, ◌<◌, ◌≡◌, refl, [], ◌∷◌, none, some, ◌⊎◌, inr, arith, ok, err, Ends,
}
use component_model.Descriptor.{PrimName, TypeDesc, TypeRef}
use component_model.Abi.Layout.{
  Resolver, type_cycle, checked_align, align_overflow, resolve_type, alignment_primitive,
  size_primitive, checked_add,
}
use component_model.Abi.Layout.Align.{
  alignment, alignment_unchecked, alignment_kind, alignment_record, measure_ref,
}
use component_model.Abi.Layout.Size.{
  size, size_unchecked, size_kind, size_record, size_option, fields_end, place,
}
use component_model.Abi.Layout.Validate.{
  validate_layout_type, validate_layout_desc, validate_kind, validate_fields, validate_ref,
  is_visiting,
}
use component_model.Abi.Layout.Bounds.{IsAlign, checked_align_least}
use component_model.Abi.Layout.Multiple.{size-multiple}
use component_model.Abi.Layout.Total.{alignment-size-Ends}
use component_model.Abi.Layout.Despecialize.{size-despecialize, despecialize}

abbrev to_name : PrimName → TypeRef
to_name p = record { primitive = some p; type_index = none }

abbrev to_index : ℕ → TypeRef
to_index i = record { primitive = none; type_index = some i }

-- record { tag: u8, at: u64 } and, at index 0 of a table, option<u16>.
abbrev stamped : TypeDesc
stamped = TypeDesc.record_desc (
    record { name = "tag"; type = to_name PrimName.u8 }
    ∷ record { name = "at"; type = to_name PrimName.u64 }
    ∷ [])

abbrev self_table : Resolver
self_table = some (λ i. some (TypeDesc.option_desc (to_index i)))

size-stamped : size (some stamped) none ≡ ok 16
unfolding size size_unchecked size_kind size_record fields_end place alignment_unchecked
    alignment_kind alignment_record measure_ref validate_layout_type validate_layout_desc
    validate_kind validate_fields validate_ref resolve_type alignment_primitive size_primitive
    checked_align checked_add
size-stamped = refl

size_cyclic : size (some (TypeDesc.option_desc (to_index 3))) self_table ≡ err (type_cycle 3)
unfolding size validate_layout_type validate_layout_desc validate_kind validate_ref is_visiting
size_cyclic = refl

checked_align_least_example :
    ((r : ℕ) × (checked_align 13 8 ≡ ok r) × (r % 8 ≡ 0) × (13 ≤ r) × (r < 13 + 8) × (r < 2 ^ 32))
    ⊎ ((checked_align 13 8 ≡ err (align_overflow 13 8))
        × ((m : ℕ) → 13 ≤ m → m % 8 ≡ 0 → 2 ^ 32 ≤ m))
checked_align_least_example = checked_align_least 13 8 (omega arith) (inr (inr (inr refl)))

size-multiple_example :
    (a : ℕ) × (alignment (some stamped) none ≡ ok a) × IsAlign a × (16 % a ≡ 0) × (16 < 2 ^ 32)
size-multiple_example = size-multiple (some stamped) none 16 size-stamped

alignment-size-Ends_example :
    Ends (alignment (some stamped) self_table) × Ends (size (some stamped) self_table)
alignment-size-Ends_example = alignment-size-Ends (some stamped) self_table

abbrev maybe_long : TypeDesc
maybe_long = TypeDesc.option_desc (to_name PrimName.u64)

size_maybe_long : size_unchecked 2 none (some maybe_long) ≡ ok 16
unfolding size_unchecked size_kind size_option alignment_unchecked alignment_kind resolve_type
    alignment_primitive size_primitive checked_align checked_add
size_maybe_long = refl

size-despecialize_example : size_unchecked 2 none (some (despecialize maybe_long)) ≡ ok 16
size-despecialize_example = size-despecialize 2 none maybe_long 16 size_maybe_long

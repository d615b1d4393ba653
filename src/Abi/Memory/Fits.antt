-- ===== src/Abi/Memory/Fits.antt =====
-- internal/abi/value.go, internal/abi/memory.go: the values that a type holds, as the comment on
-- `Value` lists them, in the ranges of their widths. Three kinds of values are left out, which a store
-- takes and a load gives in another form: a signed byte from 0 to 127, a `[]byte`, and a payload
-- other than nil for a case or an arm that has no type.
use component_model.Prelude.{
  ℕ, zero, suc, ◌-◌, ◌≤◌, ◌<◌, ◌^◌, ◌≡◌, ◌⊎◌, List, [], ◌∷◌, Option, none, some, true, false,
  Result, ok, length, get_elem?,
}
use component_model.Descriptor.{PrimName, TypeDesc, TypeRef, RecordField, VariantCase}
use component_model.Abi.Layout.{Error, Resolver, resolve_type, flags_width}
use component_model.Abi.Value.{
  Value, nil_value, bool_value, uint32_value, int32_value, uint64_value, int64_value, float32_value,
  float64_value, string_value, slice, variant_value, result_value, Values, nil, cons, count_values,
}
use component_model.Abi.Memory.{max_list_elements}
use component_model.Abi.Memory.Utf8.{utf8_valid}

-- A negative number of `bits` bits as an int32.
abbrev pub IsNegative : ℕ → ℕ → Type 0
IsNegative bits i = (2 ^ 32 - 2 ^ (bits - 1) ≤ i) × (i < 2 ^ 32)

unfoldable pub FitsPrimitive : PrimName → Value → Type 0
FitsPrimitive PrimName.bool (bool_value b) = Unit {0}
FitsPrimitive PrimName.u8 (uint32_value u) = u < 2 ^ 8
FitsPrimitive PrimName.u16 (uint32_value u) = u < 2 ^ 16
FitsPrimitive PrimName.u32 (uint32_value u) = u < 2 ^ 32
FitsPrimitive PrimName.s8 (int32_value i) = IsNegative 8 i
FitsPrimitive PrimName.s16 (int32_value i) = (i < 2 ^ 15) ⊎ IsNegative 16 i
FitsPrimitive PrimName.s32 (int32_value i) = i < 2 ^ 32
FitsPrimitive PrimName.u64 (uint64_value u) = u < 2 ^ 64
FitsPrimitive PrimName.s64 (int64_value i) = i < 2 ^ 64
FitsPrimitive PrimName.f32 (float32_value bits) = bits < 2 ^ 32
FitsPrimitive PrimName.f64 (float64_value bits) = bits < 2 ^ 64
FitsPrimitive PrimName.char (int32_value r) = Unit {0}
FitsPrimitive PrimName.string (string_value s) = (length s < 2 ^ 32) × (utf8_valid s ≡ true)
FitsPrimitive PrimName.error_context (uint32_value u) = u < 2 ^ 32
FitsPrimitive prim v = ⊥

abbrev pub FitsHandle : Value → Type 0
FitsHandle (uint32_value u) = u < 2 ^ 32
FitsHandle v = ⊥

abbrev pub FitsBytes : Result Error ℕ → ℕ → Type 0
FitsBytes (ok width) bits = bits < 256 ^ width
FitsBytes width bits = ⊥

abbrev pub FitsFlags : ℕ → Value → Type 0
FitsFlags num_labels (uint32_value bits) = FitsBytes (flags_width num_labels) bits
FitsFlags num_labels v = ⊥

abbrev pub FitsEnum : Value → Type 0
FitsEnum (uint32_value idx) = Unit {0}
FitsEnum v = ⊥

module _ (resolve : Resolver) (below : Option TypeDesc → Value → Type 0) where
  abbrev FitsResolved : Result Error (Option TypeDesc) → Value → Type 0
  FitsResolved (ok t) v = below t v
  FitsResolved t v = ⊥

  unfoldable pub FitsRef : TypeRef → Value → Type 0
  unfolding resolve_type
  FitsRef ref v = FitsResolved (resolve_type resolve (some ref)) v

  unfoldable pub FitsArm : Option TypeRef → Value → Type 0
  FitsArm none v = v ≡ nil_value
  FitsArm (some ref) v = FitsRef ref v

  unfoldable pub FitsFields : List RecordField → Values → Type 0
  FitsFields [] nil = Unit {0}
  FitsFields (f ∷ fields) (cons v vs) = FitsRef f.type v × FitsFields fields vs
  FitsFields fields vs = ⊥

  unfoldable pub FitsElements : List TypeRef → Values → Type 0
  FitsElements [] nil = Unit {0}
  FitsElements (e ∷ elements) (cons v vs) = FitsRef e v × FitsElements elements vs
  FitsElements elements vs = ⊥

  unfoldable pub FitsEach : TypeRef → Values → Type 0
  FitsEach element nil = Unit {0}
  FitsEach element (cons v vs) = FitsRef element v × FitsEach element vs

  unfoldable pub FitsCase : Option VariantCase → Value → Type 0
  FitsCase none v = ⊥
  FitsCase (some c) v = FitsArm c.type v

  unfoldable pub FitsOption : TypeRef → Value → Type 0
  FitsOption element nil_value = Unit {0}
  FitsOption element v = FitsRef element v

  unfoldable pub FitsKind : Option TypeDesc → Value → Type 0
  unfolding FitsPrimitive FitsFields FitsElements FitsEach FitsCase FitsOption FitsArm count_values
  FitsKind (some (TypeDesc.primitive_desc prim)) v = FitsPrimitive prim v
  FitsKind (some (TypeDesc.list_desc element)) (slice vs) =
      (count_values vs ≤ max_list_elements) × FitsEach element vs
  FitsKind (some (TypeDesc.record_desc fields)) (slice vs) = FitsFields fields vs
  FitsKind (some (TypeDesc.variant_desc cases)) (variant_value idx payload) =
      FitsCase (get_elem? cases idx) payload
  FitsKind (some (TypeDesc.tuple_desc elements)) (slice vs) = FitsElements elements vs
  FitsKind (some (TypeDesc.flags_desc names)) v = FitsFlags (length names) v
  FitsKind (some (TypeDesc.enum_desc cases)) v = FitsEnum v
  FitsKind (some (TypeDesc.option_desc element)) v = FitsOption element v
  FitsKind (some (TypeDesc.result_desc ok_type err_type)) (result_value false v) = FitsArm ok_type v
  FitsKind (some (TypeDesc.result_desc ok_type err_type)) (result_value true v) = FitsArm err_type v
  FitsKind (some (TypeDesc.own_desc resource)) v = FitsHandle v
  FitsKind (some (TypeDesc.borrow_desc resource)) v = FitsHandle v
  FitsKind (some (TypeDesc.stream_desc element)) v = FitsHandle v
  FitsKind (some (TypeDesc.future_desc element)) v = FitsHandle v
  FitsKind t v = ⊥

-- `fuel` bounds the nesting of the value, as in the store.
unfoldable pub Fits : ℕ → Resolver → Option TypeDesc → Value → Type 0
unfolding FitsKind
Fits zero resolve t v = ⊥
Fits (suc fuel) resolve t v = FitsKind resolve (λ d w. Fits fuel resolve d w) t v

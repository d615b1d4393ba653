-- ===== src/Abi/Value.antt =====
-- internal/abi/value.go: component values as Go values, by their dynamic type. An int32 or int64 is
-- its bit pattern, a float its bits, a string its bytes; `rune` is another name of int32.
use component_model.Prelude.{ℕ, suc, Bool, List}

-- `slice` is a `[]Value`, `raw_bytes` a `[]byte`.
mutual
  pub data Value : Type 0 where
    nil_value : Value
    bool_value : Bool → Value
    uint32_value int32_value uint64_value int64_value float32_value float64_value : ℕ → Value
    string_value raw_bytes : List ℕ → Value
    slice : Values → Value
    variant_value : ℕ → Value → Value
    result_value : Bool → Value → Value

  pub data Values : Type 0 where
    nil : Values
    cons : Value → Values → Values

unfoldable pub count_values : Values → ℕ
count_values nil = 0
count_values (cons v vs) = suc (count_values vs)

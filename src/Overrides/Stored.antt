-- ===== src/Overrides/Stored.antt =====
-- What `updateConfigField` of evmd/cmd/evmd/cmd/testnet_utils.go stores.
use zk_cosmos_eth_bridge.Common.{Option, none, some, List, [], ◌∷◌, Bytes}
use zk_cosmos_eth_bridge.Overrides.{
  Value, duration_value, int64_value, int_value, string_value, bool_value, strings_value,
  struct_value, nil_pointer, pointer, other_value, Fields, get_field_name, field_by_name,
}

-- The field that a part of a path names.
unfoldable pub read_field : Fields → Bytes → Option Value
read_field fs part = elim (get_field_name fs part) [
  | none ↦ none
  | some name ↦ field_by_name fs name
]

-- The fields that a value leads to; a nil pointer leads to those of a new struct.
unfoldable pub fields_of : Value → Option Fields
fields_of (struct_value fs) = some fs
fields_of (nil_pointer fs) = some fs
fields_of (pointer fs) = some fs
fields_of (duration_value d) = none
fields_of (string_value s) = none
fields_of (bool_value b) = none
fields_of (int64_value i) = none
fields_of (int_value i) = none
fields_of (strings_value l) = none
fields_of other_value = none

abbrev fields_in : Option Value → Option Fields
fields_in none = none
fields_in (some v) = fields_of v

unfoldable pub read_path : Bytes → List Bytes → Option Fields → Option Value
read_path part parts none = none
read_path part [] (some fs) = read_field fs part
read_path part (next ∷ parts) (some fs) = read_path next parts (fields_in (read_field fs part))

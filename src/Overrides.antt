-- ===== src/Overrides.antt =====
-- evmd/cmd/evmd/cmd/testnet_utils.go: overrides of configuration fields by their paths. What the
-- code reads and sets by reflection is a tree of fields.
pub mod Texts
pub mod Parsing
pub mod Stored
use zk_cosmos_eth_bridge.Common.{
  ℕ, ◌≡◌, Bool, true, false, ◌&&◌, Option, none, some, List, [], ◌∷◌, if◌then◌else◌, Bytes, codes,
  text_eq, Outcome, ok, err, panic, ◌>>=◌, or_err,
}
use zk_cosmos_eth_bridge.Common.Int.{ℤ, pos, negsuc}
use zk_cosmos_eth_bridge.Rpc.EvmHash.{to_lower}
use zk_cosmos_eth_bridge.Overrides.Texts.{
  split_at, split_parts, comma_parts, trim_space, parse_bool, parse_int64,
}

-- A field's value by its type, and the fields of a struct with their names and their
-- `mapstructure` tags. A pointer to a struct has the struct that it points to, or none, and the
-- struct that a new one points to.
mutual
  pub data Value : Type 0 where
    duration_value int64_value int_value : ℤ → Value
    string_value : Bytes → Value
    bool_value : Bool → Value
    strings_value : List Bytes → Value
    struct_value : Fields → Value
    nil_pointer : Fields → Value
    pointer : Fields → Value
    other_value : Value

  pub data Fields : Type 0 where
    no_fields : Fields
    field : Bytes → Bytes → Value → Fields → Fields

pub data OverrideError : Type 0 where
  invalid_override field_not_found invalid_value unsupported_type : OverrideError

-- The field and the value of `field=value`, cut at the first `=`.
unfoldable pub parse_config_override : Bytes → Option (Bytes × Bytes)
parse_config_override text = split_at b'=' text

-- `getFieldName`: the first field whose tag is the name, or whose name is it but for case.
unfoldable pub get_field_name : Fields → Bytes → Option Bytes
get_field_name no_fields tag_name = none
get_field_name (field name tag v rest) tag_name =
    let later = get_field_name rest tag_name in
    if text_eq tag []
    then (if text_eq (to_lower name) (to_lower tag_name) then some name else later)
    else if text_eq tag tag_name
    then some name
    else if text_eq (to_lower name) (to_lower tag_name)
    then some name
    else later

-- `FieldByName`; a name that is none is not found.
unfoldable pub field_by_name : Fields → Bytes → Option Value
field_by_name no_fields name = none
field_by_name (field name' tag v rest) name =
    let later = field_by_name rest name in if text_eq name' name then some v else later

unfoldable pub set_field : Fields → Bytes → Value → Fields
set_field no_fields name v = no_fields
set_field (field name' tag v' rest) name v =
    let later = set_field rest name v in
    if text_eq name' name then field name' tag v rest else field name' tag v' later

abbrev pub parsed : {A : Type 0} → (A → Value) → Option A → Outcome OverrideError Value
parsed f none = err invalid_value
parsed f (some a) = ok (f a)

abbrev pub named : {A : Type 0} → Option A → Outcome OverrideError A
named none = err field_not_found
named (some a) = ok a

-- The field that a part of the path names gets the value of an update.
unfoldable pub update_field :
    Fields → Bytes → (Value → Outcome OverrideError Value) → Outcome OverrideError Fields
update_field fs part update = do
  name ← named (get_field_name fs part)
  v ← named (field_by_name fs name)
  v' ← update v
  ok (set_field fs name v')

-- An inner field: a pointer is followed, and set first where it is nil. `FieldByName` and
-- `NumField` panic on what is no struct.
unfoldable pub inside :
    Value → (Fields → Outcome OverrideError Fields) → Outcome OverrideError Value
inside (struct_value fs) update = update fs >>= λ fs'. ok (struct_value fs')
inside (nil_pointer fs) update = update fs >>= λ fs'. ok (pointer fs')
inside (pointer fs) update = update fs >>= λ fs'. ok (pointer fs')
inside (duration_value d) update = panic
inside (string_value s) update = panic
inside (bool_value b) update = panic
inside (int64_value i) update = panic
inside (int_value i) update = panic
inside (strings_value l) update = panic
inside other_value update = panic

module _ (parse_duration : Bytes → Option ℤ) where
  -- `setFieldValue`, by the type of the field; `parse_duration` is `time.ParseDuration`.
  unfoldable pub set_field_value : Value → Bytes → Outcome OverrideError Value
  set_field_value (duration_value d) text = parsed duration_value (parse_duration text)
  set_field_value (string_value s) text = ok (string_value text)
  set_field_value (bool_value b) text = parsed bool_value (parse_bool text)
  set_field_value (int64_value i) text = parsed int64_value (parse_int64 text)
  set_field_value (int_value i) text = parsed int_value (parse_int64 text)
  set_field_value (strings_value l) text =
      ok (strings_value (if text_eq (trim_space text) [] then [] else comma_parts text))
  set_field_value (struct_value fs) text = err unsupported_type
  set_field_value (nil_pointer fs) text = err unsupported_type
  set_field_value (pointer fs) text = err unsupported_type
  set_field_value other_value text = err unsupported_type

  -- The update along the parts `part` and then `parts`.
  unfoldable pub update_path : Bytes → List Bytes → Bytes → Fields → Outcome OverrideError Fields
  update_path part [] text fs = update_field fs part (λ v. set_field_value v text)
  update_path part (next ∷ parts) text fs =
      update_field fs part (λ v. inside v (update_path next parts text))

  -- A path of one part is looked for in `BaseConfig` first.
  unfoldable pub update_base : Bytes → Bytes → Fields → Option Value → Outcome OverrideError Fields
  update_base part text fs none = update_path part [] text fs
  update_base part text fs (some (struct_value base)) = elim (get_field_name base part) [
    | some name ↦ update_path part [] text base >>= λ base'.
        ok (set_field fs (codes "BaseConfig") (struct_value base'))
    | none ↦ update_path part [] text fs
  ]
  update_base part text fs (some v) = panic

  unfoldable pub update_config_field : Fields → Bytes → Bytes → Outcome OverrideError Fields
  update_config_field fs field_path text = split (split_parts b'.' field_path)
    where
      split : Bytes × List Bytes → Outcome OverrideError Fields
      split (part, []) = update_base part text fs (field_by_name fs (codes "BaseConfig"))
      split (part, next ∷ parts) = update_path part (next ∷ parts) text fs

  unfoldable pub apply_config_overrides : Fields → List Bytes → Outcome OverrideError Fields
  apply_config_overrides fs [] = ok fs
  apply_config_overrides fs (text ∷ overrides) = do
    p ← or_err (parse_config_override text) invalid_override
    fs' ← update_config_field fs p.0 p.1
    apply_config_overrides fs' overrides

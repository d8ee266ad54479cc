-- ===== src/Tests/Overrides.antt =====
-- Overrides of a small configuration.
use zk_cosmos_eth_bridge.Common.{
  ℕ, ◌≡◌, ◌↔◌, refl, false, Option, none, some, [], ◌∷◌, ◌++◌, ◌==◌, All, Bytes, codes, ok,
}
use zk_cosmos_eth_bridge.Overrides.Parsing.{parse_config_override_iff}
use zk_cosmos_eth_bridge.Common.Int.{ℤ, pos}
use zk_cosmos_eth_bridge.Codec.Decimal.{digits_value, whole_number}
use zk_cosmos_eth_bridge.Overrides.Texts.{split_at, split_parts, parse_int64}
use zk_cosmos_eth_bridge.Overrides.{
  Value, int_value, string_value, struct_value, nil_pointer, pointer, Fields, no_fields, field,
  parse_config_override, get_field_name, field_by_name, set_field, set_field_value, update_field,
  inside, update_path, update_base, update_config_field, apply_config_overrides,
}

abbrev no_duration : Bytes → Option ℤ
no_duration text = none

abbrev mempool : ℕ → Fields
mempool size = field (codes "Size") (codes "size") (int_value (pos size)) no_fields

abbrev config_of : Bytes → Value → Fields
config_of level pool =
    field (codes "BaseConfig") []
      (struct_value (field (codes "LogLevel") (codes "log_level") (string_value level) no_fields))
      (field (codes "Mempool") (codes "mempool") pool no_fields)

-- A pointer that is nil is set on the way.
apply_config_overrides-both :
    apply_config_overrides no_duration
      (config_of (codes "info") (nil_pointer (mempool 0)))
      (codes "log_level=debug" ∷ codes "mempool.SIZE=25" ∷ [])
    ≡ ok (config_of (codes "debug") (pointer (mempool 25)))
unfolding apply_config_overrides parse_config_override split_at update_config_field split_parts
    update_base update_path update_field inside get_field_name field_by_name set_field
    set_field_value parse_int64 whole_number digits_value
apply_config_overrides-both = refl

-- The value may have more equals signs.
parse_config_override_iff_example :
    (parse_config_override (codes "a.b=c=d") ≡ some (codes "a.b", codes "c=d")) ↔ (
      (codes "a.b=c=d" ≡ codes "a.b" ++ (b'=' ∷ codes "c=d"))
      × All (λ x. (x == b'=') ≡ false) (codes "a.b"))
parse_config_override_iff_example =
    parse_config_override_iff (codes "a.b=c=d") (codes "a.b") (codes "c=d")

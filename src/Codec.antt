-- ===== src/Codec.antt =====
-- The encodings of Go's standard library that zk-bridge/pkg/rpc/cosmos.go uses.
pub mod Hex
pub mod Base64
pub mod BigEndian
pub mod Decimal

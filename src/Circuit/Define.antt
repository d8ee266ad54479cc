-- ===== src/Circuit/Define.antt =====
-- `ZkBridgeCircuit`, `Define` and `unpack` of zk-bridge/pkg/circuits/bridge.go. A value of the
-- circuit type is an assignment; `define` gives `some tt` where it satisfies the constraints.
use zk_cosmos_eth_bridge.Common.{
  ℕ, ◌+◌, ◌*◌, Option, none, some, List, [], ◌∷◌, ◌++◌, if◌then◌else◌, Bytes, text_eq, take, drop,
  length, ◌≡◌, All, replicate,
}
use zk_cosmos_eth_bridge.Common.Maybe.{◌>>=◌}
use zk_cosmos_eth_bridge.Circuit.Api.{Api}

abbrev pub merkle_depth : ℕ
merkle_depth = 32

pub record ZkBridgeCircuit : Type 0 where
  pub packed_root : List ℕ
  pub packed_tx_hash : List ℕ
  pub proof_path : List Bytes
  pub proof_helper : List ℕ
  pub actual_depth : ℕ

-- The lengths that the Go types fix.
pub record IsShaped (c : ZkBridgeCircuit) : Type 0 where
  pub root_words : length c.packed_root ≡ 4
  pub tx_hash_words : length c.packed_tx_hash ≡ 4
  pub path_levels : length c.proof_path ≡ merkle_depth
  pub path_bytes : All (λ sibling. length sibling ≡ 32) c.proof_path
  pub helper_levels : length c.proof_helper ≡ merkle_depth

module _ (api : Api) where
  -- The loop over `j` from 7 down to 0.
  unfoldable pub unpack_bytes : List ℕ → List ℕ → Bytes
  unpack_bytes bits [] = []
  unpack_bytes bits (j ∷ js) = api.from_binary (take 8 (drop (j * 8) bits)) ∷ unpack_bytes bits js

  unfoldable pub unpack_word : ℕ → Option Bytes
  unfolding unpack_bytes
  unpack_word packed = do
    bits ← api.to_binary packed 64
    some (unpack_bytes bits (7 ∷ 6 ∷ 5 ∷ 4 ∷ 3 ∷ 2 ∷ 1 ∷ 0 ∷ []))

  unfoldable pub unpack : List ℕ → Option Bytes
  unfolding unpack_word
  unpack [] = some []
  unpack (packed ∷ words) = do bytes ← unpack_word packed; rest ← unpack words; some (bytes ++ rest)

  -- `api.Select(b, x[j], y[j])` for every `j`.
  unfoldable pub select_bytes : ℕ → Bytes → Bytes → Option Bytes
  select_bytes b [] ys = some []
  select_bytes b (x ∷ xs) [] = some []
  select_bytes b (x ∷ xs) (y ∷ ys) = do
    v ← api.select b x y
    rest ← select_bytes b xs ys
    some (v ∷ rest)

  -- The body of the loop over the levels, for level `i`.
  unfoldable pub level : ℕ → ℕ → Bytes → ℕ → Bytes → Option Bytes
  unfolding select_bytes
  level i depth path helper current = do
    let is_active = api.is_less i depth
    prefix ← api.select is_active 1 0
    left ← select_bytes helper path current
    right ← select_bytes helper current path
    masked_left ← select_bytes is_active left (replicate 32 0)
    masked_right ← select_bytes is_active right (replicate 32 0)
    let res = api.sha256 (prefix ∷ (masked_left ++ masked_right))
    select_bytes is_active res current

  unfoldable pub levels : ℕ → ℕ → List Bytes → List ℕ → Bytes → Option Bytes
  unfolding level
  levels i depth [] helpers current = some current
  levels i depth (path ∷ paths) [] current = some current
  levels i depth (path ∷ paths) (helper ∷ helpers) current = do
    next ← level i depth path helper current
    levels (i + 1) depth paths helpers next

  unfoldable pub define : ZkBridgeCircuit → Option (Unit {0})
  unfolding unpack levels
  define c = do
    root_bytes ← unpack c.packed_root
    tx_hash_bytes ← unpack c.packed_tx_hash
    current ← levels 0 c.actual_depth c.proof_path c.proof_helper tx_hash_bytes
    if text_eq current root_bytes then some tt else none

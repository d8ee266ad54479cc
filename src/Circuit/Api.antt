-- ===== src/Circuit/Api.antt =====
-- The operations of gnark's `frontend.API`, `cmp`, `sha2` and `uints` that the circuit uses. A
-- variable stands for its value, and an operation whose constraints have no solution gives `none`.
use zk_cosmos_eth_bridge.Common.{
  ℕ, zero, suc, ◌+◌, ◌*◌, ◌/◌, ◌%◌, ◌^◌, ◌≡◌, ◌≢◌, Option, none, some, List, [], ◌∷◌, ltb,
  if◌then◌else◌, Bytes, length,
}

pub record Api : Type 0 where
  -- `api.Select(b, x, y)`
  pub select : ℕ → ℕ → ℕ → Option ℕ
  -- `cmp.IsLess(api, a, b)`
  pub is_less : ℕ → ℕ → ℕ
  -- `api.ToBinary(v, n)`, the lowest bit first
  pub to_binary : ℕ → ℕ → Option (List ℕ)
  -- `api.FromBinary(bits...)`
  pub from_binary : List ℕ → ℕ
  -- the sum over the bytes written to a `sha2` hasher
  pub sha256 : Bytes → Bytes

-- The `n` lowest bits of a number, the lowest first.
unfoldable pub bits_of : ℕ → ℕ → List ℕ
bits_of zero v = []
bits_of (suc n) v = v % 2 ∷ bits_of n (v / 2)

unfoldable pub bits_value : List ℕ → ℕ
bits_value [] = 0
bits_value (b ∷ bs) = b + 2 * bits_value bs

-- What gnark documents. `Select` asks for a boolean selector; `ToBinary` with `n` bits has no
-- solution for a value of more bits.
pub record IsGnark (api : Api) : Type 0 where
  pub select-one : (x y : ℕ) → api.select 1 x y ≡ some x
  pub select-zero : (x y : ℕ) → api.select 0 x y ≡ some y
  pub select_boolean : (b x y : ℕ) → b ≢ 0 → b ≢ 1 → api.select b x y ≡ none
  pub is_less_lem : (a b : ℕ) → api.is_less a b ≡ (if ltb a b then 1 else 0)
  pub to_binary_lem :
      (v n : ℕ) → api.to_binary v n ≡ (if ltb v (2 ^ n) then some (bits_of n v) else none)
  pub from_binary_lem : (bs : List ℕ) → api.from_binary bs ≡ bits_value bs
  pub length-sha256 : (m : Bytes) → length (api.sha256 m) ≡ 32

-- ===== src/App/Genesis.antt =====
-- The genesis states of evmd/genesis.go, and `DefaultGenesis` of evmd/app.go.
use zk_cosmos_eth_bridge.Common.{
  ◌≡◌, Bool, true, Option, some, List, [], ◌∷◌, if◌then◌else◌, arith, Bytes,
}
use zk_cosmos_eth_bridge.App.Modules.{Module, same_module, mint, evm, erc20}

-- The parts of the modules' genesis states that are written.
pub record EvmGenesis : Type 0 where
  pub active_static_precompiles : List Bytes
  pub preinstalls : List Bytes

pub record Erc20Genesis : Type 0 where
  pub token_pairs : List Bytes
  pub native_precompiles : List Bytes

pub record MintGenesis : Type 0 where
  pub mint_denom : Bytes

pub record FeeMarketGenesis : Type 0 where
  pub no_base_fee : Bool

-- The SDK's default states, the constants of the EVM library, and the encoding of a state.
pub record Defaults (Json : Type 0) : Type 0 where
  pub evm_default : EvmGenesis
  pub erc20_default : Erc20Genesis
  pub mint_default : MintGenesis
  pub fee_market_default : FeeMarketGenesis
  pub available_precompiles : List Bytes
  pub default_preinstalls : List Bytes
  pub example_token_pairs : List Bytes
  pub wevmos_contract : Bytes
  pub example_denom : Bytes
  pub encode_evm : EvmGenesis → Json
  pub encode_erc20 : Erc20Genesis → Json
  pub encode_mint : MintGenesis → Json
  -- what the basic manager collects from the modules
  pub basic_genesis : Module → Option Json

abbrev pub set_entry :
    {Json : Type 0} → Module → Json → (Module → Option Json) → Module → Option Json
set_entry k v genesis m = if same_module m k then some v else genesis m

module _ {Json : Type 0} (d : Defaults Json) where
  unfoldable pub new_evm_genesis_state : EvmGenesis
  new_evm_genesis_state = record d.evm_default {
    active_static_precompiles = d.available_precompiles;
    preinstalls = d.default_preinstalls;
  }

  unfoldable pub new_erc20_genesis_state : Erc20Genesis
  new_erc20_genesis_state = record d.erc20_default {
    token_pairs = d.example_token_pairs;
    native_precompiles = d.wevmos_contract ∷ [];
  }

  unfoldable pub new_mint_genesis_state : MintGenesis
  new_mint_genesis_state = record d.mint_default { mint_denom = d.example_denom }

  -- It is defined, and no genesis uses it.
  unfoldable pub new_fee_market_genesis_state : FeeMarketGenesis
  new_fee_market_genesis_state = record d.fee_market_default { no_base_fee = true }

  -- The entries are set one after the other.
  unfoldable pub default_genesis : Module → Option Json
  unfolding new_evm_genesis_state new_erc20_genesis_state new_mint_genesis_state
  default_genesis = set_entry erc20 (d.encode_erc20 new_erc20_genesis_state) (
      set_entry evm (d.encode_evm new_evm_genesis_state)
        (set_entry mint (d.encode_mint new_mint_genesis_state) d.basic_genesis))

  -- The entries of the mint, the EVM and the ERC20 module are the chain's, and the entry of every
  -- other module, the fee market's among them, is the SDK's default.
  pub default_genesis_lem :
      (m : Module)
      → default_genesis m ≡ (
          if same_module m mint
          then some (d.encode_mint new_mint_genesis_state)
          else if same_module m evm
          then some (d.encode_evm new_evm_genesis_state)
          else if same_module m erc20
          then some (d.encode_erc20 new_erc20_genesis_state)
          else d.basic_genesis m)
  unfolding default_genesis
  default_genesis_lem m = ground arith

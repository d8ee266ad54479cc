-- ===== src/Setup.antt =====
-- evmd/testutil/eth_setup.go: the genesis of a test with a set of validators. Of the modules' states
-- there are the parts that are written.
pub mod Supply
use zk_cosmos_eth_bridge.Common.{
  ℕ, Bool, true, false, Option, none, some, List, [], ◌∷◌, ◌++◌, Bytes, Outcome, ok, panic, ◌>>=◌,
}

pub record Coin : Type 0 where
  pub denom : Bytes
  pub amount : ℕ

pub record Balance : Type 0 where
  pub address : Bytes
  pub coins : List Coin

-- A validator of CometBFT: its address, and the key that the SDK makes of its own, where it can.
pub record CmtValidator : Type 0 where
  pub address : Bytes
  pub sdk_key : Option Bytes

pub record StakingValidator : Type 0 where
  pub operator_address : Bytes
  pub consensus_pubkey : Bytes
  pub tokens : ℕ

pub record Delegation : Type 0 where
  pub delegator : Bytes
  pub validator : Bytes

pub record Staking : Type 0 where
  pub validators : List StakingValidator
  pub delegations : List Delegation

pub record TestGenesis : Type 0 where
  pub accounts : List Bytes
  pub staking : Staking
  pub balances : List Balance
  pub supply : List Coin

-- What the SDK gives: the sum of coins, the addresses' texts, and the chain's constants.
pub record Sdk : Type 0 where
  pub add : List Coin → List Coin → List Coin
  pub operator_text : Bytes → Bytes
  pub address_text : Bytes → Bytes
  pub bonded_pool : Bytes
  pub bond_denom : Bytes
  pub power_reduction : ℕ

-- No step returns an error: all of them panic.
pub data NoError : Type 0 where

abbrev pub must : {A : Type 0} → Option A → Outcome NoError A
must none = panic
must (some a) = ok a

abbrev pub first_account : List Bytes → Outcome NoError Bytes
first_account [] = panic
first_account (a ∷ accounts) = ok a

module _ (sdk : Sdk) where
  abbrev pub bond : Coin
  bond = record { denom = sdk.bond_denom; amount = sdk.power_reduction }

  -- The loop over the validators; each is delegated to by the first account.
  unfoldable pub bonded : List Bytes → List CmtValidator → Outcome NoError Staking
  bonded accounts [] = ok (record { validators = []; delegations = [] })
  bonded accounts (v ∷ vs) = do
    key ← must v.sdk_key
    delegator ← first_account accounts
    rest ← bonded accounts vs
    ok (record {
      validators =
          record {
            operator_address = sdk.operator_text v.address;
            consensus_pubkey = key;
            tokens = sdk.power_reduction;
          }
          ∷ rest.validators;
      delegations =
          record { delegator = delegator; validator = sdk.address_text v.address }
          ∷ rest.delegations;
    })

  -- The loops that add the balances, and a bond for each delegation, to the supply.
  unfoldable pub add_balances : List Balance → List Coin → List Coin
  add_balances [] supply = supply
  add_balances (b ∷ balances) supply = add_balances balances (sdk.add supply b.coins)

  unfoldable pub add_bonds : List Delegation → List Coin → List Coin
  add_bonds [] supply = supply
  add_bonds (d ∷ delegations) supply = add_bonds delegations (sdk.add supply (bond ∷ []))

  -- The pool of the bonded tokens holds one bond.
  abbrev pub pool_balance : Balance
  pool_balance = record { address = sdk.bonded_pool; coins = bond ∷ [] }

  unfoldable pub genesis_state_with_val_set :
      List CmtValidator → List Bytes → List Balance → Outcome NoError TestGenesis
  genesis_state_with_val_set vs accounts balances = do
    staking ← bonded accounts vs
    ok (record {
      accounts = accounts;
      staking = staking;
      balances = balances ++ (pool_balance ∷ []);
      supply = add_bonds staking.delegations (add_balances balances []);
    })

  -- `NewTestGenesisState`: one validator and one account, of keys that are drawn.
  unfoldable pub new_test_genesis_state : Option CmtValidator → Bytes → Outcome NoError TestGenesis
  unfolding genesis_state_with_val_set
  new_test_genesis_state drawn account = do
    v ← must drawn
    genesis_state_with_val_set (v ∷ []) (account ∷ []) (
        record {
          address = account;
          coins = record { denom = sdk.bond_denom; amount = 100000000000000 } ∷ [];
        }
        ∷ [])

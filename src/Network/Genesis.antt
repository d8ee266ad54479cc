-- ===== src/Network/Genesis.antt =====
-- `initGenFiles` and `collectGenFiles` of evmd/tests/network/util.go. Of the genesis state there are
-- the parts that are written.
use zk_cosmos_eth_bridge.Common.{
  Bool, true, false, Option, List, [], ◌∷◌, ◌++◌, map, Bytes, codes, Outcome, ok, err, panic, ◌>>=◌,
  ◌>>◌, or_err,
}
use zk_cosmos_eth_bridge.Common.Int.{ℤ}
use zk_cosmos_eth_bridge.Network.Pool.{NewError, genesis_failed, collect_failed}
use zk_cosmos_eth_bridge.Network.New.{Config, Validator}

pub record Coin : Type 0 where
  pub denom : Bytes
  pub amount : ℤ

pub record Balance : Type 0 where
  pub address : Bytes
  pub coins : List Coin

pub record Genesis : Type 0 where
  pub accounts : List Bytes
  pub balances : List Balance
  pub supply : List Coin
  pub bond_denom : Bytes
  pub min_deposit : List Coin
  pub expedited_min_deposit : List Coin
  pub mint_denom : Bytes

-- The balance of a validator; `new_coins` is the SDK's `NewCoins`, which sorts.
abbrev pub balance_of : (List Coin → List Coin) → Config → Validator → Balance
balance_of new_coins cfg v = record {
  address = v.address;
  coins = new_coins (
      record { denom = v.moniker ++ codes "token"; amount = cfg.account_tokens }
      ∷ record { denom = cfg.bond_denom; amount = cfg.staking_tokens }
      ∷ []);
}

-- `coins[0].Denom = denom`, which is out of range where there are no coins.
unfoldable pub set_first_denom : Bytes → List Coin → Outcome NewError (List Coin)
set_first_denom denom [] = panic
set_first_denom denom (c ∷ cs) = ok (record c { denom = denom } ∷ cs)

abbrev pub require : Bool → NewError → Outcome NewError (Unit {0})
require true e = ok tt
require false e = err e

-- The files are saved one by one, until one fails.
unfoldable pub save_all : List Bool → Outcome NewError (Unit {0})
save_all [] = ok tt
save_all (saved ∷ saves) = require saved genesis_failed >>= λ _. save_all saves

-- The genesis that is saved for every validator. `packs` and `marshals` tell whether the accounts
-- are packed and the document is written, `saves` whether each file is.
unfoldable pub init_gen_files :
    (List Coin → List Coin)
    → Config
    → Genesis
    → List Validator
    → Bool
    → Bool
    → List Bool
    → Outcome NewError Genesis
unfolding set_first_denom
init_gen_files new_coins cfg genesis vs packs marshals saves = do
  require packs genesis_failed
  min ← set_first_denom cfg.bond_denom genesis.min_deposit
  expedited ← set_first_denom cfg.bond_denom genesis.expedited_min_deposit
  require marshals genesis_failed
  save_all saves
  ok (record {
    accounts = genesis.accounts ++ map (λ v. v.address) vs;
    balances = map (balance_of new_coins cfg) vs;
    supply = [];
    bond_denom = cfg.bond_denom;
    min_deposit = min;
    expedited_min_deposit = expedited;
    mint_denom = cfg.bond_denom;
  })

-- What collecting gives for one validator: whether its genesis file is read, the state that is made
-- of it and of the genesis transactions, and whether the file is written.
pub record Collected : Type 0 where
  pub reads_genesis : Bool
  pub app_state : Option Bytes
  pub exports : Bool

-- The state in the file of each validator; unlike that of the testnet's files it is its own.
unfoldable pub collect_network_files : List Collected → Outcome NewError (List Bytes)
collect_network_files [] = ok []
collect_network_files (c ∷ cs) = do
  require c.reads_genesis collect_failed
  state ← or_err c.app_state collect_failed
  require c.exports collect_failed
  rest ← collect_network_files cs
  ok (state ∷ rest)

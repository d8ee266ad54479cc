-- ===== src/Testnet/Start.antt =====
-- `startTestnet` of evmd/cmd/evmd/cmd/testnet.go, with the configuration of
-- evmd/tests/network/network.go that it changes.
pub mod Laws
use zk_cosmos_eth_bridge.Common.{
  ℕ, zero, suc, ◌+◌, ◌*◌, ◌-◌, Bool, true, false, Option, none, some, List, [], ◌∷◌, ◌++◌, map,
  if◌then◌else◌, ◌==◌, Bytes, codes, length, Outcome, ok, err, panic,
}
use zk_cosmos_eth_bridge.Common.Int.{ℤ, pos, negsuc}
use zk_cosmos_eth_bridge.Testnet.Powers.{tokens_from_power}
use zk_cosmos_eth_bridge.Network.Wait.{
  Received, NetworkError, Waited, waiting, timed_out, reached, wait_for_height_with_timeout,
}
use zk_cosmos_eth_bridge.Network.Pool.{NewError}
use zk_cosmos_eth_bridge.Network.New.{Config, is_set}
use zk_cosmos_eth_bridge.Network.Life.{World, NetworkCalls, Network, Result, new_network, cleanup}

pub record StartArgs : Type 0 where
  pub algo : Bytes
  pub api_address : Bytes
  pub chain_id : Bytes
  pub enable_logging : Bool
  pub grpc_address : Bytes
  pub min_gas_prices : Bytes
  pub num_validators : ℤ
  pub output_dir : Bytes
  pub print_mnemonic : Bool
  pub rpc_address : Bytes
  pub validator_powers : List ℤ

-- `DefaultConfig`, for the bond denomination and the power reduction of the chain, where its temporary
-- directory and application are made; it panics where they are not.
unfoldable pub default_config : Bytes → ℕ → Config
default_config denom reduction = record {
  account_tokens = pos (1000000000000000000 * reduction);
  staking_tokens = pos (500000000000000000 * reduction);
  bonded_tokens = pos (100000000000000000 * reduction);
  bonded_tokens_per_validator = [];
  num_validators = pos 4;
  chain_id = codes "evmos-1";
  bond_denom = denom;
  min_gas_prices = codes "0.000006" ++ denom;
  signing_algo = codes "eth_secp256k1";
  rpc_address = [];
  json_rpc_address = [];
  api_address = [];
  grpc_address = [];
  enable_cmt_logging = false;
  cleanup_dir = true;
  print_mnemonic = false;
}

-- The configuration of the network that the arguments ask for.
unfoldable pub network_config : Bytes → ℕ → StartArgs → Config
unfolding default_config
network_config denom reduction args = record (default_config denom reduction) {
  chain_id =
      if is_set args.chain_id then args.chain_id else (default_config denom reduction).chain_id;
  signing_algo = args.algo;
  min_gas_prices = args.min_gas_prices;
  num_validators = args.num_validators;
  enable_cmt_logging = args.enable_logging;
  rpc_address = args.rpc_address;
  api_address = args.api_address;
  grpc_address = args.grpc_address;
  print_mnemonic = args.print_mnemonic;
  bonded_tokens_per_validator = map (tokens_from_power reduction) args.validator_powers;
}

pub data StartError : Type 0 where
  dir_exists : StartError
  not_made : NewError → StartError
  not_reached : StartError
  no_enter : StartError

-- What the command meets: whether the directory of the chain is missing, the calls of the
-- construction, what the wait for the first height receives, and whether Enter is read.
pub record StartCalls : Type 0 where
  pub dir_missing : Bool
  pub network : NetworkCalls
  pub receives : List Received
  pub enters : Bool

-- The end of the command and the process behind it; none where it waits forever.
abbrev pub Ending : Type 0
Ending = Option (Outcome StartError (Unit {0}) × World)

abbrev pub cleaned : Outcome NewError World → World → Ending
cleaned (ok w') w = some (ok tt, w')
cleaned (err e) w = some (panic, w)
cleaned panic w = some (panic, w)

abbrev pub waited : Bool → Outcome NetworkError Waited → Network → World → Ending
waited enters (ok (reached h)) m w =
    if enters then cleaned (cleanup m w) w else some (err no_enter, w)
waited enters (ok (timed_out h)) m w = some (err not_reached, w)
waited enters (ok (waiting h)) m w = none
waited enters (err e) m w = some (err not_reached, w)
waited enters panic m w = some (panic, w)

abbrev pub constructed : StartCalls → Option Result → Ending
constructed c none = none
constructed c (some (ok m, w)) =
    waited c.enters (wait_for_height_with_timeout (length m.validators) 1 c.receives) m w
constructed c (some (err e, w)) = some (err (not_made e), w)
constructed c (some (panic, w)) = some (panic, w)

unfoldable pub start_testnet : Bytes → ℕ → StartArgs → StartCalls → World → Ending
start_testnet denom reduction args c w =
    let cfg = network_config denom reduction args in
    let base_dir = args.output_dir ++ (codes "/" ++ cfg.chain_id) in
    if c.dir_missing
    then constructed c (new_network cfg base_dir c.network w)
    else some (err dir_exists, w)

-- ===== src/Tests/Start.antt =====
-- Networks of two validators: one that is made from a pool of seven ports, and those that are not.
use zk_cosmos_eth_bridge.Common.{
  ℕ, ◌≡◌, ◌≢◌, ◌⊎◌, refl, true, false, none, some, List, [], ◌∷◌, Bytes, codes, drop, All, ok, err,
}
use zk_cosmos_eth_bridge.Common.Int.{pos}
use zk_cosmos_eth_bridge.Codec.Decimal.{decimal, digits_onto}
use zk_cosmos_eth_bridge.Network.Pool.{no_api_port}
use zk_cosmos_eth_bridge.Network.New.{
  Config, ValidatorCalls, Validator, no_servers, address_or, first_listening, listening_of,
  tokens_of, print_mnemonic, make_validator, prepare_validator, prepare_validators,
}
use zk_cosmos_eth_bridge.Network.Genesis.{
  Coin, Genesis, balance_of, set_first_denom, save_all, init_gen_files, collect_network_files,
}
use zk_cosmos_eth_bridge.Network.Start.{
  stopped, start_json_rpc, start_grpc, start_servers, start_in_process, start_all,
}
use zk_cosmos_eth_bridge.Network.Life.{
  World, fresh, NetworkCalls, Network, Result, construct_network, new_network, cleanup,
}
use zk_cosmos_eth_bridge.Network.Life.Cleanup.{new_network-cleanup}
use zk_cosmos_eth_bridge.Testnet.Start as Testnet
use zk_cosmos_eth_bridge.Testnet.Start.{
  StartArgs, default_config, network_config, dir_exists, not_made, start_testnet,
}
use zk_cosmos_eth_bridge.Testnet.Start.Laws.{IsFailed, start_testnet-fresh}

abbrev args : StartArgs
args = record {
  algo = codes "eth_secp256k1";
  api_address = [];
  chain_id = [];
  enable_logging = false;
  grpc_address = codes "0.0.0.0:9090";
  min_gas_prices = codes "0aevmos";
  num_validators = pos 2;
  output_dir = codes "out";
  print_mnemonic = false;
  rpc_address = codes "tcp://0.0.0.0:26657";
  validator_powers = pos 5 ∷ pos 3 ∷ [];
}

abbrev cfg : Config
cfg = network_config (codes "aevmos") 10 args

abbrev prepares : ℕ → ValidatorCalls
prepares k = record {
  parse_url = λ a. some (codes "0.0.0.0", drop 14 a);
  makes_node_dir = true;
  makes_client_dir = true;
  node_files = some (codes "id", codes "key");
  opens_keyring = true;
  finds_algo = true;
  coin_key = some (codes "addr", []);
  writes_seed = true;
  makes_message = ok tt;
  sets_message = true;
  signs = true;
  encodes = true;
  writes_gentx = true;
  reads_config = true;
}

abbrev stake : Coin
stake = record { denom = codes "stake"; amount = pos 7 }

abbrev start_genesis : Genesis
start_genesis = record {
  accounts = [];
  balances = [];
  supply = [];
  bond_denom = codes "stake";
  min_deposit = stake ∷ [];
  expedited_min_deposit = stake ∷ [];
  mint_denom = codes "stake";
}

abbrev calls : NetworkCalls
calls = record {
  prepares = prepares;
  new_coins = λ coins. coins;
  genesis = start_genesis;
  packs = true;
  marshals = true;
  saves = true ∷ true ∷ [];
  collects =
      record { reads_genesis = true; app_state = some (codes "s"); exports = true }
      ∷ record { reads_genesis = true; app_state = some (codes "t"); exports = true }
      ∷ [];
  starts = λ k. record {
    validates = true;
    loads_key = true;
    makes_node = true;
    starts_node = true;
    makes_grpc = true;
    starts_json_rpc = true;
    dials = true;
  };
}

abbrev dir : Bytes
dir = codes "out/evmos-1"

abbrev ports : List Bytes
ports = codes "1" ∷ codes "2" ∷ codes "3" ∷ codes "4" ∷ codes "5" ∷ codes "6" ∷ codes "7" ∷ []

abbrev world : World
world = record { locked = false; pool = ports; running = [] }

abbrev first : Validator
first = record {
  moniker = codes "node0";
  dir = codes "out/evmos-1/node0";
  listening = record {
    api_listen = codes "tcp://0.0.0.0:1";
    api_address = codes "http://0.0.0.0:1";
    rpc_address = codes "tcp://0.0.0.0:26657";
    grpc_address = some (codes "0.0.0.0:9090");
    json_rpc_address = some (codes "0.0.0.0:2");
  };
  proxy_app = codes "tcp://0.0.0.0:3";
  p2p_address = codes "tcp://0.0.0.0:4";
  node_id = codes "id";
  pub_key = codes "key";
  address = codes "addr";
  bonded_tokens = pos 50;
  memo = codes "id@0.0.0.0:4";
  gen_file = codes "out/evmos-1/node0/evmd/config/genesis.json";
}

abbrev second : Validator
second = record {
  moniker = codes "node1";
  dir = codes "out/evmos-1/node1";
  listening = no_servers;
  proxy_app = codes "tcp://0.0.0.0:5";
  p2p_address = codes "tcp://0.0.0.0:6";
  node_id = codes "id";
  pub_key = codes "key";
  address = codes "addr";
  bonded_tokens = pos 30;
  memo = codes "id@0.0.0.0:6";
  gen_file = codes "out/evmos-1/node1/evmd/config/genesis.json";
}

abbrev bond : Coin
bond = record { denom = codes "aevmos"; amount = pos 7 }

abbrev network : Network
network = record {
  base_dir = dir;
  validators = first ∷ second ∷ [];
  config = cfg;
  genesis = record {
    accounts = codes "addr" ∷ codes "addr" ∷ [];
    balances = balance_of (λ coins. coins) cfg first ∷ balance_of (λ coins. coins) cfg second ∷ [];
    supply = [];
    bond_denom = codes "aevmos";
    min_deposit = bond ∷ [];
    expedited_min_deposit = bond ∷ [];
    mint_denom = codes "aevmos";
  };
}

abbrev after : World
after = record {
  locked = true;
  pool = codes "7" ∷ [];
  running =
      record { tm_node = true; api = true; grpc = true; json_rpc = true }
      ∷ record { tm_node = true; api = false; grpc = false; json_rpc = false }
      ∷ [];
}

made : new_network cfg dir calls world ≡ some (ok network, after)
unfolding network_config default_config new_network construct_network prepare_validators
    prepare_validator make_validator print_mnemonic tokens_of listening_of first_listening
    address_or init_gen_files set_first_denom save_all collect_network_files start_all
    start_in_process start_servers start_grpc start_json_rpc decimal digits_onto
made = refl

new_network-cleanup_example :
    (r : Result) × (new_network cfg dir calls fresh ≡ some r)
    × (r.1.locked ≡ true)
    × ((other : Config) (d : Bytes) (c : NetworkCalls) → new_network other d c r.1 ≡ none)
    × (((m : Network) × (w' : World) × (r.0 ≡ ok m)
          × (cleanup m r.1 ≡ ok w')
          × (w'.locked ≡ false)
          × All (λ running. running ≡ stopped) w'.running)
        ⊎ ((m : Network) → r.0 ≢ ok m))
new_network-cleanup_example = new_network-cleanup cfg dir calls fresh refl

abbrev start_calls : Testnet.StartCalls
start_calls = record { dir_missing = true; network = calls; receives = []; enters = true }

start_testnet-fresh_example :
    (start_testnet (codes "aevmos") 10 args start_calls fresh ≡ some (err dir_exists, fresh))
    ⊎ IsFailed (start_testnet (codes "aevmos") 10 args start_calls fresh)
start_testnet-fresh_example = start_testnet-fresh (codes "aevmos") 10 args start_calls 1 refl

-- The pool of a fresh process has no port for the API server.
start-fresh :
    start_testnet (codes "aevmos") 10 args start_calls fresh
    ≡ some (err (not_made no_api_port), record { locked = true; pool = []; running = [] })
unfolding start_testnet network_config default_config new_network construct_network
    prepare_validators prepare_validator listening_of first_listening address_or
start-fresh = refl

-- ===== src/Tests/Genesis.antt =====
-- The files of two validators.
use zk_cosmos_eth_bridge.Common.{ℕ, ◌≡◌, refl, true, false, none, some, [], ◌∷◌, codes, ok}
use zk_cosmos_eth_bridge.Codec.Decimal.{decimal, digits_onto}
use zk_cosmos_eth_bridge.Common.Int.{pos}
use zk_cosmos_eth_bridge.Testnet.Init.{
  NodeCalls, InitArgs, GenesisFiles, balance_of, add_extra_accounts, init_node, init_nodes, supply,
  genesis_files, init_testnet_files,
}
use zk_cosmos_eth_bridge.Testnet.Init.Laws.{IsGenesis, init_testnet_files-IsGenesis}
use zk_cosmos_eth_bridge.Testnet.Collect.{Collected, collect_gen_files}

abbrev first : Collected ℕ
first = record { app_state = some 5; exports = true }

abbrev second : Collected ℕ
second = record { app_state = some 6; exports = true }

collect-both : collect_gen_files none (first ∷ second ∷ []) ≡ ok (5 ∷ 5 ∷ [])
unfolding collect_gen_files
collect-both = refl

abbrev calls : NodeCalls
calls = record {
  makes_dir = true;
  ip = some (codes "192.168.0.1");
  applies_config = true;
  node_id = some (codes "id");
  opens_keyring = true;
  finds_algo = true;
  key_address = some (codes "a");
  writes_seed = true;
  makes_message = true;
  sets_message = true;
  signs = true;
  encodes = true;
  writes_gentx = true;
}

abbrev args : InitArgs
args = record {
  algo = codes "eth_secp256k1";
  chain_id = codes "local-4221";
  keyring_backend = codes "test";
  min_gas_prices = codes "0atest";
  num_validators = pos 2;
  starting_ip_address = codes "192.168.0.1";
  use_docker = false;
  config_changes = [];
  validator_powers = pos 100 ∷ pos 100 ∷ [];
  single_machine = true;
  node_dir_prefix = codes "node";
  output_dir = codes "out";
  node_daemon_home = codes "evmd";
}

abbrev genesis : GenesisFiles
genesis = record {
  chain_id = codes "local-4221";
  accounts = codes "a" ∷ codes "x" ∷ codes "b" ∷ [];
  balances = balance_of 10 (codes "a") ∷ balance_of 10 (codes "x") ∷ balance_of 10 (codes "b") ∷ [];
  test_supply = 30000;
  bond_supply = 15000;
  files =
      codes "out/node0/evmd/config/genesis.json" ∷ codes "out/node1/evmd/config/genesis.json" ∷ [];
  bonds = pos 1000 ∷ pos 1000 ∷ [];
}

-- The second validator has another key, and its file gets the state of the first.
abbrev other_calls : NodeCalls
other_calls = record calls { key_address = some (codes "b") }

init-two :
    init_testnet_files 10 args
      ((calls, first) ∷ (other_calls, second) ∷ [])
      (some (codes "x") ∷ [])
      true
    ≡ ok (genesis, 5 ∷ 5 ∷ [])
unfolding init_testnet_files add_extra_accounts init_nodes init_node genesis_files supply decimal
    digits_onto collect_gen_files
init-two = refl

init_testnet_files-IsGenesis_example :
    IsGenesis {State = ℕ} 10 args
      (some (codes "a"))
      (some (codes "b") ∷ [])
      (some (codes "x") ∷ [])
      (some 5)
      genesis
      (5 ∷ 5 ∷ [])
init_testnet_files-IsGenesis_example =
    init_testnet_files-IsGenesis 10 args (calls, first) ((other_calls, second) ∷ [])
      (some (codes "x") ∷ []) true genesis (5 ∷ 5 ∷ []) init-two

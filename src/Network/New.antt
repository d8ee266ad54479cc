-- ===== src/Network/New.antt =====
-- The loop of `New` in evmd/tests/network/network.go, which prepares the validators. The calls of the
-- SDK and of the file system are given by what they return.
pub mod Laws
use zk_cosmos_eth_bridge.Common.{
  ℕ, zero, suc, ◌+◌, Bool, true, false, ◌&&◌, Option, none, some, List, [], ◌∷◌, ◌++◌,
  if◌then◌else◌, ltb, ◌==◌, Bytes, codes, length, get_or, Outcome, ok, err, panic,
}
use zk_cosmos_eth_bridge.Common.Int.{ℤ}
use zk_cosmos_eth_bridge.Codec.Decimal.{decimal}
use zk_cosmos_eth_bridge.Testnet.Init.{join_path}
use zk_cosmos_eth_bridge.Network.Box.{mnemonic_box}
use zk_cosmos_eth_bridge.Network.Pool.{
  NewError, no_api_port, no_rpc_port, no_grpc_port, no_json_rpc_port, no_proxy_port, bad_address,
  dir_not_made, node_files_failed, keyring_failed, seed_not_written, message_failed, not_signed,
  gentx_not_written, config_not_read, Drawing, ◌>>=◌, ◌>>◌, lift, pure, take_port, check, given,
}

-- The settings that the construction reads; amounts are `math.Int`.
pub record Config : Type 0 where
  pub account_tokens : ℤ
  pub staking_tokens : ℤ
  pub bonded_tokens : ℤ
  pub bonded_tokens_per_validator : List ℤ
  pub num_validators : ℤ
  pub chain_id : Bytes
  pub bond_denom : Bytes
  pub min_gas_prices : Bytes
  pub signing_algo : Bytes
  pub rpc_address : Bytes
  pub json_rpc_address : Bytes
  pub api_address : Bytes
  pub grpc_address : Bytes
  pub enable_cmt_logging : Bool
  pub cleanup_dir : Bool
  pub print_mnemonic : Bool

-- What the calls for one validator return. A parsed address gives its host and its port. The making
-- of the message is that of its coins too, which panics where an amount is negative.
pub record ValidatorCalls : Type 0 where
  pub parse_url : Bytes → Option (Bytes × Bytes)
  pub makes_node_dir : Bool
  pub makes_client_dir : Bool
  pub node_files : Option (Bytes × Bytes)
  pub opens_keyring : Bool
  pub finds_algo : Bool
  pub coin_key : Option (Bytes × List Bytes)
  pub writes_seed : Bool
  pub makes_message : Outcome NewError (Unit {0})
  pub sets_message : Bool
  pub signs : Bool
  pub encodes : Bool
  pub writes_gentx : Bool
  pub reads_config : Bool

-- The addresses that a validator listens on; the first one alone has servers. An address that is
-- none is the default one, behind a flag that is off.
pub record Listening : Type 0 where
  pub api_listen : Bytes
  pub api_address : Bytes
  pub rpc_address : Bytes
  pub grpc_address : Option Bytes
  pub json_rpc_address : Option Bytes

pub record Validator : Type 0 where
  pub moniker : Bytes
  pub dir : Bytes
  pub listening : Listening
  pub proxy_app : Bytes
  pub p2p_address : Bytes
  pub node_id : Bytes
  pub pub_key : Bytes
  pub address : Bytes
  pub bonded_tokens : ℤ
  pub memo : Bytes
  pub gen_file : Bytes

abbrev pub is_set : Bytes → Bool
is_set [] = false
is_set (c ∷ s) = true

-- `fmt.Sprintf("tcp://0.0.0.0:%s", port)`, and the same with no scheme.
abbrev pub tcp : Bytes → Bytes
tcp port = codes "tcp://0.0.0.0:" ++ port

abbrev pub any_host : Bytes → Bytes
any_host port = codes "0.0.0.0:" ++ port

-- An address that is configured, or one with a port from the pool.
unfoldable pub address_or : Bytes → (Bytes → Bytes) → NewError → Drawing Bytes
address_or [] text e = take_port e >>= λ port. pure (text port)
address_or (c ∷ s) text e = pure (c ∷ s)

-- The addresses of the validators behind the first.
abbrev pub no_servers : Listening
no_servers = record {
  api_listen = [];
  api_address = [];
  rpc_address = [];
  grpc_address = none;
  json_rpc_address = none;
}

abbrev pub http : Bytes × Bytes → Bytes
http (host, port) = codes "http://" ++ (host ++ (codes ":" ++ port))

unfoldable pub first_listening : Config → ValidatorCalls → Drawing Listening
unfolding address_or
first_listening cfg c = do
  api_listen ← address_or cfg.api_address tcp no_api_port
  api_url ← given (c.parse_url api_listen) bad_address
  rpc ← address_or cfg.rpc_address tcp no_rpc_port
  grpc ← address_or cfg.grpc_address any_host no_grpc_port
  json_rpc ← address_or cfg.json_rpc_address any_host no_json_rpc_port
  pure (record {
    api_listen = api_listen;
    api_address = http api_url;
    rpc_address = rpc;
    grpc_address = some grpc;
    json_rpc_address = some json_rpc;
  })

unfoldable pub listening_of : Config → ℕ → ValidatorCalls → Drawing Listening
unfolding first_listening
listening_of cfg zero c = first_listening cfg c
listening_of cfg (suc i) c = pure no_servers

abbrev pub last_tokens : ℤ → List ℤ → ℤ
last_tokens t [] = t
last_tokens t (u ∷ ts) = last_tokens u ts

-- The tokens that validator `i` bonds.
unfoldable pub tokens_of : ℤ → List ℤ → ℕ → ℤ
tokens_of bonded [] i = bonded
tokens_of bonded (t ∷ ts) i =
    if ltb i (length (t ∷ ts)) then get_or (t ∷ ts) i t else last_tokens t ts

abbrev pub node_name : ℕ → Bytes
node_name i = codes "node" ++ decimal i

-- The mnemonic of the first validator may be printed, which panics on fewer than 24 words.
unfoldable pub print_mnemonic : Bool → ℕ → List Bytes → Outcome NewError (Unit {0})
print_mnemonic true zero words = elim (mnemonic_box words) [
  | ok b ↦ ok tt
  | err e ↦ panic
  | panic ↦ panic
]
print_mnemonic true (suc i) words = ok tt
print_mnemonic false i words = ok tt

-- The part of the loop's body behind the last port: keys, genesis transaction and files.
unfoldable pub make_validator :
    Config → Bytes → ℕ → ValidatorCalls → Listening → Bytes → Bytes → Drawing Validator
make_validator cfg base_dir i c listening proxy_port p2p_port = do
  (id, key) ← given c.node_files node_files_failed
  check c.opens_keyring keyring_failed
  check c.finds_algo keyring_failed
  (addr, secret) ← given c.coin_key keyring_failed
  lift (print_mnemonic cfg.print_mnemonic i secret)
  check c.writes_seed seed_not_written
  lift c.makes_message
  (host, port) ← given (c.parse_url (tcp p2p_port)) bad_address
  check c.sets_message message_failed
  check c.signs not_signed
  check c.encodes not_signed
  check c.writes_gentx gentx_not_written
  check c.reads_config config_not_read
  pure (record {
    moniker = node_name i;
    dir = join_path base_dir (node_name i);
    listening = listening;
    proxy_app = tcp proxy_port;
    p2p_address = tcp p2p_port;
    node_id = id;
    pub_key = key;
    address = addr;
    bonded_tokens = tokens_of cfg.bonded_tokens cfg.bonded_tokens_per_validator i;
    memo = id ++ (codes "@" ++ (host ++ (codes ":" ++ port)));
    gen_file =
        join_path (join_path base_dir (node_name i))
          (join_path (codes "evmd") (codes "config/genesis.json"));
  })

-- The body of the loop for validator `i`.
unfoldable pub prepare_validator : Config → Bytes → ℕ → ValidatorCalls → Drawing Validator
prepare_validator cfg base_dir i c = do
  listening ← listening_of cfg i c
  check c.makes_node_dir dir_not_made
  check c.makes_client_dir dir_not_made
  proxy_port ← take_port no_proxy_port
  p2p_port ← take_port no_proxy_port
  make_validator cfg base_dir i c listening proxy_port p2p_port

-- The loop over the `n` validators from `i` on.
unfoldable pub prepare_validators :
    Config → Bytes → (ℕ → ValidatorCalls) → ℕ → ℕ → Drawing (List Validator)
prepare_validators cfg base_dir calls zero i = pure []
prepare_validators cfg base_dir calls (suc n) i = do
  v ← prepare_validator cfg base_dir i (calls i)
  vs ← prepare_validators cfg base_dir calls n (suc i)
  pure (v ∷ vs)

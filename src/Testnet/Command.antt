-- ===== src/Testnet/Command.antt =====
-- The commands `testnet init-files` and `testnet start` of evmd/cmd/evmd/cmd/testnet.go: the flags that
-- they register, and the arguments that they read.
pub mod Values
pub mod Given
use zk_cosmos_eth_bridge.Common.{
  ℕ, ◌+◌, ◌*◌, Bool, true, false, Option, none, some, List, [], ◌∷◌, ◌++◌, Bytes, codes, Outcome,
  ok, err, panic, ◌>>=◌, or_err,
}
use zk_cosmos_eth_bridge.Common.Int.{ℤ, pos}
use zk_cosmos_eth_bridge.Testnet.Flags.{
  FlagValue, int, text, bool, duration, ints, texts, Flags, get_text, get_int, get_bool, get_ints,
  get_texts, get_duration,
}
use zk_cosmos_eth_bridge.Testnet.Powers.{PowerError, parse_validator_powers}
use zk_cosmos_eth_bridge.Testnet.Init.{InitArgs}
use zk_cosmos_eth_bridge.Testnet.Start.{StartArgs}

-- `addTestnetFlagsToCmd`, for the bond denomination of the SDK.
unfoldable pub testnet_flags : Bytes → Flags
testnet_flags denom =
    (codes "validator-count", int (pos 4))
    ∷ (codes "output-dir", text (codes "./.testnets"))
    ∷ (codes "chain-id", text [])
    ∷ (codes "minimum-gas-prices", text (codes "0.000006" ++ denom))
    ∷ (codes "key-type", text (codes "eth_secp256k1"))
    ∷ (codes "validator-powers", ints false [])
    ∷ []

-- The flags of `testnetInitFilesCmd`; durations are in seconds, and the keyring backend's default is
-- the SDK's.
unfoldable pub init_flags : Bytes → Bytes → Flags
unfolding testnet_flags
init_flags denom backend =
    testnet_flags denom
    ++ ((codes "commit-timeout", duration 5)
        ∷ (codes "single-host", bool false)
        ∷ (codes "node-dir-prefix", text (codes "node"))
        ∷ (codes "node-daemon-home", text (codes "evmd"))
        ∷ (codes "starting-ip-address", text (codes "192.168.0.1"))
        ∷ (codes "keyring-backend", text backend)
        ∷ (codes "use-docker", bool false)
        ∷ (codes "config-changes", texts false [])
        ∷ [])

-- The flags of `testnetStartCmd`.
unfoldable pub start_flags : Bytes → Flags
unfolding testnet_flags
start_flags denom =
    testnet_flags denom
    ++ ((codes "enable-logging", bool false)
        ∷ (codes "rpc.address", text (codes "tcp://0.0.0.0:26657"))
        ∷ (codes "api.address", text (codes "tcp://0.0.0.0:1317"))
        ∷ (codes "grpc.address", text (codes "0.0.0.0:9090"))
        ∷ (codes "print-mnemonic", bool true)
        ∷ [])

pub data CommandError : Type 0 where
  no_commit_timeout : CommandError
  bad_powers : PowerError → CommandError

abbrev pub or_bad_powers : Outcome PowerError (List ℤ) → Outcome CommandError (List ℤ)
or_bad_powers (ok ps) = ok ps
or_bad_powers (err e) = err (bad_powers e)
or_bad_powers panic = panic

-- What the run of `init-files` reads: the time that the consensus waits after a commit, and the
-- arguments.
unfoldable pub init_args : Flags → Outcome CommandError (ℕ × InitArgs)
init_args flags = do
  timeout ← or_err (get_duration (codes "commit-timeout") flags) no_commit_timeout
  powers ← or_bad_powers (
      parse_validator_powers (get_ints (codes "validator-powers") flags)
        (get_int (codes "validator-count") flags))
  ok (
    timeout,
    record {
      algo = get_text (codes "key-type") flags;
      chain_id = get_text (codes "chain-id") flags;
      keyring_backend = get_text (codes "keyring-backend") flags;
      min_gas_prices = get_text (codes "minimum-gas-prices") flags;
      node_daemon_home = get_text (codes "node-daemon-home") flags;
      node_dir_prefix = get_text (codes "node-dir-prefix") flags;
      num_validators = get_int (codes "validator-count") flags;
      output_dir = get_text (codes "output-dir") flags;
      starting_ip_address = get_text (codes "starting-ip-address") flags;
      single_machine = get_bool (codes "single-host") flags;
      use_docker = get_bool (codes "use-docker") flags;
      config_changes = get_texts (codes "config-changes") flags;
      validator_powers = powers;
    },
  )

-- What the run of `start` reads.
unfoldable pub start_args : Flags → Outcome CommandError StartArgs
start_args flags = do
  powers ← or_bad_powers (
      parse_validator_powers (get_ints (codes "validator-powers") flags)
        (get_int (codes "validator-count") flags))
  ok (record {
    algo = get_text (codes "key-type") flags;
    api_address = get_text (codes "api.address") flags;
    chain_id = get_text (codes "chain-id") flags;
    enable_logging = get_bool (codes "enable-logging") flags;
    grpc_address = get_text (codes "grpc.address") flags;
    min_gas_prices = get_text (codes "minimum-gas-prices") flags;
    num_validators = get_int (codes "validator-count") flags;
    output_dir = get_text (codes "output-dir") flags;
    print_mnemonic = get_bool (codes "print-mnemonic") flags;
    rpc_address = get_text (codes "rpc.address") flags;
    validator_powers = powers;
  })

-- ===== src/Testnet/Command/Given.antt =====
-- What the commands of evmd/cmd/evmd/cmd/testnet.go read of a command line. They drop the errors of
-- reading a flag.
use zk_cosmos_eth_bridge.Common.{
  ℕ, ◌≡◌, refl, ap, sym, ◌∙◌, Bool, true, false, Option, none, some, List, [], ◌∷◌, ◌++◌, inr,
  Bytes, codes, Outcome, ok, ◌>>=◌,
}
use zk_cosmos_eth_bridge.Common.Int.{ℤ, pos}
use zk_cosmos_eth_bridge.Testnet.Flags.{
  FlagValue, int, text, bool, duration, ints, texts, Flags, normalize, lookup, parse_line, get_text,
  get_int, get_bool, get_ints, get_texts, get_duration, lookup-parse_line, then_parse,
  set_flag-unknown,
}
use zk_cosmos_eth_bridge.Testnet.Powers.{parse_validator_powers}
use zk_cosmos_eth_bridge.Testnet.Init.{InitArgs}
use zk_cosmos_eth_bridge.Testnet.Start.{StartArgs}
use zk_cosmos_eth_bridge.Testnet.Command.Values.{
  Line, given_text, given_int, given_bool, given_duration, all_ints, all_texts, given-duration,
  given-ints, given-texts,
}
use zk_cosmos_eth_bridge.Testnet.Command.{
  testnet_flags, init_flags, start_flags, CommandError, or_bad_powers, init_args, start_args,
}

module _ (flags : Flags) (line : Line) {parsed : Flags}
    (h : parse_line flags line ≡ some parsed) where
  read_text :
      (m d : Bytes) → lookup m flags ≡ some (text d) → get_text m parsed ≡ given_text m d line
  read_text m d at =
      ap (λ (o : Option FlagValue). elim o [ some (text s) ↦ s | _ ↦ [] ])
        (lookup-parse_line m (text d) flags line parsed h at)

  read_int :
      (m : Bytes) (d : ℤ) → lookup m flags ≡ some (int d) → get_int m parsed ≡ given_int m d line
  read_int m d at =
      ap (λ (o : Option FlagValue). elim o [ some (int n) ↦ n | _ ↦ pos 0 ])
        (lookup-parse_line m (int d) flags line parsed h at)

  read_bool :
      (m : Bytes) (d : Bool)
      → lookup m flags ≡ some (bool d)
      → get_bool m parsed ≡ given_bool m d line
  read_bool m d at =
      ap (λ (o : Option FlagValue). elim o [ some (bool b) ↦ b | _ ↦ false ])
        (lookup-parse_line m (bool d) flags line parsed h at)

  read_ints :
      (m : Bytes) → lookup m flags ≡ some (ints false []) → get_ints m parsed ≡ all_ints m line
  read_ints m at =
      let (c, e) = given-ints m false [] line (inr refl) in
      ap (λ (o : Option FlagValue). elim o [ some (ints c ns) ↦ ns | _ ↦ [] ])
        (lookup-parse_line m (ints false []) flags line parsed h at ∙ ap some e)

  read_texts :
      (m : Bytes) → lookup m flags ≡ some (texts false []) → get_texts m parsed ≡ all_texts m line
  read_texts m at =
      let (c, e) = given-texts m false [] line (inr refl) in
      ap (λ (o : Option FlagValue). elim o [ some (texts c ts) ↦ ts | _ ↦ [] ])
        (lookup-parse_line m (texts false []) flags line parsed h at ∙ ap some e)

  read_duration :
      (m : Bytes) (d : ℕ)
      → lookup m flags ≡ some (duration d)
      → get_duration m parsed ≡ some (given_duration m d line)
  read_duration m d at =
      let (t, e) = given-duration m d line in
      ap (λ (o : Option FlagValue). elim o [ some (duration t) ↦ some t | _ ↦ none ])
        (lookup-parse_line m (duration d) flags line parsed h at ∙ ap some e)
      ∙ ap (λ (v : FlagValue). some (elim v [ duration t ↦ t | _ ↦ 0 ])) (sym e)

-- The arguments of `start` that a command line asks for, with the powers made of it.
abbrev pub start_asked : Bytes → Line → List ℤ → StartArgs
start_asked denom line powers = record {
  algo = given_text (codes "key-type") (codes "eth_secp256k1") line;
  api_address = given_text (codes "api.address") (codes "tcp://0.0.0.0:1317") line;
  chain_id = given_text (codes "chain-id") [] line;
  enable_logging = given_bool (codes "enable-logging") false line;
  grpc_address = given_text (codes "grpc.address") (codes "0.0.0.0:9090") line;
  min_gas_prices = given_text (codes "minimum-gas-prices") (codes "0.000006" ++ denom) line;
  num_validators = given_int (codes "validator-count") (pos 4) line;
  output_dir = given_text (codes "output-dir") (codes "./.testnets") line;
  print_mnemonic = given_bool (codes "print-mnemonic") true line;
  rpc_address = given_text (codes "rpc.address") (codes "tcp://0.0.0.0:26657") line;
  validator_powers = powers;
}

abbrev pub powers_asked : Line → Outcome CommandError (List ℤ)
powers_asked line = or_bad_powers (
    parse_validator_powers (all_ints (codes "validator-powers") line)
      (given_int (codes "validator-count") (pos 4) line))

-- Behind a command line that is accepted, whatever flags the command inherits, the arguments of `start`
-- are the last values that the line gives to each flag, or the documented defaults, the powers are
-- made of all those that the line gives, and the errors are those of the powers.
pub start_args-asked :
    (denom : Bytes) (inherited : Flags) (line : List (Bytes × FlagValue)) (parsed : Flags)
    → parse_line (start_flags denom ++ inherited) line ≡ some parsed
    → start_args parsed ≡ (powers_asked line >>= λ powers. ok (start_asked denom line powers))
unfolding start_args start_flags testnet_flags lookup
start_args-asked denom inherited line parsed h =
    let t = read_text (start_flags denom ++ inherited) line h in
    let b = read_bool (start_flags denom ++ inherited) line h in
    simp (
      t (codes "key-type") (codes "eth_secp256k1") refl,
      t (codes "api.address") (codes "tcp://0.0.0.0:1317") refl,
      t (codes "chain-id") [] refl,
      b (codes "enable-logging") false refl,
      t (codes "grpc.address") (codes "0.0.0.0:9090") refl,
      t (codes "minimum-gas-prices") (codes "0.000006" ++ denom) refl,
      read_int (start_flags denom ++ inherited) line h (codes "validator-count") (pos 4) refl,
      t (codes "output-dir") (codes "./.testnets") refl,
      b (codes "print-mnemonic") true refl,
      t (codes "rpc.address") (codes "tcp://0.0.0.0:26657") refl,
      read_ints (start_flags denom ++ inherited) line h (codes "validator-powers") refl,
    )

-- The time-out and the arguments of `init-files` that a command line asks for.
abbrev pub init_asked : Bytes → Bytes → Line → List ℤ → ℕ × InitArgs
init_asked denom backend line powers = (
  given_duration (codes "commit-timeout") 5 line,
  record {
    algo = given_text (codes "key-type") (codes "eth_secp256k1") line;
    chain_id = given_text (codes "chain-id") [] line;
    keyring_backend = given_text (codes "keyring-backend") backend line;
    min_gas_prices = given_text (codes "minimum-gas-prices") (codes "0.000006" ++ denom) line;
    node_daemon_home = given_text (codes "node-daemon-home") (codes "evmd") line;
    node_dir_prefix = given_text (codes "node-dir-prefix") (codes "node") line;
    num_validators = given_int (codes "validator-count") (pos 4) line;
    output_dir = given_text (codes "output-dir") (codes "./.testnets") line;
    starting_ip_address = given_text (codes "starting-ip-address") (codes "192.168.0.1") line;
    single_machine = given_bool (codes "single-host") false line;
    use_docker = given_bool (codes "use-docker") false line;
    config_changes = all_texts (codes "config-changes") line;
    validator_powers = powers;
  },
)

-- The same of `init-files`: its time-out is always read.
pub init_args-asked :
    (denom backend : Bytes) (inherited : Flags) (line : List (Bytes × FlagValue)) (parsed : Flags)
    → parse_line (init_flags denom backend ++ inherited) line ≡ some parsed
    → init_args parsed ≡ (powers_asked line >>= λ powers. ok (init_asked denom backend line powers))
unfolding init_args init_flags testnet_flags lookup
init_args-asked denom backend inherited line parsed h =
    let flags = init_flags denom backend ++ inherited in
    let t = read_text flags line h in
    let b = read_bool flags line h in
    simp (
      read_duration flags line h (codes "commit-timeout") 5 refl,
      t (codes "key-type") (codes "eth_secp256k1") refl,
      t (codes "chain-id") [] refl,
      t (codes "keyring-backend") backend refl,
      t (codes "minimum-gas-prices") (codes "0.000006" ++ denom) refl,
      t (codes "node-daemon-home") (codes "evmd") refl,
      t (codes "node-dir-prefix") (codes "node") refl,
      read_int flags line h (codes "validator-count") (pos 4) refl,
      t (codes "output-dir") (codes "./.testnets") refl,
      t (codes "starting-ip-address") (codes "192.168.0.1") refl,
      b (codes "single-host") false refl,
      b (codes "use-docker") false refl,
      read_texts flags line h (codes "config-changes") refl,
      read_ints flags line h (codes "validator-powers") refl,
    )

-- A flag that is not registered is refused.
pub parse_line-unknown :
    (name : Bytes) (v : FlagValue) (flags : Flags) (line : Line)
    → lookup (normalize name) flags ≡ none
    → parse_line flags ((name, v) ∷ line) ≡ none
unfolding parse_line
parse_line-unknown name v flags line h =
    ap (λ o. then_parse o (λ set. parse_line set line))
      (set_flag-unknown (normalize name) v flags h)

-- ===== src/Tests/Commands.antt =====
-- Command lines of the testnet's commands.
use zk_cosmos_eth_bridge.Common.{
  ◌≡◌, refl, true, false, none, some, List, [], ◌∷◌, ◌++◌, Bytes, codes, ok, ◌>>=◌,
}
use zk_cosmos_eth_bridge.Common.Int.{pos}
use zk_cosmos_eth_bridge.Testnet.Flags.{
  FlagValue, int, text, bool, ints, lookup, set_flag, parse_line, Flags,
}
use zk_cosmos_eth_bridge.Testnet.Command.{testnet_flags, start_flags, start_args}
use zk_cosmos_eth_bridge.Testnet.Command.Given.{
  powers_asked, start_asked, start_args-asked, parse_line-unknown,
}

-- The old name of the key type, and two counts, of which the last one counts, and two lists of powers.
abbrev line : List (Bytes × FlagValue)
line =
    (codes "validator-count", int (pos 3))
    ∷ (codes "algo", text (codes "secp256k1"))
    ∷ (codes "validator-powers", ints false (pos 5 ∷ []))
    ∷ (codes "home", text (codes "h"))
    ∷ (codes "validator-count", int (pos 2))
    ∷ (codes "validator-powers", ints false (pos 3 ∷ []))
    ∷ []

-- Two of the flags that the command inherits.
abbrev inherited : Flags
inherited = (codes "home", text (codes "evmd")) ∷ (codes "trace", bool false) ∷ []

abbrev parsed : Flags
parsed =
    (codes "validator-count", int (pos 2))
    ∷ (codes "output-dir", text (codes "./.testnets"))
    ∷ (codes "chain-id", text [])
    ∷ (codes "minimum-gas-prices", text (codes "0.000006aevmos"))
    ∷ (codes "key-type", text (codes "secp256k1"))
    ∷ (codes "validator-powers", ints true (pos 5 ∷ pos 3 ∷ []))
    ∷ (codes "enable-logging", bool false)
    ∷ (codes "rpc.address", text (codes "tcp://0.0.0.0:26657"))
    ∷ (codes "api.address", text (codes "tcp://0.0.0.0:1317"))
    ∷ (codes "grpc.address", text (codes "0.0.0.0:9090"))
    ∷ (codes "print-mnemonic", bool true)
    ∷ (codes "home", text (codes "h"))
    ∷ (codes "trace", bool false)
    ∷ []

parse-start : parse_line (start_flags (codes "aevmos") ++ inherited) line ≡ some parsed
unfolding start_flags testnet_flags parse_line set_flag
parse-start = refl

start_args-asked_example :
    start_args parsed
    ≡ (powers_asked line >>= λ powers. ok (start_asked (codes "aevmos") line powers))
start_args-asked_example = start_args-asked (codes "aevmos") inherited line parsed parse-start

-- The flag that the help texts name is unknown to the command.
refuses-v : parse_line (start_flags (codes "aevmos")) ((codes "v", int (pos 4)) ∷ []) ≡ none
unfolding start_flags testnet_flags lookup
refuses-v = parse_line-unknown (codes "v") (int (pos 4)) (start_flags (codes "aevmos")) [] refl

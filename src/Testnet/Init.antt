-- ===== src/Testnet/Init.antt =====
-- `initTestnetFiles`, `addExtraAccounts` and `initGenFiles` of evmd/cmd/evmd/cmd/testnet.go, with the
-- `collectGenFiles` of Testnet/Collect. The calls of the SDK and the files are given by what they return.
pub mod Nodes
pub mod Laws
use zk_cosmos_eth_bridge.Common.{
  ℕ, zero, suc, ◌+◌, ◌*◌, Bool, true, false, Option, none, some, List, [], ◌∷◌, ◌++◌, map,
  if◌then◌else◌, Bytes, codes, text_eq, get_elem?, Outcome, ok, err, panic, ◌>>=◌, ◌>>◌, or_err,
}
use zk_cosmos_eth_bridge.Common.Int.{ℤ, pos, negsuc}
use zk_cosmos_eth_bridge.Codec.Decimal.{decimal}
use zk_cosmos_eth_bridge.Testnet.Powers.{tokens_from_power}
use zk_cosmos_eth_bridge.Testnet.Collect.{Collected, CollectError, collect_gen_files}

-- What the calls for one validator return; `ip` is what `getIP` gives.
pub record NodeCalls : Type 0 where
  pub makes_dir : Bool
  pub ip : Option Bytes
  pub applies_config : Bool
  pub node_id : Option Bytes
  pub opens_keyring : Bool
  pub finds_algo : Bool
  pub key_address : Option Bytes
  pub writes_seed : Bool
  pub makes_message : Bool
  pub sets_message : Bool
  pub signs : Bool
  pub encodes : Bool
  pub writes_gentx : Bool

-- A call that failed, and whether the output directory was removed then.
pub data InitError : Type 0 where
  removed_output kept_output : InitError

pub record InitArgs : Type 0 where
  pub algo : Bytes
  pub chain_id : Bytes
  pub keyring_backend : Bytes
  pub min_gas_prices : Bytes
  pub node_daemon_home : Bytes
  pub node_dir_prefix : Bytes
  pub num_validators : ℤ
  pub output_dir : Bytes
  pub starting_ip_address : Bytes
  pub single_machine : Bool
  pub use_docker : Bool
  pub config_changes : List Bytes
  pub validator_powers : List ℤ

-- A balance: the tokens of the test denomination and of the bond denomination.
pub record Balance : Type 0 where
  pub owner : Bytes
  pub test_tokens : ℕ
  pub bond_tokens : ℕ

-- What a validator leaves: `extra` has the owners of the accounts that are added with it, and `bonded`
-- the tokens that its genesis transaction bonds.
pub record NodeFiles : Type 0 where
  pub node_id : Bytes
  pub memo : Bytes
  pub gen_file : Bytes
  pub owner : Bytes
  pub extra : List Bytes
  pub bonded : ℤ

abbrev pub must : Bool → InitError → Outcome InitError (Unit {0})
must true e = ok tt
must false e = err e

abbrev pub p2p_port : Bool → ℕ → ℕ
p2p_port true i = 16656 + i
p2p_port false i = 26656

-- `filepath.Join` of parts that have no separators at their ends.
abbrev pub join_path : Bytes → Bytes → Bytes
join_path a b = a ++ (codes "/" ++ b)

abbrev pub node_dir : InitArgs → ℕ → Bytes
node_dir args i =
    join_path (join_path args.output_dir (args.node_dir_prefix ++ decimal i)) args.node_daemon_home

-- `addExtraAccounts`, of the addresses that the keyring gives for the mnemonics; an error panics.
unfoldable pub add_extra_accounts : List (Option Bytes) → Outcome InitError (List Bytes)
add_extra_accounts [] = ok []
add_extra_accounts (none ∷ extra) = panic
add_extra_accounts (some a ∷ extra) = add_extra_accounts extra >>= λ accounts. ok (a ∷ accounts)

-- They are added with the first validator.
abbrev pub extra_at : ℕ → List (Option Bytes) → Outcome InitError (List Bytes)
extra_at zero extra = add_extra_accounts extra
extra_at (suc i) extra = ok []

-- `args.validatorPowers[i]`
abbrev pub power_or_panic : Option ℤ → Outcome InitError ℤ
power_or_panic none = panic
power_or_panic (some power) = ok power

-- `NewCoin`, which panics on a negative amount.
abbrev pub coin_or_panic : ℤ → Outcome InitError ℤ
coin_or_panic (pos n) = ok (pos n)
coin_or_panic (negsuc n) = panic

-- The body of the loop for validator `i`.
unfoldable pub init_node :
    ℕ → List (Option Bytes) → InitArgs → ℕ → NodeCalls → Outcome InitError NodeFiles
init_node power_reduction extra args i c = do
  must c.makes_dir removed_output
  ip ← or_err (if args.single_machine then some (codes "127.0.0.1") else c.ip) removed_output
  must c.applies_config removed_output
  id ← or_err c.node_id removed_output
  must c.opens_keyring kept_output
  must c.finds_algo kept_output
  addr ← or_err c.key_address removed_output
  must c.writes_seed kept_output
  accounts ← extra_at i extra
  power ← power_or_panic (get_elem? args.validator_powers i)
  tokens ← coin_or_panic (tokens_from_power power_reduction power)
  must c.makes_message kept_output
  must c.sets_message kept_output
  must c.signs kept_output
  must c.encodes kept_output
  must c.writes_gentx kept_output
  ok (record {
    node_id = id;
    memo = id ++ (codes "@" ++ (ip ++ (codes ":" ++ decimal (p2p_port args.single_machine i))));
    gen_file = join_path (node_dir args i) (codes "config/genesis.json");
    owner = addr;
    extra = accounts;
    bonded = tokens;
  })

-- The loop over the validators from `i` on, with the calls of each.
unfoldable pub init_nodes :
    ℕ → List (Option Bytes) → InitArgs → ℕ → List NodeCalls → Outcome InitError (List NodeFiles)
init_nodes power_reduction extra args i [] = ok []
init_nodes power_reduction extra args i (c ∷ calls) = do
  node ← init_node power_reduction extra args i c
  rest ← init_nodes power_reduction extra args (suc i) calls
  ok (node ∷ rest)

-- `TokensFromConsensusPower` of 1000 and of 500.
abbrev pub balance_of : ℕ → Bytes → Balance
balance_of power_reduction owner = record {
  owner = owner;
  test_tokens = 1000 * power_reduction;
  bond_tokens = 500 * power_reduction;
}

-- The owners of accounts and balances, as they are appended.
abbrev pub owners : List NodeFiles → List Bytes
owners [] = []
owners (node ∷ nodes) = node.owner ∷ (node.extra ++ owners nodes)

-- `bonds` has the tokens that the genesis transactions bond.
pub record GenesisFiles : Type 0 where
  pub chain_id : Bytes
  pub accounts : List Bytes
  pub balances : List Balance
  pub test_supply : ℕ
  pub bond_supply : ℕ
  pub files : List Bytes
  pub bonds : List ℤ

-- The supply adds the coins of each balance.
unfoldable pub supply : (Balance → ℕ) → ℕ → List Balance → ℕ
supply part sum [] = sum
supply part sum (b ∷ balances) = supply part (sum + part b) balances

-- The genesis that `initGenFiles` saves in every file; the sanitizing sorts the balances.
unfoldable pub genesis_files : ℕ → Bytes → List NodeFiles → GenesisFiles
genesis_files power_reduction chain_id nodes =
    let balances = map (balance_of power_reduction) (owners nodes) in
    record {
      chain_id = chain_id;
      accounts = owners nodes;
      balances = balances;
      test_supply = supply (λ b. b.test_tokens) 0 balances;
      bond_supply = supply (λ b. b.bond_tokens) 0 balances;
      files = map (λ n. n.gen_file) nodes;
      bonds = map (λ n. n.bonded) nodes;
    }

abbrev pub chain_or_default : Bytes → Bytes
chain_or_default chain_id = if text_eq chain_id [] then codes "local-4221" else chain_id

-- The error of `collectGenFiles` is returned, and the output directory is kept.
abbrev pub or_kept : {A : Type 0} → Outcome CollectError A → Outcome InitError A
or_kept (ok a) = ok a
or_kept (err e) = err kept_output
or_kept panic = panic

-- `calls` has what the calls for each validator return, those of the collecting included. The result
-- is the genesis that `initGenFiles` saves, and the states that `collectGenFiles` leaves in its files.
unfoldable pub init_testnet_files :
    {State : Type 0}
    → ℕ
    → InitArgs
    → List (NodeCalls × Collected State)
    → List (Option Bytes)
    → Bool
    → Outcome InitError (GenesisFiles × List State)
init_testnet_files power_reduction args calls extra saves = do
  nodes ← init_nodes power_reduction extra args 0 (map (λ c. c.0) calls)
  must saves kept_output
  states ← or_kept (collect_gen_files none (map (λ c. c.1) calls))
  ok (genesis_files power_reduction (chain_or_default args.chain_id) nodes, states)

-- ===== src/Root.antt =====
-- evmd/cmd/evmd/cmd/root.go and creator.go: how the application is made from the options of the command
-- line, and exported. Options are values that the `cast` library converts.
pub mod Creator
pub mod Agree
use zk_cosmos_eth_bridge.Common.{
  ℕ, zero, suc, Bool, true, false, Option, none, some, List, [], ◌∷◌, ◌++◌, map, if◌then◌else◌,
  Bytes, codes, text_eq, Outcome, ok, err, panic, ◌>>=◌, ◌>>◌, or_err,
}
use zk_cosmos_eth_bridge.Common.Int.{ℤ, pos, negsuc}

-- The names of options that are read.
pub data OptionName : Type 0 where
  flag_chain_id flag_home flag_min_gas_prices flag_query_gas_limit flag_halt_height flag_halt_time
        flag_min_retain_blocks flag_inter_block_cache flag_trace flag_index_events
        flag_snapshot_interval flag_snapshot_keep_recent flag_iavl_cache_size
        flag_disable_iavl_fast_node flag_inv_check_period genesis_file versiondb_enable
        evm_chain_id_flag flag_unsafe_skip_upgrades evm_tracer evm_max_tx_gas_wanted :
      OptionName

abbrev pub is_inv_check_period : OptionName → Bool
is_inv_check_period flag_inv_check_period = true
is_inv_check_period other = false

-- The options: what `Get` gives for a name, and whether they are viper's.
pub record Options (V : Type 0) : Type 0 where
  pub get : OptionName → Option V
  pub is_viper : Bool

-- The conversions of `cast`, which give a zero value where there is none, and the type assertion to
-- a string.
pub record Cast (V : Type 0) : Type 0 where
  pub to_bool : Option V → Bool
  pub to_string : Option V → Bytes
  pub to_uint64 : Option V → ℕ
  pub to_uint32 : Option V → ℕ
  pub to_int : Option V → ℤ
  pub to_int_slice : Option V → List ℤ
  pub to_string_slice : Option V → List Bytes
  pub as_string : Option V → Option Bytes
  pub one : V

-- What the SDK and the files give for some options.
pub record Environment (V Pruning Store : Type 0) : Type 0 where
  pub pruning_options : Options V → Option Pruning
  pub chain_id_from_home : Bytes → Option Bytes
  pub snapshot_store : Options V → Option Store

-- An option of the base application, as it is set.
pub data BaseOption (Pruning Store : Type 0) : Type 0 where
  chain_id : Bytes → BaseOption Pruning Store
  pruning : Pruning → BaseOption Pruning Store
  min_gas_prices : Bytes → BaseOption Pruning Store
  query_gas_limit : ℕ → BaseOption Pruning Store
  halt_height : ℕ → BaseOption Pruning Store
  halt_time : ℕ → BaseOption Pruning Store
  min_retain_blocks : ℕ → BaseOption Pruning Store
  inter_block_cache : Bool → BaseOption Pruning Store
  trace : Bool → BaseOption Pruning Store
  index_events : List Bytes → BaseOption Pruning Store
  snapshot : Store → ℕ → ℕ → BaseOption Pruning Store
  iavl_cache_size : ℤ → BaseOption Pruning Store
  iavl_disable_fast_node : Bool → BaseOption Pruning Store

-- The arguments of `NewExampleApp`.
pub record AppArgs (V Pruning Store : Type 0) : Type 0 where
  pub load_latest : Bool
  pub options : Options V
  pub base_options : List (BaseOption Pruning Store)

pub data RootError : Type 0 where
  home_not_set not_viper no_chain_id height_not_loaded export_failed : RootError

-- `viperAppOpts.Set(server.FlagInvCheckPeriod, v)`
abbrev pub set_inv_check_period : {V : Type 0} → V → Options V → Options V
set_inv_check_period v o = record o { get = λ n. if is_inv_check_period n then some v else o.get n }

-- A panic on an error.
abbrev pub or_panic : {A : Type 0} → Option A → Outcome RootError A
or_panic none = panic
or_panic (some a) = ok a

-- `height == -1`
abbrev pub is_latest : ℤ → Bool
is_latest (negsuc zero) = true
is_latest (negsuc (suc n)) = false
is_latest (pos n) = false

module _ {V Pruning Store : Type 0} (cast : Cast V) (env : Environment V Pruning Store) where
  -- The flag, or else the chain of the home directory.
  unfoldable pub get_chain_id_from_opts : Options V → Outcome RootError Bytes
  get_chain_id_from_opts o = elim (cast.to_string (o.get flag_chain_id)) [
    | [] ↦ or_err (env.chain_id_from_home (cast.to_string (o.get flag_home))) no_chain_id
    | c ∷ s ↦ ok (c ∷ s)
  ]

  abbrev pub base_options : Options V → Pruning → Store → Bytes → List (BaseOption Pruning Store)
  base_options o prune store id =
      pruning prune
      ∷ min_gas_prices (cast.to_string (o.get flag_min_gas_prices))
      ∷ query_gas_limit (cast.to_uint64 (o.get flag_query_gas_limit))
      ∷ halt_height (cast.to_uint64 (o.get flag_halt_height))
      ∷ halt_time (cast.to_uint64 (o.get flag_halt_time))
      ∷ min_retain_blocks (cast.to_uint64 (o.get flag_min_retain_blocks))
      ∷ inter_block_cache (cast.to_bool (o.get flag_inter_block_cache))
      ∷ trace (cast.to_bool (o.get flag_trace))
      ∷ index_events (cast.to_string_slice (o.get flag_index_events))
      ∷ snapshot store (cast.to_uint64 (o.get flag_snapshot_interval))
          (cast.to_uint32 (o.get flag_snapshot_keep_recent))
      ∷ iavl_cache_size (cast.to_int (o.get flag_iavl_cache_size))
      ∷ iavl_disable_fast_node (cast.to_bool (o.get flag_disable_iavl_fast_node))
      ∷ chain_id id
      ∷ []

  -- An error of `getChainIDFromOpts` makes `newApp` panic.
  abbrev pub chain_or_panic : Outcome RootError Bytes → Outcome RootError Bytes
  chain_or_panic (ok id) = ok id
  chain_or_panic (err e) = panic
  chain_or_panic panic = panic

  -- `newApp`: what it makes the application of.
  unfoldable pub new_app : Options V → Outcome RootError (AppArgs V Pruning Store)
  unfolding get_chain_id_from_opts
  new_app o = do
    prune ← or_panic (env.pruning_options o)
    id ← chain_or_panic (get_chain_id_from_opts o)
    store ← or_panic (env.snapshot_store o)
    ok (record { load_latest = true; options = o; base_options = base_options o prune store id })

  abbrev pub home_checked : Option Bytes → Options V → Outcome RootError (Options V)
  home_checked none o = err home_not_set
  home_checked (some []) o = err home_not_set
  home_checked (some (c ∷ s)) o =
      if o.is_viper then ok (set_inv_check_period cast.one o) else err not_viper

  -- The checks at the head of both exports, which give the options to export with.
  unfoldable pub export_options : Options V → Outcome RootError (Options V)
  export_options o = home_checked (cast.as_string (o.get flag_home)) o

  -- `appExport` up to the loading: the application that is exported.
  unfoldable pub export_args : ℤ → Options V → Outcome RootError (AppArgs V Pruning Store)
  unfolding get_chain_id_from_opts export_options
  export_args height o = do
    o1 ← export_options o
    id ← get_chain_id_from_opts o1
    ok (record { load_latest = is_latest height; options = o1; base_options = chain_id id ∷ [] })

-- The application, as the exports use it.
pub record AppCalls (V Pruning Store App Exported : Type 0) : Type 0 where
  pub new_example_app : AppArgs V Pruning Store → App
  pub load_height : ℤ → App → Option App
  pub export_app : Bool → List Bytes → List Bytes → App → Outcome RootError Exported

module _ {V Pruning Store App Exported : Type 0} (cast : Cast V) (env : Environment V Pruning Store)
    (calls : AppCalls V Pruning Store App Exported) where
  abbrev pub loaded : ℤ → App → Outcome RootError App
  loaded height app =
      if is_latest height then ok app else or_err (calls.load_height height app) height_not_loaded

  -- `appExport`
  unfoldable pub app_export :
      ℤ → Bool → List Bytes → List Bytes → Options V → Outcome RootError Exported
  unfolding export_args
  app_export height for_zero_height jail_allowed_addrs modules o = do
    args ← export_args cast env height o
    app ← loaded height (calls.new_example_app args)
    calls.export_app for_zero_height jail_allowed_addrs modules app

-- ===== src/App/Settings.antt =====
-- What `NewExampleApp` of evmd/app.go reads of the options that it is given.
use zk_cosmos_eth_bridge.Common.{ℕ, Bool, List, Bytes, if◌then◌else◌, Outcome, ok, panic}
use zk_cosmos_eth_bridge.Common.Int.{ℤ}
use zk_cosmos_eth_bridge.Root.{
  flag_home, versiondb_enable, evm_chain_id_flag, flag_unsafe_skip_upgrades, evm_tracer,
  evm_max_tx_gas_wanted, Options, Cast, RootError,
}

pub record Settings : Type 0 where
  pub evm_chain_id : ℕ
  pub skip_upgrade_heights : List ℤ
  pub home_path : Bytes
  pub tracer : Bytes
  pub max_gas_wanted : ℕ

module _ {V : Type 0} (cast : Cast V) (o : Options V) where
  abbrev pub refuses_version_db : Bool
  refuses_version_db = cast.to_bool (o.get versiondb_enable)

  abbrev pub read_evm_chain_id : ℕ
  read_evm_chain_id = cast.to_uint64 (o.get evm_chain_id_flag)

  -- The keys of the map of skipped heights, in the order of the option.
  abbrev pub read_skip_upgrade_heights : List ℤ
  read_skip_upgrade_heights = cast.to_int_slice (o.get flag_unsafe_skip_upgrades)

  abbrev pub read_home_path : Bytes
  read_home_path = cast.to_string (o.get flag_home)

  abbrev pub read_tracer : Bytes
  read_tracer = cast.to_string (o.get evm_tracer)

  abbrev pub read_max_gas_wanted : ℕ
  read_max_gas_wanted = cast.to_uint64 (o.get evm_max_tx_gas_wanted)

  -- With the version database enabled the construction panics.
  unfoldable pub read_settings : Outcome RootError Settings
  read_settings =
      if refuses_version_db
      then panic
      else ok (record {
        evm_chain_id = read_evm_chain_id;
        skip_upgrade_heights = read_skip_upgrade_heights;
        home_path = read_home_path;
        tracer = read_tracer;
        max_gas_wanted = read_max_gas_wanted;
      })

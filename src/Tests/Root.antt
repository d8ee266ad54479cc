-- ===== src/Tests/Root.antt =====
-- The application from the options of a command line: options are texts or numbers.
use zk_cosmos_eth_bridge.Common.{ℕ, true, false, Option, none, some, [], ◌∷◌, Bytes, codes}
use zk_cosmos_eth_bridge.Common.Int.{pos}
use zk_cosmos_eth_bridge.Root.{
  OptionName, flag_chain_id, flag_home, evm_chain_id_flag, Options, Cast, Environment, AppArgs,
  chain_id, pruning, min_gas_prices, halt_height, halt_time, min_retain_blocks, inter_block_cache,
  trace, index_events, snapshot, iavl_cache_size, base_options, set_inv_check_period,
}
use zk_cosmos_eth_bridge.Root.Creator.{CreatorEnvironment, empty_options}

data Given : Type 0 where
  word : Bytes → Given
  natural : ℕ → Given

abbrev word_of : Option Given → Bytes
word_of none = []
word_of (some (word w)) = w
word_of (some (natural n)) = []

abbrev natural_of : Option Given → ℕ
natural_of none = 0
natural_of (some (word w)) = 0
natural_of (some (natural n)) = n

abbrev as_word : Option Given → Option Bytes
as_word none = none
as_word (some (word w)) = some w
as_word (some (natural n)) = none

abbrev cast : Cast Given
cast = record {
  to_bool = λ o. false;
  to_string = word_of;
  to_uint64 = natural_of;
  to_uint32 = natural_of;
  to_int = λ o. pos (natural_of o);
  to_int_slice = λ o. [];
  to_string_slice = λ o. [];
  as_string = as_word;
  one = natural 1;
}

abbrev given_option : OptionName → Option Given
given_option flag_chain_id = some (word (codes "local-4221"))
given_option flag_home = some (word (codes "home"))
given_option evm_chain_id_flag = some (natural 4221)
given_option other = none

abbrev options : Options Given
options = record { get = given_option; is_viper = true }

-- The pruning and the store are texts.
abbrev env : Environment Given Bytes Bytes
env = record {
  pruning_options = λ o. some (codes "default");
  chain_id_from_home = λ home. none;
  snapshot_store = λ o. some (codes "store");
}

abbrev creator : CreatorEnvironment Given Bytes Bytes
creator = record {
  pruning_options = λ o. some (codes "default");
  genesis_chain_id = λ home file. none;
  snapshot_store = λ o dir. some dir;
}

abbrev started_app : AppArgs Given Bytes Bytes
started_app = record {
  load_latest = true;
  options = options;
  base_options =
      base_options cast env options (codes "default") (codes "store") (codes "local-4221");
}

abbrev exported_app : AppArgs Given Bytes Bytes
exported_app = record {
  load_latest = false;
  options = set_inv_check_period (natural 1) options;
  base_options = chain_id (codes "local-4221") ∷ [];
}

abbrev created_app : AppArgs Given Bytes Bytes
created_app = record {
  load_latest = true;
  options = empty_options;
  base_options =
      chain_id (codes "local-4221")
      ∷ pruning (codes "default")
      ∷ min_gas_prices []
      ∷ halt_height 0
      ∷ halt_time 0
      ∷ min_retain_blocks 0
      ∷ inter_block_cache false
      ∷ trace false
      ∷ index_events []
      ∷ snapshot (codes "home") 0 0
      ∷ iavl_cache_size (pos 0)
      ∷ [];
}

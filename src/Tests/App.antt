-- ===== src/Tests/App.antt =====
-- An application with a mempool and a listener; mempools and listeners are numbers.
use zk_cosmos_eth_bridge.Common.{ℕ, ◌≡◌, Bool, true}
use zk_cosmos_eth_bridge.Common.Int.{pos}
use zk_cosmos_eth_bridge.App.Lifecycle.{
  MempoolOptions, Evmd, configure_evm_mempool, register_pending_tx_listener, close, initial,
  configures, registers, AppSteps, here, next, close-AppSteps,
}

abbrev mempool_options : MempoolOptions ℕ ℕ
mempool_options = record {
  has_chain_config = true;
  cosmos_pool_max_tx = pos 10;
  legacy_pool_config = 1;
  block_gas_limit = 2;
  min_tip = 3;
  make = λ c n. 9;
}

abbrev configured : Evmd ℕ ℕ ℕ
configured = configure_evm_mempool mempool_options (register_pending_tx_listener 5 (initial 4))

steps : AppSteps (initial {X = ℕ} {Mempool = ℕ} {Listener = ℕ} 4) configured
steps =
    next (next here (registers 5 (initial 4)))
      (configures mempool_options (register_pending_tx_listener 5 (initial 4)))

abbrev closes : ℕ → Bool
closes m = true

close-AppSteps_example :
    ((close closes true configured).closed_mempool ≡ configured.base_mempool)
    × ((close closes true configured).closed_mempool ≡ configured.check_tx_mempool)
    × ((close closes true configured).closed_mempool ≡ configured.proposal_mempool)
close-AppSteps_example = close-AppSteps 4 configured closes true steps

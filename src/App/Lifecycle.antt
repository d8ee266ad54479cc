-- ===== src/App/Lifecycle.antt =====
-- The mempool, the listeners and the end of the application: `configureEVMMempool` of evmd/mempool.go,
-- `RegisterPendingTxListener`, `onPendingTx` and `Close` of evmd/app.go.
use zk_cosmos_eth_bridge.Common.{
  ◌≡◌, refl, ap, sym, ◌∙◌, Bool, true, false, Option, none, some, List, [], ◌∷◌, ◌++◌,
  if◌then◌else◌, arith, Bytes,
}
use zk_cosmos_eth_bridge.Common.Int.{ℤ, pos, negsuc}

-- `createMempoolConfig`: the ante handler and what the options hold.
pub record MempoolConfig (X : Type 0) : Type 0 where
  pub ante_handler : X
  pub legacy_pool_config : X
  pub block_gas_limit : X
  pub min_tip : X

-- What the options and the chain give for the configuration; `make` is `NewExperimentalEVMMempool`.
pub record MempoolOptions (X Mempool : Type 0) : Type 0 where
  pub has_chain_config : Bool
  pub cosmos_pool_max_tx : ℤ
  pub legacy_pool_config : X
  pub block_gas_limit : X
  pub min_tip : X
  pub make : MempoolConfig X → ℤ → Mempool

-- The parts of the application that change: the mempool that it keeps, and those that the base
-- application, the handler of CheckTx and the handler of proposals use.
pub record Evmd (X Mempool Listener : Type 0) : Type 0 where
  pub ante_handler : X
  pub pending_tx_listeners : List Listener
  pub evm_mempool : Option Mempool
  pub base_mempool : Option Mempool
  pub check_tx_mempool : Option Mempool
  pub proposal_mempool : Option Mempool

abbrev pub is_negative : ℤ → Bool
is_negative (pos n) = false
is_negative (negsuc n) = true

-- The calls that a pending transaction makes, in their order.
unfoldable pub on_pending_tx : {Listener : Type 0} → Bytes → List Listener → List (Listener × Bytes)
on_pending_tx hash [] = []
on_pending_tx hash (l ∷ ls) = (l, hash) ∷ on_pending_tx hash ls

on_pending_tx-append :
    {Listener : Type 0} (hash : Bytes) (ls : List Listener) (l : Listener)
    → on_pending_tx hash (ls ++ l ∷ []) ≡ on_pending_tx hash ls ++ (l, hash) ∷ []
unfolding on_pending_tx
on_pending_tx-append hash [] l = refl
on_pending_tx-append hash (k ∷ ls) l = ap (λ t. (k, hash) ∷ t) (on_pending_tx-append hash ls l)

-- What `Close` closes, and which of the errors it joins; `closes` tells of a mempool and
-- `base_closes` of the base application whether it closes without an error.
pub record Closing (Mempool : Type 0) : Type 0 where
  pub closed_mempool : Option Mempool
  pub mempool_error : Bool
  pub base_error : Bool

module _ {X Mempool Listener : Type 0} where
  abbrev pub create_mempool_config :
      MempoolOptions X Mempool → Evmd X Mempool Listener → MempoolConfig X
  create_mempool_config o app = record {
    ante_handler = app.ante_handler;
    legacy_pool_config = o.legacy_pool_config;
    block_gas_limit = o.block_gas_limit;
    min_tip = o.min_tip;
  }

  unfoldable pub configure_evm_mempool :
      MempoolOptions X Mempool → Evmd X Mempool Listener → Evmd X Mempool Listener
  configure_evm_mempool o app =
      if o.has_chain_config
      then (if is_negative o.cosmos_pool_max_tx
          then app
          else (let mempool = o.make (create_mempool_config o app) o.cosmos_pool_max_tx in
              record app {
                evm_mempool = some mempool;
                base_mempool = some mempool;
                check_tx_mempool = some mempool;
                proposal_mempool = some mempool;
              }))
      else app

  unfoldable pub register_pending_tx_listener :
      Listener → Evmd X Mempool Listener → Evmd X Mempool Listener
  register_pending_tx_listener l app = record app {
    pending_tx_listeners = app.pending_tx_listeners ++ l ∷ [];
  }

  unfoldable pub close : (Mempool → Bool) → Bool → Evmd X Mempool Listener → Closing Mempool
  close closes base_closes app = elim app.evm_mempool [
    | none ↦ record {
      closed_mempool = none;
      mempool_error = false;
      base_error = if base_closes then false else true;
    }
    | some m ↦ record {
      closed_mempool = some m;
      mempool_error = if closes m then false else true;
      base_error = if base_closes then false else true;
    }
  ]

  -- The application as it is made: no mempool, no listener.
  abbrev pub initial : X → Evmd X Mempool Listener
  initial ante = record {
    ante_handler = ante;
    pending_tx_listeners = [];
    evm_mempool = none;
    base_mempool = none;
    check_tx_mempool = none;
    proposal_mempool = none;
  }

  -- What changes the application, in whatever order.
  pub data AppStep : Evmd X Mempool Listener → Evmd X Mempool Listener → Type 0 where
    configures :
        (o : MempoolOptions X Mempool) (app : Evmd X Mempool Listener)
        → AppStep app (configure_evm_mempool o app)
    registers :
        (l : Listener) (app : Evmd X Mempool Listener)
        → AppStep app (register_pending_tx_listener l app)

  pub data AppSteps (app : Evmd X Mempool Listener) : Evmd X Mempool Listener → Type 0 where
    here : AppSteps app app
    next : {b c : Evmd X Mempool Listener} → AppSteps app b → AppStep b c → AppSteps app c

  -- All that use a mempool use the one that the application keeps.
  pub record IsWired (app : Evmd X Mempool Listener) : Type 0 where
    pub base : app.base_mempool ≡ app.evm_mempool
    pub check_tx : app.check_tx_mempool ≡ app.evm_mempool
    pub proposal : app.proposal_mempool ≡ app.evm_mempool

  AppStep-IsWired : {a b : Evmd X Mempool Listener} → AppStep a b → IsWired a → IsWired b
  unfolding configure_evm_mempool register_pending_tx_listener
  AppStep-IsWired (configures o app) w = ground arith
  AppStep-IsWired (registers l app) w = record {
    base = w.base;
    check_tx = w.check_tx;
    proposal = w.proposal;
  }

  AppSteps-IsWired : {a b : Evmd X Mempool Listener} → AppSteps a b → IsWired a → IsWired b
  AppSteps-IsWired here w = w
  AppSteps-IsWired (next steps step) w = AppStep-IsWired step (AppSteps-IsWired steps w)

  closed-evm_mempool :
      (closes : Mempool → Bool) (base_closes : Bool) (app : Evmd X Mempool Listener)
      → (close closes base_closes app).closed_mempool ≡ app.evm_mempool
  unfolding close
  closed-evm_mempool closes base_closes app = ground arith

  -- From the construction on, whatever was configured and registered: closing the application closes
  -- the mempool, if there is one, that the base application, the checks of transactions and the
  -- proposals use.
  pub close-AppSteps :
      (ante : X) (app : Evmd X Mempool Listener) (closes : Mempool → Bool) (base_closes : Bool)
      → AppSteps (initial ante) app
      → ((close closes base_closes app).closed_mempool ≡ app.base_mempool)
        × ((close closes base_closes app).closed_mempool ≡ app.check_tx_mempool)
        × ((close closes base_closes app).closed_mempool ≡ app.proposal_mempool)
  close-AppSteps ante app closes base_closes steps =
      let w = AppSteps-IsWired steps (record { base = refl; check_tx = refl; proposal = refl }) in
      let same = closed-evm_mempool closes base_closes app in
      (same ∙ sym w.base, same ∙ sym w.check_tx, same ∙ sym w.proposal)

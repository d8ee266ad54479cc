-- ===== src/Root/Creator.antt =====
-- evmd/cmd/evmd/cmd/creator.go: the other way to make and export the application.
use zk_cosmos_eth_bridge.Common.{
  ◌≡◌, ap, sym, Bool, true, false, Option, none, List, [], ◌∷◌, if◌then◌else◌, Bytes, Outcome, ok,
  ◌>>=◌, or_err,
}
use zk_cosmos_eth_bridge.Common.Int.{ℤ}
use zk_cosmos_eth_bridge.Prover.Witness.Laws.{bind-eq-ok}
use zk_cosmos_eth_bridge.Root.{
  flag_chain_id, flag_home, flag_min_gas_prices, flag_halt_height, flag_halt_time,
  flag_min_retain_blocks, flag_inter_block_cache, flag_trace, flag_index_events,
  flag_snapshot_interval, flag_snapshot_keep_recent, flag_iavl_cache_size, genesis_file, Options,
  Cast, chain_id, pruning, min_gas_prices, halt_height, halt_time, min_retain_blocks,
  inter_block_cache, trace, index_events, snapshot, iavl_cache_size, AppArgs, RootError,
  height_not_loaded, AppCalls, or_panic, export_options, Environment, is_latest, new_app,
  chain_or_panic, get_chain_id_from_opts,
}
use zk_cosmos_eth_bridge.App.Settings.{read_settings}

-- What the SDK and the files give: the pruning options, the chain of the genesis file of a name in the
-- home directory, and the store in the home directory's `data/snapshots`.
pub record CreatorEnvironment (V Pruning Store : Type 0) : Type 0 where
  pub pruning_options : Options V → Option Pruning
  pub genesis_chain_id : Bytes → Bytes → Option Bytes
  pub snapshot_store : Options V → Bytes → Option Store

-- `simtestutil.EmptyAppOptions`
abbrev pub empty_options : {V : Type 0} → Options V
empty_options = record { get = λ name. none; is_viper = false }

module _ {V Pruning Store : Type 0} (cast : Cast V) (env : CreatorEnvironment V Pruning Store) where
  unfoldable pub creator_chain_id : Options V → Outcome RootError Bytes
  creator_chain_id o = elim (cast.to_string (o.get flag_chain_id)) [
    | [] ↦ or_panic (
        env.genesis_chain_id (cast.to_string (o.get flag_home))
          (cast.to_string (o.get genesis_file)))
    | c ∷ s ↦ ok (c ∷ s)
  ]

  -- `appCreator.newApp`: the options themselves are not passed on.
  unfoldable pub creator_new_app : Options V → Outcome RootError (AppArgs V Pruning Store)
  unfolding creator_chain_id
  creator_new_app o = do
    prune ← or_panic (env.pruning_options o)
    id ← creator_chain_id o
    store ← or_panic (env.snapshot_store o (cast.to_string (o.get flag_home)))
    ok (record {
      load_latest = true;
      options = empty_options;
      base_options =
          chain_id id
          ∷ pruning prune
          ∷ min_gas_prices (cast.to_string (o.get flag_min_gas_prices))
          ∷ halt_height (cast.to_uint64 (o.get flag_halt_height))
          ∷ halt_time (cast.to_uint64 (o.get flag_halt_time))
          ∷ min_retain_blocks (cast.to_uint64 (o.get flag_min_retain_blocks))
          ∷ inter_block_cache (cast.to_bool (o.get flag_inter_block_cache))
          ∷ trace (cast.to_bool (o.get flag_trace))
          ∷ index_events (cast.to_string_slice (o.get flag_index_events))
          ∷ snapshot store (cast.to_uint64 (o.get flag_snapshot_interval))
              (cast.to_uint32 (o.get flag_snapshot_keep_recent))
          ∷ iavl_cache_size (cast.to_int (o.get flag_iavl_cache_size))
          ∷ [];
    })

-- `appCreator.appExport`: no chain is set.
module _ {V Pruning Store App Exported : Type 0} (cast : Cast V) (env : Environment V Pruning Store)
    (calls : AppCalls V Pruning Store App Exported) where
  unfoldable pub creator_app_export :
      ℤ → Bool → List Bytes → List Bytes → Options V → Outcome RootError Exported
  unfolding export_options
  creator_app_export height for_zero_height jail_allowed_addrs modules o = do
    o1 ← export_options cast env o
    let app =
        calls.new_example_app
          (record { load_latest = is_latest height; options = o1; base_options = [] })
    loaded ←
        if is_latest height then ok app else or_err (calls.load_height height app) height_not_loaded
    calls.export_app for_zero_height jail_allowed_addrs modules loaded

options_of :
    {V Pruning Store : Type 0} {a b : AppArgs V Pruning Store}
    → ◌≡◌ {A = Outcome RootError (AppArgs V Pruning Store)} (ok a) (ok b)
    → a.options ≡ b.options
options_of {a = a} {b = b} h = let same : a ≡ b = cc in ap (λ r. r.options) same

module _ {V Pruning Store : Type 0} (cast : Cast V) (env : Environment V Pruning Store)
    (creator : CreatorEnvironment V Pruning Store) where
  -- Of the same options the root command's application has its settings, and the creator's has those
  -- of no options at all, whatever the options are.
  pub creator_new_app-settings :
      (o : Options V) (a b : AppArgs V Pruning Store)
      → new_app cast env o ≡ ok a
      → creator_new_app cast creator o ≡ ok b
      → (read_settings cast a.options ≡ read_settings cast o)
        × (read_settings cast b.options ≡ read_settings cast empty_options)
  unfolding new_app creator_new_app
  creator_new_app-settings o a b h k =
      let (_, _, h1) = bind-eq-ok (or_panic (env.pruning_options o)) _ h in
      let (_, _, h2) =
        bind-eq-ok (chain_or_panic cast env (get_chain_id_from_opts cast env o)) _ h1 in
      let (_, _, h3) = bind-eq-ok (or_panic (env.snapshot_store o)) _ h2 in
      let (_, _, k1) = bind-eq-ok (or_panic (creator.pruning_options o)) _ k in
      let (_, _, k2) = bind-eq-ok (creator_chain_id cast creator o) _ k1 in
      let (_, _, k3) = bind-eq-ok (or_panic (creator.snapshot_store o _)) _ k2 in
      (ap (read_settings cast) (sym (options_of h3)), ap (read_settings cast) (sym (options_of k3)))

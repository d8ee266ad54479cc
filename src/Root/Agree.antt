-- ===== src/Root/Agree.antt =====
-- The chain and the settings of a start and of an export, by evmd/cmd/evmd/cmd/root.go and creator.go.
use zk_cosmos_eth_bridge.Common.{
  ◌≡◌, ap, sym, ◌∙◌, Bool, true, false, Option, none, some, List, [], ◌∷◌, if◌then◌else◌, Bytes,
  Outcome, ok, err, panic,
}
use zk_cosmos_eth_bridge.Common.Int.{ℤ}
use zk_cosmos_eth_bridge.Prover.Witness.Laws.{bind-eq-ok}
use zk_cosmos_eth_bridge.Root.{
  Options, Cast, BaseOption, chain_id, AppArgs, RootError, or_panic, export_options, export_args,
  Environment, new_app, get_chain_id_from_opts, chain_or_panic, set_inv_check_period, home_checked,
  not_viper, flag_home,
}
use zk_cosmos_eth_bridge.App.Settings.{read_settings}

ok-injective : {E A : Type 0} {a b : A} → ◌≡◌ {A = Outcome E A} (ok a) (ok b) → a ≡ b
ok-injective h = cc

if-eq-ok :
    {E A : Type 0} (b : Bool) (x : A) (e : E) {y : A} → (if b then ok x else err e) ≡ ok y → x ≡ y
if-eq-ok true x e h = ok-injective h
if-eq-ok false x e h = cc

-- The last chain that a list of options sets.
abbrev pub chain_set : {Pruning Store : Type 0} → List (BaseOption Pruning Store) → Option Bytes
chain_set [] = none
chain_set (chain_id id ∷ options) = elim (chain_set options) [ none ↦ some id | some i ↦ some i ]
chain_set (other ∷ options) = chain_set options

module _ {V Pruning Store : Type 0} (cast : Cast V) (env : Environment V Pruning Store) where
  home_checked-eq-ok :
      (home : Option Bytes) (o o1 : Options V)
      → home_checked cast env home o ≡ ok o1
      → set_inv_check_period cast.one o ≡ o1
  home_checked-eq-ok none o o1 h = cc
  home_checked-eq-ok (some []) o o1 h = cc
  home_checked-eq-ok (some (c ∷ s)) o o1 h =
      if-eq-ok o.is_viper (set_inv_check_period cast.one o) not_viper h

  -- The check of the invariants, which an export changes, has no part in the chain or the settings.
  export_options-same :
      (o o1 : Options V)
      → export_options cast env o ≡ ok o1
      → (get_chain_id_from_opts cast env o ≡ get_chain_id_from_opts cast env o1)
        × (read_settings cast o ≡ read_settings cast o1)
  unfolding export_options get_chain_id_from_opts read_settings
  export_options-same o o1 h =
      let same = home_checked-eq-ok (cast.as_string (o.get flag_home)) o o1 h in
      (ap (get_chain_id_from_opts cast env) same, ap (read_settings cast) same)

  chain_or_panic-eq-ok :
      (c : Outcome RootError Bytes) {id : Bytes} → chain_or_panic cast env c ≡ ok id → c ≡ ok id
  chain_or_panic-eq-ok (ok i) h = h
  chain_or_panic-eq-ok (err e) h = cc
  chain_or_panic-eq-ok panic h = cc

  -- An export at any height and a start, with the same options, set the same chain for the
  -- application, and make it with the same settings, those of the options.
  pub export_args-new_app :
      (o : Options V) (height : ℤ) (a b : AppArgs V Pruning Store)
      → new_app cast env o ≡ ok a
      → export_args cast env height o ≡ ok b
      → (id : Bytes) × (chain_set a.base_options ≡ some id)
        × (chain_set b.base_options ≡ some id)
        × (read_settings cast a.options ≡ read_settings cast o)
        × (read_settings cast b.options ≡ read_settings cast o)
  unfolding new_app export_args
  export_args-new_app o height a b h k =
      let (prune, _, h1) = bind-eq-ok (or_panic (env.pruning_options o)) _ h in
      let (id, is_id, h2) =
        bind-eq-ok (chain_or_panic cast env (get_chain_id_from_opts cast env o)) _ h1 in
      let (store, _, h3) = bind-eq-ok (or_panic (env.snapshot_store o)) _ h2 in
      let (o1, checks, k1) = bind-eq-ok (export_options cast env o) _ k in
      let (id', is_id', k2) = bind-eq-ok (get_chain_id_from_opts cast env o1) _ k1 in
      let (chains, settings) = export_options-same o o1 checks in
      let one : id' ≡ id = ok-injective (
        sym is_id' ∙ sym chains ∙ chain_or_panic-eq-ok (get_chain_id_from_opts cast env o) is_id) in
      let same_a = ok-injective h3 in
      let same_b = ok-injective k2 in
      (
        id,
        ap (λ (r : AppArgs V Pruning Store). chain_set r.base_options) (sym same_a),
        ap (λ (r : AppArgs V Pruning Store). chain_set r.base_options) (sym same_b) ∙ ap some one,
        ap (λ (r : AppArgs V Pruning Store). read_settings cast r.options) (sym same_a),
        ap (λ (r : AppArgs V Pruning Store). read_settings cast r.options) (sym same_b)
            ∙ sym settings,
      )

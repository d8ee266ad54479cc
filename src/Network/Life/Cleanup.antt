-- ===== src/Network/Life/Cleanup.antt =====
-- `Cleanup` of evmd/tests/network/network.go behind `New`.
use mathlib.Core.Path.{subst}
use zk_cosmos_eth_bridge.Common.{
  ℕ, suc, ◌≡◌, ◌≢◌, ◌⊎◌, inl, inr, refl, sym, true, false, none, some, List, [], ◌∷◌, Bytes, All,
  Outcome, ok, err, panic,
}
use zk_cosmos_eth_bridge.Common.Int.{ℤ, pos, negsuc}
use zk_cosmos_eth_bridge.Network.Pool.{NewError}
use zk_cosmos_eth_bridge.Network.New.{Config, Validator, prepare_validators}
use zk_cosmos_eth_bridge.Network.Genesis.{Genesis, init_gen_files, collect_network_files}
use zk_cosmos_eth_bridge.Network.Start.{
  Running, stopped, StartCalls, start_in_process, and_start, start_all,
}
use zk_cosmos_eth_bridge.Network.Life.{
  World, NetworkCalls, Network, with_calls, Result, started, collected, generated, prepared,
  construct_network, new_network, stop_validators, cleanup,
}
use zk_cosmos_eth_bridge.Network.Life.Laws.{
  construct_network-locked, new_network-locked, new_network-free,
}

abbrev AllStopped : List Running → Type 0
AllStopped rs = All (λ running. running ≡ stopped) rs

stop_validators-nil : (vs : List Validator) → stop_validators vs [] ≡ []
unfolding stop_validators
stop_validators-nil [] = refl
stop_validators-nil (v ∷ vs) = refl

-- The validators that a start has reached are no more than all of them.
stop_validators-start_all :
    (calls : ℕ → StartCalls) (i : ℕ) (vs : List Validator)
    → AllStopped (stop_validators vs (start_all (with_calls calls i vs)).1)
unfolding stop_validators start_all
stop_validators-start_all calls i [] = tt
stop_validators-start_all calls i (v ∷ vs) =
    go (start_in_process v (calls i)).0 (start_in_process v (calls i)).1
      (start_all (with_calls calls (suc i) vs)) (stop_validators-start_all calls (suc i) vs)
  where
    one : AllStopped (stop_validators vs [])
    one = subst AllStopped (sym (stop_validators-nil vs)) tt

    go :
        (o : Outcome NewError (Unit {0})) (r : Running)
        (rest : Outcome NewError (Unit {0}) × List Running)
        → AllStopped (stop_validators vs rest.1)
        → AllStopped (stop_validators (v ∷ vs) (and_start o r rest).1)
    go (ok u) r (o, rs) h = (refl, h)
    go (err e) r (o, rs) h = (refl, one)
    go panic r (o, rs) h = (refl, one)

-- A result has a network, with which a cleanup stops all that runs, or has none.
abbrev CanClean : Result → Type 0
CanClean r =
    ((m : Network) × (r.0 ≡ ok m) × AllStopped (stop_validators m.validators r.1.running))
    ⊎ ((m : Network) → r.0 ≢ ok m)

started-CanClean :
    (n : Network) (pool : List Bytes) (s : Outcome NewError (Unit {0}) × List Running)
    → AllStopped (stop_validators n.validators s.1)
    → CanClean (started n pool s)
started-CanClean n pool (ok u, rs) h = inl (n, refl, h)
started-CanClean n pool (err e, rs) h = inr λ m k. cc
started-CanClean n pool (panic, rs) h = inr λ m k. cc

collected-CanClean :
    (cfg : Config) (base_dir : Bytes) (c : NetworkCalls) (vs : List Validator) (pool : List Bytes)
    (g : Genesis) (o : Outcome NewError (List Bytes))
    → CanClean (collected cfg base_dir c vs pool g o)
collected-CanClean cfg base_dir c vs pool g (ok states) =
    started-CanClean _ pool (start_all (with_calls c.starts 0 vs))
      (stop_validators-start_all c.starts 0 vs)
collected-CanClean cfg base_dir c vs pool g (err e) = inr λ m k. cc
collected-CanClean cfg base_dir c vs pool g panic = inr λ m k. cc

generated-CanClean :
    (cfg : Config) (base_dir : Bytes) (c : NetworkCalls) (vs : List Validator) (pool : List Bytes)
    (o : Outcome NewError Genesis)
    → CanClean (generated cfg base_dir c vs pool o)
generated-CanClean cfg base_dir c vs pool (ok g) =
    collected-CanClean cfg base_dir c vs pool g (collect_network_files c.collects)
generated-CanClean cfg base_dir c vs pool (err e) = inr λ m k. cc
generated-CanClean cfg base_dir c vs pool panic = inr λ m k. cc

prepared-CanClean :
    (cfg : Config) (base_dir : Bytes) (c : NetworkCalls)
    (p : Outcome NewError (List Validator) × List Bytes)
    → CanClean (prepared cfg base_dir c p)
prepared-CanClean cfg base_dir c (ok vs, pool) =
    generated-CanClean cfg base_dir c vs pool
      (init_gen_files c.new_coins cfg c.genesis vs c.packs c.marshals c.saves)
prepared-CanClean cfg base_dir c (err e, pool) = inr λ m k. cc
prepared-CanClean cfg base_dir c (panic, pool) = inr λ m k. cc

construct_network-CanClean :
    (cfg : Config) (base_dir : Bytes) (c : NetworkCalls) (n : ℤ) (pool : List Bytes)
    → CanClean (construct_network cfg base_dir c n pool)
unfolding construct_network
construct_network-CanClean cfg base_dir c (pos n) pool =
    prepared-CanClean cfg base_dir c (prepare_validators cfg base_dir c.prepares n 0 pool)
construct_network-CanClean cfg base_dir c (negsuc n) pool = inr λ m k. cc

-- Where the lock is free, the construction of a network returns, and holds the lock whether it made
-- a network, failed or panicked: any other construction waits forever. Where it made a network, the
-- cleanup of this network releases the lock and leaves nothing running. Where it failed or panicked,
-- it has returned no network to clean up.
pub new_network-cleanup :
    (cfg : Config) (base_dir : Bytes) (c : NetworkCalls) (w : World)
    → w.locked ≡ false
    → (r : Result) × (new_network cfg base_dir c w ≡ some r)
      × (r.1.locked ≡ true)
      × ((other : Config) (dir : Bytes) (calls : NetworkCalls)
          → new_network other dir calls r.1 ≡ none)
      × (((m : Network) × (w' : World) × (r.0 ≡ ok m)
            × (cleanup m r.1 ≡ ok w')
            × (w'.locked ≡ false)
            × All (λ running. running ≡ stopped) w'.running)
          ⊎ ((m : Network) → r.0 ≢ ok m))
unfolding cleanup
new_network-cleanup cfg base_dir c w h =
    let r = construct_network cfg base_dir c cfg.num_validators w.pool in
    let held : r.1.locked ≡ true =
      construct_network-locked cfg base_dir c cfg.num_validators w.pool in
    (
      r,
      new_network-free cfg base_dir c w h,
      held,
      λ other dir calls. new_network-locked other dir calls r.1 held,
      elim (construct_network-CanClean cfg base_dir c cfg.num_validators w.pool) [
        | inl (m, is, all) ↦ inl (
          m,
          record {
            locked = false;
            pool = r.1.pool;
            running = stop_validators m.validators r.1.running;
          },
          is,
          rw held refl,
          refl,
          all,
        )
        | inr never ↦ inr never
      ],
    )

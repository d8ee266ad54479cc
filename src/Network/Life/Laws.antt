-- ===== src/Network/Life/Laws.antt =====
-- The lock and the ports of `New` in evmd/tests/network/network.go.
use mathlib.Core.Path.{subst}
use mathlib.Core.Option.{some-injective}
use zk_cosmos_eth_bridge.Common.{
  ℕ, ◌≡◌, refl, ap, sym, ◌∙◌, true, false, none, some, List, ◌++◌, arith, Bytes, length, Bool-cases,
  inl, inr, Outcome, ok, err, panic,
}
use zk_cosmos_eth_bridge.Common.Int.{ℤ, pos, negsuc}
use zk_cosmos_eth_bridge.Network.Pool.{NewError}
use zk_cosmos_eth_bridge.Network.New.{Config, Validator, prepare_validators}
use zk_cosmos_eth_bridge.Network.New.Laws.{IsValidators, prepare_validators-IsValidators}
use zk_cosmos_eth_bridge.Network.Genesis.{Genesis, init_gen_files, collect_network_files}
use zk_cosmos_eth_bridge.Network.Start.{Running, start_all}
use zk_cosmos_eth_bridge.Network.Life.{
  World, NetworkCalls, Network, with_calls, Result, started, collected, generated, prepared,
  construct_network, new_network,
}

started-locked :
    (n : Network) (pool : List Bytes) (s : Outcome NewError (Unit {0}) × List Running)
    → (started n pool s).1.locked ≡ true
started-locked n pool (ok u, rs) = refl
started-locked n pool (err e, rs) = refl
started-locked n pool (panic, rs) = refl

collected-locked :
    (cfg : Config) (base_dir : Bytes) (c : NetworkCalls) (vs : List Validator) (pool : List Bytes)
    (g : Genesis) (o : Outcome NewError (List Bytes))
    → (collected cfg base_dir c vs pool g o).1.locked ≡ true
collected-locked cfg base_dir c vs pool g (ok states) =
    started-locked _ pool (start_all (with_calls c.starts 0 vs))
collected-locked cfg base_dir c vs pool g (err e) = refl
collected-locked cfg base_dir c vs pool g panic = refl

generated-locked :
    (cfg : Config) (base_dir : Bytes) (c : NetworkCalls) (vs : List Validator) (pool : List Bytes)
    (o : Outcome NewError Genesis)
    → (generated cfg base_dir c vs pool o).1.locked ≡ true
generated-locked cfg base_dir c vs pool (ok g) =
    collected-locked cfg base_dir c vs pool g (collect_network_files c.collects)
generated-locked cfg base_dir c vs pool (err e) = refl
generated-locked cfg base_dir c vs pool panic = refl

prepared-locked :
    (cfg : Config) (base_dir : Bytes) (c : NetworkCalls)
    (p : Outcome NewError (List Validator) × List Bytes)
    → (prepared cfg base_dir c p).1.locked ≡ true
prepared-locked cfg base_dir c (ok vs, pool) =
    generated-locked cfg base_dir c vs pool
      (init_gen_files c.new_coins cfg c.genesis vs c.packs c.marshals c.saves)
prepared-locked cfg base_dir c (err e, pool) = refl
prepared-locked cfg base_dir c (panic, pool) = refl

pub construct_network-locked :
    (cfg : Config) (base_dir : Bytes) (c : NetworkCalls) (n : ℤ) (pool : List Bytes)
    → (construct_network cfg base_dir c n pool).1.locked ≡ true
unfolding construct_network
construct_network-locked cfg base_dir c (pos n) pool =
    prepared-locked cfg base_dir c (prepare_validators cfg base_dir c.prepares n 0 pool)
construct_network-locked cfg base_dir c (negsuc n) pool = refl

pub new_network-locked :
    (cfg : Config) (base_dir : Bytes) (c : NetworkCalls) (w : World)
    → w.locked ≡ true
    → new_network cfg base_dir c w ≡ none
unfolding new_network
new_network-locked cfg base_dir c w h = ground (arith, h)

pub new_network-free :
    (cfg : Config) (base_dir : Bytes) (c : NetworkCalls) (w : World)
    → w.locked ≡ false
    → new_network cfg base_dir c w
      ≡ some (construct_network cfg base_dir c cfg.num_validators w.pool)
unfolding new_network
new_network-free cfg base_dir c w h = ground (arith, h)

-- What a construction that made a network did before.
started-eq-ok :
    (n : Network) (pool : List Bytes) (s : Outcome NewError (Unit {0}) × List Running) {m : Network}
    {w : World}
    → started n pool s ≡ (ok m, w)
    → (n ≡ m) × (pool ≡ w.pool)
started-eq-ok n pool (ok u, rs) h = (cc, ap (λ (r : Result). r.1.pool) h)
started-eq-ok n pool (err e, rs) h = cc
started-eq-ok n pool (panic, rs) h = cc

collected-eq-ok :
    (cfg : Config) (base_dir : Bytes) (c : NetworkCalls) (vs : List Validator) (pool : List Bytes)
    (g : Genesis) (o : Outcome NewError (List Bytes)) {m : Network} {w : World}
    → collected cfg base_dir c vs pool g o ≡ (ok m, w)
    → (vs ≡ m.validators) × (pool ≡ w.pool)
collected-eq-ok cfg base_dir c vs pool g (ok states) h =
    let (same, left) = started-eq-ok _ pool (start_all (with_calls c.starts 0 vs)) h in
    (ap (λ (n : Network). n.validators) same, left)
collected-eq-ok cfg base_dir c vs pool g (err e) h = cc
collected-eq-ok cfg base_dir c vs pool g panic h = cc

generated-eq-ok :
    (cfg : Config) (base_dir : Bytes) (c : NetworkCalls) (vs : List Validator) (pool : List Bytes)
    (o : Outcome NewError Genesis) {m : Network} {w : World}
    → generated cfg base_dir c vs pool o ≡ (ok m, w)
    → (vs ≡ m.validators) × (pool ≡ w.pool)
generated-eq-ok cfg base_dir c vs pool (ok g) h =
    collected-eq-ok cfg base_dir c vs pool g (collect_network_files c.collects) h
generated-eq-ok cfg base_dir c vs pool (err e) h = cc
generated-eq-ok cfg base_dir c vs pool panic h = cc

-- What a network of `n` validators from a pool has.
abbrev pub IsNetwork : Config → ℕ → List Bytes → Network → List Bytes → Type 0
IsNetwork cfg n pool m left =
    (drawn : List Bytes) × (pool ≡ drawn ++ left)
    × (length m.validators ≡ n)
    × IsValidators cfg 0 drawn m.validators

prepared-eq-ok :
    (cfg : Config) (base_dir : Bytes) (c : NetworkCalls) (n : ℕ) (pool : List Bytes)
    (p : Outcome NewError (List Validator) × List Bytes) {m : Network} {w : World}
    → prepare_validators cfg base_dir c.prepares n 0 pool ≡ p
    → prepared cfg base_dir c p ≡ (ok m, w)
    → IsNetwork cfg n pool m w.pool
prepared-eq-ok cfg base_dir c n pool (ok vs, left) {m} {w} made h =
    let (drawn, whole, (count, all)) =
      (prepare_validators-IsValidators cfg base_dir c.prepares n 0).apply pool vs left made in
    let (same, rest) =
      generated-eq-ok cfg base_dir c vs left
        (init_gen_files c.new_coins cfg c.genesis vs c.packs c.marshals c.saves) h in
    (
      drawn,
      whole ∙ ap (λ t. drawn ++ t) rest,
      subst (λ t. length t ≡ n) same count,
      subst (IsValidators cfg 0 drawn) same all,
    )
prepared-eq-ok cfg base_dir c n pool (err e, left) made h = cc
prepared-eq-ok cfg base_dir c n pool (panic, left) made h = cc

construct_network-IsNetwork :
    (cfg : Config) (base_dir : Bytes) (c : NetworkCalls) (n : ℤ) (pool : List Bytes) {m : Network}
    {w : World}
    → construct_network cfg base_dir c n pool ≡ (ok m, w)
    → (k : ℕ) × (n ≡ pos k) × IsNetwork cfg k pool m w.pool
unfolding construct_network
construct_network-IsNetwork cfg base_dir c (pos n) pool h =
    (n, refl, prepared-eq-ok cfg base_dir c n pool _ refl h)
construct_network-IsNetwork cfg base_dir c (negsuc n) pool h = cc

-- A network that is made has the configured number of validators. The ports that it draws come from
-- the front of the pool, and each of them is used for one address: first those of the API, the RPC,
-- the gRPC and the JSON-RPC server of the first validator, where they are not configured, and then,
-- validator by validator, that of the proxy and that of the peers.
pub new_network-IsNetwork :
    (cfg : Config) (base_dir : Bytes) (c : NetworkCalls) (w : World) (m : Network) (w' : World)
    → new_network cfg base_dir c w ≡ some (ok m, w')
    → (k : ℕ) × (cfg.num_validators ≡ pos k) × IsNetwork cfg k w.pool m w'.pool
new_network-IsNetwork cfg base_dir c w m w' h = elim (Bool-cases w.locked) [
  | inl e ↦ let waits = new_network-locked cfg base_dir c w e in cc
  | inr e ↦
      let made : construct_network cfg base_dir c cfg.num_validators w.pool ≡ (ok m, w') =
        some-injective _ _ (sym (new_network-free cfg base_dir c w e) ∙ h) in
      construct_network-IsNetwork cfg base_dir c cfg.num_validators w.pool made
]

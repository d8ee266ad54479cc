-- ===== src/Network/Life/Made.antt =====
-- `New` in evmd/tests/network/network.go, in a process that has just started.
use zk_cosmos_eth_bridge.Common.{
  ℕ, suc, ◌≡◌, ◌≢◌, sym, ◌∙◌, some, List, [], ◌∷◌, ◌++◌, arith, Bytes, length, ok,
}
use zk_cosmos_eth_bridge.Common.Int.{pos}
use zk_cosmos_eth_bridge.Network.New.{Config, Validator}
use zk_cosmos_eth_bridge.Network.Life.{World, fresh, NetworkCalls, Network, new_network}
use zk_cosmos_eth_bridge.Network.Life.Laws.{new_network-IsNetwork}
use zk_cosmos_eth_bridge.Network.New.Laws.{IsValidators, not-IsValidators-nil}

-- A process that has just started makes no network of one validator or more: its pool of ports is
-- empty.
pub new_network-fresh :
    (cfg : Config) (base_dir : Bytes) (c : NetworkCalls) (n : ℕ) (m : Network) (w' : World)
    → cfg.num_validators ≡ pos (suc n)
    → new_network cfg base_dir c fresh ≢ some (ok m, w')
new_network-fresh cfg base_dir c n m w' count made =
    let (k, is_k, (drawn, whole, number, all)) =
      new_network-IsNetwork cfg base_dir c fresh m w' made in
    let same : pos (suc n) ≡ pos k = sym count ∙ is_k in
    let at_least : k ≡ suc n = cc in
    none_drawn drawn w'.pool whole m.validators (number ∙ at_least) all
  where
    none_drawn :
        (drawn left : List Bytes)
        → [] ≡ drawn ++ left
        → (vs : List Validator) → length vs ≡ suc n
        → ¬ IsValidators cfg 0 drawn vs
    none_drawn [] left e [] h all = absurd (omega (arith, h))
    none_drawn [] left e (v ∷ vs) h all = not-IsValidators-nil cfg 0 v vs all
    none_drawn (d ∷ drawn) left e vs h all = cc

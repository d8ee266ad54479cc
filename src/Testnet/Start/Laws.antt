-- ===== src/Testnet/Start/Laws.antt =====
-- The end of `startTestnet` of evmd/cmd/evmd/cmd/testnet.go.
use zk_cosmos_eth_bridge.Common.{
  ℕ, suc, ◌≡◌, ◌≢◌, ◌⊎◌, inl, inr, refl, ap, ◌∙◌, true, some, ◌++◌, Bool-cases, Bytes, codes,
  Outcome, ok, err, panic,
}
use zk_cosmos_eth_bridge.Common.Int.{pos}
use zk_cosmos_eth_bridge.Network.Life.{World, fresh, Network, Result}
use zk_cosmos_eth_bridge.Network.Life.Cleanup.{new_network-cleanup}
use zk_cosmos_eth_bridge.Network.Life.Made.{new_network-fresh}
use zk_cosmos_eth_bridge.Testnet.Start.{
  StartArgs, network_config, StartError, dir_exists, not_made, StartCalls, Ending, constructed,
  start_testnet,
}

-- What is left behind by a start that does not succeed.
pub IsFailed : Ending → Type 0
IsFailed e =
    (o : Outcome StartError (Unit {0})) × (w : World) × (e ≡ some (o, w))
    × (o ≢ ok tt)
    × (w.locked ≡ true)

constructed-IsFailed :
    (c : StartCalls) (r : Result)
    → r.1.locked ≡ true
    → ((m : Network) (w : World) → r ≢ (ok m, w))
    → IsFailed (constructed c (some r))
unfolding IsFailed
constructed-IsFailed c (ok m, w) held h = absurd (h m w refl)
constructed-IsFailed c (err e, w) held h = (err (not_made e), w, refl, cc, held)
constructed-IsFailed c (panic, w) held h = (panic, w, refl, cc, held)

-- In a process that has just started, with its empty pool of ports, the command for one validator or
-- more never succeeds: the directory of the chain exists, or the command ends without success
-- and leaves the network lock held.
pub start_testnet-fresh :
    (denom : Bytes) (reduction : ℕ) (args : StartArgs) (c : StartCalls) (n : ℕ)
    → args.num_validators ≡ pos (suc n)
    → (start_testnet denom reduction args c fresh ≡ some (err dir_exists, fresh))
      ⊎ IsFailed (start_testnet denom reduction args c fresh)
unfolding start_testnet network_config
start_testnet-fresh denom reduction args c n count = elim (Bool-cases c.dir_missing) [
  | inl e ↦
      let cfg = network_config denom reduction args in
      let dir = args.output_dir ++ (codes "/" ++ cfg.chain_id) in
      let (r, made, held, _, _) = new_network-cleanup cfg dir c.network fresh refl in
      inr (
        rw (e, made)
          (constructed-IsFailed c r held
            (λ m w same. new_network-fresh cfg dir c.network n m w count (made ∙ ap some same))))
  | inr e ↦ inl (rw e refl)
]

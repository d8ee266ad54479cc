-- ===== src/Relayer/Race.antt =====
-- Runs of `process_event` are goroutines that share the output path.
use zk_cosmos_eth_bridge.Common.{◌≡◌, Option, some, List, [], ◌∷◌, Outcome, ok}
use zk_cosmos_eth_bridge.Prover.Generate.{ProofFile}
use zk_cosmos_eth_bridge.Prover.Lock.{EthCommon}
use zk_cosmos_eth_bridge.Prover.Submit.{Transaction, mint_method, EthNode, mint_args}
use zk_cosmos_eth_bridge.Relayer.{Settings, Skipped, sent, Relayed, Proved, relay_proved}
use zk_cosmos_eth_bridge.Relayer.Relays.{relay_proved-sent}

-- What the goroutines do with the path: a run writes its proof there, and later reads it to submit.
pub data Action : Type 0 where
  write_proof : Proved → Action
  relay : Proved → Action

module _ {Key : Type 0} (settings : Settings) (eth : EthCommon) (node : EthNode Key) where
  -- The results of the relays of a schedule, from what the path holds at its start.
  unfoldable pub run : List Action → Option ProofFile → List (Outcome Skipped Relayed)
  run [] file = []
  run (write_proof p ∷ actions) file = run actions (some p.generated.file)
  run (relay p ∷ actions) file = relay_proved settings eth node p file ∷ run actions file

  -- Where another run writes its proof between a run's proof and its submission, the mint that the
  -- first run submits has the other run's proof, with its own root, hash, recipient and amount.
  pub run_interleaved :
      (p q : Proved) (file : Option ProofFile) (r : Relayed) (tx : Transaction)
      (later : List (Outcome Skipped Relayed))
      → run (write_proof p ∷ write_proof q ∷ relay p ∷ relay q ∷ []) file ≡ ok r ∷ later
      → r.submitted ≡ sent tx
      → tx.method
        ≡ mint_method (
            mint_args eth q.generated.file p.generated.root p.generated.tx p.lock_details.recipient
              p.lock_details.amount)
  unfolding run
  run_interleaved p q file r tx later h submitted =
      let first : relay_proved settings eth node p (some q.generated.file) ≡ ok r = cc in
      let (_, method_is) =
        relay_proved-sent settings eth node p (some q.generated.file) first submitted in
      method_is

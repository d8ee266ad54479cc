-- ===== src/Tests/Monitor.antt =====
-- The relayer's process on two messages.
use zk_cosmos_eth_bridge.Common.{◌≡◌, refl, Option, List, true, none, some, [], ◌∷◌, ◌++◌, codes}
use zk_cosmos_eth_bridge.Relayer.{WsResponse, started}
use zk_cosmos_eth_bridge.Relayer.Announced.{Announced}
use zk_cosmos_eth_bridge.Relayer.Main.{
  Process, MainSteps, here, next, receives, subscribes, interrupts, connect, received, monitoring,
  closing, MainSteps-connect,
}

-- A message with a hash is received in front of the subscription, then the relayer is interrupted.
abbrev message : WsResponse
message = record { events = []; tx_result_hash = codes "A" }

abbrev subscribed : Process
subscribed = record {
  pending = none ∷ [];
  reading = true;
  phase = closing;
  runs = [] ++ started (some message ∷ []);
}

relay-steps : MainSteps (connect true (some message ∷ none ∷ [])) subscribed
unfolding connect
relay-steps =
    let start = connect true (some message ∷ none ∷ []) in
    let first = received (some message) (none ∷ []) start in
    next
      (next (next here (receives start (some message) (none ∷ []) refl refl refl))
        (subscribes first refl))
      (interrupts (record first { phase = monitoring }) refl)

MainSteps-connect_example :
    (seen : List (Option WsResponse)) × (some message ∷ none ∷ [] ≡ seen ++ subscribed.pending)
    × Announced seen subscribed.runs
MainSteps-connect_example = MainSteps-connect true (some message ∷ none ∷ []) subscribed relay-steps

-- ===== src/Tests/Submission.antt =====
-- A proof file that is submitted, and two runs that share it.
use zk_cosmos_eth_bridge.Common.{
  ◌≡◌, refl, none, some, [], ◌∷◌, Bytes, codes, replicate, Outcome, ok,
}
use zk_cosmos_eth_bridge.Codec.Decimal.{digits_value}
use zk_cosmos_eth_bridge.Circuit.Define.{ZkBridgeCircuit}
use zk_cosmos_eth_bridge.Prover.Generate.{export_file}
use zk_cosmos_eth_bridge.Prover.Submit.{
  mint_method, Transaction, set_string, mint_args, submit_proof, update_root,
}
use zk_cosmos_eth_bridge.Prover.Submit.Laws.{
  Coordinates, points_of, mint_transaction, submit_proof-export_file,
}
use zk_cosmos_eth_bridge.Relayer.{sent, Relayed, Skipped, Proved, relay_proved}
use zk_cosmos_eth_bridge.Relayer.Race.{write_proof, relay, run, run_interleaved}
use zk_cosmos_eth_bridge.Tests.Data.{leaf, root}
use zk_cosmos_eth_bridge.Tests.Contracts.{toy_eth, bridge, destination}
use zk_cosmos_eth_bridge.Tests.Relayer.{settings, auth, eth_node, file, some_pos, opts, root_tx}

abbrev coordinates : Coordinates
coordinates = record {
  ar = (1, 2);
  bs_x = record { a0 = 4; a1 = 3 };
  bs_y = record { a0 = 6; a1 = 5 };
  krs = (7, 8);
  commitment = (11, 12);
  commitment_pok = (9, 10);
}

abbrev no_levels : ZkBridgeCircuit
no_levels = record {
  packed_root = 1 ∷ [];
  packed_tx_hash = 1 ∷ [];
  proof_path = [];
  proof_helper = [];
  actual_depth = 0;
}

submit_proof-export_file_example :
    submit_proof toy_eth eth_node []
      (codes "k")
      bridge
      destination
      1000
      root
      leaf
      (some (export_file (points_of coordinates []) no_levels))
    ≡ ok (mint_transaction toy_eth eth_node coordinates 11 auth bridge root leaf destination 1000)
submit_proof-export_file_example =
    submit_proof-export_file toy_eth eth_node coordinates [] no_levels [] (codes "k") bridge
      destination root leaf 1000 11 auth refl refl refl refl

abbrev run_of : Bytes → Bytes → Proved
run_of root_hash first = record {
  lock_details = record { recipient = destination; amount = 1000 };
  generated = record { root = root_hash; tx = leaf; file = record file { a = (first, codes "2") } };
}

abbrev interleaved_tx : Transaction
interleaved_tx = record {
  opts = some opts;
  contract = replicate 20 9;
  method = mint_method (record {
    a = some_pos 20 2;
    b = (some_pos 3 4, some_pos 5 6);
    c = some_pos 7 8;
    commitments = some_pos 0 0;
    commitment_pok = some_pos 9 10;
    root = root;
    lock_tx_hash = leaf;
    recipient = destination;
    amount = 1000;
  });
}

abbrev interleaved : Relayed
interleaved = record { synchronized = sent root_tx; submitted = sent interleaved_tx }

abbrev second : Outcome Skipped Relayed
second =
    relay_proved settings toy_eth eth_node (run_of leaf (codes "20"))
      (some (run_of leaf (codes "20")).generated.file)

run-interleaved :
    run settings toy_eth eth_node
      (write_proof (run_of root (codes "1"))
        ∷ write_proof (run_of leaf (codes "20"))
        ∷ relay (run_of root (codes "1"))
        ∷ relay (run_of leaf (codes "20"))
        ∷ [])
      none
    ≡ ok interleaved ∷ (second ∷ [])
unfolding run relay_proved submit_proof update_root mint_args set_string digits_value
run-interleaved = refl

run_interleaved_example :
    interleaved_tx.method
    ≡ mint_method
        (mint_args toy_eth (run_of leaf (codes "20")).generated.file root leaf destination 1000)
run_interleaved_example =
    run_interleaved settings toy_eth eth_node (run_of root (codes "1")) (run_of leaf (codes "20"))
      none interleaved interleaved_tx (second ∷ []) run-interleaved refl

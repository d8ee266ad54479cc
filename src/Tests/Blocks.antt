-- ===== src/Tests/Blocks.antt =====
-- Transactions, blocks and proposals on an application that counts what it is asked.
use zk_cosmos_eth_bridge.Common.{
  ℕ, suc, ◌+◌, ◌<◌, ◌^◌, ◌≡◌, ◌↔◌, refl, arith, Bool, true, Option, none, some, [], ◌∷◌, Bytes,
  codes,
}
use zk_cosmos_eth_bridge.Common.Int.{pos}
use zk_cosmos_eth_bridge.Codec.Decimal.{decimal}
use zk_cosmos_eth_bridge.Blocks.{Event, TxResult, Header, Context, EvmApp}
use zk_cosmos_eth_bridge.Blocks.Deliver.{
  IsAccepted, deliver_tx, deliver_eth_tx_without_check, deliver_eth_tx, broadcast_tx_bytes,
  deliver_eth_tx_iff,
}
use zk_cosmos_eth_bridge.Blocks.Commit.{commit_context, commit_and_create_new_ctx}
use zk_cosmos_eth_bridge.Blocks.Commit.Laws.{Continues, commit-Continues}

abbrev proposed : Event
proposed = record {
  kind = codes "submit_proposal";
  attributes = record { key = codes "proposal_id"; value = decimal 12 } ∷ [];
}

abbrev result : TxResult
result = record { code = 0; log = []; events = proposed ∷ [] }

-- The state counts the calls; a set of validators, their updates and changes are numbers.
abbrev app : EvmApp ℕ Bytes ℕ ℕ ℕ
app = record {
  finalize_block =
      λ r n. (suc n, some (record { tx_results = result ∷ []; validator_updates = 2 }));
  check_tx = λ bz n. (n, some result);
  end_blocker = λ ctx n. (suc n, true);
  begin_blocker = λ ctx n. (suc n, true);
  commit = λ n. (suc n, true);
  last_commit_hash = λ n. n ∷ [];
  new_context = λ header n. record {
    block_header = header;
    min_gas_prices = [];
    event_manager = [];
    kv_gas_config = [];
    transient_kv_gas_config = [];
    others = n ∷ [];
  };
  hash = λ vals. vals ∷ [];
  to_changes = λ updates. some updates;
  update_with_change_set = λ changes vals. some (changes + vals);
}

abbrev encode : Bytes → Option Bytes
encode tx = some tx

abbrev prepare : Bytes → ℕ → Option Bytes
prepare msg n = some msg

abbrev always : TxResult → Bool
always r = true

deliver_eth_tx_iff_example :
    ((deliver_eth_tx app encode always (some (codes "tx")) 0 ≡ (1, (result, none))) ↔ (
      (tx : Bytes) × (some (codes "tx") ≡ some tx)
      × IsAccepted app encode tx 0 1 result
      × (always result ≡ true)))
    × ((deliver_eth_tx app encode always (some (codes "tx")) 0).0
        ≡ (deliver_eth_tx_without_check app encode (some (codes "tx")) 0).0)
deliver_eth_tx_iff_example = deliver_eth_tx_iff app encode always (some (codes "tx")) 0 1 result

abbrev header : Header
header = record {
  height = pos 5;
  time = pos 100;
  app_hash = [];
  validators_hash = [];
  next_validators_hash = [];
}

abbrev context : Context Bytes
context = record {
  block_header = header;
  min_gas_prices = codes "a";
  event_manager = codes "b";
  kv_gas_config = codes "c";
  transient_kv_gas_config = codes "d";
  others = codes "e";
}

commit-Continues_example :
    Continues app context
      (pos 3)
      (some 7)
      0
      (commit_context app context (pos 3) (some 7) 0)
      (commit_and_create_new_ctx app context (pos 3) (some 7) 0)
commit-Continues_example = commit-Continues app (λ h s. refl) context (pos 3) (some 7) 0

twelve : 12 < 2 ^ 64
twelve = omega arith

delivered : deliver_tx app encode (prepare (codes "m") 0) 0 ≡ (1, (result, none))
unfolding deliver_tx broadcast_tx_bytes
delivered = refl

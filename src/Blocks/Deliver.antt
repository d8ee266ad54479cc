-- ===== src/Blocks/Deliver.antt =====
-- `BroadcastTxBytes`, `checkTxBytes` and the functions over them, of evmd/testutil/abci.go.
use mathlib.Core.Path.{subst}
use mathlib.Core.Option.{some-injective}
use zk_cosmos_eth_bridge.Common.{
  ◌≡◌, ◌↔◌, refl, ap, sym, ◌∙◌, Bool, true, false, Option, none, some, List, [], ◌∷◌, if◌then◌else◌,
  ◌==◌, arith, Bytes,
}
use zk_cosmos_eth_bridge.Common.Int.{pos}
use zk_cosmos_eth_bridge.Blocks.{TxResult, BlockResult, EvmApp}

pub data DeliverError : Type 0 where
  not_prepared not_encoded block_failed unexpected_results invalid_request check_failed
        eth_tx_failed :
      DeliverError

-- `abci.ExecTxResult{}`
abbrev pub no_result : TxResult
no_result = record { code = 0; log = []; events = [] }

-- The result and the error that a function returns together.
abbrev pub Delivered : Type 0 → Type 0
Delivered St = St × (TxResult × Option DeliverError)

abbrev pub failed : {St : Type 0} → St → DeliverError → Delivered St
failed s e = (s, (no_result, some e))

-- A result whose code is not 0 is an error, and is not returned.
abbrev pub accepted : {St : Type 0} → St → TxResult → DeliverError → Delivered St
accepted s r e = if r.code == 0 then (s, (r, none)) else failed s e

-- There must be exactly one result.
abbrev pub only_result : {St : Type 0} → St → List TxResult → Delivered St
only_result s [] = failed s unexpected_results
only_result s (r ∷ []) = accepted s r invalid_request
only_result s (r ∷ q ∷ rs) = failed s unexpected_results

abbrev pub block_result : {St Updates : Type 0} → St × Option (BlockResult Updates) → Delivered St
block_result (s, none) = failed s block_failed
block_result (s, some res) = only_result s res.tx_results

abbrev pub check_result : {St : Type 0} → St × Option TxResult → Delivered St
check_result (s, none) = failed s check_failed
check_result (s, some r) = accepted s r invalid_request

module _ {St X Vals Updates Changes Tx : Type 0} (app : EvmApp St X Vals Updates Changes)
    (encode : Tx → Option Bytes) where
  -- The block that holds the transaction alone.
  abbrev pub broadcast_encoded : Option Bytes → St → Delivered St
  broadcast_encoded none s = failed s not_encoded
  broadcast_encoded (some bz) s =
      block_result (app.finalize_block (record { height = pos 0; txs = bz ∷ [] }) s)

  unfoldable pub broadcast_tx_bytes : Tx → St → Delivered St
  broadcast_tx_bytes tx s = broadcast_encoded (encode tx) s

  abbrev pub check_encoded : Option Bytes → St → Delivered St
  check_encoded none s = failed s not_encoded
  check_encoded (some bz) s = check_result (app.check_tx bz s)

  unfoldable pub check_tx_bytes : Tx → St → Delivered St
  check_tx_bytes tx s = check_encoded (encode tx) s

  -- `DeliverTx`, of what preparing the transaction gives.
  unfoldable pub deliver_tx : Option Tx → St → Delivered St
  unfolding broadcast_tx_bytes
  deliver_tx none s = failed s not_prepared
  deliver_tx (some tx) s = broadcast_tx_bytes tx s

  -- An error of the broadcast comes with an empty result.
  abbrev pub emptied : Delivered St → Delivered St
  emptied (s, (r, none)) = (s, (r, none))
  emptied (s, (r, some e)) = failed s e

  unfoldable pub deliver_eth_tx_without_check : Option Tx → St → Delivered St
  unfolding broadcast_tx_bytes
  deliver_eth_tx_without_check none s = failed s not_prepared
  deliver_eth_tx_without_check (some tx) s = emptied (broadcast_tx_bytes tx s)

  -- `CheckTx` and `CheckEthTx`, of what preparing the transaction gives.
  unfoldable pub check_prepared : Option Tx → St → Delivered St
  unfolding check_tx_bytes
  check_prepared none s = failed s not_prepared
  check_prepared (some tx) s = check_tx_bytes tx s

  -- What `DeliverEthTx` makes of a broadcast: it asks `check_response` of a result without an error.
  abbrev pub checked : (TxResult → Bool) → Delivered St → Delivered St
  checked check_response (s, (r, none)) =
      if check_response r then (s, (r, none)) else (s, (r, some eth_tx_failed))
  checked check_response (s, (r, some e)) = (s, (r, some e))

  unfoldable pub deliver_eth_tx : (TxResult → Bool) → Option Tx → St → Delivered St
  unfolding broadcast_tx_bytes
  deliver_eth_tx check_response none s = failed s not_prepared
  deliver_eth_tx check_response (some tx) s = checked check_response (broadcast_tx_bytes tx s)

  -- The block was finalized, with the one result, whose code is 0.
  abbrev pub IsAccepted : Tx → St → St → TxResult → Type 0
  IsAccepted tx s s' r =
      (bz : Bytes) × (res : BlockResult Updates) × (encode tx ≡ some bz)
      × (app.finalize_block (record { height = pos 0; txs = bz ∷ [] }) s ≡ (s', some res))
      × (res.tx_results ≡ r ∷ [])
      × (r.code ≡ 0)

  only_result-eq-none :
      (s : St) (rs : List TxResult) {s' : St} {r : TxResult}
      → only_result s rs ≡ (s', (r, none))
      → (s ≡ s') × (rs ≡ r ∷ []) × (r.code ≡ 0)
  only_result-eq-none s [] h = cc
  only_result-eq-none s (q ∷ []) h = ground (arith, h)
  only_result-eq-none s (q ∷ p ∷ rs) h = cc

  block_result-eq-none :
      (p : St × Option (BlockResult Updates)) {s' : St} {r : TxResult}
      → block_result p ≡ (s', (r, none))
      → (res : BlockResult Updates) × (p ≡ (s', some res))
        × (res.tx_results ≡ r ∷ [])
        × (r.code ≡ 0)
  block_result-eq-none (s, none) h = cc
  block_result-eq-none (s, some res) h =
      let (same, one, zero_code) = only_result-eq-none s res.tx_results h in
      (res, ap (λ t. (t, some res)) same, one, zero_code)

  broadcast_tx_bytes-IsAccepted :
      (tx : Tx) (s s' : St) (r : TxResult)
      → broadcast_tx_bytes tx s ≡ (s', (r, none))
      → IsAccepted tx s s' r
  unfolding broadcast_tx_bytes
  broadcast_tx_bytes-IsAccepted tx s s' r h = split (encode tx) refl h
    where
      split :
          (o : Option Bytes)
          → encode tx ≡ o
          → broadcast_encoded o s ≡ (s', (r, none))
          → IsAccepted tx s s' r
      split none e k = cc
      split (some bz) e k =
          let (res, made, one, zero_code) =
            block_result-eq-none (app.finalize_block (record { height = pos 0; txs = bz ∷ [] }) s)
              k in
          (bz, res, e, made, one, zero_code)

  IsAccepted-broadcast_tx_bytes :
      (tx : Tx) (s s' : St) (r : TxResult)
      → IsAccepted tx s s' r
      → broadcast_tx_bytes tx s ≡ (s', (r, none))
  unfolding broadcast_tx_bytes
  IsAccepted-broadcast_tx_bytes tx s s' r (bz, res, e, made, one, zero_code) =
      ap (λ o. broadcast_encoded o s) e
      ∙ ap block_result made
      ∙ ap (only_result s') one
      ∙ ap (λ n. if n == 0 then (s', (r, none)) else failed s' invalid_request) zero_code

  checked-eq-none :
      (check : TxResult → Bool) (d : Delivered St) {s' : St} {r : TxResult}
      → checked check d ≡ (s', (r, none))
      → (d ≡ (s', (r, none))) × (check r ≡ true)
  checked-eq-none check (s, (q, none)) {s'} {r} h = split (check q) refl h
    where
      split :
          (b : Bool)
          → check q ≡ b
          → ◌≡◌ {A = Delivered St}
              (if b then (s, (q, none)) else (s, (q, some eth_tx_failed)))
              (s', (r, none))
          → (◌≡◌ {A = Delivered St} (s, (q, none)) (s', (r, none))) × (check r ≡ true)
      split true e k = let same : q ≡ r = cc in (k, ap check (sym same) ∙ e)
      split false e k = cc
  checked-eq-none check (s, (q, some e)) h = cc

  checked-state : (check : TxResult → Bool) (d : Delivered St) → (checked check d).0 ≡ (emptied d).0
  checked-state check (s, (q, none)) = ground arith
  checked-state check (s, (q, some e)) = refl

  -- `DeliverEthTx` returns a result without an error exactly where the transaction was prepared and
  -- encoded, the block with it alone was finalized with this one result, whose code is 0, and the
  -- response passes the check; the state is then that of the block. It changes the state as
  -- `DeliverEthTxWithoutCheck` does, on every path.
  pub deliver_eth_tx_iff :
      (check : TxResult → Bool) (prepared : Option Tx) (s s' : St) (r : TxResult)
      → ((deliver_eth_tx check prepared s ≡ (s', (r, none)))
          ↔ ((tx : Tx) × (prepared ≡ some tx) × IsAccepted tx s s' r × (check r ≡ true)))
        × ((deliver_eth_tx check prepared s).0 ≡ (deliver_eth_tx_without_check prepared s).0)
  unfolding deliver_eth_tx deliver_eth_tx_without_check
  deliver_eth_tx_iff check none s s' r = ((λ h. cc, λ h. cc), refl)
  deliver_eth_tx_iff check (some tx) s s' r = (
    (
      λ h.
          let (done, passes) = checked-eq-none check (broadcast_tx_bytes tx s) h in
          (tx, refl, broadcast_tx_bytes-IsAccepted tx s s' r done, passes),
      λ h.
          let same : tx ≡ h.0 = some-injective tx h.0 h.1 in
          ap (checked check) (
            IsAccepted-broadcast_tx_bytes tx s s' r
              (subst (λ t. IsAccepted t s s' r) (sym same) h.2))
          ∙ ap (λ (b : Bool). if b then (s', (r, none)) else (s', (r, some eth_tx_failed))) h.3,
    ),
    checked-state check (broadcast_tx_bytes tx s),
  )

-- ===== src/Relayer/Laws.antt =====
-- The five attempts of `processEvent`, zk-bridge/cmd/relayer/main.go, to read the transaction.
use zk_cosmos_eth_bridge.Common.{
  ℕ, zero, suc, ◌+◌, ◌≤◌, ◌<◌, ◌≡◌, ap, ◌∙◌, true, false, Option, none, arith, Outcome,
}
use zk_cosmos_eth_bridge.Rpc.Types.{TxResponse}
use zk_cosmos_eth_bridge.Rpc.Client.{RpcError}
use zk_cosmos_eth_bridge.Relayer.{is_indexed, resp_of, retry}

-- The first attempt that finds an indexed transaction ends the loop.
retry-indexed :
    (attempt : ℕ → Outcome RpcError TxResponse) (n k i : ℕ) (last : Option TxResponse)
    → k < n
    → ((j : ℕ) → j < k → is_indexed (attempt (i + j)) ≡ false)
    → is_indexed (attempt (i + k)) ≡ true
    → retry attempt n i last ≡ resp_of (attempt (i + k))
unfolding retry
retry-indexed attempt zero k i last h before found = absurd (omega arith)
retry-indexed attempt (suc n) zero i last h before found =
    let here : i ≡ i + 0 = omega arith in
    let now : is_indexed (attempt i) ≡ true = ap (λ q. is_indexed (attempt q)) here ∙ found in
    rw now (ap (λ q. resp_of (attempt q)) here)
retry-indexed attempt (suc n) (suc k) i last h before found =
    let here : i ≡ i + 0 = omega arith in
    let next : suc i + k ≡ i + suc k = omega arith in
    let not_now : is_indexed (attempt i) ≡ false =
      ap (λ q. is_indexed (attempt q)) here ∙ before 0 (omega arith) in
    rw not_now (
      retry-indexed attempt n k (suc i) (resp_of (attempt i)) (omega arith)
        (λ j below.
          let step : suc i + j ≡ i + suc j = omega arith in
          ap (λ q. is_indexed (attempt q)) step ∙ before (suc j) (omega arith))
        (ap (λ q. is_indexed (attempt q)) next ∙ found)
      ∙ ap (λ q. resp_of (attempt q)) next)

-- Without an indexed transaction the loop holds what the last attempt gave.
retry-none :
    (attempt : ℕ → Outcome RpcError TxResponse) (n i : ℕ) (last : Option TxResponse)
    → ((j : ℕ) → j ≤ n → is_indexed (attempt (i + j)) ≡ false)
    → retry attempt (suc n) i last ≡ resp_of (attempt (i + n))
unfolding retry
retry-none attempt zero i last none_found =
    let here : i ≡ i + 0 = omega arith in
    let not_now : is_indexed (attempt i) ≡ false =
      ap (λ q. is_indexed (attempt q)) here ∙ none_found 0 (omega arith) in
    rw not_now (ap (λ q. resp_of (attempt q)) here)
retry-none attempt (suc n) i last none_found =
    let here : i ≡ i + 0 = omega arith in
    let next : suc i + n ≡ i + suc n = omega arith in
    let not_now : is_indexed (attempt i) ≡ false =
      ap (λ q. is_indexed (attempt q)) here ∙ none_found 0 (omega arith) in
    rw not_now (
      retry-none attempt n (suc i) (resp_of (attempt i)) (λ j below.
        let step : suc i + j ≡ i + suc j = omega arith in
        ap (λ q. is_indexed (attempt q)) step ∙ none_found (suc j) (omega arith))
      ∙ ap (λ q. resp_of (attempt q)) next)

-- The five attempts: the response is that of the first attempt whose transaction is indexed, and
-- without one that of the fifth attempt, where it had a response.
pub retry_five :
    (attempt : ℕ → Outcome RpcError TxResponse)
    → ((k : ℕ)
        → k < 5
        → ((j : ℕ) → j < k → is_indexed (attempt j) ≡ false)
        → is_indexed (attempt k) ≡ true
        → retry attempt 5 0 none ≡ resp_of (attempt k))
      × (((j : ℕ) → j < 5 → is_indexed (attempt j) ≡ false)
          → retry attempt 5 0 none ≡ resp_of (attempt 4))
retry_five attempt = (
  λ k h before found.
      let at : 0 + k ≡ k = omega arith in
      retry-indexed attempt 5 k 0 none h
        (λ j below.
          let step : 0 + j ≡ j = omega arith in
          ap (λ q. is_indexed (attempt q)) step ∙ before j below)
        (ap (λ q. is_indexed (attempt q)) at ∙ found)
      ∙ ap (λ q. resp_of (attempt q)) at,
  λ before. retry-none attempt 4 0 none (λ j below.
      let step : 0 + j ≡ j = omega arith in
      ap (λ q. is_indexed (attempt q)) step ∙ before j (omega arith)),
)

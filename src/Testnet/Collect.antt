-- ===== src/Testnet/Collect.antt =====
-- `collectGenFiles` of evmd/cmd/evmd/cmd/testnet.go.
use mathlib.Core.Path.{subst}
use zk_cosmos_eth_bridge.Common.{
  suc, ◌≡◌, refl, ap, sym, ◌∙◌, Bool, true, false, Option, none, some, List, [], ◌∷◌, length, All,
  Outcome, ok, err, ◌>>=◌, ◌>>◌, or_err,
}
use zk_cosmos_eth_bridge.Prover.Witness.Laws.{bind-eq-ok}
use zk_cosmos_eth_bridge.Export.Zeroed.{or_err-ok}

-- What collecting the gentxs gives for one validator, and whether its file is written.
pub record Collected (State : Type 0) : Type 0 where
  pub app_state : Option State
  pub exports : Bool

pub data CollectError : Type 0 where
  genesis_unreadable file_not_written : CollectError

abbrev pub first_of : {S : Type 0} → Option S → S → S
first_of none s = s
first_of (some a) s = a

abbrev pub written : Bool → Outcome CollectError (Unit {0})
written true = ok tt
written false = err file_not_written

-- The loop over the validators: `canonical` is the state that the first of them set. The result is
-- the state in each validator's file.
unfoldable pub collect_gen_files :
    {S : Type 0} → Option S → List (Collected S) → Outcome CollectError (List S)
collect_gen_files canonical [] = ok []
collect_gen_files canonical (c ∷ cs) = do
  state ← or_err c.app_state genesis_unreadable
  let app_state = first_of canonical state
  written c.exports
  rest ← collect_gen_files (some app_state) cs
  ok (app_state ∷ rest)

collect_gen_files-some :
    {S : Type 0} (a : S) (cs : List (Collected S)) {out : List S}
    → collect_gen_files (some a) cs ≡ ok out
    → (length out ≡ length cs) × All (λ s. s ≡ a) out
unfolding collect_gen_files
collect_gen_files-some a [] {out} h =
    let same : [] ≡ out = cc in (ap length (sym same), subst (All (λ s. s ≡ a)) same tt)
collect_gen_files-some a (c ∷ cs) {out} h =
    let (state, _, h1) = bind-eq-ok (or_err c.app_state genesis_unreadable) _ h in
    let (_, _, h2) = bind-eq-ok (written c.exports) _ h1 in
    let (rest, rec, h3) = bind-eq-ok (collect_gen_files (some a) cs) _ h2 in
    let (n, all) = collect_gen_files-some a cs rec in
    let same : a ∷ rest ≡ out = cc in
    (ap length (sym same) ∙ ap suc n, subst (All (λ s. s ≡ a)) same (refl, all))

-- On success every validator's file has the state that was collected for the first one.
pub collect_gen_files_same :
    {S : Type 0} (c : Collected S) (cs : List (Collected S)) (out : List S)
    → collect_gen_files none (c ∷ cs) ≡ ok out
    → (a : S) × (c.app_state ≡ some a) × (length out ≡ suc (length cs)) × All (λ s. s ≡ a) out
unfolding collect_gen_files
collect_gen_files_same c cs out h =
    let (state, is_state, h1) = bind-eq-ok (or_err c.app_state genesis_unreadable) _ h in
    let (_, _, h2) = bind-eq-ok (written c.exports) _ h1 in
    let (rest, rec, h3) = bind-eq-ok (collect_gen_files (some state) cs) _ h2 in
    let (n, all) = collect_gen_files-some state cs rec in
    let same : state ∷ rest ≡ out = cc in
    (
      state,
      or_err-ok c.app_state genesis_unreadable is_state,
      ap length (sym same) ∙ ap suc n,
      subst (All (λ s. s ≡ state)) same (refl, all),
    )

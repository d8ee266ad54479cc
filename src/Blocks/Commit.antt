-- ===== src/Blocks/Commit.antt =====
-- `commit`, `Commit`, `CommitAndCreateNewCtx` and `applyValSetChanges` of evmd/testutil/abci.go.
pub mod Laws
use zk_cosmos_eth_bridge.Common.{
  ℕ, ◌≡◌, refl, ap, sym, ◌∙◌, Bool, true, false, Option, none, some, List, [], ◌∷◌, arith, Bytes,
}
use zk_cosmos_eth_bridge.Common.Int.{ℤ, pos, ◌+ℤ◌, increment}
use zk_cosmos_eth_bridge.Blocks.{BlockRequest, BlockResult, Header, Context, EvmApp}

pub data CommitError : Type 0 where
  finalize_failed bad_updates end_block_failed commit_failed begin_block_failed : CommitError

pub data CommitEnd : Type 0 where
  done : Header → CommitEnd
  stopped : CommitError → CommitEnd

-- The state, and the header or the error that `commit` ends with; its callers drop the header of an
-- error.
abbrev pub Committed : Type 0 → Type 0
Committed St = St × CommitEnd

module _ {St X Vals Updates Changes : Type 0} (app : EvmApp St X Vals Updates Changes) where
  abbrev pub changed : Vals → Option Changes → Option Vals
  changed vs none = none
  changed vs (some changes) = app.update_with_change_set changes vs

  unfoldable pub apply_val_set_changes : Vals → Updates → Option Vals
  apply_val_set_changes vs updates = changed vs (app.to_changes updates)

  -- The header behind a commit that left this state.
  unfoldable pub next_header : ℤ → Header → St → Header
  next_header t header s = record header {
    height = increment header.height;
    time = header.time +ℤ t;
    app_hash = app.last_commit_hash s;
  }

  abbrev pub begun : Header → St × Bool → Committed St
  begun header (s, true) = (s, done header)
  begun header (s, false) = (s, stopped begin_block_failed)

  abbrev pub stored : Context X → ℤ → Header → St × Bool → Committed St
  stored ctx t header (s, true) = begun (next_header t header s) (app.begin_blocker ctx s)
  stored ctx t header (s, false) = (s, stopped commit_failed)

  -- From the commit of the state on.
  unfoldable pub finish : Context X → ℤ → Header → St → Committed St
  unfolding next_header
  finish ctx t header s = stored ctx t header (app.commit s)

  abbrev pub ended : Context X → ℤ → St × Bool → Committed St
  ended ctx t (s, true) = finish ctx t ctx.block_header s
  ended ctx t (s, false) = (s, stopped end_block_failed)

  -- The header with the hashes of the validators of this block and of the next.
  abbrev pub with_validators : Vals → Vals → Header → Header
  with_validators vs next header = record header {
    validators_hash = app.hash vs;
    next_validators_hash = app.hash next;
  }

  abbrev pub updated : Context X → ℤ → Vals → St → Option Vals → Committed St
  updated ctx t vs s none = (s, stopped bad_updates)
  updated ctx t vs s (some next) = finish ctx t (with_validators vs next ctx.block_header) s

  abbrev pub finalized : Context X → ℤ → Vals → St × Option (BlockResult Updates) → Committed St
  finalized ctx t vs (s, none) = (s, stopped finalize_failed)
  finalized ctx t vs (s, some res) =
      updated ctx t vs s (apply_val_set_changes vs res.validator_updates)

  unfoldable pub commit_block : Context X → ℤ → Option Vals → St → Committed St
  unfolding finish apply_val_set_changes
  commit_block ctx t none s = ended ctx t (app.end_blocker ctx s)
  commit_block ctx t (some vs) s =
      finalized ctx t vs
        (app.finalize_block (record { height = ctx.block_header.height; txs = [] }) s)

  -- The context that a caller goes on with, and the error.
  abbrev pub with_header : Context X → Committed St → St × (Context X × Option CommitError)
  with_header ctx (s, done header) = (s, (record ctx { block_header = header }, none))
  with_header ctx (s, stopped e) = (s, (ctx, some e))

  -- `Commit`
  unfoldable pub commit_context :
      Context X → ℤ → Option Vals → St → St × (Context X × Option CommitError)
  unfolding commit_block
  commit_context ctx t vs s = with_header ctx (commit_block ctx t vs s)

  abbrev pub with_new_context : Context X → Committed St → St × (Context X × Option CommitError)
  with_new_context ctx (s, done header) = (
    s,
    (
      record (app.new_context header s) {
        min_gas_prices = ctx.min_gas_prices;
        event_manager = ctx.event_manager;
        kv_gas_config = ctx.kv_gas_config;
        transient_kv_gas_config = ctx.transient_kv_gas_config;
      },
      none,
    ),
  )
  with_new_context ctx (s, stopped e) = (s, (ctx, some e))

  -- `CommitAndCreateNewCtx`
  unfoldable pub commit_and_create_new_ctx :
      Context X → ℤ → Option Vals → St → St × (Context X × Option CommitError)
  unfolding commit_block
  commit_and_create_new_ctx ctx t vs s = with_new_context ctx (commit_block ctx t vs s)

  -- How a committed block ended: by its end blocker, or finalized, with the validators' hashes.
  abbrev pub Ends : Context X → Option Vals → St → St → Header → Type 0
  Ends ctx none s s1 header = (app.end_blocker ctx s ≡ (s1, true)) × (header ≡ ctx.block_header)
  Ends ctx (some vs) s s1 header =
      (res : BlockResult Updates) × (next : Vals) × (app.finalize_block
          (record { height = ctx.block_header.height; txs = [] }) s
        ≡ (s1, some res))
      × (apply_val_set_changes vs res.validator_updates ≡ some next)
      × (header ≡ with_validators vs next ctx.block_header)

  -- A block was committed: it ended, the state was committed, and the next block began, with the
  -- context as it was.
  pub record IsCommitted (ctx : Context X) (t : ℤ) (vs : Option Vals) (s s' : St) (h : Header)
      : Type 0 where
    pub ended_state : St
    pub committed_state : St
    pub header : Header
    pub ends : Ends ctx vs s ended_state header
    pub commits : app.commit ended_state ≡ (committed_state, true)
    pub begins : app.begin_blocker ctx committed_state ≡ (s', true)
    pub height_lem : h.height ≡ increment ctx.block_header.height
    pub time_lem : h.time ≡ ctx.block_header.time +ℤ t
    pub app_hash_lem : h.app_hash ≡ app.last_commit_hash committed_state
    pub validators_lem : h.validators_hash ≡ header.validators_hash
    pub next_validators_lem : h.next_validators_hash ≡ header.next_validators_hash

-- ===== src/Blocks/Commit/Laws.antt =====
-- `Commit` and `CommitAndCreateNewCtx` of evmd/testutil/abci.go together.
use zk_cosmos_eth_bridge.Common.{
  ◌≡◌, ◌⊎◌, inl, inr, refl, ap, Bool, true, false, Option, none, some, [],
}
use zk_cosmos_eth_bridge.Common.Int.{ℤ, ◌+ℤ◌, increment}
use zk_cosmos_eth_bridge.Blocks.{BlockRequest, BlockResult, Header, Context, EvmApp}
use zk_cosmos_eth_bridge.Blocks.Commit.{
  CommitError, done, stopped, Committed, apply_val_set_changes, next_header, begun, stored, finish,
  ended, with_validators, updated, finalized, commit_block, with_header, commit_context,
  with_new_context, commit_and_create_new_ctx, Ends, IsCommitted,
}

module _ {St X Vals Updates Changes : Type 0} (app : EvmApp St X Vals Updates Changes) where
  -- Either the block is committed, or there is an error.
  abbrev pub Answers : Context X → ℤ → Option Vals → St → Committed St → Type 0
  Answers ctx t vs s (s', done h) = IsCommitted app ctx t vs s s' h
  Answers ctx t vs s (s', stopped e) = Unit {0}

  finish-Answers :
      (ctx : Context X) (t : ℤ) (vs : Option Vals) (s s1 : St) (header : Header)
      → Ends app ctx vs s s1 header
      → header.height ≡ ctx.block_header.height
      → header.time ≡ ctx.block_header.time
      → Answers ctx t vs s (finish app ctx t header s1)
  unfolding finish
  finish-Answers ctx t vs s s1 header ends same_height same_time = by_commit (app.commit s1) refl
    where
      by_begin :
          (s2 : St)
          → app.commit s1 ≡ (s2, true)
          → (b : St × Bool) → app.begin_blocker ctx s2 ≡ b
          → Answers ctx t vs s (begun app (next_header app t header s2) b)
      by_begin s2 commits (s3, true) begins = record {
        ended_state = s1;
        committed_state = s2;
        header = header;
        ends = ends;
        commits = commits;
        begins = begins;
        height_lem = unfold next_header in ap increment same_height;
        time_lem = unfold next_header in ap (λ r. r +ℤ t) same_time;
        app_hash_lem = unfold next_header in refl;
        validators_lem = unfold next_header in refl;
        next_validators_lem = unfold next_header in refl;
      }
      by_begin s2 commits (s3, false) begins = tt

      by_commit :
          (c : St × Bool) → app.commit s1 ≡ c → Answers ctx t vs s (stored app ctx t header c)
      by_commit (s2, true) e = by_begin s2 e (app.begin_blocker ctx s2) refl
      by_commit (s2, false) e = tt

  commit_block-Answers :
      (ctx : Context X) (t : ℤ) (vs : Option Vals) (s : St)
      → Answers ctx t vs s (commit_block app ctx t vs s)
  unfolding commit_block
  commit_block-Answers ctx t none s = by_end (app.end_blocker ctx s) refl
    where
      by_end :
          (e : St × Bool) → app.end_blocker ctx s ≡ e → Answers ctx t none s (ended app ctx t e)
      by_end (s1, true) e = finish-Answers ctx t none s s1 ctx.block_header (e, refl) refl refl
      by_end (s1, false) e = tt
  commit_block-Answers ctx t (some vs) s = by_block (app.finalize_block request s) refl
    where
      request : BlockRequest
      request = record { height = ctx.block_header.height; txs = [] }

      by_update :
          (s1 : St) (res : BlockResult Updates)
          → app.finalize_block request s ≡ (s1, some res)
          → (o : Option Vals) → apply_val_set_changes app vs res.validator_updates ≡ o
          → Answers ctx t (some vs) s (updated app ctx t vs s1 o)
      by_update s1 res made none e = tt
      by_update s1 res made (some next) e =
          finish-Answers ctx t (some vs) s s1 (with_validators app vs next ctx.block_header)
            (res, next, made, e, refl) refl refl

      by_block :
          (b : St × Option (BlockResult Updates))
          → app.finalize_block request s ≡ b
          → Answers ctx t (some vs) s (finalized app ctx t vs b)
      by_block (s1, none) e = tt
      by_block (s1, some res) e =
          by_update s1 res e (apply_val_set_changes app vs res.validator_updates) refl

  -- The two ways to go on from a committed block: the same state, and the header in the old context or
  -- in a new one that keeps four settings; with an error, the context as it was.
  abbrev pub Continues :
      Context X
      → ℤ
      → Option Vals
      → St
      → St × (Context X × Option CommitError)
      → St × (Context X × Option CommitError)
      → Type 0
  Continues ctx t vs s a b =
      ((s' : St) × (h : Header) × (c : Context X) × IsCommitted app ctx t vs s s' h
        × (a ≡ (s', (record ctx { block_header = h }, none)))
        × (b ≡ (s', (c, none)))
        × (c.block_header ≡ h)
        × (c.min_gas_prices ≡ ctx.min_gas_prices)
        × (c.event_manager ≡ ctx.event_manager)
        × (c.kv_gas_config ≡ ctx.kv_gas_config)
        × (c.transient_kv_gas_config ≡ ctx.transient_kv_gas_config)
        × (c.others ≡ (app.new_context h s').others))
      ⊎ ((s' : St) × (e : CommitError) × (a ≡ (s', (ctx, some e))) × (b ≡ (s', (ctx, some e))))

  -- Where a new context has the header that it is made for: a commit and a commit with a new context
  -- leave the same state and the same error. With an error the context is the old one. Without one,
  -- the block ended, was committed, and the next began; the header has the next height, the time
  -- moved by `t`, the hash of the committed state and those of the validators; the one way it stands
  -- in the old context, the other in a new one with four settings of the old.
  pub commit-Continues :
      (new_context_header : (h : Header) (s : St) → (app.new_context h s).block_header ≡ h)
      (ctx : Context X) (t : ℤ) (vs : Option Vals) (s : St)
      → Continues ctx t vs s
          (commit_context app ctx t vs s)
          (commit_and_create_new_ctx app ctx t vs s)
  unfolding commit_context commit_and_create_new_ctx
  commit-Continues new_context_header ctx t vs s =
      split (commit_block app ctx t vs s) (commit_block-Answers ctx t vs s)
    where
      split :
          (c : Committed St)
          → Answers ctx t vs s c
          → Continues ctx t vs s (with_header app ctx c) (with_new_context app ctx c)
      split (s', done h) is =
          inl (s', h, _, is, refl, refl, new_context_header h s', refl, refl, refl, refl, refl)
      split (s', stopped e) is = inr (s', e, refl, refl)

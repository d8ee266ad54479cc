-- ===== src/Relayer/Main.antt =====
-- `init` and `main` of zk-bridge/cmd/relayer/main.go: the environment, and the process as a step
-- relation between the loop that reads and the loop that waits for an interrupt.
use zk_cosmos_eth_bridge.Common.{
  ◌≡◌, inl, inr, refl, ap, sym, ◌∙◌, Bool, true, false, Option, none, some, List, [], ◌∷◌, ◌++◌,
  if◌then◌else◌, Bytes, codes, text_eq, Bool-cases,
}
use mathlib.Core.List.{append_assoc}
use mathlib.Core.Path.{subst}
use zk_cosmos_eth_bridge.Relayer.{Settings, WsResponse, message_hash, started}
use zk_cosmos_eth_bridge.Relayer.Announced.{Announced, started-Announced}

-- `init`, of the variables of the environment and its file; none where the process ends, for want of a
-- key.
unfoldable pub read_environment : (Bytes → Bytes) → Option Settings
read_environment get_env =
    if text_eq (get_env (codes "RELAYER_PRIV_KEY")) []
    then none
    else some (record {
      cosmos_ws_url = get_env (codes "COSMOS_WS_URL");
      cosmos_rpc_url = get_env (codes "COSMOS_RPC_URL");
      cosmos_evm_rpc_url = get_env (codes "COSMOS_EVM_RPC_URL");
      bridge_source_addr = get_env (codes "BRIDGE_SOURCE_ADDR");
      ethereum_rpc_url = get_env (codes "ETHEREUM_RPC_URL");
      bridge_dest_addr = get_env (codes "BRIDGE_DEST_ADDR");
      relayer_priv_key = get_env (codes "RELAYER_PRIV_KEY");
    })

pub data Phase : Type 0 where
  subscribing monitoring closing stopped fatal : Phase

abbrev pub is_running : Phase → Bool
is_running subscribing = true
is_running monitoring = true
is_running closing = true
is_running stopped = false
is_running fatal = false

-- The messages that the node still sends, whether the reading loop runs, and the hashes of the runs
-- of `processEvent` that were started.
pub record Process : Type 0 where
  pub pending : List (Option WsResponse)
  pub reading : Bool
  pub phase : Phase
  pub runs : List Bytes

-- Behind the dial: the reading loop starts in front of the subscription.
unfoldable pub connect : Bool → List (Option WsResponse) → Process
connect dials messages = record {
  pending = messages;
  reading = dials;
  phase = if dials then subscribing else fatal;
  runs = [];
}

-- A turn of the reading loop.
abbrev pub received : Option WsResponse → List (Option WsResponse) → Process → Process
received m ms p = record p { pending = ms; runs = p.runs ++ started (m ∷ []) }

-- The steps of the two loops, in whatever order. The process ends with `main`: no loop goes on then.
pub data MainStep : Process → Process → Type 0 where
  receives :
      (p : Process) (m : Option WsResponse) (ms : List (Option WsResponse))
      → is_running p.phase ≡ true
      → p.reading ≡ true
      → p.pending ≡ m ∷ ms
      → MainStep p (received m ms p)
  breaks :
      (p : Process)
      → is_running p.phase ≡ true
      → p.reading ≡ true
      → MainStep p (record p { reading = false })
  subscribes : (p : Process) → p.phase ≡ subscribing → MainStep p (record p { phase = monitoring })
  refuses : (p : Process) → p.phase ≡ subscribing → MainStep p (record p { phase = fatal })
  finishes :
      (p : Process)
      → p.phase ≡ monitoring
      → p.reading ≡ false
      → MainStep p (record p { phase = stopped })
  interrupts : (p : Process) → p.phase ≡ monitoring → MainStep p (record p { phase = closing })
  closes :
      (p : Process)
      → p.phase ≡ closing
      → p.reading ≡ false
      → MainStep p (record p { phase = stopped })
  times_out : (p : Process) → p.phase ≡ closing → MainStep p (record p { phase = stopped })
  -- a panic in one of the runs of `processEvent`, which nothing recovers
  crashes :
      (p : Process) (tx_hash : Bytes) (before after : List Bytes)
      → is_running p.phase ≡ true
      → p.runs ≡ before ++ (tx_hash ∷ after)
      → MainStep p (record p { phase = fatal })

pub data MainSteps (p : Process) : Process → Type 0 where
  here : MainSteps p p
  next : {q r : Process} → MainSteps p q → MainStep q r → MainSteps p r

started-append : (a b : List (Option WsResponse)) → started (a ++ b) ≡ started a ++ started b
unfolding started
started-append [] b = refl
started-append (none ∷ a) b = started-append a b
started-append (some resp ∷ a) b = elim (Bool-cases (text_eq (message_hash resp) [])) [
  | inl e ↦ rw e (started-append a b)
  | inr e ↦ rw e (ap (λ t. message_hash resp ∷ t) (started-append a b))
]

-- The messages that were received, of all that are sent, started the runs.
record IsMonitored (messages : List (Option WsResponse)) (p : Process) : Type 0 where
  seen : List (Option WsResponse)
  in_order : messages ≡ seen ++ p.pending
  runs_lem : p.runs ≡ started seen

MainStep-IsMonitored :
    {messages : List (Option WsResponse)} {p q : Process}
    → MainStep p q
    → IsMonitored messages p
    → IsMonitored messages q
MainStep-IsMonitored (receives p m ms running reading e) h = record {
  seen = h.seen ++ m ∷ [];
  in_order = h.in_order ∙ ap (λ t. h.seen ++ t) e ∙ sym (append_assoc h.seen (m ∷ []) ms);
  runs_lem = ap (λ t. t ++ started (m ∷ [])) h.runs_lem ∙ sym (started-append h.seen (m ∷ []));
}
MainStep-IsMonitored (breaks p running reading) h = record {
  seen = h.seen;
  in_order = h.in_order;
  runs_lem = h.runs_lem;
}
MainStep-IsMonitored (subscribes p e) h = record {
  seen = h.seen;
  in_order = h.in_order;
  runs_lem = h.runs_lem;
}
MainStep-IsMonitored (refuses p e) h = record {
  seen = h.seen;
  in_order = h.in_order;
  runs_lem = h.runs_lem;
}
MainStep-IsMonitored (finishes p e k) h = record {
  seen = h.seen;
  in_order = h.in_order;
  runs_lem = h.runs_lem;
}
MainStep-IsMonitored (interrupts p e) h = record {
  seen = h.seen;
  in_order = h.in_order;
  runs_lem = h.runs_lem;
}
MainStep-IsMonitored (closes p e k) h = record {
  seen = h.seen;
  in_order = h.in_order;
  runs_lem = h.runs_lem;
}
MainStep-IsMonitored (times_out p e) h = record {
  seen = h.seen;
  in_order = h.in_order;
  runs_lem = h.runs_lem;
}
MainStep-IsMonitored (crashes p tx_hash before after running k) h = record {
  seen = h.seen;
  in_order = h.in_order;
  runs_lem = h.runs_lem;
}

MainSteps-IsMonitored :
    {messages : List (Option WsResponse)} {p q : Process}
    → MainSteps p q
    → IsMonitored messages p
    → IsMonitored messages q
MainSteps-IsMonitored here h = h
MainSteps-IsMonitored (next steps step) h =
    MainStep-IsMonitored step (MainSteps-IsMonitored steps h)

-- Whatever the order of the steps: the runs that the relayer has started are for the transactions
-- that the messages it has received announce (`Announced`), in their order, and these messages are
-- the first of those that the node sends.
pub MainSteps-connect :
    (dials : Bool) (messages : List (Option WsResponse)) (p : Process)
    → MainSteps (connect dials messages) p
    → (seen : List (Option WsResponse)) × (messages ≡ seen ++ p.pending) × Announced seen p.runs
unfolding connect
MainSteps-connect dials messages p steps =
    let is =
      MainSteps-IsMonitored steps
        (record { seen = []; in_order = refl; runs_lem = unfold started in refl }) in
    (is.seen, is.in_order, subst (Announced is.seen) (sym is.runs_lem) (started-Announced is.seen))

-- ===== src/Relayer/Announced.antt =====
-- The transactions that the messages of the WebSocket announce, of the reading loop of
-- zk-bridge/cmd/relayer/main.go.
use zk_cosmos_eth_bridge.Common.{
  ◌≡◌, refl, ap, sym, ◌∙◌, true, false, inl, inr, Option, none, some, List, [], ◌∷◌, ◌++◌,
  if◌then◌else◌, Bytes, codes, text_eq, text_eq→eq, Bool-cases, All,
}
use mathlib.Core.Path.{subst}
use zk_cosmos_eth_bridge.Relayer.{WsResponse, first_or_empty, event_hash, message_hash, started}

-- The events have an entry at "tx.hash", with the hash `h` in front.
pub record HasEventHash (events : List (Bytes × List Bytes)) (h : Bytes) : Type 0 where
  pub before : List (Bytes × List Bytes)
  pub after : List (Bytes × List Bytes)
  pub others : List Bytes
  pub found : events ≡ before ++ ((codes "tx.hash", h ∷ others) ∷ after)
  pub first : All (λ e. text_eq e.0 (codes "tx.hash") ≡ false) before

-- The transaction that a message announces: that of its result, or where this has no hash, the first
-- of its events.
pub data Announces (resp : WsResponse) (h : Bytes) : Type 0 where
  by_result : resp.tx_result_hash ≡ h → text_eq h [] ≡ false → Announces resp h
  by_events :
      resp.tx_result_hash ≡ []
      → HasEventHash resp.events h
      → text_eq h [] ≡ false
      → Announces resp h

-- The transactions that a sequence of messages announces, in order. A message that is no JSON
-- announces none.
pub data Announced : List (Option WsResponse) → List Bytes → Type 0 where
  no_messages : Announced [] []
  no_json :
      {messages : List (Option WsResponse)} {hs : List Bytes}
      → Announced messages hs
      → Announced (none ∷ messages) hs
  silent :
      {resp : WsResponse} {messages : List (Option WsResponse)} {hs : List Bytes}
      → ((h : Bytes) → ¬ Announces resp h)
      → Announced messages hs
      → Announced (some resp ∷ messages) hs
  announced :
      {resp : WsResponse} {messages : List (Option WsResponse)} {h : Bytes} {hs : List Bytes}
      → Announces resp h
      → Announced messages hs
      → Announced (some resp ∷ messages) (h ∷ hs)

event_hash-append :
    (before after : List (Bytes × List Bytes)) (h : Bytes) (others : List Bytes)
    → All (λ e. text_eq e.0 (codes "tx.hash") ≡ false) before
    → event_hash (before ++ ((codes "tx.hash", h ∷ others) ∷ after)) ≡ h
unfolding event_hash
event_hash-append [] after h others all = refl
event_hash-append ((key, hashes) ∷ before) after h others all =
    rw all.0 (event_hash-append before after h others all.1)

event_hash-HasEventHash :
    (events : List (Bytes × List Bytes))
    → text_eq (event_hash events) [] ≡ false
    → HasEventHash events (event_hash events)
unfolding event_hash
event_hash-HasEventHash [] e = cc
event_hash-HasEventHash ((key, hashes) ∷ events) e =
    elim (Bool-cases (text_eq key (codes "tx.hash"))) [
      | inl k ↦
          subst (HasEventHash ((key, hashes) ∷ events))
            (sym (ap (λ b. if b then first_or_empty hashes else event_hash events) k))
            (at_front hashes
              (sym (ap (λ b. text_eq (if b then first_or_empty hashes else event_hash events) []) k)
                ∙ e)
              (text_eq→eq key (codes "tx.hash") k))
      | inr there ↦
          subst (HasEventHash ((key, hashes) ∷ events))
            (sym (ap (λ b. if b then first_or_empty hashes else event_hash events) there))
            (behind there (
              event_hash-HasEventHash events (
                sym (
                  ap (λ b. text_eq (if b then first_or_empty hashes else event_hash events) [])
                    there)
                ∙ e)))
    ]
  where
    at_front :
        (hs : List Bytes)
        → text_eq (first_or_empty hs) [] ≡ false
        → key ≡ codes "tx.hash"
        → HasEventHash ((key, hs) ∷ events) (first_or_empty hs)
    at_front [] bad same = cc
    at_front (h ∷ hs) good same = record {
      before = [];
      after = events;
      others = hs;
      found = ap (λ k. (k, h ∷ hs) ∷ events) same;
      first = tt;
    }

    behind :
        text_eq key (codes "tx.hash") ≡ false
        → {h : Bytes} → HasEventHash events h
        → HasEventHash ((key, hashes) ∷ events) h
    behind other has = record {
      before = (key, hashes) ∷ has.before;
      after = has.after;
      others = has.others;
      found = ap (λ t. (key, hashes) ∷ t) has.found;
      first = (other, has.first);
    }

Announces-message_hash :
    (resp : WsResponse) (h : Bytes)
    → Announces resp h
    → (message_hash resp ≡ h) × (text_eq h [] ≡ false)
unfolding message_hash
Announces-message_hash resp h (by_result e present) = (rw (e, present) refl, present)
Announces-message_hash resp h (by_events e has present) = (
  rw e (ap event_hash has.found ∙ event_hash-append has.before has.after h has.others has.first),
  present,
)

message_hash-Announces :
    (resp : WsResponse)
    → text_eq (message_hash resp) [] ≡ false
    → Announces resp (message_hash resp)
unfolding message_hash
message_hash-Announces resp present = elim (Bool-cases (text_eq resp.tx_result_hash [])) [
  | inl e ↦
      let same = ap (λ b. if b then event_hash resp.events else resp.tx_result_hash) e in
      let given = sym (ap (λ h. text_eq h []) same) ∙ present in
      subst (Announces resp) (sym same) (
        by_events (text_eq→eq resp.tx_result_hash [] e) (event_hash-HasEventHash resp.events given)
          given)
  | inr e ↦
      let same = ap (λ b. if b then event_hash resp.events else resp.tx_result_hash) e in
      subst (Announces resp) (sym same) (by_result refl e)
]

pub started-Announced :
    (messages : List (Option WsResponse)) → Announced messages (started messages)
unfolding started
started-Announced [] = no_messages
started-Announced (none ∷ messages) = no_json (started-Announced messages)
started-Announced (some resp ∷ messages) = elim (Bool-cases (text_eq (message_hash resp) [])) [
  | inl e ↦
      subst (Announced (some resp ∷ messages))
        (sym (ap (λ b. if b then started messages else message_hash resp ∷ started messages) e))
        (silent (not_announced e) (started-Announced messages))
  | inr e ↦
      subst (Announced (some resp ∷ messages))
        (sym (ap (λ b. if b then started messages else message_hash resp ∷ started messages) e))
        (announced (message_hash-Announces resp e) (started-Announced messages))
]
  where
    not_announced : text_eq (message_hash resp) [] ≡ true → (h : Bytes) → ¬ Announces resp h
    not_announced e h is =
        let (same, present) = Announces-message_hash resp h is in
        let bad : true ≡ false = sym e ∙ ap (λ t. text_eq t []) same ∙ present in cc

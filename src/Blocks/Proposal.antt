-- ===== src/Blocks/Proposal.antt =====
-- evmd/testutil/integration.go: proposals, delegations and votes, delivered as transactions.
use zk_cosmos_eth_bridge.Common.{
  ℕ, ◌^◌, ◌<◌, ◌≡◌, ap, ◌∙◌, Bool, ◌&&◌, Option, none, some, List, [], ◌∷◌, if◌then◌else◌, ltb,
  lt→ltb, Bytes, codes, text_eq, get_elem?, Outcome, ok, err, panic,
}
use zk_cosmos_eth_bridge.Codec.Decimal.{decimal, whole_number, whole_number-decimal}
use zk_cosmos_eth_bridge.Blocks.{Attribute, Event, TxResult, EvmApp}
use zk_cosmos_eth_bridge.Blocks.Deliver.{DeliverError, not_prepared, Delivered, failed, deliver_tx}

pub data ProposalError : Type 0 where
  no_message : ProposalError
  not_delivered : DeliverError → ProposalError
  other_event : ProposalError
  bad_id : ProposalError

-- `strconv.ParseUint(s, 10, 64)`
unfoldable pub parse_uint : Bytes → Outcome ProposalError ℕ
parse_uint s = elim (whole_number s) [
  | none ↦ err bad_id
  | some n ↦ if ltb n (2 ^ 64) then ok n else err bad_id
]

-- `Attributes[0]` is out of range where there is none. The kind of the event is compared first.
abbrev pub first_attribute : Bytes → List Attribute → Outcome ProposalError ℕ
first_attribute kind [] = if text_eq kind (codes "submit_proposal") then panic else err other_event
first_attribute kind (a ∷ as_) =
    if text_eq kind (codes "submit_proposal") && text_eq a.key (codes "proposal_id")
    then parse_uint a.value
    else err other_event

-- `GetEvents()[eventNum]`
abbrev pub proposal_event : Option Event → Outcome ProposalError ℕ
proposal_event none = panic
proposal_event (some e) = first_attribute e.kind e.attributes

abbrev pub proposal_of : {St : Type 0} → ℕ → Delivered St → St × Outcome ProposalError ℕ
proposal_of event_num (s, (r, some e)) = (s, err (not_delivered e))
proposal_of event_num (s, (r, none)) = (s, proposal_event (get_elem? r.events event_num))

module _ {St X Vals Updates Changes Tx Msg : Type 0} (app : EvmApp St X Vals Updates Changes)
    (encode : Tx → Option Bytes) (prepare : Msg → St → Option Tx) where
  -- `SubmitProposal`, of the message that is made for the content.
  unfoldable pub submit_proposal : ℕ → Option Msg → St → St × Outcome ProposalError ℕ
  submit_proposal event_num none s = (s, err no_message)
  submit_proposal event_num (some msg) s =
      proposal_of event_num (deliver_tx app encode (prepare msg s) s)

  -- `Delegate`, of the message that is made for the validator's address, and `Vote`.
  unfoldable pub delegate : Option Msg → St → Delivered St
  delegate none s = failed s not_prepared
  delegate (some msg) s = deliver_tx app encode (prepare msg s) s

  unfoldable pub vote : Msg → St → Delivered St
  vote msg s = deliver_tx app encode (prepare msg s) s

  -- Where the delivery of the message succeeds, and the event at the number is a submitted proposal
  -- whose first attribute is its identifier in decimal, below 2^64, `SubmitProposal` returns that
  -- identifier.
  pub submit_proposal-decimal :
      (event_num id : ℕ) (msg : Msg) (s s' : St) (r : TxResult) (more : List Attribute)
      → id < 2 ^ 64
      → deliver_tx app encode (prepare msg s) s ≡ (s', (r, none))
      → get_elem? r.events event_num
        ≡ some (record {
          kind = codes "submit_proposal";
          attributes = record { key = codes "proposal_id"; value = decimal id } ∷ more;
        })
      → submit_proposal event_num (some msg) s ≡ (s', ok id)
  unfolding submit_proposal parse_uint
  submit_proposal-decimal event_num id msg s s' r more small delivered event =
      ap (proposal_of event_num) delivered
      ∙ ap (λ o. (s', proposal_event o)) event
      ∙ ap
          (λ (n : Option ℕ). (
            s',
            elim n [ none ↦ err bad_id | some k ↦ if ltb k (2 ^ 64) then ok k else err bad_id ],
          ))
          (whole_number-decimal id)
      ∙ ap (λ (b : Bool). (s', if b then ok id else err bad_id)) (lt→ltb id (2 ^ 64) small)

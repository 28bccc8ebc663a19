-- ===== src/Receiver/Senders.antt =====
-- Core/NetMsgBusReceiverMgr.hpp: whose messages are handled.
use mathlib.Core.List.{append_assoc, append-nil}
use message_bus_all_in_one_f.Common.{
  ℕ, ◌≡◌, refl, sym, ap, ◌∙◌, Bool-cases, none, some, List, [], ◌∷◌, ◌++◌, ◌==◌, ==_refl,
  if◌then◌else◌, All, inl, inr,
}
use message_bus_all_in_one_f.Table.{nat_key, lookup, insert, lookup-insert}
use message_bus_all_in_one_f.Filter.{Filters}
use message_bus_all_in_one_f.Receiver.{Receiver, check_msg_sender, queue_content, receive_one}
use message_bus_all_in_one_f.Receiver.Stream.{Packet, receive_all}

-- The messages that are answered, with their ids.
abbrev pub answered : List Packet → List (List ℕ × ℕ)
answered [] = []
answered (p ∷ ps) =
    let rest = answered ps in if p.sync_sid == 0 then rest else (p.content, p.sync_sid) ∷ rest

-- The messages show no sender that is allowed.
abbrev pub Rejected : Filters → List Packet → Type 0
Rejected filters ps = All (λ (p : Packet). check_msg_sender filters p.content ≡ none) ps

queue_content-answered :
    (r : Receiver) (p : Packet) (ps : List Packet)
    → (queue_content r p.content p.sync_sid).queued ++ answered ps ≡ r.queued ++ answered (p ∷ ps)
unfolding queue_content
queue_content-answered r p ps = elim (Bool-cases (p.sync_sid == 0)) [
  | inl zero_sid ↦ rw (zero_sid, queue_content) refl
  | inr sid ↦
      rw (sid, queue_content) (append_assoc r.queued ((p.content, p.sync_sid) ∷ []) (answered ps))
]

queue_content_senders :
    (r : Receiver) (content : List ℕ) (sid : ℕ)
    → (queue_content r content sid).client_senders ≡ r.client_senders
unfolding queue_content
queue_content_senders r content sid = elim (Bool-cases (sid == 0)) [
  | inl zero_sid ↦ rw (zero_sid, queue_content) refl
  | inr other ↦ rw (other, queue_content) refl
]

receive_one_known :
    (filters : Filters) (fd : ℕ) (r : Receiver) (content name : List ℕ) (sid : ℕ)
    → lookup fd r.client_senders ≡ some name
    → receive_one filters fd r content sid ≡ queue_content r content sid
unfolding receive_one
receive_one_known filters fd r content name sid e = rw (e, receive_one) refl

receive_one_allowed :
    (filters : Filters) (fd : ℕ) (r : Receiver) (content name : List ℕ) (sid : ℕ)
    → lookup fd r.client_senders ≡ none
    → check_msg_sender filters content ≡ some name
    → receive_one filters fd r content sid
      ≡ queue_content (record r { client_senders = insert fd name r.client_senders }) content sid
unfolding receive_one
receive_one_allowed filters fd r content name sid e e' = rw (e, receive_one, e') refl

receive_one_rejected :
    (filters : Filters) (fd : ℕ) (r : Receiver) (content : List ℕ) (sid : ℕ)
    → lookup fd r.client_senders ≡ none
    → check_msg_sender filters content ≡ none
    → receive_one filters fd r content sid ≡ record r { disallowed = r.disallowed ++ (fd ∷ []) }
unfolding receive_one
receive_one_rejected filters fd r content sid e e' = rw (e, receive_one, e') refl

receive_all_known :
    (filters : Filters) (fd : ℕ) (r : Receiver) (name : List ℕ) (ps : List Packet)
    → lookup fd r.client_senders ≡ some name
    → ((receive_all filters fd r ps).queued ≡ r.queued ++ answered ps)
      × (lookup fd (receive_all filters fd r ps).client_senders ≡ some name)
receive_all_known filters fd r name [] e = (sym (append-nil r.queued), e)
receive_all_known filters fd r name (p ∷ ps) e =
    let next = queue_content r p.content p.sync_sid in
    let (queued, still) =
      receive_all_known filters fd next name ps
        (ap (lookup fd) (queue_content_senders r p.content p.sync_sid) ∙ e) in
    rw (receive_all, receive_one_known filters fd r p.content name p.sync_sid e)
      (queued ∙ queue_content-answered r p ps, still)

-- Of a connection whose sender is not known yet, the messages before the first that shows an allowed
-- sender are dropped; that one and all after it, whatever sender they show, are queued in their
-- order where they ask for an answer, and the connection keeps the sender's name.
pub receive_all_lem :
    (filters : Filters) (fd : ℕ) (r : Receiver) (name : List ℕ) (before : List Packet) (p : Packet)
    (after : List Packet)
    → lookup fd r.client_senders ≡ none
    → Rejected filters before
    → check_msg_sender filters p.content ≡ some name
    → ((receive_all filters fd r (before ++ (p ∷ after))).queued ≡ r.queued ++ answered (p ∷ after))
      × (lookup fd (receive_all filters fd r (before ++ (p ∷ after))).client_senders ≡ some name)
receive_all_lem filters fd r name [] p after e none_before allowed =
    let r₁ : Receiver = record r { client_senders = insert fd name r.client_senders } in
    let (queued, still) =
      receive_all_known filters fd (queue_content r₁ p.content p.sync_sid) name after (
        ap (lookup fd) (queue_content_senders r₁ p.content p.sync_sid)
        ∙ lookup-insert fd fd name r.client_senders
        ∙ rw (==_refl fd)) in
    rw (receive_all, receive_one_allowed filters fd r p.content name p.sync_sid e allowed)
      (queued ∙ queue_content-answered r₁ p after, still)
receive_all_lem filters fd r name (q ∷ before) p after e rejected allowed =
    rw (receive_all, receive_one_rejected filters fd r q.content q.sync_sid e rejected.0)
      (receive_all_lem filters fd (record r { disallowed = r.disallowed ++ (fd ∷ []) }) name before
        p after e rejected.1 allowed)

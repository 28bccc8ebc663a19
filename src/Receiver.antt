-- ===== src/Receiver.antt =====
-- ReceiverMgr of Core/NetMsgBusReceiverMgr.hpp: what other clients send on their connections. A
-- message is a sync byte, a session id, a length and the content, which is queued for
-- NetMsgBusRspSendMsg where the id is not 0.
pub mod Stream
pub mod Senders
pub mod Reply
pub mod Total
use message_bus_all_in_one_f.Common.{
  ℕ, zero, suc, ◌+◌, ◌-◌, ◌%◌, ◌^◌, Bool, true, false, Option, none, some, List, [], ◌∷◌, ◌++◌,
  length, drop, ltb, ◌==◌, if◌then◌else◌,
}
use message_bus_all_in_one_f.Memory.{Outcome, done, ◌>>=◌, load8, load32, ntohl, memcpy}
use message_bus_all_in_one_f.Table.{Table, nat_key, lookup, insert, erase}
use message_bus_all_in_one_f.Content.{get_msg_sender}
use message_bus_all_in_one_f.Filter.{Filters, filter_by_sender}

pub record Receiver : Type 0 where
  -- m_client_senders: the checked sender's name of each descriptor.
  pub client_senders : Table ℕ (List ℕ)
  -- m_sendmsg_clientnum, as the bit pattern of an int.
  pub clientnum : ℕ
  -- The contents queued for an answer, with their session ids.
  pub queued : List (List ℕ × ℕ)
  -- The descriptors on which DisAllowSend was called.
  pub disallowed : List ℕ

-- CheckMsgSender of Core/NetMsgBusUtility.hpp: the sender's name, where it is allowed.
unfoldable pub check_msg_sender : Filters → List ℕ → Option (List ℕ)
check_msg_sender filters content = elim (get_msg_sender content) [
  | none ↦ none
  | some sender ↦ if filter_by_sender filters sender then some sender else none
]

-- The queueing of a message whose sender is known.
unfoldable pub queue_content : Receiver → List ℕ → ℕ → Receiver
queue_content r content sync_sid =
    if sync_sid == 0 then r else record r { queued = r.queued ++ ((content, sync_sid) ∷ []) }

-- One whole message: the sender is checked until a message has shown one that is allowed.
unfoldable pub receive_one : Filters → ℕ → Receiver → List ℕ → ℕ → Receiver
receive_one filters fd r content sync_sid = elim (lookup fd r.client_senders) [
  | some name ↦ queue_content r content sync_sid
  | none ↦ elim (check_msg_sender filters content) [
    | none ↦ record r { disallowed = r.disallowed ++ (fd ∷ []) }
    | some name ↦
        queue_content (record r { client_senders = insert fd name r.client_senders }) content
          sync_sid
  ]
]

-- The bytes before the content.
abbrev pub prefix_size : ℕ
prefix_size = 1 + 4 + 4

abbrev pub add_read : ℕ → Receiver × ℕ → Receiver × ℕ
add_read needlen (r, readedlen) = (r, needlen + readedlen)

-- The loop of receiver_onRead, for at most `fuel` rounds.
unfoldable pub receive_loop : ℕ → Filters → ℕ → Receiver → List ℕ → Outcome (Receiver × ℕ)
receive_loop zero filters fd r pdata = done (r, 0)
receive_loop (suc fuel) filters fd r pdata =
    let next = λ (sync_sid : ℕ) (data_len : ℕ) (content : List ℕ).
      (receive_loop fuel filters fd (receive_one filters fd r content sync_sid)
          (drop data_len (drop prefix_size pdata))
        >>= λ rest. done (add_read (prefix_size + data_len) rest)) in
    if ltb (length pdata) prefix_size then done (r, 0) else (do
      is_sync ← load8 pdata
      sync_sid ← load32 (drop 1 pdata)
      data_len ← load32 (drop 5 pdata)
      if ltb (length pdata) (prefix_size + ntohl data_len) then done (r, 0) else (do
        content ← memcpy (ntohl data_len) (drop prefix_size pdata)
        next (ntohl sync_sid) (ntohl data_len) content))

-- receiver_onRead; every round takes nine bytes at least.
unfoldable pub receiver_on_read : Filters → ℕ → Receiver → List ℕ → Outcome (Receiver × ℕ)
receiver_on_read filters fd r pdata = receive_loop (suc (length pdata)) filters fd r pdata

-- receiver_onClose, which receiver_onError and receiver_onTimeout call.
unfoldable pub receiver_on_close : Receiver → ℕ → Receiver
receiver_on_close r fd = record r {
  clientnum = (r.clientnum + 2 ^ 32 - 1) % 2 ^ 32;
  client_senders = erase fd r.client_senders;
}

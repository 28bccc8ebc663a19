-- ===== src/Receiver/Reply.antt =====
-- CheckMsgId and NetMsgBusRspSendMsg of Core/NetMsgBusUtility.hpp: a message with a session id goes
-- to the local bus, and what the bus makes of its data goes back with the id.
use message_bus_all_in_one_f.Common.{
  ℕ, ◌+◌, ◌%◌, ◌^◌, Option, none, some, List, ◌++◌, length, ltb, if◌then◌else◌,
}
use message_bus_all_in_one_f.Memory.{Outcome, done, wild, ◌>>=◌, store32, htonl, memcpy}
use message_bus_all_in_one_f.Content.{get_msg_id, get_msg_param}
use message_bus_all_in_one_f.Filter.{Filters, filter_by_msgid}

unfoldable pub check_msg_id : Filters → List ℕ → Option (List ℕ)
check_msg_id filters content = elim (get_msg_id content) [
  | none ↦ none
  | some id ↦ if filter_by_msgid filters id then some id else none
]

-- The array that is given to SendData; its length is a sum of uint32_t.
unfoldable pub write_answer : ℕ → ℕ → List ℕ → Outcome (List ℕ)
write_answer sync_sid data_len contents =
    if ltb ((4 + 4 + data_len) % 2 ^ 32) (4 + 4 + data_len) then wild else do
      bytes ← memcpy data_len contents
      done (store32 (htonl sync_sid) ++ (store32 (htonl data_len) ++ bytes))

-- SendMsg of the local bus is `bus`: the data that it leaves, or `none` where it answers false.
unfoldable pub rsp_send_msg :
    Filters → (List ℕ → List ℕ → Option (List ℕ)) → List ℕ → ℕ → Outcome (Option (List ℕ))
rsp_send_msg filters bus content sync_sid = elim (check_msg_id filters content) [
  | none ↦ done none
  | some id ↦ do
    param ← get_msg_param content
    elim param [
      | none ↦ done none
      | some contents ↦ elim (bus id contents) [
        | some reply ↦ write_answer sync_sid (length reply) reply >>= λ bytes. done (some bytes)
        | none ↦ write_answer sync_sid 0 contents >>= λ bytes. done (some bytes)
      ]
    ]
]

-- ===== src/Content.antt =====
-- The content of a bus message between clients (Core/NetMsgBusUtility.hpp): one byte with the
-- sender's length, the sender, one byte with the message id's length, the id, four bytes with the
-- parameter's length in network order, and the parameter.
pub mod RoundTrip
use message_bus_all_in_one_f.Common.{
  ℕ, ◌+◌, ◌%◌, ◌^◌, Bool, Option, none, some, List, [], ◌∷◌, ◌++◌, length, take, drop, ltb,
  get_elem?, if◌then◌else◌,
}
use message_bus_all_in_one_f.Memory.{
  Outcome, done, wild, ◌>>=◌, store32, load32, htonl, ntohl, memcpy,
}

-- SENDER_LEN_BYTES, MSGKEY_LEN_BYTES and MSGVALUE_LEN_BYTES.
abbrev pub sender_len_bytes : ℕ
sender_len_bytes = 1

abbrev pub msgkey_len_bytes : ℕ
msgkey_len_bytes = 1

abbrev pub msgvalue_len_bytes : ℕ
msgvalue_len_bytes = 4

-- `content[i]` for an index that the caller has checked.
abbrev pub byte_at : List ℕ → ℕ → ℕ
byte_at content i = elim (get_elem? content i) [ none ↦ 0 | some c ↦ c ]

-- `content.substr(from, n)` for a start inside the text.
abbrev pub substr : List ℕ → ℕ → ℕ → List ℕ
substr content from n = take n (drop from content)

-- The functions return false (`none`) or set their result.
unfoldable pub get_msg_sender : List ℕ → Option (List ℕ)
get_msg_sender content =
    if ltb (length content) sender_len_bytes
    then none
    else (let sender_len = byte_at content 0 in
        if ltb (length content) (sender_len_bytes + sender_len)
        then none
        else some (substr content sender_len_bytes sender_len))

unfoldable pub get_msg_id : List ℕ → Option (List ℕ)
get_msg_id content =
    if ltb (length content) sender_len_bytes
    then none
    else (let sender_len = byte_at content 0 in
        if ltb (length content) (sender_len_bytes + sender_len + msgkey_len_bytes)
        then none
        else (let id_len = byte_at content (sender_len_bytes + sender_len) in
            if ltb (length content) (sender_len_bytes + sender_len + msgkey_len_bytes + id_len)
            then none
            else some (substr content (sender_len_bytes + sender_len + msgkey_len_bytes) id_len)))

-- The offset is a uint32_t, and so is its sum with the parameter's length.
unfoldable pub get_msg_param : List ℕ → Outcome (Option (List ℕ))
get_msg_param content =
    if ltb (length content) sender_len_bytes
    then done none
    else (let sender_len = byte_at content 0 in
        if ltb (length content) (sender_len_bytes + sender_len + msgkey_len_bytes)
        then done none
        else (let key_len = byte_at content (sender_len_bytes + sender_len) in
            let offset = sender_len_bytes + sender_len + msgkey_len_bytes + key_len in
            if ltb (length content) (offset + msgvalue_len_bytes) then done none else (do
              raw ← load32 (drop offset content)
              let param_len = ntohl raw
              if ltb (length content) ((offset + msgvalue_len_bytes + param_len) % 2 ^ 32)
                  then done none
                  else (do
                    param ← memcpy param_len (drop (offset + msgvalue_len_bytes) content)
                    done (some param)))))

-- MsgBusParam of Core/msgbus_interface.h.
pub record MsgBusParam : Type 0 where
  pub paramdata : List ℕ
  pub paramlen : ℕ

-- GenerateNetMsgContent: the lengths of the names are cut to one byte each.
unfoldable pub generate_net_msg_content : List ℕ → MsgBusParam → List ℕ → Outcome MsgBusParam
generate_net_msg_content msgid param msgsender =
    let sender_len = length msgsender % 256 in
    let id_len = length msgid % 256 in
    let paramlen = (1 + sender_len + 1 + id_len + 4 + param.paramlen) % 2 ^ 32 in
    (do
      sender ← memcpy sender_len msgsender
      id ← memcpy id_len msgid
      content ← memcpy param.paramlen param.paramdata
      done (record {
        paramdata =
            sender_len ∷ (sender ++ (id_len ∷ (id ++ (store32 (htonl param.paramlen) ++ content))));
        paramlen = paramlen;
      }))

-- ===== src/Wire/SendMsg/RoundTrip.antt =====
-- A relayed message and the answer to it arrive.
use mathlib.Core.List.{append_assoc}
use message_bus_all_in_one_f.Common.{
  ℕ, ◌≤◌, ◌<◌, ◌^◌, ◌≡◌, false, some, List, ◌++◌, length, take, arith,
}
use message_bus_all_in_one_f.Memory.{done, too_short, at_pointer, htons, htonl, store16, store32}
use message_bus_all_in_one_f.Memory.Copy.{
  padded, strncpy-eq, strncpy-padded, drop-padded, memcpy-eq, memcpy-take,
}
use message_bus_all_in_one_f.Memory.Words.{net16, net32, htons-htons, htonl-htonl}
use message_bus_all_in_one_f.Wire.Message.{Message}
use message_bus_all_in_one_f.Wire.Message.RoundTrip.{IsSendable, Survives, survives}
use message_bus_all_in_one_f.Wire.Register.{name_size}
use message_bus_all_in_one_f.Wire.VarData.{replace_var_data}
use message_bus_all_in_one_f.Wire.SendMsg.{
  SendMsgReq, sendmsg_req_size, pack_sendmsg_req, unpack_sendmsg_req, sendmsg_req, SendMsgRsp,
  sendmsg_rsp_size, pack_sendmsg_rsp, unpack_sendmsg_rsp, sendmsg_rsp,
}

-- The request as it arrives in an object whose buffer was that of `old`.
abbrev pub sendmsg_req_received : SendMsgReq → SendMsgReq → SendMsgReq
sendmsg_req_received r old = record r {
  dest_name = padded name_size r.dest_name;
  from_name = padded name_size r.from_name;
  msg_content =
      replace_var_data old.msg_content (take r.msg_len (at_pointer r.msg_content.content));
}

abbrev pub sendmsg_req_bytes : SendMsgReq → List ℕ
sendmsg_req_bytes r =
    padded name_size r.dest_name
    ++ (padded name_size r.from_name
        ++ (store32 (htonl r.msg_len) ++ take r.msg_len (at_pointer r.msg_content.content)))

-- The arrays have their size, and the buffer holds as many bytes as the length says.
pub record IsFilled (r : SendMsgReq) : Type 0 where
  pub dest_full : length r.dest_name ≡ name_size
  pub from_full : length r.from_name ≡ name_size
  pub len_fits : r.msg_len < 2 ^ 32
  pub content_full : r.msg_len ≤ length (at_pointer r.msg_content.content)

pub pack_sendmsg_req_lem :
    (r : SendMsgReq) → IsFilled r → pack_sendmsg_req r 0 ≡ done (sendmsg_req_bytes r)
unfolding pack_sendmsg_req
pack_sendmsg_req_lem r v = rw (
  strncpy-eq name_size r.dest_name (omega arith),
  strncpy-eq name_size r.from_name (omega arith),
  memcpy-eq r.msg_len (at_pointer r.msg_content.content) v.content_full,
)

unpack_sendmsg_req_lem :
    (r r₀ : SendMsgReq) (rest : List ℕ)
    → IsFilled r
    → unpack_sendmsg_req r₀ (sendmsg_req_bytes r ++ rest) 0
      ≡ done (sendmsg_req_received r r₀, some 0)
unfolding unpack_sendmsg_req
unpack_sendmsg_req_lem r r₀ rest v =
    let content = take r.msg_len (at_pointer r.msg_content.content) in
    let tail = store32 (htonl r.msg_len) ++ content in
    let from = padded name_size r.from_name in
    rw (
      append_assoc (padded name_size r.dest_name) (from ++ tail) rest,
      append_assoc from tail rest,
      strncpy-padded name_size r.dest_name (from ++ (tail ++ rest)),
      drop-padded name_size r.dest_name (from ++ (tail ++ rest)),
      strncpy-padded name_size r.from_name (tail ++ rest),
      drop-padded name_size r.from_name (tail ++ rest),
      net32 r.msg_len (content ++ rest),
      htonl-htonl r.msg_len v.len_fits,
      memcpy-take r.msg_len (at_pointer r.msg_content.content) rest v.content_full,
    )

-- A relayed message with full name arrays and a buffer as long as its 32-bit length says, packed
-- into enough room: both names up to their NUL and exactly the bytes that the length counts arrive,
-- in a new buffer that the object owns.
pub sendmsg_req-Survives :
    (m m₀ : Message SendMsgReq) (len : ℕ) (rest : List ℕ)
    → IsSendable sendmsg_req m.head
    → too_short len (sendmsg_req_size m.body) ≡ false
    → IsFilled m.body
    → Survives sendmsg_req m m₀ len rest (sendmsg_req_received m.body m₀.body)
sendmsg_req-Survives m m₀ len rest v room filled =
    survives sendmsg_req m m₀ len _ rest _ v room (pack_sendmsg_req_lem m.body filled)
      (unpack_sendmsg_req_lem m.body m₀.body rest filled)

-- The answer as it arrives in an object whose buffer was that of `old`.
abbrev pub sendmsg_rsp_received : SendMsgRsp → SendMsgRsp → SendMsgRsp
sendmsg_rsp_received r old = record r {
  err_msg = replace_var_data old.err_msg (padded r.err_msg_len (at_pointer r.err_msg.content));
}

abbrev pub sendmsg_rsp_bytes : SendMsgRsp → List ℕ
sendmsg_rsp_bytes r =
    store16 (htons r.ret_code)
    ++ (store16 (htons r.err_msg_len) ++ padded r.err_msg_len (at_pointer r.err_msg.content))

pack_sendmsg_rsp_lem :
    (r : SendMsgRsp)
    → r.err_msg_len ≤ length (at_pointer r.err_msg.content)
    → pack_sendmsg_rsp r 0 ≡ done (sendmsg_rsp_bytes r)
unfolding pack_sendmsg_rsp
pack_sendmsg_rsp_lem r k = rw (strncpy-eq r.err_msg_len (at_pointer r.err_msg.content) k)

unpack_sendmsg_rsp_lem :
    (r r₀ : SendMsgRsp) (rest : List ℕ)
    → r.ret_code < 2 ^ 16
    → r.err_msg_len < 2 ^ 16
    → unpack_sendmsg_rsp r₀ (sendmsg_rsp_bytes r ++ rest) 0
      ≡ done (sendmsg_rsp_received r r₀, some 0)
unfolding unpack_sendmsg_rsp
unpack_sendmsg_rsp_lem r r₀ rest hc hl =
    let text = padded r.err_msg_len (at_pointer r.err_msg.content) in
    rw (
      net16 r.ret_code (store16 (htons r.err_msg_len) ++ (text ++ rest)),
      net16 r.err_msg_len (text ++ rest),
      htons-htons r.ret_code hc,
      htons-htons r.err_msg_len hl,
      strncpy-padded r.err_msg_len (at_pointer r.err_msg.content) rest,
    )

-- The answer to a relayed message, with a code and a length of 16 bits and a text buffer as long as
-- the length says: the code and the text up to its NUL arrive.
pub sendmsg_rsp-Survives :
    (m m₀ : Message SendMsgRsp) (len : ℕ) (rest : List ℕ)
    → IsSendable sendmsg_rsp m.head
    → too_short len (sendmsg_rsp_size m.body) ≡ false
    → m.body.ret_code < 2 ^ 16
    → m.body.err_msg_len < 2 ^ 16
    → m.body.err_msg_len ≤ length (at_pointer m.body.err_msg.content)
    → Survives sendmsg_rsp m m₀ len rest (sendmsg_rsp_received m.body m₀.body)
sendmsg_rsp-Survives m m₀ len rest v room hc hl k =
    survives sendmsg_rsp m m₀ len _ rest _ v room (pack_sendmsg_rsp_lem m.body k)
      (unpack_sendmsg_rsp_lem m.body m₀.body rest hc hl)

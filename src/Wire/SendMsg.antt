-- ===== src/Wire/SendMsg.antt =====
-- MsgBusSendMsgReq and MsgBusSendMsgRsp of Core/msgbus_def.h and Core/msgbus_def.cpp.
pub mod RoundTrip
pub mod Inside
use message_bus_all_in_one_f.Common.{
  ℕ, ◌+◌, ◌*◌, ◌%◌, ◌^◌, true, false, Option, none, some, List, ◌++◌, drop, if◌then◌else◌,
}
use message_bus_all_in_one_f.Memory.{
  Outcome, done, aborted, ◌>>=◌, store16, store32, load16, load32, htons, htonl, ntohs, ntohl,
  strncpy, memcpy, too_short, at_pointer,
}
use message_bus_all_in_one_f.Wire.Head.{head_size, request, response}
use message_bus_all_in_one_f.Wire.Message.{Class, body_size}
use message_bus_all_in_one_f.Wire.Register.{name_size}
use message_bus_all_in_one_f.Wire.VarData.{VarData, replace_var_data}

-- REQ_SENDMSG and RSP_SENDMSG.
abbrev pub req_sendmsg : ℕ
req_sendmsg = 0x010004

abbrev pub rsp_sendmsg : ℕ
rsp_sendmsg = 0x020004

pub record SendMsgReq : Type 0 where
  pub dest_name : List ℕ
  pub from_name : List ℕ
  pub msg_len : ℕ
  pub msg_content : VarData

-- Size(): a uint32_t, so a message of nearly 4 GB wraps it.
abbrev pub sendmsg_req_size : SendMsgReq → ℕ
sendmsg_req_size r = (head_size + 2 * name_size + 4 + r.msg_len) % 2 ^ 32

unfoldable pub pack_sendmsg_req : SendMsgReq → ℕ → Outcome (List ℕ)
pack_sendmsg_req r len = if too_short len (body_size (sendmsg_req_size r)) then aborted else do
  dest ← strncpy name_size r.dest_name
  from ← strncpy name_size r.from_name
  content ← memcpy r.msg_len (at_pointer r.msg_content.content)
  done (dest ++ (from ++ (store32 (htonl r.msg_len) ++ content)))

unfoldable pub unpack_sendmsg_req : SendMsgReq → List ℕ → ℕ → Outcome (SendMsgReq × Option ℕ)
unpack_sendmsg_req r p₀ len = if too_short len (name_size * 2 + 4) then done (r, none) else do
  dest ← strncpy name_size p₀
  let p₁ = drop name_size p₀
  from ← strncpy name_size p₁
  let p₂ = drop name_size p₁
  msg_len ← load32 p₂
  let p₃ = drop 4 p₂
  let r₁ = record r { dest_name = dest; from_name = from; msg_len = ntohl msg_len }
  if too_short len (name_size * 2 + 4 + r₁.msg_len) then done (r₁, none) else (do
    content ← memcpy r₁.msg_len p₃
    done (record r₁ { msg_content = replace_var_data r.msg_content content }, some 0))

abbrev pub sendmsg_req : Class SendMsgReq
sendmsg_req = record {
  role = request;
  expected_type = req_sendmsg;
  unpack_throws = false;
  size = sendmsg_req_size;
  pack_body = pack_sendmsg_req;
  unpack_body = unpack_sendmsg_req;
}

pub record SendMsgRsp : Type 0 where
  pub ret_code : ℕ
  pub err_msg_len : ℕ
  pub err_msg : VarData

abbrev pub sendmsg_rsp_size : SendMsgRsp → ℕ
sendmsg_rsp_size r = head_size + 2 + 2 + r.err_msg_len

unfoldable pub pack_sendmsg_rsp : SendMsgRsp → ℕ → Outcome (List ℕ)
pack_sendmsg_rsp r len = if too_short len (body_size (sendmsg_rsp_size r)) then aborted else do
  text ← strncpy r.err_msg_len (at_pointer r.err_msg.content)
  done (store16 (htons r.ret_code) ++ (store16 (htons r.err_msg_len) ++ text))

unfoldable pub unpack_sendmsg_rsp : SendMsgRsp → List ℕ → ℕ → Outcome (SendMsgRsp × Option ℕ)
unpack_sendmsg_rsp r p₀ len = if too_short len 2 then done (r, none) else do
  code ← load16 p₀
  let p₁ = drop 2 p₀
  let r₁ = record r { ret_code = ntohs code }
  if too_short len 2
      then done (r₁, none)
      else if too_short len (2 + 2)
      then done (r₁, none)
      else (do
        text_len ← load16 p₁
        let p₂ = drop 2 p₁
        let r₂ = record r₁ { err_msg_len = ntohs text_len }
        if too_short len (2 + 2 + r₂.err_msg_len) then done (r₂, none) else (do
          text ← strncpy r₂.err_msg_len p₂
          done (record r₂ { err_msg = replace_var_data r.err_msg text }, some 0)))

abbrev pub sendmsg_rsp : Class SendMsgRsp
sendmsg_rsp = record {
  role = response;
  expected_type = rsp_sendmsg;
  unpack_throws = false;
  size = sendmsg_rsp_size;
  pack_body = pack_sendmsg_rsp;
  unpack_body = unpack_sendmsg_rsp;
}

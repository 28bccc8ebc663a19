-- ===== src/Wire/Register.antt =====
-- MsgBusRegisterReq, MsgBusUnRegisterReq and MsgBusRegisterRsp of Core/msgbus_def.h and
-- Core/msgbus_def.cpp. The two requests have the same fields and the same code.
pub mod RoundTrip
use message_bus_all_in_one_f.Common.{
  ℕ, ◌+◌, ◌%◌, ◌^◌, true, false, Option, none, some, List, ◌++◌, drop, if◌then◌else◌,
}
use message_bus_all_in_one_f.Memory.{
  Outcome, done, aborted, ◌>>=◌, store16, load16, htons, ntohs, strncpy, too_short, at_pointer,
}
use message_bus_all_in_one_f.Wire.Head.{head_size, request, response}
use message_bus_all_in_one_f.Wire.Host.{ClientHost, host_size, store_host, load_host}
use message_bus_all_in_one_f.Wire.Message.{Class, body_size}
use message_bus_all_in_one_f.Wire.VarData.{VarData, replace_var_data}

-- MAX_SERVICE_NAME.
abbrev pub name_size : ℕ
name_size = 64

-- REQ_REGISTER, REQ_UNREGISTER and RSP_REGISTER of kMsgBusBodyType.
abbrev pub req_register : ℕ
req_register = 0x010001

abbrev pub req_unregister : ℕ
req_unregister = 0x010002

abbrev pub rsp_register : ℕ
rsp_register = 0x020001

pub record NamedHost : Type 0 where
  pub service_name : List ℕ
  pub service_host : ClientHost

-- sizeof(MsgBusRegisterReq), and of MsgBusUnRegisterReq.
abbrev pub named_host_size : NamedHost → ℕ
named_host_size r = head_size + name_size + host_size

unfoldable pub pack_named_host : NamedHost → ℕ → Outcome (List ℕ)
pack_named_host r len =
    if too_short len (body_size (named_host_size r))
    then aborted
    else do name ← strncpy name_size r.service_name; done (name ++ store_host r.service_host)

unfoldable pub unpack_named_host : NamedHost → List ℕ → ℕ → Outcome (NamedHost × Option ℕ)
unpack_named_host r p len = if too_short len (body_size (named_host_size r)) then aborted else do
  name ← strncpy name_size p
  host ← load_host (drop name_size p)
  done (record { service_name = name; service_host = host }, some 0)

abbrev pub register_req : Class NamedHost
register_req = record {
  role = request;
  expected_type = req_register;
  unpack_throws = true;
  size = named_host_size;
  pack_body = pack_named_host;
  unpack_body = unpack_named_host;
}

abbrev pub unregister_req : Class NamedHost
unregister_req = record register_req { expected_type = req_unregister }

pub record RegisterRsp : Type 0 where
  pub ret_code : ℕ
  pub service_name : List ℕ
  pub err_msg_len : ℕ
  pub err_msg : VarData

abbrev pub register_rsp_size : RegisterRsp → ℕ
register_rsp_size r = head_size + 2 + name_size + 2 + r.err_msg_len

unfoldable pub pack_register_rsp : RegisterRsp → ℕ → Outcome (List ℕ)
pack_register_rsp r len = if too_short len (body_size (register_rsp_size r)) then aborted else do
  name ← strncpy name_size r.service_name
  text ← strncpy r.err_msg_len (at_pointer r.err_msg.content)
  done (store16 (htons r.ret_code) ++ (name ++ (store16 (htons r.err_msg_len) ++ text)))

-- A length that is too short for the fixed part, or for the text that it announces, gives -1.
unfoldable pub unpack_register_rsp : RegisterRsp → List ℕ → ℕ → Outcome (RegisterRsp × Option ℕ)
unpack_register_rsp r p₀ len = if too_short len (2 + name_size + 2) then done (r, none) else do
  code ← load16 p₀
  let p₁ = drop 2 p₀
  name ← strncpy name_size p₁
  let p₂ = drop name_size p₁
  text_len ← load16 p₂
  let p₃ = drop 2 p₂
  let r₁ = record r { ret_code = ntohs code; service_name = name; err_msg_len = ntohs text_len }
  if too_short len (2 + name_size + 2 + r₁.err_msg_len) then done (r₁, none) else (do
    text ← strncpy r₁.err_msg_len p₃
    done (record r₁ { err_msg = replace_var_data r.err_msg text }, some 0))

abbrev pub register_rsp : Class RegisterRsp
register_rsp = record {
  role = response;
  expected_type = rsp_register;
  unpack_throws = false;
  size = register_rsp_size;
  pack_body = pack_register_rsp;
  unpack_body = unpack_register_rsp;
}

-- ===== src/Wire/GetClient.antt =====
-- MsgBusGetClientReq and MsgBusGetClientRsp of Core/msgbus_def.h and Core/msgbus_def.cpp.
pub mod RoundTrip
use message_bus_all_in_one_f.Common.{
  ℕ, ◌+◌, true, false, Option, some, List, ◌++◌, drop, if◌then◌else◌,
}
use message_bus_all_in_one_f.Memory.{
  Outcome, done, aborted, ◌>>=◌, store16, load16, htons, ntohs, strncpy, too_short,
}
use message_bus_all_in_one_f.Wire.Head.{head_size, request, response}
use message_bus_all_in_one_f.Wire.Host.{ClientHost, host_size, store_host, load_host}
use message_bus_all_in_one_f.Wire.Message.{Class, body_size}
use message_bus_all_in_one_f.Wire.Register.{name_size}

-- REQ_GETCLIENT and RSP_GETCLIENT.
abbrev pub req_getclient : ℕ
req_getclient = 0x010005

abbrev pub rsp_getclient : ℕ
rsp_getclient = 0x020005

pub record GetClientReq : Type 0 where
  pub dest_name : List ℕ

abbrev pub getclient_req_size : GetClientReq → ℕ
getclient_req_size r = head_size + name_size

unfoldable pub pack_getclient_req : GetClientReq → ℕ → Outcome (List ℕ)
pack_getclient_req r len =
    if too_short len (body_size (getclient_req_size r))
    then aborted
    else strncpy name_size r.dest_name

unfoldable pub unpack_getclient_req : GetClientReq → List ℕ → ℕ → Outcome (GetClientReq × Option ℕ)
unpack_getclient_req r p len =
    if too_short len (body_size (getclient_req_size r))
    then aborted
    else do name ← strncpy name_size p; done (record { dest_name = name }, some 0)

abbrev pub getclient_req : Class GetClientReq
getclient_req = record {
  role = request;
  expected_type = req_getclient;
  unpack_throws = true;
  size = getclient_req_size;
  pack_body = pack_getclient_req;
  unpack_body = unpack_getclient_req;
}

pub record GetClientRsp : Type 0 where
  pub ret_code : ℕ
  pub dest_name : List ℕ
  pub dest_host : ClientHost

abbrev pub getclient_rsp_size : GetClientRsp → ℕ
getclient_rsp_size r = head_size + 2 + name_size + host_size

unfoldable pub pack_getclient_rsp : GetClientRsp → ℕ → Outcome (List ℕ)
pack_getclient_rsp r len = if too_short len (body_size (getclient_rsp_size r)) then aborted else do
  name ← strncpy name_size r.dest_name
  done (store16 (htons r.ret_code) ++ (name ++ store_host r.dest_host))

unfoldable pub unpack_getclient_rsp : GetClientRsp → List ℕ → ℕ → Outcome (GetClientRsp × Option ℕ)
unpack_getclient_rsp r p₀ len =
    if too_short len (body_size (getclient_rsp_size r)) then aborted else do
      code ← load16 p₀
      let p₁ = drop 2 p₀
      name ← strncpy name_size p₁
      let p₂ = drop name_size p₁
      host ← load_host p₂
      done (record { ret_code = ntohs code; dest_name = name; dest_host = host }, some 0)

abbrev pub getclient_rsp : Class GetClientRsp
getclient_rsp = record {
  role = response;
  expected_type = rsp_getclient;
  unpack_throws = true;
  size = getclient_rsp_size;
  pack_body = pack_getclient_rsp;
  unpack_body = unpack_getclient_rsp;
}

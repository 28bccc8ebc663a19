-- ===== src/Wire/Alive.antt =====
-- MsgBusConfirmAliveReq and MsgBusConfirmAliveRsp of Core/msgbus_def.h and Core/msgbus_def.cpp.
pub mod RoundTrip
use message_bus_all_in_one_f.Common.{
  ℕ, ◌+◌, true, false, Option, some, List, [], ◌∷◌, if◌then◌else◌,
}
use message_bus_all_in_one_f.Memory.{
  Outcome, done, aborted, ◌>>=◌, store16, load8, load16, htons, ntohs, too_short,
}
use message_bus_all_in_one_f.Wire.Head.{head_size, request, response}
use message_bus_all_in_one_f.Wire.Message.{Class, body_size}
use message_bus_all_in_one_f.Wire.Register.{rsp_register}

-- REQ_CONFIRM_ALIVE and RSP_CONFIRM_ALIVE.
abbrev pub req_confirm_alive : ℕ
req_confirm_alive = 0x010003

abbrev pub rsp_confirm_alive : ℕ
rsp_confirm_alive = 0x020003

pub record AliveReq : Type 0 where
  pub alive_flag : ℕ

abbrev pub alive_req_size : AliveReq → ℕ
alive_req_size r = head_size + 1

unfoldable pub pack_alive_req : AliveReq → ℕ → Outcome (List ℕ)
pack_alive_req r len =
    if too_short len (body_size (alive_req_size r)) then aborted else done (r.alive_flag ∷ [])

unfoldable pub unpack_alive_req : AliveReq → List ℕ → ℕ → Outcome (AliveReq × Option ℕ)
unpack_alive_req r p len =
    if too_short len (body_size (alive_req_size r))
    then aborted
    else do flag ← load8 p; done (record { alive_flag = flag }, some 0)

abbrev pub alive_req : Class AliveReq
alive_req = record {
  role = request;
  expected_type = req_confirm_alive;
  unpack_throws = true;
  size = alive_req_size;
  pack_body = pack_alive_req;
  unpack_body = unpack_alive_req;
}

pub record AliveRsp : Type 0 where
  pub ret_code : ℕ

abbrev pub alive_rsp_size : AliveRsp → ℕ
alive_rsp_size r = head_size + 2

unfoldable pub pack_alive_rsp : AliveRsp → ℕ → Outcome (List ℕ)
pack_alive_rsp r len =
    if too_short len (body_size (alive_rsp_size r))
    then aborted
    else done (store16 (htons r.ret_code))

unfoldable pub unpack_alive_rsp : AliveRsp → List ℕ → ℕ → Outcome (AliveRsp × Option ℕ)
unpack_alive_rsp r p len =
    if too_short len (body_size (alive_rsp_size r))
    then aborted
    else do code ← load16 p; done (record { ret_code = ntohs code }, some 0)

-- UnPackData asks for RSP_REGISTER, though the constructor sets RSP_CONFIRM_ALIVE.
unfoldable pub alive_rsp : Class AliveRsp
alive_rsp = record {
  role = response;
  expected_type = rsp_register;
  unpack_throws = true;
  size = alive_rsp_size;
  pack_body = pack_alive_rsp;
  unpack_body = unpack_alive_rsp;
}

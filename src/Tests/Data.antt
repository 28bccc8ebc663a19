-- ===== src/Tests/Data.antt =====
-- The messages, hosts and servers that the examples use.
use message_bus_all_in_one_f.Common.{
  ℕ, zero, suc, ◌≡◌, refl, false, Option, none, some, List, [], ◌∷◌, replicate, arith,
}
use message_bus_all_in_one_f.Memory.Copy.{padded}
use message_bus_all_in_one_f.Wire.Head.{new_head}
use message_bus_all_in_one_f.Wire.Host.{Inet, ClientHost, up_to_nul, inet6_addrstrlen}
use message_bus_all_in_one_f.Wire.Message.{Message}
use message_bus_all_in_one_f.Wire.VarData.{VarData}
use message_bus_all_in_one_f.Wire.Register.{
  NamedHost, RegisterRsp, req_register, req_unregister, rsp_register,
}
use message_bus_all_in_one_f.Wire.SendMsg.{SendMsgReq, SendMsgRsp, req_sendmsg, rsp_sendmsg}
use message_bus_all_in_one_f.Server.{Server, Sock}
use message_bus_all_in_one_f.Server.Query.{Protobuf}
use message_bus_all_in_one_f.Server.Dispatch.{Chance}

-- An address as a text of one character.
abbrev pub read_address : List ℕ → Option ℕ
read_address [] = none
read_address (zero ∷ text) = none
read_address (suc a ∷ text) = some a

pub ntop_text : (a : ℕ) → up_to_nul (padded inet6_addrstrlen (suc a ∷ [])) ≡ suc a ∷ []
unfolding up_to_nul padded
ntop_text a = ground arith

instance abbrev pub test_net : Inet
test_net = record {
  pton = read_address;
  ntop = λ a. suc a ∷ [];
  pton-ntop = λ a h. refl;
  ntop_fits = λ a h. ntop_text a;
}

-- The names "ab" and "abc".
abbrev pub ab : List ℕ
ab = 97 ∷ 98 ∷ []

abbrev pub abc : List ℕ
abc = 97 ∷ 98 ∷ 99 ∷ []

-- A name in its array.
abbrev pub name_ab : List ℕ
name_ab = 97 ∷ 98 ∷ replicate 62 0

abbrev pub host_one : ClientHost
host_one = record { ip_ = 7; port_ = 5; busy_state_ = 0 }

abbrev pub host_two : ClientHost
host_two = record { ip_ = 8; port_ = 5; busy_state_ = 0 }

abbrev pub sock_one : Sock
sock_one = record { address = 100; fd = 4; dest_ip = 8 ∷ [] }

abbrev pub sock_two : Sock
sock_two = record { address = 200; fd = 5; dest_ip = 9 ∷ [] }

-- A server with one service of one host and its connection.
abbrev pub one_service : Server
one_service = record {
  services = (ab, host_one ∷ []) ∷ [];
  active = (ab, (100, sock_one) ∷ []) ∷ [];
  tcp_services = (4, host_one) ∷ [];
  req_tasks = [];
  broadcast_tasks = [];
  sent = [];
}

abbrev pub test_pb : Protobuf
test_pb = record {
  req_name = abc;
  rsp_name = ab;
  parse_req = λ bytes. some bytes;
  serialize_rsp = λ names. [];
}

abbrev pub test_chance : Chance
test_chance = record { dest_junk = []; from_junk = []; type_junk = 0; data_junk = 0; rand = 0 }

abbrev pub named : NamedHost
named = record { service_name = name_ab; service_host = host_one }

abbrev pub register_msg : Message NamedHost
register_msg = record { head = new_head 0 req_register; body = named }

abbrev pub unregister_msg : Message NamedHost
unregister_msg = record { head = new_head 0 req_unregister; body = named }

-- A buffer of three bytes, "ok" and a NUL.
abbrev pub ok_text : VarData
ok_text = record { content = some (111 ∷ 107 ∷ 0 ∷ []); needfree = false }

abbrev pub register_answer_msg : Message RegisterRsp
register_answer_msg = record {
  head = new_head 1 rsp_register;
  body = record { ret_code = 1; service_name = name_ab; err_msg_len = 3; err_msg = ok_text };
}

abbrev pub relay_req : SendMsgReq
relay_req = record { dest_name = name_ab; from_name = name_ab; msg_len = 2; msg_content = ok_text }

abbrev pub relay_msg : Message SendMsgReq
relay_msg = record { head = new_head 0 req_sendmsg; body = relay_req }

abbrev pub relay_answer_msg : Message SendMsgRsp
relay_answer_msg = record {
  head = new_head 1 rsp_sendmsg;
  body = record { ret_code = 0; err_msg_len = 3; err_msg = ok_text };
}

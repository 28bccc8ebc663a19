-- ===== src/Server/Registration.antt =====
-- The handlers of Core/msgbus_server.cpp that register, unregister, keep alive and look up clients.
-- They ignore what UnPackBody returns, and give it no length.
use message_bus_all_in_one_f.Common.{
  ℕ, ◌%◌, ◌^◌, Option, none, some, List, [], ◌∷◌, ◌++◌, length, if◌then◌else◌,
}
use message_bus_all_in_one_f.Memory.{Outcome, done, ◌>>=◌, c_string, strncpy}
use message_bus_all_in_one_f.Table.{bytes_key, lookup}
use message_bus_all_in_one_f.Wire.Head.{Head, new_head}
use message_bus_all_in_one_f.Wire.Host.{Inet, ClientHost, no_host, host_ip, set_ip}
use message_bus_all_in_one_f.Wire.Message.{Message, pack_data}
use message_bus_all_in_one_f.Wire.VarData.{no_var_data, set_var_data}
use message_bus_all_in_one_f.Wire.Register.{
  name_size, rsp_register, unpack_named_host, RegisterRsp, register_rsp,
}
use message_bus_all_in_one_f.Wire.Alive.{unpack_alive_req, alive_rsp, rsp_confirm_alive}
use message_bus_all_in_one_f.Wire.GetClient.{unpack_getclient_req, getclient_rsp, rsp_getclient}
use message_bus_all_in_one_f.Server.{Server, Sock, send}
use message_bus_all_in_one_f.Server.Select.{select_best_host}
use message_bus_all_in_one_f.Server.Registry.{
  codes, is_nil, Registered, register_host, unregister_client_from_service,
}

-- The head of an answer: that of its class, with the request's id.
abbrev pub answer_head : ℕ → Head → Head
answer_head body_type head = record (new_head 1 body_type) { msg_id = head.msg_id }

-- `errmsg.push_back('\0')`, and the length that goes into the answer.
abbrev pub terminated : List ℕ → List ℕ
terminated errmsg = errmsg ++ (0 ∷ [])

-- The answer to a registration.
abbrev pub register_answer : Head → List ℕ → ℕ → List ℕ → Message RegisterRsp
register_answer head name ret errmsg = record {
  head = answer_head rsp_register head;
  body = record {
    ret_code = ret;
    service_name = name;
    err_msg_len = length (terminated errmsg) % 2 ^ 16;
    err_msg = set_var_data no_var_data (terminated errmsg);
  };
}

module _ ⦃net : Inet⦄ where
  -- The maps after the request, the return code and the error text.
  unfoldable pub register_named : Server → Option Sock → List ℕ → ClientHost → Outcome Registered
  register_named s sp_tcp name host =
      if is_nil name
      then done (record { server = s; ret_code = 1; errmsg = codes "empty name is not allowed." })
      else register_host s name sp_tcp host

  unfoldable pub process_register_req : Server → Option Sock → Head → List ℕ → Outcome Server
  process_register_req s sp_tcp head body = do
    (req, result) ← unpack_named_host (record { service_name = []; service_host = no_host }) body 0
    name ← c_string req.service_name
    rsp_name ← strncpy name_size req.service_name
    r ← register_named s sp_tcp name req.service_host
    (rsp, bytes) ← pack_data register_rsp (register_answer head rsp_name r.ret_code r.errmsg) 0
    done (send r.server sp_tcp bytes)

  -- The maps after a request to unregister.
  unfoldable pub unregister_named : Server → Option Sock → List ℕ → ClientHost → Server
  unregister_named s sp_tcp name host =
      if is_nil name
      then s
      else if is_nil (host_ip host)
      then elim sp_tcp [
        | none ↦ s
        | some sock ↦ unregister_client_from_service s name (set_ip host sock.dest_ip)
      ]
      else unregister_client_from_service s name host

  unfoldable pub process_unregister_req : Server → Option Sock → Head → List ℕ → Outcome Server
  process_unregister_req s sp_tcp head body = do
    (req, result) ← unpack_named_host (record { service_name = []; service_host = no_host }) body 0
    name ← c_string req.service_name
    done (unregister_named s sp_tcp name req.service_host)

unfoldable pub process_confirm_alive_req : Server → Option Sock → Head → List ℕ → Outcome Server
process_confirm_alive_req s sp_tcp head body = do
  (req, result) ← unpack_alive_req (record { alive_flag = 0 }) body 0
  (rsp, bytes) ←
      pack_data alive_rsp
        (record {
          head = answer_head rsp_confirm_alive head;
          body = record { ret_code = req.alive_flag };
        })
        0
  done (send s sp_tcp bytes)

-- The answer's code and host for a name.
unfoldable pub find_host : Server → List ℕ → ℕ → Outcome (ℕ × ClientHost)
find_host s name rand = elim (lookup name s.services) [
  | none ↦ done (1, no_host)
  | some hosts ↦ do
    best ← select_best_host rand hosts
    elim best [ none ↦ done (1, no_host) | some host ↦ done (0, host) ]
]

unfoldable pub process_getclient_req : Server → Option Sock → Head → List ℕ → ℕ → Outcome Server
process_getclient_req s sp_tcp head body rand = do
  (req, result) ← unpack_getclient_req (record { dest_name = [] }) body 0
  name ← c_string req.dest_name
  rsp_name ← strncpy name_size req.dest_name
  (ret, host) ← find_host s name rand
  (rsp, bytes) ←
      pack_data getclient_rsp
        (record {
          head = answer_head rsp_getclient head;
          body = record { ret_code = ret; dest_name = rsp_name; dest_host = host };
        })
        0
  done (send s sp_tcp bytes)

-- ===== src/Server/Dispatch.antt =====
-- process_data_from_client of Core/msgbus_server.cpp: which handler a message goes to.
use message_bus_all_in_one_f.Common.{
  ℕ, ◌≡◌, ◌≢◌, false, not, ◌&&◌, some, List, ◌==◌, if◌then◌else◌, arith,
}
use message_bus_all_in_one_f.Memory.{Outcome, done}
use message_bus_all_in_one_f.Wire.Head.{Head}
use message_bus_all_in_one_f.Wire.Host.{Inet}
use message_bus_all_in_one_f.Wire.Register.{req_register, req_unregister}
use message_bus_all_in_one_f.Wire.Alive.{req_confirm_alive}
use message_bus_all_in_one_f.Wire.GetClient.{req_getclient}
use message_bus_all_in_one_f.Wire.SendMsg.{req_sendmsg}
use message_bus_all_in_one_f.Wire.PbType.{body_pbtype}
use message_bus_all_in_one_f.Server.{Server, Sock}
use message_bus_all_in_one_f.Server.Registry.{check_register_client}
use message_bus_all_in_one_f.Server.Registration.{
  process_register_req, process_unregister_req, process_confirm_alive_req, process_getclient_req,
}
use message_bus_all_in_one_f.Server.Relay.{process_sendmsg_req}
use message_bus_all_in_one_f.Server.Query.{Protobuf, process_pbbody_data}

-- What a handler finds in memory and draws at random.
pub record Chance : Type 0 where
  pub dest_junk : List ℕ
  pub from_junk : List ℕ
  pub type_junk : ℕ
  pub data_junk : ℕ
  pub rand : ℕ

module _ ⦃net : Inet⦄ (pb : Protobuf) (c : Chance) where
  -- The switch over the body types of requests.
  unfoldable pub process_request : Server → Sock → Head → List ℕ → Outcome Server
  process_request s sock head body =
      if head.body_type == req_register
      then process_register_req s (some sock) head body
      else if head.body_type == req_getclient
      then process_getclient_req s (some sock) head body c.rand
      else if head.body_type == req_sendmsg
      then process_sendmsg_req c.dest_junk c.from_junk s (some sock) head body head.body_len
      else if head.body_type == req_unregister
      then process_unregister_req s (some sock) head body
      else if head.body_type == req_confirm_alive
      then process_confirm_alive_req s (some sock) head body
      else if head.body_type == body_pbtype
      then process_pbbody_data pb c.type_junk c.data_junk s (some sock) head body head.body_len
      else done s

  -- A client that has not registered may only register and keep alive.
  unfoldable pub process_data_from_client : Server → Sock → Head → List ℕ → Outcome Server
  process_data_from_client s sock head body =
      if head.msg_type == 0
      then (if not (head.body_type == req_register)
            && (not (head.body_type == req_confirm_alive) && not (check_register_client s sock))
          then done s
          else process_request s sock head body)
      else done s

  -- A message from a connection that has not registered leaves the server as it was and sends
  -- nothing, unless it is a request to register or to confirm that the client is alive.
  pub process_data_unregistered :
      (s : Server) (sock : Sock) (head : Head) (body : List ℕ)
      → check_register_client s sock ≡ false
      → head.body_type ≢ req_register
      → head.body_type ≢ req_confirm_alive
      → process_data_from_client s sock head body ≡ done s
  unfolding process_data_from_client
  process_data_unregistered s sock head body no_client not_register not_alive = ground arith

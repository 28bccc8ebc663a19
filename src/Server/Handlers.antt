-- ===== src/Server/Handlers.antt =====
-- Core/msgbus_server.cpp: every handler keeps what Server/Invariant states.
use message_bus_all_in_one_f.Common.{
  ℕ, ◌≡◌, false, Option, none, some, List, [], ◌∷◌, Bool-cases, inl, inr, ◌≢◌,
}
use message_bus_all_in_one_f.Memory.{c_string, strncpy}
use message_bus_all_in_one_f.Memory.Inside.{Ensures, Ensures-bind, Ensures-any}
use message_bus_all_in_one_f.Table.{bytes_key, nat_key}
use message_bus_all_in_one_f.Wire.Head.{Head}
use message_bus_all_in_one_f.Wire.Host.{Inet, ClientHost, host_ip, set_ip}
use message_bus_all_in_one_f.Wire.Message.{pack_data}
use message_bus_all_in_one_f.Wire.Register.{name_size, unpack_named_host, register_rsp}
use message_bus_all_in_one_f.Wire.Alive.{unpack_alive_req, alive_rsp}
use message_bus_all_in_one_f.Wire.GetClient.{unpack_getclient_req, getclient_rsp}
use message_bus_all_in_one_f.Wire.SendMsg.{SendMsgReq, unpack_sendmsg_req, sendmsg_req, sendmsg_rsp}
use message_bus_all_in_one_f.Server.{Server, Sock, send}
use message_bus_all_in_one_f.Server.Registry.{is_nil, unregister_client_from_service}
use message_bus_all_in_one_f.Server.Registration.{
  register_named, unregister_named, process_register_req, process_unregister_req,
  process_confirm_alive_req, process_getclient_req, find_host,
}
use message_bus_all_in_one_f.Server.Relay.{is_exist, queue_task, forward, process_sendmsg_req}
use message_bus_all_in_one_f.Server.Invariant.{
  IsValid, GoodRegistered, register_host-IsValid, unregister-IsValid,
}

module _ ⦃net : Inet⦄ where
  is_nil-false : {A : Type 0} (xs : List A) → is_nil xs ≡ false → xs ≢ []
  is_nil-false [] e p = cc
  is_nil-false (x ∷ xs) e p = cc

  -- Sending and queueing leave the maps as they are.
  pub send-IsValid :
      (s : Server) (o : Option Sock) (bytes : List ℕ) → IsValid s → IsValid (send s o bytes)
  send-IsValid s none bytes v = v
  send-IsValid s (some sock) bytes v = record {
    services_good = v.services_good;
    active_good = v.active_good;
  }

  queue_task-IsValid :
      (s : Server) (dest bytes : List ℕ) → IsValid s → IsValid (queue_task s dest bytes)
  unfolding queue_task
  queue_task-IsValid s [] bytes v = record {
    services_good = v.services_good;
    active_good = v.active_good;
  }
  queue_task-IsValid s (c ∷ dest) bytes v = record {
    services_good = v.services_good;
    active_good = v.active_good;
  }

  pub register_named-IsValid :
      (s : Server) (sp_tcp : Option Sock) (name : List ℕ) (host : ClientHost)
      → IsValid s
      → Ensures GoodRegistered (register_named s sp_tcp name host)
  unfolding register_named
  register_named-IsValid s sp_tcp name host v = elim (Bool-cases (is_nil name)) [
    | inl e ↦ rw (e, register_named) v
    | inr e ↦
        rw (e, register_named) (register_host-IsValid s name sp_tcp host (is_nil-false name e) v)
  ]

  pub process_register_req-IsValid :
      (s : Server) (sp_tcp : Option Sock) (head : Head) (body : List ℕ)
      → IsValid s
      → Ensures IsValid (process_register_req s sp_tcp head body)
  unfolding process_register_req
  process_register_req-IsValid s sp_tcp head body v =
      Ensures-any IsValid (unpack_named_host _ body 0) _ λ unpacked.
        Ensures-any IsValid (c_string unpacked.0.service_name) _ λ name.
          Ensures-any IsValid (strncpy name_size unpacked.0.service_name) _ λ rsp_name.
            Ensures-bind GoodRegistered IsValid
              (register_named s sp_tcp name unpacked.0.service_host) _
              (register_named-IsValid s sp_tcp name _ v)
              λ r good.
                Ensures-any IsValid (pack_data register_rsp _ 0) _
                  λ packed. send-IsValid r.server sp_tcp packed.1 good

  pub unregister_named-IsValid :
      (s : Server) (sp_tcp : Option Sock) (name : List ℕ) (host : ClientHost)
      → IsValid s
      → IsValid (unregister_named s sp_tcp name host)
  unfolding unregister_named
  unregister_named-IsValid s sp_tcp name host v = elim (Bool-cases (is_nil name)) [
    | inl e ↦ rw (e, unregister_named) v
    | inr e ↦ elim (Bool-cases (is_nil (host_ip host))) [
      | inr e' ↦ rw (e, e', unregister_named) (unregister-IsValid s name host v)
      | inl e' ↦ rw (e, e', unregister_named) (on_peer sp_tcp)
    ]
  ]
    where
      on_peer :
          (o : Option Sock)
          → IsValid (elim o [
            | none ↦ s
            | some sock ↦ unregister_client_from_service s name (set_ip host sock.dest_ip)
          ])
      on_peer none = v
      on_peer (some sock) = unregister-IsValid s name (set_ip host sock.dest_ip) v

  pub process_unregister_req-IsValid :
      (s : Server) (sp_tcp : Option Sock) (head : Head) (body : List ℕ)
      → IsValid s
      → Ensures IsValid (process_unregister_req s sp_tcp head body)
  unfolding process_unregister_req
  process_unregister_req-IsValid s sp_tcp head body v =
      Ensures-any IsValid (unpack_named_host _ body 0) _ λ unpacked.
        Ensures-any IsValid (c_string unpacked.0.service_name) _
          λ name. unregister_named-IsValid s sp_tcp name unpacked.0.service_host v

  pub process_confirm_alive_req-IsValid :
      (s : Server) (sp_tcp : Option Sock) (head : Head) (body : List ℕ)
      → IsValid s
      → Ensures IsValid (process_confirm_alive_req s sp_tcp head body)
  unfolding process_confirm_alive_req
  process_confirm_alive_req-IsValid s sp_tcp head body v =
      Ensures-any IsValid (unpack_alive_req _ body 0) _ λ unpacked.
        Ensures-any IsValid (pack_data alive_rsp _ 0) _ λ packed. send-IsValid s sp_tcp packed.1 v

  pub process_getclient_req-IsValid :
      (s : Server) (sp_tcp : Option Sock) (head : Head) (body : List ℕ) (rand : ℕ)
      → IsValid s
      → Ensures IsValid (process_getclient_req s sp_tcp head body rand)
  unfolding process_getclient_req
  process_getclient_req-IsValid s sp_tcp head body rand v =
      Ensures-any IsValid (unpack_getclient_req _ body 0) _ λ unpacked.
        Ensures-any IsValid (c_string unpacked.0.dest_name) _ λ name.
          Ensures-any IsValid (strncpy name_size unpacked.0.dest_name) _ λ rsp_name.
            Ensures-any IsValid (find_host s name rand) _ λ answer.
              Ensures-any IsValid (pack_data getclient_rsp _ 0) _
                λ packed. send-IsValid s sp_tcp packed.1 v

  forward-IsValid :
      (s : Server) (dest : List ℕ) (req : SendMsgReq)
      → IsValid s
      → Ensures IsValid (forward s dest req)
  unfolding forward
  forward-IsValid s dest req v =
      Ensures-any IsValid (pack_data sendmsg_req _ 0) _
        λ packed. queue_task-IsValid s dest packed.1 v

  pub process_sendmsg_req-IsValid :
      (dest_junk from_junk : List ℕ) (s : Server) (sp_tcp : Option Sock) (head : Head)
      (body : List ℕ) (body_len : ℕ)
      → IsValid s
      → Ensures IsValid (process_sendmsg_req dest_junk from_junk s sp_tcp head body body_len)
  unfolding process_sendmsg_req
  process_sendmsg_req-IsValid dest_junk from_junk s sp_tcp head body body_len v =
      Ensures-any IsValid (unpack_sendmsg_req _ body body_len) _ λ unpacked.
        Ensures-any IsValid (c_string unpacked.0.dest_name) _ λ dest.
          elim (Bool-cases (is_exist s.active dest)) [
            | inl e ↦ rw e (
                Ensures-bind IsValid IsValid (forward s dest unpacked.0) _
                  (forward-IsValid s dest unpacked.0 v)
                  λ s' v'.
                    Ensures-any IsValid (pack_data sendmsg_rsp _ 0) _
                      λ packed. send-IsValid s' sp_tcp packed.1 v')
            | inr e ↦ rw e (
                Ensures-any IsValid (pack_data sendmsg_rsp _ 0) _
                  λ packed. send-IsValid s sp_tcp packed.1 v)
          ]

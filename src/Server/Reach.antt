-- ===== src/Server/Reach.antt =====
-- The states that the server of Core/msgbus_server.cpp reaches: its handlers and its process
-- thread as steps, in any order, from the empty maps of its start.
use message_bus_all_in_one_f.Common.{
  ℕ, ◌≡◌, Option, some, List, [], ◌∷◌, ◌==◌, Option-cases, not, ◌&&◌, Bool-cases, inl, inr,
  bytes_eq,
}
use message_bus_all_in_one_f.Memory.{Outcome, done}
use message_bus_all_in_one_f.Memory.Inside.{Ensures, Ensures-any, Ensures-if}
use message_bus_all_in_one_f.Table.{Table}
use message_bus_all_in_one_f.Wire.Head.{Head}
use message_bus_all_in_one_f.Wire.Host.{Inet}
use message_bus_all_in_one_f.Wire.Message.{pack_data}
use message_bus_all_in_one_f.Wire.Register.{req_register, req_unregister}
use message_bus_all_in_one_f.Wire.Alive.{req_confirm_alive}
use message_bus_all_in_one_f.Wire.GetClient.{req_getclient}
use message_bus_all_in_one_f.Wire.SendMsg.{req_sendmsg}
use message_bus_all_in_one_f.Wire.PbType.{body_pbtype, unpack_pb, pb_class, to_size}
use message_bus_all_in_one_f.Server.{Server, Sock, ReqTask, BroadcastTask, new_server}
use message_bus_all_in_one_f.Server.Select.{select_best_sock}
use message_bus_all_in_one_f.Server.Registry.{server_on_close, check_register_client}
use message_bus_all_in_one_f.Server.Relay.{send_all, deliver, broadcast_to, broadcast}
use message_bus_all_in_one_f.Server.Query.{
  Protobuf, on_query_services_req, on_pb_data, process_pbbody_data, text_at, bytes_at,
}
use message_bus_all_in_one_f.Server.Dispatch.{Chance, process_request, process_data_from_client}
use message_bus_all_in_one_f.Server.Invariant.{IsValid}
use message_bus_all_in_one_f.Server.Invariant.Closing.{server_on_close-IsValid}
use message_bus_all_in_one_f.Server.Handlers.{
  send-IsValid, process_register_req-IsValid, process_unregister_req-IsValid,
  process_confirm_alive_req-IsValid, process_getclient_req-IsValid, process_sendmsg_req-IsValid,
}

module _ ⦃net : Inet⦄ where
  on_pb_data-IsValid :
      (pb : Protobuf) (s : Server) (sp_tcp : Option Sock) (head : Head) (pbdata : List ℕ)
      → IsValid s
      → Ensures IsValid (on_pb_data pb s sp_tcp head pbdata)
  unfolding on_pb_data on_query_services_req
  on_pb_data-IsValid pb s sp_tcp head pbdata v = elim (Option-cases (pb.parse_req pbdata)) [
    | inl e ↦ rw (e, on_pb_data) v
    | inr (prefix, e) ↦
        rw (e, on_pb_data)
          (Ensures-any IsValid (pack_data pb_class _ _) _
            λ packed. send-IsValid s sp_tcp packed.1 v)
  ]

  process_pbbody_data-IsValid :
      (pb : Protobuf) (type_junk data_junk : ℕ) (s : Server) (sp_tcp : Option Sock) (head : Head)
      (body : List ℕ) (body_len : ℕ)
      → IsValid s
      → Ensures IsValid (process_pbbody_data pb type_junk data_junk s sp_tcp head body body_len)
  unfolding process_pbbody_data
  process_pbbody_data-IsValid pb type_junk data_junk s sp_tcp head body body_len v =
      Ensures-any IsValid (unpack_pb _ body body_len) _ λ unpacked.
        Ensures-any IsValid (text_at unpacked.0.pbtype) _ λ pbtype.
          Ensures-any IsValid (bytes_at unpacked.0.pbdata (to_size unpacked.0.pbdata_len)) _
            λ pbdata. elim (Bool-cases (bytes_eq pbtype pb.req_name)) [
              | inl e ↦ rw e (on_pb_data-IsValid pb s sp_tcp head pbdata v)
              | inr e ↦ rw e v
            ]

  process_request-IsValid :
      (pb : Protobuf) (c : Chance) (s : Server) (sock : Sock) (head : Head) (body : List ℕ)
      → IsValid s
      → Ensures IsValid (process_request pb c s sock head body)
  unfolding process_request
  process_request-IsValid pb c s sock head body v =
      let sp_tcp = some sock in
      Ensures-if IsValid (head.body_type == req_register) _ _
        (process_register_req-IsValid s sp_tcp head body v)
        (Ensures-if IsValid (head.body_type == req_getclient) _ _
          (process_getclient_req-IsValid s sp_tcp head body c.rand v)
          (Ensures-if IsValid (head.body_type == req_sendmsg) _ _
            (process_sendmsg_req-IsValid c.dest_junk c.from_junk s sp_tcp head body head.body_len v)
            (Ensures-if IsValid (head.body_type == req_unregister) _ _
              (process_unregister_req-IsValid s sp_tcp head body v)
              (Ensures-if IsValid (head.body_type == req_confirm_alive) _ _
                (process_confirm_alive_req-IsValid s sp_tcp head body v)
                (Ensures-if IsValid (head.body_type == body_pbtype) _ (done s)
                  (process_pbbody_data-IsValid pb c.type_junk c.data_junk s sp_tcp head body
                    head.body_len v)
                  v)))))

  -- Whatever message comes in on a connection, whatever the handler finds in memory and draws: where
  -- the handler ends, no service is without a name or a host, none has a host twice, and no client
  -- name is without a connection, if that held before.
  pub process_data_from_client-IsValid :
      (pb : Protobuf) (c : Chance) (s : Server) (sock : Sock) (head : Head) (body : List ℕ)
      → IsValid s
      → Ensures IsValid (process_data_from_client pb c s sock head body)
  unfolding process_data_from_client
  process_data_from_client-IsValid pb c s sock head body v =
      Ensures-if IsValid (head.msg_type == 0) _ (done s)
        (Ensures-if IsValid
          (not (head.body_type == req_register)
            && (not (head.body_type == req_confirm_alive) && not (check_register_client s sock)))
          (done s) (process_request pb c s sock head body) v
          (process_request-IsValid pb c s sock head body v))
        v

  send_all-IsValid :
      (s : Server) (socks : Table ℕ Sock) (bytes : List ℕ)
      → IsValid s
      → IsValid (send_all s socks bytes)
  unfolding send_all
  send_all-IsValid s [] bytes v = v
  send_all-IsValid s ((address, sock) ∷ socks) bytes v =
      send_all-IsValid _ socks bytes (send-IsValid s (some sock) bytes v)

  deliver-IsValid :
      (s : Server) (task : ReqTask) (rands : ℕ → ℕ) → IsValid s → IsValid (deliver s task rands)
  unfolding deliver
  deliver-IsValid s task rands v = send_all-IsValid s _ task.task_bytes v

  broadcast_to-IsValid :
      (s : Server) (active : Table (List ℕ) (Table ℕ Sock)) (rands : ℕ → ℕ) (bytes : List ℕ)
      → IsValid s
      → IsValid (broadcast_to s active rands bytes)
  unfolding broadcast_to
  broadcast_to-IsValid s [] rands bytes v = v
  broadcast_to-IsValid s ((name, socks) ∷ active) rands bytes v =
      elim (Option-cases (select_best_sock (rands 0) socks)) [
        | inl e ↦ rw (e, broadcast_to) (broadcast_to-IsValid s active _ bytes v)
        | inr (sock, e) ↦
            rw (e, broadcast_to)
              (broadcast_to-IsValid _ active _ bytes (send-IsValid s (some sock) bytes v))
      ]

  broadcast-IsValid :
      (s : Server) (task : BroadcastTask) (rands : ℕ → ℕ)
      → IsValid s
      → IsValid (broadcast s task rands)
  unfolding broadcast
  broadcast-IsValid s task rands v = broadcast_to-IsValid s s.active rands task.task_bytes v

  -- One step: a message is handled, a connection is lost (closed, timed out or with an error), or
  -- the process thread takes the first of its two queues and sends it. A step that ends in an abort
  -- or in a wild access leads nowhere.
  pub data Step (pb : Protobuf) : Server → Server → Type 0 where
    message :
        {s t : Server} (c : Chance) (sock : Sock) (head : Head) (body : List ℕ)
        → process_data_from_client pb c s sock head body ≡ done t
        → Step pb s t
    close : {s t : Server} (sock : Sock) → server_on_close s sock ≡ done t → Step pb s t
    task :
        {s : Server} (t : ReqTask) (rest : List ReqTask) (rands : ℕ → ℕ)
        → s.req_tasks ≡ t ∷ rest
        → Step pb s (deliver (record s { req_tasks = rest }) t rands)
    announce :
        {s : Server} (t : BroadcastTask) (rest : List BroadcastTask) (rands : ℕ → ℕ)
        → s.broadcast_tasks ≡ t ∷ rest
        → Step pb s (broadcast (record s { broadcast_tasks = rest }) t rands)

  -- What the server reaches from its start.
  pub data Reach (pb : Protobuf) : Server → Type 0 where
    start : Reach pb new_server
    after : {s t : Server} → Reach pb s → Step pb s t → Reach pb t

  Ensures-value : (m : Outcome Server) (t : Server) → Ensures IsValid m → m ≡ done t → IsValid t
  Ensures-value m t p e = rw e at p

  Step-IsValid : {pb : Protobuf} {s t : Server} → Step pb s t → IsValid s → IsValid t
  Step-IsValid {pb} {s} {t} (Step.message c sock head body e) v =
      Ensures-value _ t (process_data_from_client-IsValid pb c s sock head body v) e
  Step-IsValid {s = s} {t = t} (Step.close sock e) v =
      Ensures-value _ t (server_on_close-IsValid s sock v) e
  Step-IsValid (Step.task t rest rands e) v =
      deliver-IsValid _ t rands
        (record { services_good = v.services_good; active_good = v.active_good })
  Step-IsValid (Step.announce t rest rands e) v =
      broadcast-IsValid _ t rands
        (record { services_good = v.services_good; active_good = v.active_good })

  -- In every state that the server reaches, no service is without a name or a host, none has a host
  -- twice, and no client name is without a connection.
  pub Reach-IsValid : (pb : Protobuf) (s : Server) → Reach pb s → IsValid s
  Reach-IsValid pb _ Reach.start = record { services_good = tt; active_good = tt }
  Reach-IsValid pb _ (Reach.after {s = s} r step) = Step-IsValid step (Reach-IsValid pb s r)

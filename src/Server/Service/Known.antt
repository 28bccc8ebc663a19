-- ===== src/Server/Service/Known.antt =====
-- Registration of a host that is listed already, in Core/msgbus_server.cpp.
use message_bus_all_in_one_f.Common.{ℕ, ◌≡◌, ◌≢◌, false, ◌∙◌, some, List, [], inl, inr}
use message_bus_all_in_one_f.Memory.{done}
use message_bus_all_in_one_f.Table.{bytes_key, insert}
use message_bus_all_in_one_f.Wire.Head.{Head}
use message_bus_all_in_one_f.Wire.Host.{Inet, ClientHost}
use message_bus_all_in_one_f.Wire.Register.{req_register}
use message_bus_all_in_one_f.Wire.Alive.{req_confirm_alive}
use message_bus_all_in_one_f.Server.{Server, Sock, ReqTask, BroadcastTask}
use message_bus_all_in_one_f.Server.Hosts.{update_host_cases}
use message_bus_all_in_one_f.Server.Registry.{Registered, fill_address, check_register_client}
use message_bus_all_in_one_f.Server.Registration.{register_named}
use message_bus_all_in_one_f.Server.Relay.{deliver, broadcast}
use message_bus_all_in_one_f.Server.Query.{Protobuf}
use message_bus_all_in_one_f.Server.Dispatch.{
  Chance, process_data_from_client, process_data_unregistered,
}
use message_bus_all_in_one_f.Server.Service.{Serves, Has-Lacks}
use message_bus_all_in_one_f.Server.Service.Register.{
  fill_address_sock, register_existing_known, register_host_existing, register_named_host,
}
use message_bus_all_in_one_f.Server.Service.Unlisted.{
  Unlisted, GetsNothing, deliver-GetsNothing, broadcast-GetsNothing,
}

module _ ⦃net : Inet⦄ (pb : Protobuf) (c : Chance) where
  -- A connection that has not registered, and that no service has, registers a host that the service
  -- has already. It is told that it succeeded; but then no message that is queued is sent to it, be it
  -- to one name or to all, and a request of it that is neither to register nor to confirm that the
  -- client is alive leaves the server as it was.
  pub register_named_known :
      (s : Server) (sock : Sock) (name : List ℕ) (requested : ClientHost) (task : ReqTask)
      (to_all : BroadcastTask) (rands : ℕ → ℕ) (head : Head) (body : List ℕ)
      → name ≢ []
      → Serves s name (fill_address requested (some sock)).0
      → check_register_client s sock ≡ false
      → Unlisted sock s.active
      → head.body_type ≢ req_register
      → head.body_type ≢ req_confirm_alive
      → (r : Registered) × (register_named s (some sock) name requested ≡ done r)
        × (r.ret_code ≡ 0)
        × GetsNothing sock r.server (deliver r.server task rands)
        × GetsNothing sock r.server (broadcast r.server to_all rands)
        × (process_data_from_client pb c r.server sock head body ≡ done r.server)
  unfolding check_register_client
  register_named_known s sock name requested task to_all rands head body ne (hosts, e, has) new
        unlisted not_register not_alive =
      let host = (fill_address requested (some sock)).0 in
      elim (update_host_cases host hosts) [
        | inl (u, lacks) ↦ absurd (Has-Lacks host hosts has lacks)
        | inr (rest, u, updates) ↦
            let known = register_existing_known s name hosts rest (some sock) host u in
            let s' = record s { services = insert name rest s.services } in
            (
              _,
              register_named_host s (some sock) name requested ne
                  ∙ register_host_existing s s' name hosts sock requested e known,
              (fill_address_sock requested sock).0,
              deliver-GetsNothing sock s' task rands unlisted,
              broadcast-GetsNothing sock s' to_all rands unlisted,
              process_data_unregistered pb c s' sock head body new not_register not_alive,
            )
      ]

-- ===== src/Tests/Services.antt =====
-- The services of Core/msgbus_server.cpp: looking up, registering again, closing and relaying.
use message_bus_all_in_one_f.Common.{
  ℕ, ◌≡◌, ◌≢◌, ◌⊎◌, refl, false, some, List, [], ◌∷◌, ◌++◌, arith, bytes_eq_refl,
}
use message_bus_all_in_one_f.Memory.{done}
use message_bus_all_in_one_f.Memory.Copy.{padded}
use message_bus_all_in_one_f.Table.{Table, bytes_key, nat_key, lookup, erase}
use message_bus_all_in_one_f.Wire.Host.{ClientHost, no_host, host_ip}
use message_bus_all_in_one_f.Wire.Host.Equal.{same_host_refl}
use message_bus_all_in_one_f.Server.{Server, Sock, ReqTask, BroadcastTask}
use message_bus_all_in_one_f.Server.Names.{is_prefix_matching}
use message_bus_all_in_one_f.Server.Hosts.{here}
use message_bus_all_in_one_f.Server.Registry.{
  Registered, fill_address, check_register_client, find_client, server_on_close,
}
use message_bus_all_in_one_f.Server.Registration.{register_named, find_host}
use message_bus_all_in_one_f.Server.Relay.{deliver, broadcast}
use message_bus_all_in_one_f.Server.Relay.Delivery.{Recipients, sends, deliver_lem}
use message_bus_all_in_one_f.Server.Invariant.{IsValid}
use message_bus_all_in_one_f.Server.Service.{Serves}
use message_bus_all_in_one_f.Server.Service.Find.{find_host_lem}
use message_bus_all_in_one_f.Server.Service.Unlisted.{Unlisted, GetsNothing}
use message_bus_all_in_one_f.Server.Dispatch.{process_data_from_client}
use message_bus_all_in_one_f.Wire.Head.{new_head}
use message_bus_all_in_one_f.Wire.SendMsg.{req_sendmsg}
use message_bus_all_in_one_f.Server.Service.Known.{register_named_known}
use message_bus_all_in_one_f.Server.Service.Close.{server_on_close_lem}
use message_bus_all_in_one_f.Tests.Data.{
  test_net, test_pb, test_chance, ab, abc, host_one, sock_one, sock_two, one_service,
}

one_service-IsValid : IsValid one_service
one_service-IsValid = record {
  services_good = (((λ p. cc), ((λ p. cc), (tt, tt))), tt);
  active_good = (((λ p. cc), λ p. cc), tt);
}

find_host_lem_example :
    ((host : ClientHost) × (find_host one_service ab 5 ≡ done (0, host))
      × Serves one_service ab host)
    ⊎ ((find_host one_service ab 5 ≡ done (1, no_host))
        × ((x : ClientHost) → ¬ Serves one_service ab x))
find_host_lem_example = find_host_lem one_service ab 5 (omega arith) one_service-IsValid

-- A message for "ab", and one for all.
abbrev task : ReqTask
task = record { client_name = ab; task_bytes = 1 ∷ 2 ∷ [] }

abbrev to_all : BroadcastTask
to_all = record { task_bytes = 3 ∷ [] }

-- A second connection registers the host of the first, and then asks for a relay.
register_named_known_example :
    (r : Registered) × (register_named one_service (some sock_two) ab host_one ≡ done r)
    × (r.ret_code ≡ 0)
    × GetsNothing sock_two r.server (deliver r.server task (λ i. 5))
    × GetsNothing sock_two r.server (broadcast r.server to_all (λ i. 5))
    × (process_data_from_client test_pb test_chance r.server sock_two (new_head 0 req_sendmsg) []
        ≡ done r.server)
unfolding lookup fill_address host_ip padded check_register_client
register_named_known_example =
    register_named_known test_pb test_chance one_service sock_two ab host_one task to_all (λ i. 5)
      (new_head 0 req_sendmsg) [] (λ p. cc) serves refl unlisted (λ p. omega (arith, p))
      (λ p. omega (arith, p))
  where
    serves : Serves one_service ab (fill_address host_one (some sock_two)).0
    serves = (host_one ∷ [], rw bytes_eq_refl refl, here (same_host_refl host_one))

    unlisted : Unlisted sock_two one_service.active
    unlisted = (((λ p. omega (arith, p)), tt), tt)

-- One connection under two names.
abbrev two_names : Server
two_names = record one_service {
  active = (ab, (100, sock_one) ∷ []) ∷ (abc, (100, sock_one) ∷ []) ∷ [];
}

two_names-IsValid : IsValid two_names
two_names-IsValid = record {
  services_good = (((λ p. cc), ((λ p. cc), (tt, tt))), tt);
  active_good = (((λ p. cc), λ p. cc), (((λ p. cc), λ p. cc), tt));
}

server_on_close_lem_example :
    (t : Server) × (server_on_close two_names sock_one ≡ done t)
    × (check_register_client t sock_one ≡ false)
    × (¬ Serves t ab host_one)
    × ((n : List ℕ) → n ≢ ab → lookup n t.active ≡ lookup n two_names.active)
unfolding find_client lookup erase
server_on_close_lem_example =
    server_on_close_lem two_names sock_one sock_one ab [] host_one two_names-IsValid refl refl refl

deliver_lem_example :
    (chosen : Table ℕ Sock) × ((deliver two_names task (λ i. 5)).sent
      ≡ [] ++ sends chosen (1 ∷ 2 ∷ []))
    × Recipients (λ name. is_prefix_matching name ab) two_names.active (λ i. 5) chosen
deliver_lem_example = deliver_lem two_names task (λ i. 5)

-- ===== src/Tests/Session.antt =====
-- A client registers with the server of Core/msgbus_server.cpp that has just started.
use message_bus_all_in_one_f.Common.{ℕ, ◌≡◌, refl, List, [], ◌∷◌, ◌++◌}
use message_bus_all_in_one_f.Memory.{done, htons, htonl, load8, load16, load32, strncpy, c_string}
use message_bus_all_in_one_f.Memory.Copy.{padded}
use message_bus_all_in_one_f.Table.{bytes_key, nat_key, lookup, insert}
use message_bus_all_in_one_f.Wire.Head.{new_head, pack_head}
use message_bus_all_in_one_f.Wire.Host.{host_ip, host_port, load_host}
use message_bus_all_in_one_f.Wire.Message.{pack_data}
use message_bus_all_in_one_f.Wire.VarData.{set_var_data}
use message_bus_all_in_one_f.Wire.Register.{req_register, unpack_named_host, pack_register_rsp}
use message_bus_all_in_one_f.Server.{Server, new_server}
use message_bus_all_in_one_f.Server.Registry.{
  add_client, check_register_client, fill_address, register_new, register_host,
}
use message_bus_all_in_one_f.Server.Registration.{register_named, process_register_req}
use message_bus_all_in_one_f.Server.Dispatch.{process_request, process_data_from_client}
use message_bus_all_in_one_f.Server.Invariant.{IsValid}
use message_bus_all_in_one_f.Server.Reach.{start, after, message, Reach-IsValid}
use message_bus_all_in_one_f.Tests.Data.{
  test_net, test_pb, test_chance, name_ab, sock_one, one_service,
}

-- The body of the request: the name, and the host's address, port and state.
abbrev body : List ℕ
body = name_ab ++ (7 ∷ 0 ∷ 0 ∷ 0 ∷ 5 ∷ 0 ∷ 0 ∷ 0 ∷ 0 ∷ 0 ∷ [])

-- The answer: a head for 69 bytes, the code 0, the name, and an empty text.
abbrev answer : List ℕ
answer =
    0x66
    ∷ 0
    ∷ 1
    ∷ 1
    ∷ 0
    ∷ 0
    ∷ 0
    ∷ 0
    ∷ 0
    ∷ 2
    ∷ 0
    ∷ 1
    ∷ 0
    ∷ 0
    ∷ 0
    ∷ 69
    ∷ 0
    ∷ 0
    ∷ (name_ab ++ (0 ∷ 1 ∷ 0 ∷ []))

abbrev registered : Server
registered = record one_service { sent = (sock_one, answer) ∷ [] }

registers :
    process_data_from_client test_pb test_chance new_server sock_one (new_head 0 req_register) body
    ≡ done registered
unfolding process_data_from_client process_request check_register_client process_register_req
    unpack_named_host strncpy load_host load8 load16 load32 htons htonl c_string register_named
    register_host fill_address host_ip host_port padded register_new add_client lookup insert
    pack_data pack_head pack_register_rsp set_var_data
registers = refl

Reach-IsValid_example : IsValid registered
Reach-IsValid_example =
    Reach-IsValid test_pb registered
      (after start (message test_chance sock_one (new_head 0 req_register) body registers))

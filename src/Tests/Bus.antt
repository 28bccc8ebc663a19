-- ===== src/Tests/Bus.antt =====
-- The server of Core/msgbus_server.cpp.
use message_bus_all_in_one_f.Common.{
  ℕ, ◌*◌, ◌+◌, ◌^◌, ◌≤◌, ◌<◌, ◌≡◌, ◌≢◌, ◌⊎◌, ◌↔◌, true, inl, refl, false, some, List, [], ◌∷◌, ◌++◌,
  arith, get_elem?, bytes_eq_refl,
}
use message_bus_all_in_one_f.Memory.{done, wild, c_string, htons}
use message_bus_all_in_one_f.Memory.Copy.{padded}
use message_bus_all_in_one_f.Table.{bytes_key, nat_key}
use message_bus_all_in_one_f.Wire.Head.{Head, new_head}
use message_bus_all_in_one_f.Wire.Host.{ClientHost, same_host, host_port}
use message_bus_all_in_one_f.Wire.Message.{Message, packed_head, unpack_data}
use message_bus_all_in_one_f.Wire.SendMsg.{
  SendMsgReq, SendMsgRsp, req_sendmsg, sendmsg_req, sendmsg_rsp,
}
use message_bus_all_in_one_f.Wire.SendMsg.RoundTrip.{
  sendmsg_req_received, sendmsg_rsp_received, sendmsg_req_bytes,
}
use message_bus_all_in_one_f.Server.{send}
use message_bus_all_in_one_f.Server.Names.{is_prefix_matching, Extends, is_prefix_matching_iff}
use message_bus_all_in_one_f.Server.Select.{select_best_host, select_best_host_lem}
use message_bus_all_in_one_f.Server.Registry.{
  Registered, fill_address, unregister_client_from_service,
}
use message_bus_all_in_one_f.Server.Registration.{register_named}
use message_bus_all_in_one_f.Server.Framing.{server_on_read}
use message_bus_all_in_one_f.Server.Framing.Stream.{
  IsFrame, stream, stream_size, server_on_read_lem,
}
use message_bus_all_in_one_f.Server.Relay.{
  is_exist, process_sendmsg_req, queue_task, sendmsg_answer,
}
use message_bus_all_in_one_f.Server.Relay.Cut.{announced, process_sendmsg_req_cut}
use message_bus_all_in_one_f.Server.Relay.Queueing.{process_sendmsg_req_relays}
use message_bus_all_in_one_f.Server.Invariant.{IsValid}
use message_bus_all_in_one_f.Server.Service.{Serves}
use message_bus_all_in_one_f.Server.Service.Register.{register_named_lem}
use message_bus_all_in_one_f.Server.Service.Unregister.{unregister_lem}
use message_bus_all_in_one_f.Tests.Data.{
  test_net, ab, abc, name_ab, host_one, host_two, sock_one, sock_two, one_service, relay_req,
}

is_prefix_matching_iff_example :
    (is_prefix_matching abc ab ≡ true) ↔ (Extends ab abc ⊎ Extends abc ab)
is_prefix_matching_iff_example = is_prefix_matching_iff abc ab

-- The number 2 ^ 30 lies in the second of two parts.
select_best_host_lem_example :
    (i : ℕ) × (host : ClientHost) × (i * 2 ^ 31 ≤ 1073741824 * 2)
    × (1073741824 * 2 < (i + 1) * 2 ^ 31)
    × (get_elem? (host_one ∷ host_two ∷ []) i ≡ some host)
    × (select_best_host 1073741824 (host_one ∷ host_two ∷ []) ≡ done (some host))
select_best_host_lem_example =
    select_best_host_lem 1073741824 (host_one ∷ host_two ∷ []) (omega arith) (omega arith)

abbrev two_frames : List (Head × List ℕ)
two_frames =
    (record (new_head 0 req_sendmsg) { body_len = 2 }, 1 ∷ 2 ∷ [])
    ∷ (record (new_head 0 req_sendmsg) { body_len = 1 }, 3 ∷ [])
    ∷ []

server_on_read_lem_example :
    server_on_read (stream two_frames (0x66 ∷ [])) ≡ done (two_frames, stream_size two_frames)
server_on_read_lem_example =
    server_on_read_lem two_frames (0x66 ∷ []) (frame_two, (frame_one, tt)) (inl (omega arith))
  where
    frame_two : IsFrame (record (new_head 0 req_sendmsg) { body_len = 2 }, 1 ∷ 2 ∷ [])
    frame_two = record { head_fits = omega arith; says_length = refl; has_body = omega arith }

    frame_one : IsFrame (record (new_head 0 req_sendmsg) { body_len = 1 }, 3 ∷ [])
    frame_one = record { head_fits = omega arith; says_length = refl; has_body = omega arith }

-- A second host for a service that has one.
register_named_lem_example :
    (r : Registered) × (register_named one_service (some sock_two) ab host_two ≡ done r)
    × (r.ret_code ≡ 0)
    × Serves r.server ab (fill_address host_two (some sock_two)).0
    × ((n : List ℕ) (x : ClientHost) → Serves one_service n x → Serves r.server n x)
unfolding host_port htons
register_named_lem_example =
    register_named_lem one_service sock_two ab host_two (λ p. cc) (omega arith)

one_service-IsValid : IsValid one_service
one_service-IsValid = record {
  services_good = (((λ p. cc), ((λ p. cc), (tt, tt))), tt);
  active_good = (((λ p. cc), λ p. cc), tt);
}

unregister_lem_example :
    (¬ Serves (unregister_client_from_service one_service ab host_one) ab host_one)
    × ((n : List ℕ) (x : ClientHost)
        → (n ≢ ab) ⊎ (same_host x host_one ≡ false)
        → Serves one_service n x
        → Serves (unregister_client_from_service one_service ab host_one) n x)
unregister_lem_example = unregister_lem one_service ab host_one one_service-IsValid

process_sendmsg_req_cut_example :
    process_sendmsg_req [] [] one_service
      (some sock_one)
      (new_head 0 req_sendmsg)
      (announced name_ab name_ab 3 [])
      132
    ≡ wild
unfolding c_string padded is_exist is_prefix_matching
process_sendmsg_req_cut_example =
    process_sendmsg_req_cut [] [] one_service (some sock_one) (new_head 0 req_sendmsg) name_ab
      name_ab [] ab 3 132 (omega arith) (omega arith) refl refl refl (rw bytes_eq_refl refl)

process_sendmsg_req_relays_example :
    (bytes answer : List ℕ) × (process_sendmsg_req [] [] one_service
        (some sock_one)
        (new_head 0 req_sendmsg)
        (sendmsg_req_bytes relay_req)
        134
      ≡ done (send (queue_task one_service ab bytes) (some sock_one) answer))
    × ((m₀ : Message SendMsgReq) (rest : List ℕ)
        → unpack_data sendmsg_req m₀ (bytes ++ rest) 0
          ≡ done (
            record {
              head =
                  packed_head sendmsg_req
                    (record { head = new_head 0 req_sendmsg; body = relay_req });
              body = sendmsg_req_received relay_req m₀.body;
            },
            some 0,
          ))
    × ((m₀ : Message SendMsgRsp) (rest : List ℕ)
        → unpack_data sendmsg_rsp m₀ (answer ++ rest) 0
          ≡ done (
            record {
              head = packed_head sendmsg_rsp (sendmsg_answer (new_head 0 req_sendmsg) 0 []);
              body =
                  sendmsg_rsp_received (sendmsg_answer (new_head 0 req_sendmsg) 0 []).body m₀.body;
            },
            some 0,
          ))
unfolding c_string padded is_exist is_prefix_matching
process_sendmsg_req_relays_example =
    process_sendmsg_req_relays [] [] one_service (some sock_one) (new_head 0 req_sendmsg) relay_req
      ab 134 (omega arith)
      (record {
        dest_full = refl;
        from_full = refl;
        len_fits = omega arith;
        content_full = omega arith;
      })
      refl refl refl (rw bytes_eq_refl refl)

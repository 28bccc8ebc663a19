-- ===== src/Tests/Packets.antt =====
-- The packets of Core/msgbus_def.cpp.
use message_bus_all_in_one_f.Common.{
  ℕ, ◌≡◌, refl, false, none, some, List, [], ◌∷◌, ◌++◌, arith, if◌then◌else◌, ◌&&◌, ◌==◌,
}
use message_bus_all_in_one_f.Memory.{done, wild, ◌>>=◌, load32, htonl}
use message_bus_all_in_one_f.Memory.Inside.{Returns}
use message_bus_all_in_one_f.Wire.Head.{new_head, request, role_accepts}
use message_bus_all_in_one_f.Wire.Head.Bytes.{head_bytes}
use message_bus_all_in_one_f.Wire.Host.{HostInRange}
use message_bus_all_in_one_f.Wire.Message.{Message, packed_head, pack_data, unpack_data}
use message_bus_all_in_one_f.Wire.Message.RoundTrip.{IsSendable, Survives, unpack_data-head_bytes}
use message_bus_all_in_one_f.Wire.Register.{register_req, req_register}
use message_bus_all_in_one_f.Wire.Register.RoundTrip.{named_host_received, register_req-Survives}
use message_bus_all_in_one_f.Wire.Alive.{AliveRsp, alive_rsp, rsp_confirm_alive}
use message_bus_all_in_one_f.Wire.Alive.RoundTrip.{alive_rsp_rejected}
use message_bus_all_in_one_f.Wire.GetClient.{GetClientRsp, rsp_getclient}
use message_bus_all_in_one_f.Wire.SendMsg.{sendmsg_req, unpack_sendmsg_req}
use message_bus_all_in_one_f.Wire.SendMsg.RoundTrip.{sendmsg_req-Survives, sendmsg_req_received}
use message_bus_all_in_one_f.Wire.SendMsg.Inside.{unpack_sendmsg_req_inside}
use message_bus_all_in_one_f.Wire.PbType.{PbType, body_pbtype, pb_class, unpack_pb}
use message_bus_all_in_one_f.Wire.PbType.RoundTrip.{pb-Survives, pb_received}
use message_bus_all_in_one_f.Wire.PbType.Overread.{unpack_pb_overread}
use message_bus_all_in_one_f.Tests.Data.{
  test_net, name_ab, host_one, host_two, named, register_msg, unregister_msg, relay_req, relay_msg,
  ok_text,
}

host_one-HostInRange : HostInRange host_one
host_one-HostInRange = omega arith

host_two-HostInRange : HostInRange host_two
host_two-HostInRange = omega arith

register_head-IsSendable : IsSendable register_req (new_head 0 req_register)
register_head-IsSendable = record { in_range = omega arith; role_fits = refl; type_fits = refl }

register_req-Survives_example :
    Survives register_req register_msg unregister_msg 0 (1 ∷ []) (named_host_received named)
register_req-Survives_example =
    register_req-Survives register_msg unregister_msg 0 (1 ∷ []) register_head-IsSendable refl refl
      host_one-HostInRange

abbrev alive_answer : Message AliveRsp
alive_answer = record { head = new_head 1 rsp_confirm_alive; body = record { ret_code = 1 } }

alive_rsp_rejected_example :
    (bytes : List ℕ) × (pack_data alive_rsp alive_answer 0
      ≡ done (record alive_answer { head = packed_head alive_rsp alive_answer }, bytes))
    × (unpack_data alive_rsp alive_answer (bytes ++ []) 18
        ≡ done (record alive_answer { head = packed_head alive_rsp alive_answer }, none))
alive_rsp_rejected_example =
    alive_rsp_rejected alive_answer alive_answer 0 18 [] (omega arith) refl refl refl refl

abbrev getclient_answer : Message GetClientRsp
getclient_answer = record {
  head = new_head 1 rsp_getclient;
  body = record { ret_code = 0; dest_name = name_ab; dest_host = host_one };
}

sendmsg_req-Survives_example :
    Survives sendmsg_req relay_msg relay_msg 0 [] (sendmsg_req_received relay_req relay_req)
sendmsg_req-Survives_example =
    sendmsg_req-Survives relay_msg relay_msg 0 []
      (record { in_range = omega arith; role_fits = refl; type_fits = refl }) refl
      (record {
        dest_full = refl;
        from_full = refl;
        len_fits = omega arith;
        content_full = omega arith;
      })

abbrev pb_msg : Message PbType
pb_msg = record {
  head = new_head 0 body_pbtype;
  body = record {
    pbtype_len = 3;
    pbdata_len = 1;
    pbtype = ok_text.content;
    pbdata = some (9 ∷ []);
    needfree = false;
  };
}

pb-Survives_example : Survives pb_class pb_msg pb_msg 0 [] (pb_received pb_msg.body)
pb-Survives_example =
    pb-Survives pb_msg pb_msg 0 []
      (record { in_range = omega arith; role_fits = refl; type_fits = refl }) refl
      (record {
        type_len_fits = omega arith;
        data_len_fits = omega arith;
        type_full = omega arith;
        data_full = omega arith;
      })

-- A body of four bytes that announces an empty type name.
unpack_pb_overread_example : unpack_pb pb_msg.body (0 ∷ 0 ∷ 0 ∷ 0 ∷ []) 4 ≡ wild
unfolding load32 htonl
unpack_pb_overread_example =
    unpack_pb_overread pb_msg.body (0 ∷ 0 ∷ 0 ∷ 0 ∷ []) 0 four_zeros (omega arith) (omega arith)
  where
    four_zeros : load32 (0 ∷ 0 ∷ 0 ∷ 0 ∷ []) ≡ done 0
    four_zeros = refl

unpack_sendmsg_req_inside_example : Returns (unpack_sendmsg_req relay_req (1 ∷ 2 ∷ []) 2)
unpack_sendmsg_req_inside_example = unpack_sendmsg_req_inside relay_req (1 ∷ 2 ∷ []) (omega arith)

-- A head of another class is refused.
unpack_data-head_bytes_example :
    unpack_data register_req register_msg (head_bytes (new_head 1 req_register) ++ []) 0 ≡ (
      if role_accepts request 1 && (req_register == req_register)
      then (register_req.unpack_body named [] 0 >>= λ r.
          done (record { head = new_head 1 req_register; body = r.0 }, r.1))
      else done (record register_msg { head = new_head 1 req_register }, none))
unpack_data-head_bytes_example =
    unpack_data-head_bytes register_req register_msg (new_head 1 req_register) [] (omega arith)

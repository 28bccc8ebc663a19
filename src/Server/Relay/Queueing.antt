-- ===== src/Server/Relay/Queueing.antt =====
-- process_sendmsg_req of Core/msgbus_server.cpp: what it queues for a request that is whole.
use mathlib.Core.List.{append-nil}
use message_bus_all_in_one_f.Common.{
  ℕ, ◌+◌, ◌*◌, ◌≡◌, refl, sym, ◌∙◌, false, true, some, Option, List, [], ◌++◌, take, take-take,
  length-take, arith,
}
use message_bus_all_in_one_f.Memory.{done, c_string, too_short, at_pointer, store32, htonl}
use message_bus_all_in_one_f.Memory.Copy.{
  memcpy-eq, padded-padded, padded, strncpy-padded, drop-padded, length-padded,
}
use message_bus_all_in_one_f.Memory.Words.{net32, htonl-htonl}
use message_bus_all_in_one_f.Wire.Head.{InRange, Head, new_head}
use message_bus_all_in_one_f.Wire.Message.{Class, unpack_data, Message, packed_head, pack_data}
use message_bus_all_in_one_f.Wire.Message.RoundTrip.{Survives}
use message_bus_all_in_one_f.Wire.Register.{name_size}
use message_bus_all_in_one_f.Wire.VarData.{replace_var_data, set_var_data}
use message_bus_all_in_one_f.Wire.SendMsg.{
  SendMsgRsp, sendmsg_rsp, SendMsgReq, unpack_sendmsg_req, sendmsg_req, req_sendmsg,
}
use message_bus_all_in_one_f.Wire.SendMsg.RoundTrip.{
  IsFilled, sendmsg_req_received, sendmsg_rsp_received, sendmsg_req_bytes, sendmsg_req-Survives,
  sendmsg_rsp-Survives,
}
use message_bus_all_in_one_f.Server.{Server, Sock, send}
use message_bus_all_in_one_f.Server.Relay.{
  is_exist, fresh_req, forward, process_sendmsg_req, queue_task, sendmsg_answer,
}

-- The object after UnPackBody of a whole request.
abbrev whole_req : SendMsgReq → SendMsgReq
whole_req r = sendmsg_req_received r (fresh_req [] [])

unpack_whole :
    (dest_junk from_junk : List ℕ) (r : SendMsgReq) (len : ℕ)
    → IsFilled r
    → too_short len (name_size * 2 + 4) ≡ false
    → too_short len (name_size * 2 + 4 + r.msg_len) ≡ false
    → unpack_sendmsg_req (fresh_req dest_junk from_junk) (sendmsg_req_bytes r) len
      ≡ done (whole_req r, some 0)
unfolding unpack_sendmsg_req
unpack_whole dest_junk from_junk r len v fixed whole =
    let content = take r.msg_len (at_pointer r.msg_content.content) in
    let tail = store32 (htonl r.msg_len) ++ content in
    rw (
      fixed,
      strncpy-padded name_size r.dest_name (padded name_size r.from_name ++ tail),
      drop-padded name_size r.dest_name (padded name_size r.from_name ++ tail),
      strncpy-padded name_size r.from_name tail,
      drop-padded name_size r.from_name tail,
      net32 r.msg_len content,
      htonl-htonl r.msg_len v.len_fits,
      whole,
      memcpy-eq r.msg_len content
          (omega (arith, length-take r.msg_len (at_pointer r.msg_content.content), v.content_full)),
      take-take r.msg_len r.msg_len (at_pointer r.msg_content.content) (omega arith),
    )

whole_req-IsFilled : (r : SendMsgReq) → IsFilled r → IsFilled (whole_req r)
unfolding replace_var_data
whole_req-IsFilled r v = record {
  dest_full = length-padded name_size r.dest_name;
  from_full = length-padded name_size r.from_name;
  len_fits = v.len_fits;
  content_full =
      omega (arith, length-take r.msg_len (at_pointer r.msg_content.content), v.content_full);
}

padded_twice : (s : List ℕ) → padded name_size (padded name_size s) ≡ padded name_size s
padded_twice s = let e = padded-padded name_size s [] in rw append-nil at e

received_twice :
    (r old : SendMsgReq) → sendmsg_req_received (whole_req r) old ≡ sendmsg_req_received r old
unfolding replace_var_data
received_twice r old = rw (
  padded_twice r.dest_name,
  padded_twice r.from_name,
  take-take r.msg_len r.msg_len (at_pointer r.msg_content.content) (omega arith),
)

-- What PackData wrote is what a round trip reads.
Survives-any :
    {Body : Type 0} (c : Class Body) (m m₀ : Message Body) (len : ℕ) (bytes rest : List ℕ)
    (got : Body)
    → pack_data c m len ≡ done (record m { head = packed_head c m }, bytes)
    → Survives c m m₀ len rest got
    → unpack_data c m₀ (bytes ++ rest) 0
      ≡ done (record { head = packed_head c m; body = got }, some 0)
Survives-any {Body = Body} c m m₀ len bytes rest got packs (bytes', packs', unpacks) =
    let e : bytes' ≡ bytes = same_bytes (sym packs' ∙ packs) in rw e at unpacks
  where
    same_bytes : {x y : Message Body × List ℕ} → done x ≡ done y → x.1 ≡ y.1
    same_bytes e = cc

-- A whole request to relay a message to a service that has a connection is queued for that service
-- and answered: what is queued is read by UnPackData, into any object and whatever follows it, as
-- the names and the bytes of the request, and what is answered as the code 0 under the request's
-- id, with an empty text.
pub process_sendmsg_req_relays :
    (dest_junk from_junk : List ℕ) (s : Server) (sp_tcp : Option Sock) (head : Head)
    (r : SendMsgReq) (to : List ℕ) (len : ℕ)
    → InRange head
    → IsFilled r
    → too_short len (name_size * 2 + 4) ≡ false
    → too_short len (name_size * 2 + 4 + r.msg_len) ≡ false
    → c_string (padded name_size r.dest_name) ≡ done to
    → is_exist s.active to ≡ true
    → (bytes answer : List ℕ) × (process_sendmsg_req dest_junk from_junk s sp_tcp head
          (sendmsg_req_bytes r)
          len
        ≡ done (send (queue_task s to bytes) sp_tcp answer))
      × ((m₀ : Message SendMsgReq) (rest : List ℕ)
          → unpack_data sendmsg_req m₀ (bytes ++ rest) 0
            ≡ done (
              record {
                head = packed_head sendmsg_req (record { head = new_head 0 req_sendmsg; body = r });
                body = sendmsg_req_received r m₀.body;
              },
              some 0,
            ))
      × ((m₀ : Message SendMsgRsp) (rest : List ℕ)
          → unpack_data sendmsg_rsp m₀ (answer ++ rest) 0
            ≡ done (
              record {
                head = packed_head sendmsg_rsp (sendmsg_answer head 0 []);
                body = sendmsg_rsp_received (sendmsg_answer head 0 []).body m₀.body;
              },
              some 0,
            ))
unfolding process_sendmsg_req forward set_var_data
process_sendmsg_req_relays dest_junk from_junk s sp_tcp head r to len v filled fixed whole named
      exists =
    let m : Message SendMsgReq = record { head = new_head 0 req_sendmsg; body = whole_req r } in
    let a : Message SendMsgRsp = sendmsg_answer head 0 [] in
    let req = λ (m₀ : Message SendMsgReq) (rest : List ℕ).
      sendmsg_req-Survives m m₀ 0 rest
        (record { in_range = omega arith; role_fits = refl; type_fits = refl }) refl
        (whole_req-IsFilled r filled) in
    let rsp = λ (m₀ : Message SendMsgRsp) (rest : List ℕ).
      sendmsg_rsp-Survives a m₀ 0 rest
        (record { in_range = omega (arith, v.msg_id_fits); role_fits = refl; type_fits = refl })
        refl (omega arith) (omega arith) (omega arith) in
    let (bytes, packs, read) = req m [] in
    let (answer, packs_answer, read_answer) = rsp a [] in
    (
      bytes,
      answer,
      rw
          (
            unpack_whole dest_junk from_junk r len filled fixed whole,
            named,
            exists,
            packs,
            packs_answer,
          )
          refl,
      (λ m₀ rest.
          Survives-any sendmsg_req m m₀ 0 bytes rest (sendmsg_req_received r m₀.body) packs
            (let q = req m₀ rest in rw (received_twice r m₀.body) at q)),
      λ m₀ rest.
          Survives-any sendmsg_rsp a m₀ 0 answer rest (sendmsg_rsp_received a.body m₀.body)
            packs_answer (rsp m₀ rest),
    )

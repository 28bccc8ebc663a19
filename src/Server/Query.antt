-- ===== src/Server/Query.antt =====
-- Protocol buffer requests of Core/msgbus_server.cpp: process_pbbody_data, the handler template
-- that parses the message, and onQueryServicesReq, the one handler that is registered. The protocol
-- buffer library and the generated classes are parameters.
use message_bus_all_in_one_f.Common.{
  ℕ, false, Option, none, some, List, [], ◌∷◌, ◌++◌, length, ◌==◌, if◌then◌else◌, bytes_eq,
}
use message_bus_all_in_one_f.Memory.{Outcome, done, aborted, ◌>>=◌, c_string, memcpy}
use message_bus_all_in_one_f.Table.{Table}
use message_bus_all_in_one_f.Text.{find}
use message_bus_all_in_one_f.Wire.Head.{Head, new_head}
use message_bus_all_in_one_f.Wire.Host.{ClientHost}
use message_bus_all_in_one_f.Wire.Message.{Message, pack_data}
use message_bus_all_in_one_f.Wire.PbType.{
  PbType, body_pbtype, to_size, unpack_pb, pb_class, pb_size,
}
use message_bus_all_in_one_f.Server.{Server, Sock, send}
use message_bus_all_in_one_f.Server.Registry.{is_some}

pub record Protobuf : Type 0 where
  -- PBQueryServicesReq::descriptor()->full_name(), and PBQueryServicesRsp's.
  pub req_name : List ℕ
  pub rsp_name : List ℕ
  -- ParseFromArray of a PBQueryServicesReq: its match_prefix, or `none` for false.
  pub parse_req : List ℕ → Option (List ℕ)
  -- SerializeToArray of a PBQueryServicesRsp with these service names.
  pub serialize_rsp : List (List ℕ) → List ℕ

-- The loop over the services: `cit->first.find(prefix) != std::string::npos`.
unfoldable pub matching_names : Table (List ℕ) (List ClientHost) → List ℕ → List (List ℕ)
matching_names [] prefix = []
matching_names ((name, hosts) ∷ services) prefix =
    let rest = matching_names services prefix in
    if is_some (find prefix name) then name ∷ rest else rest

-- `std::string(p)` and `std::string(p, n)` throw on a null pointer (the second where n is
-- not 0), which ends the pool's thread.
abbrev pub text_at : Option (List ℕ) → Outcome (List ℕ)
text_at none = aborted
text_at (some p) = c_string p

abbrev pub bytes_at : Option (List ℕ) → ℕ → Outcome (List ℕ)
bytes_at none n = if n == 0 then done [] else aborted
bytes_at (some p) n = memcpy n p

module _ (pb : Protobuf) where
  -- SetVarData of a packet whose own pointers are null.
  abbrev pub query_answer : Head → List (List ℕ) → Message PbType
  query_answer head names = record {
    head = record (new_head 0 body_pbtype) { msg_id = head.msg_id };
    body = record {
      pbtype_len = length (pb.rsp_name ++ (0 ∷ []));
      pbdata_len = length (pb.serialize_rsp names);
      pbtype = some (pb.rsp_name ++ (0 ∷ []));
      pbdata = some (pb.serialize_rsp names);
      needfree = false;
    };
  }

  -- onQueryServicesReq.
  unfoldable pub on_query_services_req : Server → Option Sock → Head → List ℕ → Outcome Server
  on_query_services_req s sp_tcp head prefix = do
    let answer = query_answer head (matching_names s.services prefix)
    (rsp, bytes) ← pack_data pb_class answer (pb_size answer.body)
    done (send s sp_tcp bytes)

  -- PBHandlerT::onPbData: a message that does not parse is dropped.
  unfoldable pub on_pb_data : Server → Option Sock → Head → List ℕ → Outcome Server
  on_pb_data s sp_tcp head pbdata = elim (pb.parse_req pbdata) [
    | none ↦ done s
    | some prefix ↦ on_query_services_req s sp_tcp head prefix
  ]

  -- The lengths are not set before UnPackBody; what it returns is ignored.
  unfoldable pub process_pbbody_data :
      ℕ → ℕ → Server → Option Sock → Head → List ℕ → ℕ → Outcome Server
  process_pbbody_data type_junk data_junk s sp_tcp head body body_len = do
    (req, result) ←
        unpack_pb
          (record {
            pbtype_len = type_junk;
            pbdata_len = data_junk;
            pbtype = none;
            pbdata = none;
            needfree = false;
          })
          body body_len
    pbtype ← text_at req.pbtype
    pbdata ← bytes_at req.pbdata (to_size req.pbdata_len)
    if bytes_eq pbtype pb.req_name then on_pb_data s sp_tcp head pbdata else done s

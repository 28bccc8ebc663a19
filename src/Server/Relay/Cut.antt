-- ===== src/Server/Relay/Cut.antt =====
-- process_sendmsg_req of Core/msgbus_server.cpp: what happens where a request is cut short.
use message_bus_all_in_one_f.Common.{
  ℕ, ◌+◌, ◌*◌, ◌^◌, ◌<◌, ◌≡◌, false, true, none, Option, List, [], ◌++◌, arith,
}
use message_bus_all_in_one_f.Memory.{done, wild, c_string, too_short, store32, htonl}
use message_bus_all_in_one_f.Memory.Inside.{memcpy_outside}
use message_bus_all_in_one_f.Memory.Copy.{
  padded, strncpy-eq, strncpy-padded, drop-padded, length-padded,
}
use message_bus_all_in_one_f.Memory.Words.{net32, htonl-htonl}
use message_bus_all_in_one_f.Wire.Head.{Head}
use message_bus_all_in_one_f.Wire.Head.Bytes.{pack_head_lem}
use message_bus_all_in_one_f.Wire.Message.{pack_data}
use message_bus_all_in_one_f.Wire.Register.{name_size}
use message_bus_all_in_one_f.Wire.VarData.{no_var_data}
use message_bus_all_in_one_f.Wire.SendMsg.{SendMsgReq, pack_sendmsg_req, unpack_sendmsg_req}
use message_bus_all_in_one_f.Server.{Server, Sock}
use message_bus_all_in_one_f.Server.Relay.{is_exist, fresh_req, forward, process_sendmsg_req}

-- A request body on the wire that announces `n` bytes and brings `content`.
abbrev pub announced : List ℕ → List ℕ → ℕ → List ℕ → List ℕ
announced dest from n content =
    padded name_size dest ++ (padded name_size from ++ (store32 (htonl n) ++ content))

-- The object after UnPackBody found the body too short for what it announces.
abbrev cut_req : List ℕ → List ℕ → ℕ → SendMsgReq
cut_req dest from n = record {
  dest_name = padded name_size dest;
  from_name = padded name_size from;
  msg_len = n;
  msg_content = no_var_data;
}

unpack_announced :
    (dest_junk from_junk dest from content : List ℕ) (n len : ℕ)
    → n < 2 ^ 32
    → too_short len (name_size * 2 + 4) ≡ false
    → too_short len (name_size * 2 + 4 + n) ≡ true
    → unpack_sendmsg_req (fresh_req dest_junk from_junk) (announced dest from n content) len
      ≡ done (cut_req dest from n, none)
unfolding unpack_sendmsg_req
unpack_announced dest_junk from_junk dest from content n len fits fixed cut =
    let tail = store32 (htonl n) ++ content in
    rw (
      fixed,
      strncpy-padded name_size dest (padded name_size from ++ tail),
      drop-padded name_size dest (padded name_size from ++ tail),
      strncpy-padded name_size from tail,
      drop-padded name_size from tail,
      net32 n content,
      htonl-htonl n fits,
      cut,
    )

pack_cut : (dest from : List ℕ) (n : ℕ) → 0 < n → pack_sendmsg_req (cut_req dest from n) 0 ≡ wild
unfolding pack_sendmsg_req
pack_cut dest from n h = rw (
  strncpy-eq name_size (padded name_size dest) (omega (arith, length-padded name_size dest)),
  strncpy-eq name_size (padded name_size from) (omega (arith, length-padded name_size from)),
  memcpy_outside n [] h,
)

forward_cut :
    (s : Server) (to dest from : List ℕ) (n : ℕ) → 0 < n → forward s to (cut_req dest from n) ≡ wild
unfolding forward pack_data
forward_cut s to dest from n h = rw (pack_head_lem, pack_cut dest from n h)

-- A client of a registered connection can bring the server down: a request to relay a message to a
-- service that has a connection, whose body is shorter than the fields and the bytes that it
-- announces, makes the server read through a null pointer.
pub process_sendmsg_req_cut :
    (dest_junk from_junk : List ℕ) (s : Server) (sp_tcp : Option Sock) (head : Head)
    (dest from content to : List ℕ) (n len : ℕ)
    → 0 < n
    → n < 2 ^ 32
    → too_short len (name_size * 2 + 4) ≡ false
    → too_short len (name_size * 2 + 4 + n) ≡ true
    → c_string (padded name_size dest) ≡ done to
    → is_exist s.active to ≡ true
    → process_sendmsg_req dest_junk from_junk s sp_tcp head (announced dest from n content) len
      ≡ wild
unfolding process_sendmsg_req
process_sendmsg_req_cut dest_junk from_junk s sp_tcp head dest from content to n len pos fits fixed
      cut named exists =
    rw (
      unpack_announced dest_junk from_junk dest from content n len fits fixed cut,
      named,
      exists,
      forward_cut s to dest from n pos,
    )

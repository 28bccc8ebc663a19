-- ===== src/Wire/Alive/RoundTrip.antt =====
-- The keep-alive request arrives; the keep-alive answer is never accepted by its own class.
use mathlib.Core.List.{append_assoc}
use message_bus_all_in_one_f.Common.{ℕ, ◌∙◌, ◌≡◌, refl, false, none, some, List, [], ◌∷◌, ◌++◌}
use message_bus_all_in_one_f.Memory.{done, too_short, htons, load8, store16}
use message_bus_all_in_one_f.Wire.Head.{InRange}
use message_bus_all_in_one_f.Wire.Head.Bytes.{head_bytes}
use message_bus_all_in_one_f.Wire.Message.{Message, packed_head, pack_data, unpack_data}
use message_bus_all_in_one_f.Wire.Message.RoundTrip.{
  IsSendable, Survives, survives, pack_data_lem, packed_head-InRange, unpack_data-head_bytes,
}
use message_bus_all_in_one_f.Wire.Alive.{
  AliveReq, alive_req_size, pack_alive_req, unpack_alive_req, alive_req, AliveRsp, alive_rsp,
  alive_rsp_size, pack_alive_rsp, rsp_confirm_alive,
}

unpack_alive_req_lem :
    (r r₀ : AliveReq) (rest : List ℕ)
    → unpack_alive_req r₀ ((r.alive_flag ∷ []) ++ rest) 0 ≡ done (r, some 0)
unfolding unpack_alive_req load8
unpack_alive_req_lem r r₀ rest = refl

pack_alive_req_lem : (r : AliveReq) → pack_alive_req r 0 ≡ done (r.alive_flag ∷ [])
unfolding pack_alive_req
pack_alive_req_lem r = refl

-- The keep-alive request, with the class's own head and packed into enough room: its flag arrives.
pub alive_req-Survives :
    (m m₀ : Message AliveReq) (len : ℕ) (rest : List ℕ)
    → IsSendable alive_req m.head
    → too_short len (alive_req_size m.body) ≡ false
    → Survives alive_req m m₀ len rest m.body
alive_req-Survives m m₀ len rest v room =
    survives alive_req m m₀ len _ rest _ v room (pack_alive_req_lem m.body)
      (unpack_alive_req_lem m.body m₀.body rest)

-- With enough room, UnPackData is as with no length given.
unpack_data-enough :
    (m : Message AliveRsp) (p : List ℕ) (len : ℕ)
    → too_short len (alive_rsp_size m.body) ≡ false
    → unpack_data alive_rsp m p len ≡ unpack_data alive_rsp m p 0
unfolding unpack_data alive_rsp
unpack_data-enough m p len room = rw room refl

-- Whatever the answer says, and into whatever object it is read: PackData of an answer with the
-- class's own head succeeds, and UnPackData of those bytes, whatever follows them, returns -1 and
-- leaves the body as it was. Each is given no length, or one that is not too short.
pub alive_rsp_rejected :
    (m m₀ : Message AliveRsp) (pack_len unpack_len : ℕ) (rest : List ℕ)
    → InRange m.head
    → m.head.msg_type ≡ 1
    → m.head.body_type ≡ rsp_confirm_alive
    → too_short pack_len (alive_rsp_size m.body) ≡ false
    → too_short unpack_len (alive_rsp_size m₀.body) ≡ false
    → (bytes : List ℕ) × (pack_data alive_rsp m pack_len
        ≡ done (record m { head = packed_head alive_rsp m }, bytes))
      × (unpack_data alive_rsp m₀ (bytes ++ rest) unpack_len
          ≡ done (record m₀ { head = packed_head alive_rsp m }, none))
unfolding alive_rsp pack_alive_rsp
alive_rsp_rejected m m₀ pack_len unpack_len rest v role type pack_room unpack_room =
    let head = packed_head alive_rsp m in
    let body = store16 (htons m.body.ret_code) in
    (
      head_bytes head ++ body,
      pack_data_lem alive_rsp m pack_len body pack_room refl,
      unpack_data-enough m₀ (head_bytes head ++ body ++ rest) unpack_len unpack_room
          ∙ rw (
            append_assoc (head_bytes head) body rest,
            unpack_data-head_bytes alive_rsp m₀ head (body ++ rest)
                (packed_head-InRange alive_rsp m v),
            role,
            type,
          ),
    )

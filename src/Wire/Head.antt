-- ===== src/Wire/Head.antt =====
-- MsgBusPackHead of Core/msgbus_def.h, with PackHead and UnPackHead of Core/msgbus_def.cpp, and the
-- request and response heads that check the message type.
pub mod Bytes
use message_bus_all_in_one_f.Common.{
  ℕ, ◌+◌, ◌<◌, ◌^◌, Option, none, some, List, ◌∷◌, ◌++◌, drop, Bool, true, ◌==◌, if◌then◌else◌,
}
use message_bus_all_in_one_f.Memory.{
  Outcome, done, aborted, ◌>>=◌, store16, store32, load8, load16, load32, htons, htonl, ntohs,
  ntohl, too_short,
}

-- The fields in the order of the packed struct; body_type may hold any value that arrives.
pub record Head : Type 0 where
  pub magic : ℕ
  pub version : ℕ
  pub msg_type : ℕ
  pub msg_id : ℕ
  pub body_type : ℕ
  pub body_len : ℕ

-- sizeof(MsgBusPackHead) under `#pragma pack(push,1)`.
abbrev pub head_size : ℕ
head_size = 1 + 2 + 1 + 4 + 4 + 4

-- MsgBusPackHead(type, msgbody_type).
abbrev pub new_head : ℕ → ℕ → Head
new_head type body = record {
  magic = 0x66;
  version = 1;
  msg_type = type;
  msg_id = 0;
  body_type = body;
  body_len = 0;
}

-- The step from a field to the next: the structs are packed, so it is the field's own size.
abbrev pub padding : ℕ → ℕ → ℕ
padding prev_size next_size = prev_size

-- The bytes written, and `p - data`: the last field is not stepped over.
unfoldable pub pack_head : Head → ℕ → Outcome (List ℕ × ℕ)
pack_head h len =
    if too_short len head_size
    then aborted
    else done (
      h.magic
          ∷ (store16 (htons h.version)
              ++ (h.msg_type
                  ∷ (store32 (htonl h.msg_id)
                      ++ (store32 (htonl h.body_type) ++ store32 (htonl h.body_len))))),
      padding 1 2 + padding 2 1 + padding 1 4 + padding 4 4 + padding 4 4,
    )

-- The object after the call, and the returned offset (`none` for -1).
unfoldable pub unpack_head : Head → List ℕ → ℕ → Outcome (Head × Option ℕ)
unpack_head h p₀ len = if too_short len head_size then done (h, none) else do
  magic ← load8 p₀
  let p₁ = drop (padding 1 2) p₀
  version ← load16 p₁
  let p₂ = drop (padding 2 1) p₁
  msg_type ← load8 p₂
  let p₃ = drop (padding 1 4) p₂
  msg_id ← load32 p₃
  let p₄ = drop (padding 4 4) p₃
  body_type ← load32 p₄
  let p₅ = drop (padding 4 4) p₄
  body_len ← load32 p₅
  done (
    record {
      magic = magic;
      version = ntohs version;
      msg_type = msg_type;
      msg_id = ntohl msg_id;
      body_type = ntohl body_type;
      body_len = ntohl body_len;
    },
    some (padding 1 2 + padding 2 1 + padding 1 4 + padding 4 4 + padding 4 4),
  )

-- A head may answer a request, be a request, or be either.
pub data Role : Type 0 where
  request response either : Role

-- The value of msg_type that UnPackReqHead and UnPackRspHead look for.
abbrev pub role_accepts : Role → ℕ → Bool
role_accepts request t = t == 0
role_accepts response t = t == 1
role_accepts either t = true

-- PackReqHead and PackRspHead: the length is not passed on.
abbrev pub pack_role_head : Head → ℕ → Outcome (List ℕ × ℕ)
pack_role_head h len = pack_head h 0

checked_offset : Role → Head × Option ℕ → Head × Option ℕ
checked_offset role (h, none) = (h, none)
checked_offset role (h, some offset) =
    if role_accepts role h.msg_type then (h, some offset) else (h, none)

-- UnPackReqHead, UnPackRspHead, and UnPackHead itself where the class has no role.
unfoldable pub unpack_role_head : Role → Head → List ℕ → ℕ → Outcome (Head × Option ℕ)
unfolding checked_offset
unpack_role_head role h p len = unpack_head h p 0 >>= λ r. done (checked_offset role r)

-- Every field fits its type.
pub record InRange (h : Head) : Type 0 where
  pub magic_fits : h.magic < 2 ^ 8
  pub version_fits : h.version < 2 ^ 16
  pub msg_type_fits : h.msg_type < 2 ^ 8
  pub msg_id_fits : h.msg_id < 2 ^ 32
  pub body_type_fits : h.body_type < 2 ^ 32
  pub body_len_fits : h.body_len < 2 ^ 32

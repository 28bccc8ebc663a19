-- ===== src/Wire/Message.antt =====
-- What the message classes of Core/msgbus_def.h share: an object is a head and the class's own
-- fields, PackData writes the head with a fresh body_len and then the body, and UnPackData checks
-- the head's message and body types before it reads the body.
pub mod RoundTrip
use message_bus_all_in_one_f.Common.{
  ℕ, ◌+◌, ◌-◌, ◌%◌, ◌^◌, ◌≤◌, ◌<◌, ◌≡◌, refl, true, false, Bool, ◌&&◌, Option, none, some, List,
  ◌++◌, drop, length, length-append, arith, ◌==◌, ==_refl, if◌then◌else◌,
}
use message_bus_all_in_one_f.Memory.{Outcome, done, aborted, ◌>>=◌, too_short}
use message_bus_all_in_one_f.Wire.Head.{
  Head, head_size, Role, role_accepts, pack_role_head, pack_head, unpack_role_head, InRange,
}
use message_bus_all_in_one_f.Wire.Head.Bytes.{
  head_bytes, length-head_bytes, pack_head_lem, unpack_role_head-head_bytes,
}

-- What a class adds to the shared code; `Body` has its fields behind the head.
pub record Class (Body : Type 0) : Type 0 where
  pub role : Role
  -- The body_type that UnPackData asks for.
  pub expected_type : ℕ
  -- Whether UnPackData refuses a short length by `throw`.
  pub unpack_throws : Bool
  -- Size(), a uint32_t.
  pub size : Body → ℕ
  pub pack_body : Body → ℕ → Outcome (List ℕ)
  -- The fields after the call, and the result (`none` for -1).
  pub unpack_body : Body → List ℕ → ℕ → Outcome (Body × Option ℕ)

pub record Message (Body : Type 0) : Type 0 where
  pub head : Head
  pub body : Body

-- Size() - MsgBusPackHead::Size(), in uint32_t.
abbrev pub body_size : ℕ → ℕ
body_size size = (size + 2 ^ 32 - head_size) % 2 ^ 32

module _ {Body : Type 0} (c : Class Body) where
  -- The head that PackData leaves in the object and writes.
  abbrev pub packed_head : Message Body → Head
  packed_head m = record m.head { body_len = body_size (c.size m.body) }

  -- The object after PackData, and the bytes written to `data`.
  unfoldable pub pack_data : Message Body → ℕ → Outcome (Message Body × List ℕ)
  pack_data m len = if too_short len (c.size m.body) then aborted else do
    (head, offset) ← pack_role_head (packed_head m) 0
    body ← c.pack_body m.body 0
    done (record m { head = packed_head m }, head ++ body)

  -- UnPackData, once the head has been read.
  abbrev unpack_checked :
      Message Body → List ℕ → Head × Option ℕ → Outcome (Message Body × Option ℕ)
  unpack_checked m p (head, none) = done (record m { head = head }, none)
  unpack_checked m p (head, some offset) =
      if head.body_type == c.expected_type
      then (do
        (body, result) ← c.unpack_body m.body (drop head_size p) 0
        done (record { head = head; body = body }, result))
      else done (record m { head = head }, none)

  -- The object after UnPackData, and its result (`none` for -1).
  unfoldable pub unpack_data : Message Body → List ℕ → ℕ → Outcome (Message Body × Option ℕ)
  unpack_data m p len =
      if c.unpack_throws && too_short len (c.size m.body)
      then aborted
      else (unpack_role_head c.role m.head p 0 >>= unpack_checked m p)

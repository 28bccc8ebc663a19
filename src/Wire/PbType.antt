-- ===== src/Wire/PbType.antt =====
-- MsgBusPackPBType of Core/msgbus_def.h and Core/msgbus_def.cpp: a type name and protocol buffer
-- data, each with an int32_t length. A length is its bit pattern, below 2 ^ 32.
pub mod RoundTrip
pub mod Overread
use message_bus_all_in_one_f.Common.{
  ℕ, ◌+◌, ◌-◌, ◌%◌, ◌^◌, Bool, true, false, Option, none, some, List, ◌++◌, drop, leb, ltb, ◌<◌,
  ◌≡◌, arith, if◌then◌else◌,
}
use message_bus_all_in_one_f.Memory.{
  Outcome, done, aborted, ◌>>=◌, store32, load32, htonl, ntohl, strncpy, memcpy, too_short,
  at_pointer,
}
use message_bus_all_in_one_f.Wire.Head.{head_size, either}
use message_bus_all_in_one_f.Wire.Message.{Class, body_size}

-- BODY_PBTYPE.
abbrev pub body_pbtype : ℕ
body_pbtype = 0x030001

-- One flag for both pointers.
pub record PbType : Type 0 where
  pub pbtype_len : ℕ
  pub pbdata_len : ℕ
  pub pbtype : Option (List ℕ)
  pub pbdata : Option (List ℕ)
  pub needfree : Bool

-- An int32_t below 0.
abbrev pub is_negative : ℕ → Bool
is_negative x = leb (2 ^ 31) x

pub not_negative : (x : ℕ) → x < 2 ^ 31 → is_negative x ≡ false
not_negative x h = ground arith

-- The conversion of an int32_t to size_t repeats the sign.
abbrev pub to_size : ℕ → ℕ
to_size x = if is_negative x then x + (2 ^ 64 - 2 ^ 32) else x

-- Size(): the sum is taken in size_t and returned as a uint32_t.
abbrev pub pb_size : PbType → ℕ
pb_size r = (head_size + 4 + r.pbtype_len + 4 + r.pbdata_len) % 2 ^ 32

unfoldable pub pack_pb : PbType → ℕ → Outcome (List ℕ)
pack_pb r len = if too_short len (body_size (pb_size r)) then aborted else do
  type ← strncpy (to_size r.pbtype_len) (at_pointer r.pbtype)
  content ← memcpy (to_size r.pbdata_len) (at_pointer r.pbdata)
  done (store32 (htonl r.pbtype_len) ++ (store32 (htonl r.pbdata_len) ++ (type ++ content)))

-- FreeVarData: both buffers, and here the flag is cleared too.
unfoldable pub free_pb : PbType → PbType
free_pb r = record r {
  pbtype = if r.needfree then none else r.pbtype;
  pbdata = if r.needfree then none else r.pbdata;
  needfree = false;
}

-- `new char[n]` throws for a negative n, and the handler around UnPackBody returns -1.
unfoldable pub unpack_pb : PbType → List ℕ → ℕ → Outcome (PbType × Option ℕ)
unfolding free_pb
unpack_pb r p₀ len = if too_short len 4 then aborted else do
  type_len ← load32 p₀
  let p₁ = drop 4 p₀
  let r₁ = record r { pbtype_len = ntohl type_len }
  if too_short len ((4 + to_size r₁.pbtype_len) % 2 ^ 64) then done (r₁, none) else (do
    data_len ← load32 p₁
    let r₂ = record r₁ { pbdata_len = ntohl data_len }
    if too_short len (body_size (pb_size r₂)) then done (r₂, none) else (do
      let p₂ = drop 4 p₁
      let r₃ = record (free_pb r₂) { needfree = true }
      if is_negative r₃.pbtype_len then done (r₃, none) else (do
        type ← strncpy r₃.pbtype_len p₂
        let p₃ = drop r₃.pbtype_len p₂
        let r₄ = record r₃ { pbtype = some type }
        if too_short len (4 + r₄.pbtype_len + 4)
            then done (r₄, none)
            else if is_negative r₄.pbdata_len
            then done (r₄, none)
            else (do
              content ← memcpy r₄.pbdata_len p₃
              done (record r₄ { pbdata = some content }, some 0)))))

abbrev pub pb_class : Class PbType
pb_class = record {
  role = either;
  expected_type = body_pbtype;
  unpack_throws = false;
  size = pb_size;
  pack_body = pack_pb;
  unpack_body = unpack_pb;
}

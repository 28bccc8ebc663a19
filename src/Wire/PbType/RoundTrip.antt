-- ===== src/Wire/PbType/RoundTrip.antt =====
-- A protocol buffer message arrives.
use mathlib.Core.List.{append_assoc}
use message_bus_all_in_one_f.Common.{
  ℕ, ◌≤◌, ◌<◌, ◌^◌, ◌≡◌, true, false, some, List, ◌++◌, length, take, arith,
}
use message_bus_all_in_one_f.Memory.{done, too_short, at_pointer, htonl, store32}
use message_bus_all_in_one_f.Memory.Copy.{
  padded, strncpy-eq, strncpy-padded, drop-padded, memcpy-eq, memcpy-take,
}
use message_bus_all_in_one_f.Memory.Words.{net32, htonl-htonl}
use message_bus_all_in_one_f.Wire.Message.{Message}
use message_bus_all_in_one_f.Wire.Message.RoundTrip.{IsSendable, Survives, survives}
use message_bus_all_in_one_f.Wire.PbType.{
  PbType, not_negative, pb_size, pack_pb, unpack_pb, pb_class,
}

-- The lengths are not negative, and the buffers hold as many bytes.
pub record IsFilled (r : PbType) : Type 0 where
  pub type_len_fits : r.pbtype_len < 2 ^ 31
  pub data_len_fits : r.pbdata_len < 2 ^ 31
  pub type_full : r.pbtype_len ≤ length (at_pointer r.pbtype)
  pub data_full : r.pbdata_len ≤ length (at_pointer r.pbdata)

abbrev pub pb_received : PbType → PbType
pb_received r = record r {
  pbtype = some (padded r.pbtype_len (at_pointer r.pbtype));
  pbdata = some (take r.pbdata_len (at_pointer r.pbdata));
  needfree = true;
}

abbrev pb_bytes : PbType → List ℕ
pb_bytes r =
    store32 (htonl r.pbtype_len)
    ++ (store32 (htonl r.pbdata_len)
        ++ (padded r.pbtype_len (at_pointer r.pbtype) ++ take r.pbdata_len (at_pointer r.pbdata)))

pack_pb_lem : (r : PbType) → IsFilled r → pack_pb r 0 ≡ done (pb_bytes r)
unfolding pack_pb
pack_pb_lem r v = rw (
  not_negative r.pbtype_len v.type_len_fits,
  not_negative r.pbdata_len v.data_len_fits,
  strncpy-eq r.pbtype_len (at_pointer r.pbtype) v.type_full,
  memcpy-eq r.pbdata_len (at_pointer r.pbdata) v.data_full,
)

unpack_pb_lem :
    (r r₀ : PbType) (rest : List ℕ)
    → IsFilled r
    → unpack_pb r₀ (pb_bytes r ++ rest) 0 ≡ done (pb_received r, some 0)
unfolding unpack_pb
unpack_pb_lem r r₀ rest v =
    let type = padded r.pbtype_len (at_pointer r.pbtype) in
    let content = take r.pbdata_len (at_pointer r.pbdata) in
    rw (
      append_assoc type content rest,
      net32 r.pbtype_len (store32 (htonl r.pbdata_len) ++ (type ++ (content ++ rest))),
      net32 r.pbdata_len (type ++ (content ++ rest)),
      htonl-htonl r.pbtype_len (omega (arith, v.type_len_fits)),
      htonl-htonl r.pbdata_len (omega (arith, v.data_len_fits)),
      not_negative r.pbtype_len v.type_len_fits,
      strncpy-padded r.pbtype_len (at_pointer r.pbtype) (content ++ rest),
      drop-padded r.pbtype_len (at_pointer r.pbtype) (content ++ rest),
      not_negative r.pbdata_len v.data_len_fits,
      memcpy-take r.pbdata_len (at_pointer r.pbdata) rest v.data_full,
    )

-- A protocol buffer packet whose lengths are not negative and whose buffers are as long as the
-- lengths say, packed into enough room: the type name up to its NUL and exactly the counted bytes
-- of data arrive, in buffers that the object owns.
pub pb-Survives :
    (m m₀ : Message PbType) (len : ℕ) (rest : List ℕ)
    → IsSendable pb_class m.head
    → too_short len (pb_size m.body) ≡ false
    → IsFilled m.body
    → Survives pb_class m m₀ len rest (pb_received m.body)
pb-Survives m m₀ len rest v room filled =
    survives pb_class m m₀ len _ rest _ v room (pack_pb_lem m.body filled)
      (unpack_pb_lem m.body m₀.body rest filled)

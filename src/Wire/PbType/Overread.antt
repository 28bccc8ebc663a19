-- ===== src/Wire/PbType/Overread.antt =====
-- UnPackBody of a protocol buffer body reads past its end although it is given the length.
use message_bus_all_in_one_f.Common.{
  ℕ, ◌+◌, ◌≤◌, ◌<◌, ◌^◌, ◌%◌, ◌≡◌, List, length, drop, length-drop, arith,
}
use message_bus_all_in_one_f.Memory.{done, wild, load32, ntohl}
use message_bus_all_in_one_f.Memory.Inside.{load32_outside, enough}
use message_bus_all_in_one_f.Wire.PbType.{PbType, unpack_pb, not_negative}

-- The length of the data is read before it is known to be there: a body of 4 to 7 bytes whose type
-- length does not reach past its end makes the read leave the body, in spite of the true length.
pub unpack_pb_overread :
    (r : PbType) (p : List ℕ) (raw : ℕ)
    → load32 p ≡ done raw
    → 4 + ntohl raw ≤ length p
    → length p < 8
    → unpack_pb r p (length p) ≡ wild
unfolding unpack_pb
unpack_pb_overread r p raw e fits short = rw (
  enough (length p) 4 (omega arith),
  e,
  not_negative (ntohl raw) (omega arith),
  enough (length p) ((4 + ntohl raw) % 2 ^ 64) (omega arith),
  load32_outside (drop 4 p) (omega (arith, length-drop 4 p)),
)

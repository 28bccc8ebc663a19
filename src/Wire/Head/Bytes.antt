-- ===== src/Wire/Head/Bytes.antt =====
-- The bytes of a packet head, and that UnPackHead reads back what PackHead wrote.
use message_bus_all_in_one_f.Common.{
  ℕ, ◌+◌, ◌*◌, ◌/◌, ◌%◌, ◌<◌, ◌^◌, ◌≡◌, refl, none, some, List, [], ◌∷◌, ◌++◌, length, true, false,
  arith,
}
use message_bus_all_in_one_f.Memory.{
  done, store16, store32, load8, load16, load32, htons, htonl, ntohs, ntohl, too_short,
}
use message_bus_all_in_one_f.Wire.Head.{
  Head, head_size, pack_head, unpack_head, Role, role_accepts, unpack_role_head, InRange,
}

-- The bytes of a head on the wire: every number with its highest byte first.
abbrev pub be16 : ℕ → List ℕ
be16 x = x / 256 % 256 ∷ x % 256 ∷ []

abbrev pub be32 : ℕ → List ℕ
be32 x = x / 16777216 % 256 ∷ x / 65536 % 256 ∷ x / 256 % 256 ∷ x % 256 ∷ []

unfoldable pub head_bytes : Head → List ℕ
head_bytes h =
    h.magic
    ∷ (be16 h.version ++ (h.msg_type ∷ (be32 h.msg_id ++ (be32 h.body_type ++ be32 h.body_len))))

pub length-head_bytes : (h : Head) → length (head_bytes h) ≡ head_size
unfolding head_bytes
length-head_bytes h = refl

store16-htons : (x : ℕ) → store16 (htons x) ≡ be16 x
unfolding htons
store16-htons x = ground arith

store32-htonl : (x : ℕ) → store32 (htonl x) ≡ be32 x
unfolding htonl
store32-htonl x = ground arith

-- `pack_head` writes the fields in order, highest byte first, and reports 12 of the 16 bytes.
pub pack_head_lem :
    (h : Head) (len : ℕ)
    → too_short len head_size ≡ false
    → pack_head h len ≡ done (head_bytes h, 12)
unfolding pack_head head_bytes
pack_head_lem h len e = rw e (
    cc (
      store16-htons h.version,
      store32-htonl h.msg_id,
      store32-htonl h.body_type,
      store32-htonl h.body_len,
    ))

ntohs-be16 : (x : ℕ) → x < 2 ^ 16 → ntohs (x / 256 % 256 + x % 256 * 256) ≡ x
unfolding htons
ntohs-be16 x h = omega arith

ntohl-be32 :
    (x : ℕ)
    → x < 2 ^ 32
    → ntohl
        (x / 16777216 % 256 + x / 65536 % 256 * 256 + x / 256 % 256 * 65536 + x % 256 * 16777216)
      ≡ x
unfolding htonl
ntohl-be32 x h = omega arith

-- `unpack_head` reads those bytes back into any object, whatever follows them.
pub unpack_head-head_bytes :
    (h h₀ : Head) (rest : List ℕ)
    → InRange h
    → unpack_head h₀ (head_bytes h ++ rest) 0 ≡ done (h, some 12)
unfolding unpack_head head_bytes load8 load16 load32
unpack_head-head_bytes h h₀ rest v = cc (
  ntohs-be16 h.version v.version_fits,
  ntohl-be32 h.msg_id v.msg_id_fits,
  ntohl-be32 h.body_type v.body_type_fits,
  ntohl-be32 h.body_len v.body_len_fits,
)

pub unpack_role_head-head_bytes :
    (role : Role) (h h₀ : Head) (rest : List ℕ)
    → InRange h
    → role_accepts role h.msg_type ≡ true
    → unpack_role_head role h₀ (head_bytes h ++ rest) 0 ≡ done (h, some 12)
unfolding unpack_role_head
unpack_role_head-head_bytes role h h₀ rest v fits = rw (unpack_head-head_bytes h h₀ rest v, fits)

pub unpack_role_head_other :
    (role : Role) (h h₀ : Head) (rest : List ℕ)
    → InRange h
    → role_accepts role h.msg_type ≡ false
    → unpack_role_head role h₀ (head_bytes h ++ rest) 0 ≡ done (h, none)
unfolding unpack_role_head
unpack_role_head_other role h h₀ rest v other = rw (unpack_head-head_bytes h h₀ rest v, other)

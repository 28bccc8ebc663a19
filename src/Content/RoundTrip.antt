-- ===== src/Content/RoundTrip.antt =====
-- What the three readers find in a generated content.
use mathlib.Core.List.{append_assoc}
use message_bus_all_in_one_f.Common.{
  ℕ, ◌+◌, ◌%◌, ◌^◌, ◌≤◌, ◌<◌, ◌≡◌, refl, sym, ◌∙◌, some, List, [], ◌∷◌, ◌++◌, length, length-append,
  length-take, take, drop, take_prefix, drop_prefix, drop-drop, take_all, get_elem?_prefix, arith,
  ltb, false, le→ltb_false,
}
use message_bus_all_in_one_f.Memory.{done, wild, store32, htonl, memcpy, ◌>>=◌}
use message_bus_all_in_one_f.Memory.Inside.{memcpy_outside}
use message_bus_all_in_one_f.Memory.Copy.{memcpy-eq}
use message_bus_all_in_one_f.Memory.Words.{net32, htonl-htonl}
use message_bus_all_in_one_f.Content.{
  MsgBusParam, byte_at, get_msg_sender, get_msg_id, get_msg_param, generate_net_msg_content,
}

-- The part of a name that its one-byte length covers.
abbrev pub cut : List ℕ → List ℕ
cut name = take (length name % 256) name

pub length-cut : (name : List ℕ) → length (cut name) ≡ length name % 256
length-cut name = omega (arith, length-take (length name % 256) name)

abbrev pub content_bytes : List ℕ → List ℕ → ℕ → List ℕ → List ℕ
content_bytes msgid msgsender paramlen content =
    length msgsender % 256
    ∷ (cut msgsender ++ (length msgid % 256 ∷ (cut msgid ++ (store32 (htonl paramlen) ++ content))))

pub generate_lem :
    (msgid msgsender : List ℕ) (param : MsgBusParam)
    → param.paramlen ≤ length param.paramdata
    → generate_net_msg_content msgid param msgsender
      ≡ done (record {
        paramdata =
            content_bytes msgid msgsender param.paramlen (take param.paramlen param.paramdata);
        paramlen =
            (1 + length msgsender % 256 + 1 + length msgid % 256 + 4 + param.paramlen) % 2 ^ 32;
      })
unfolding generate_net_msg_content
generate_lem msgid msgsender param full = rw (
  memcpy-eq (length msgsender % 256) msgsender (omega arith),
  memcpy-eq (length msgid % 256) msgid (omega arith),
  memcpy-eq param.paramlen param.paramdata full,
)

-- A content with any two names, whose length bytes are right, and what follows the names.
module _ (s k : ℕ) (sender id rest : List ℕ) (hs : length sender ≡ s) (hk : length id ≡ k) where
  abbrev layout : List ℕ
  layout = s ∷ (sender ++ (k ∷ (id ++ rest)))

  layout_split : layout ≡ ((s ∷ sender) ++ (k ∷ id)) ++ rest
  layout_split = sym (append_assoc (s ∷ sender) (k ∷ id) rest)

  length-layout : length layout ≡ 1 + s + 1 + k + length rest
  length-layout =
      omega (arith, length-append sender (k ∷ (id ++ rest)), length-append id rest, hs, hk)

  room : (n : ℕ) → n ≤ 1 + s + 1 + k + length rest → ltb (length layout) n ≡ false
  room n h = le→ltb_false (length layout) n (omega (arith, length-layout))

  sender_of : get_msg_sender layout ≡ some sender
  unfolding get_msg_sender
  sender_of =
      rw (
        room 1 (omega arith),
        room (1 + s) (omega arith),
        take_prefix s sender (k ∷ (id ++ rest)) hs,
      )

  key_at : byte_at layout (1 + s) ≡ k
  key_at = rw (get_elem?_prefix (1 + s) (s ∷ sender) (id ++ rest) k (omega (arith, hs)), byte_at)

  after_names : drop (1 + s + 1 + k) layout ≡ rest
  after_names = rw layout_split (
      drop_prefix (1 + s + 1 + k) ((s ∷ sender) ++ (k ∷ id)) rest
        (omega (arith, length-append (s ∷ sender) (k ∷ id), hs, hk)))

  after_key : drop (1 + s + 1) layout ≡ id ++ rest
  after_key = rw (sym (append_assoc (s ∷ sender) (k ∷ []) (id ++ rest))) (
      drop_prefix (1 + s + 1) ((s ∷ sender) ++ (k ∷ [])) (id ++ rest)
        (omega (arith, length-append (s ∷ sender) (k ∷ []), hs)))

  id_of : get_msg_id layout ≡ some id
  unfolding get_msg_id
  id_of = rw (
    room 1 (omega arith),
    room (1 + s + 1) (omega arith),
    key_at,
    room (1 + s + 1 + k) (omega arith),
    after_key,
    take_prefix k id rest hk,
  )

-- The same with a parameter length `n` behind the names.
module _ (s k n : ℕ) (sender id tail : List ℕ) (hs : length sender ≡ s) (hk : length id ≡ k) where
  abbrev with_param : List ℕ
  with_param = layout s k sender id (store32 (htonl n) ++ tail) hs hk

  after_param_len : drop (1 + s + 1 + k + 4) with_param ≡ tail
  after_param_len =
      sym (drop-drop 4 (1 + s + 1 + k) with_param)
      ∙ rw (after_names s k sender id (store32 (htonl n) ++ tail) hs hk)

  room_param : (m : ℕ) → m ≤ 1 + s + 1 + k + 4 + length tail → ltb (length with_param) m ≡ false
  room_param m h = room s k sender id (store32 (htonl n) ++ tail) hs hk m (omega arith)

  param_step :
      n < 2 ^ 32
      → (1 + s + 1 + k + 4 + n) % 2 ^ 32 ≤ 1 + s + 1 + k + 4 + length tail
      → get_msg_param with_param ≡ (memcpy n tail >>= λ param. done (some param))
  unfolding get_msg_param
  param_step hn fits = rw (
    room_param 1 (omega arith),
    room_param (1 + s + 1) (omega arith),
    key_at s k sender id (store32 (htonl n) ++ tail) hs hk,
    room_param (1 + s + 1 + k + 4) (omega arith),
    after_names s k sender id (store32 (htonl n) ++ tail) hs hk,
    net32 n tail,
    htonl-htonl n hn,
    room_param ((1 + s + 1 + k + 4 + n) % 2 ^ 32) fits,
    after_param_len,
  )

-- Of any two names, any parameter and its length, the generated content reads back: the sender and
-- the id are cut to their length modulo 256, and the parameter is whole, as long as the content is
-- shorter than 2 ^ 32 bytes; it is at most 516 bytes longer than the parameter.
pub generate-readers :
    (msgid msgsender : List ℕ) (param : MsgBusParam)
    → param.paramlen ≤ length param.paramdata
    → 1 + 255 + 1 + 255 + 4 + param.paramlen < 2 ^ 32
    → (content : MsgBusParam) × (generate_net_msg_content msgid param msgsender ≡ done content)
      × (content.paramlen ≡ length content.paramdata)
      × (get_msg_sender content.paramdata ≡ some (cut msgsender))
      × (get_msg_id content.paramdata ≡ some (cut msgid))
      × (get_msg_param content.paramdata ≡ done (some (take param.paramlen param.paramdata)))
      × (content.paramlen ≤ 1 + 255 + 1 + 255 + 4 + param.paramlen)
generate-readers msgid msgsender param full small =
    let s = length msgsender % 256 in
    let k = length msgid % 256 in
    let n = param.paramlen in
    let tail = take n param.paramdata in
    let rest = store32 (htonl n) ++ tail in
    let ls : length (cut msgsender) ≡ s = length-cut msgsender in
    let lk : length (cut msgid) ≡ k = length-cut msgid in
    let lt : length tail ≡ n = omega (arith, length-take n param.paramdata) in
    (
      _,
      generate_lem msgid msgsender param full,
      omega (arith, length-layout s k (cut msgsender) (cut msgid) rest ls lk),
      sender_of s k (cut msgsender) (cut msgid) rest ls lk,
      id_of s k (cut msgsender) (cut msgid) rest ls lk,
      param_step s k n (cut msgsender) (cut msgid) tail ls lk (omega arith) (omega arith)
          ∙ rw (memcpy-eq n tail (omega arith), take_all tail n (omega arith)),
      omega arith,
    )

-- A length that brings the 32-bit sum of the bounds check past 2 ^ 32 gets through it, and the
-- parameter is copied from beyond the end of the content, whatever the names are.
pub get_msg_param_wraps :
    (n : ℕ) (sender id tail : List ℕ)
    → n < 2 ^ 32
    → 2 ^ 32 ≤ 1 + length sender + 1 + length id + 4 + n
    → length sender < 256
    → length id < 256
    → length tail < n
    → get_msg_param (length sender ∷ (sender ++ (length id ∷ (id ++ (store32 (htonl n) ++ tail)))))
      ≡ wild
get_msg_param_wraps n sender id tail hn wraps hs hk short =
    param_step (length sender) (length id) n sender id tail refl refl hn (omega arith)
    ∙ rw (memcpy_outside n tail short)

-- ===== src/Server/Framing/Stream.antt =====
-- server_onRead of Core/msgbus_server.cpp takes a byte stream apart as the senders put it together.
use message_bus_all_in_one_f.Common.{
  ℕ, zero, suc, ◌+◌, ◌≤◌, ◌<◌, ◌≡◌, refl, ap, ◌∙◌, false, true, List, [], ◌∷◌, ◌++◌, length,
  length-append, drop, drop-append, ltb, ◌==◌, arith, All, ◌⊎◌, inl, inr, le→ltb_false, lt→ltb,
}
use message_bus_all_in_one_f.Memory.{done, ◌>>=◌, memcpy}
use message_bus_all_in_one_f.Memory.Copy.{memcpy-append}
use message_bus_all_in_one_f.Wire.Head.{Head, head_size, InRange, new_head}
use message_bus_all_in_one_f.Wire.Head.Bytes.{head_bytes, length-head_bytes, unpack_head-head_bytes}
use message_bus_all_in_one_f.Server.Framing.{add_frame, read_loop, server_on_read}

-- A message as a sender makes it: a head that says how long the body is, and the body.
pub record IsFrame (f : Head × List ℕ) : Type 0 where
  pub head_fits : InRange f.0
  pub says_length : f.0.body_len ≡ length f.1
  pub has_body : 0 < length f.1

-- The bytes of messages one after the other, and what follows.
abbrev pub stream : List (Head × List ℕ) → List ℕ → List ℕ
stream [] tail = tail
stream ((head, body) ∷ frames) tail = head_bytes head ++ (body ++ stream frames tail)

-- How many bytes the messages take.
abbrev pub stream_size : List (Head × List ℕ) → ℕ
stream_size [] = 0
stream_size ((head, body) ∷ frames) = (head_size + head.body_len) + stream_size frames

-- The beginning of a message that has not come in as a whole.
abbrev pub IsPartial : List ℕ → Type 0
IsPartial tail =
    (length tail < head_size)
    ⊎ ((head : Head) × (rest : List ℕ) × (tail ≡ head_bytes head ++ rest)
        × InRange head
        × (length rest < head.body_len))

read_loop_frame :
    (fuel : ℕ) (head : Head) (body rest : List ℕ)
    → IsFrame (head, body)
    → read_loop (suc fuel) (head_bytes head ++ (body ++ rest))
      ≡ (read_loop fuel rest >>= λ r. done (add_frame head body (head_size + head.body_len) r))
unfolding read_loop
read_loop_frame fuel head body rest f =
    rw
      (
        enough_head,
        unpack_head-head_bytes head (new_head 0 0) (body ++ rest) f.head_fits,
        enough_body,
        body_there,
      )
      (rw (drop_head, copies, drop_body) refl)
  where
    all : List ℕ
    all = head_bytes head ++ (body ++ rest)

    length-all : length all ≡ head_size + (length body + length rest)
    length-all =
        length-append (head_bytes head) (body ++ rest)
        ∙ rw (length-head_bytes head, length-append body rest)

    enough_head : ltb (length all) head_size ≡ false
    enough_head = le→ltb_false (length all) head_size (omega (arith, length-all))

    enough_body : ltb (length all) (head_size + head.body_len) ≡ false
    enough_body =
        le→ltb_false (length all) (head_size + head.body_len)
          (omega (arith, length-all, f.says_length))

    body_there : (head.body_len == 0) ≡ false
    body_there = ground (arith, f.says_length, f.has_body)

    drop_head : drop head_size all ≡ body ++ rest
    drop_head = let e = drop-append (head_bytes head) (body ++ rest) in rw length-head_bytes at e

    copies : memcpy head.body_len (body ++ rest) ≡ done body
    copies = rw f.says_length (memcpy-append body rest)

    drop_body : drop head.body_len (body ++ rest) ≡ rest
    drop_body = rw f.says_length (drop-append body rest)

read_loop_part_body :
    (fuel : ℕ) (head : Head) (rest : List ℕ)
    → InRange head
    → length rest < head.body_len
    → read_loop (suc fuel) (head_bytes head ++ rest) ≡ done ([], 0)
unfolding read_loop
read_loop_part_body fuel head rest fits short =
    rw (enough_head, unpack_head-head_bytes head (new_head 0 0) rest fits, lacks_body) refl
  where
    length-all : length (head_bytes head ++ rest) ≡ head_size + length rest
    length-all = length-append (head_bytes head) rest ∙ rw (length-head_bytes head)

    enough_head : ltb (length (head_bytes head ++ rest)) head_size ≡ false
    enough_head =
        le→ltb_false (length (head_bytes head ++ rest)) head_size (omega (arith, length-all))

    lacks_body : ltb (length (head_bytes head ++ rest)) (head_size + head.body_len) ≡ true
    lacks_body =
        lt→ltb (length (head_bytes head ++ rest)) (head_size + head.body_len)
          (omega (arith, length-all))

read_loop_partial :
    (fuel : ℕ) (tail : List ℕ) → IsPartial tail → read_loop (suc fuel) tail ≡ done ([], 0)
unfolding read_loop
read_loop_partial fuel tail (inl short) = rw (lt→ltb (length tail) head_size short) refl
read_loop_partial fuel tail (inr (head, rest, e, fits, short)) =
    ap (read_loop (suc fuel)) e ∙ read_loop_part_body fuel head rest fits short

read_loop-stream :
    (fuel : ℕ) (frames : List (Head × List ℕ)) (tail : List ℕ)
    → length frames < fuel
    → All IsFrame frames
    → IsPartial tail
    → read_loop fuel (stream frames tail) ≡ done (frames, stream_size frames)
read_loop-stream zero frames tail h good partial = absurd (omega arith)
read_loop-stream (suc fuel) [] tail h good partial = read_loop_partial fuel tail partial
read_loop-stream (suc fuel) ((head, body) ∷ frames) tail h good partial =
    read_loop_frame fuel head body (stream frames tail) good.0
    ∙ rw (read_loop-stream fuel frames tail (omega arith) good.1 partial) refl

length-stream :
    (frames : List (Head × List ℕ)) (tail : List ℕ) → length frames ≤ length (stream frames tail)
length-stream [] tail = omega arith
length-stream ((head, body) ∷ frames) tail = omega (
  arith,
  length-append (head_bytes head) (body ++ stream frames tail),
  length-head_bytes head,
  length-append body (stream frames tail),
  length-stream frames tail,
)

-- Whole messages, each with a body and a head that says how long it is, and then the beginning of
-- one at most: the messages are handed on in their order, with the bytes that each came with, and
-- exactly their bytes are used up.
pub server_on_read_lem :
    (frames : List (Head × List ℕ)) (tail : List ℕ)
    → All IsFrame frames
    → IsPartial tail
    → server_on_read (stream frames tail) ≡ done (frames, stream_size frames)
unfolding server_on_read
server_on_read_lem frames tail good partial =
    read_loop-stream (suc (length (stream frames tail))) frames tail
      (omega (arith, length-stream frames tail)) good partial

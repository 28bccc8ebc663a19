-- ===== src/Server/Framing.antt =====
-- server_onRead of Core/msgbus_server.cpp: the bytes that have come in are cut into messages.
pub mod Stream
use message_bus_all_in_one_f.Common.{
  ℕ, zero, suc, ◌+◌, ◌-◌, ◌≤◌, ◌<◌, ◌≡◌, refl, false, true, none, some, List, [], ◌∷◌, ◌++◌, length,
  length-append, length-drop, take, drop, ltb, ◌==◌, if◌then◌else◌, arith,
}
use message_bus_all_in_one_f.Memory.{Outcome, done, aborted, ◌>>=◌, memcpy}
use message_bus_all_in_one_f.Wire.Head.{Head, head_size, unpack_head, InRange, new_head}
use message_bus_all_in_one_f.Wire.Head.Bytes.{head_bytes}

-- The work that is queued for the pool, in order, and the number of bytes used up.
abbrev pub Frames : Type 0
Frames = List (Head × List ℕ) × ℕ

abbrev pub add_frame : Head → List ℕ → ℕ → Frames → Frames
add_frame head body needlen (frames, readedlen) = ((head, body) ∷ frames, needlen + readedlen)

-- The loop, for at most `fuel` rounds.
unfoldable pub read_loop : ℕ → List ℕ → Outcome Frames
read_loop zero pdata = done ([], 0)
read_loop (suc fuel) pdata =
    let next = λ (head : Head) (body : List ℕ).
      (read_loop fuel (drop head.body_len (drop head_size pdata)) >>= λ r.
      done (add_frame head body (head_size + head.body_len) r)) in
    if ltb (length pdata) head_size then done ([], 0) else (do
      (head, result) ← unpack_head (new_head 0 0) pdata 0
      elim result [
        | none ↦ done ([], 0)
        | some offset ↦
            if ltb (length pdata) (head_size + head.body_len)
            then done ([], 0)
            else if head.body_len == 0
            then aborted
            else (do body ← memcpy head.body_len (drop head_size pdata); next head body)
      ])

-- Every round takes 16 bytes at least, so a round for each byte is enough.
unfoldable pub server_on_read : List ℕ → Outcome Frames
unfolding read_loop
server_on_read pdata = read_loop (suc (length pdata)) pdata

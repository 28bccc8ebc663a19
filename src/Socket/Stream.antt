-- ===== src/Socket/Stream.antt =====
-- The reading loop of HandleEvent against a reader of a stream.
use mathlib.Core.List.{append-nil, append_assoc}
use message_bus_all_in_one_f.Memory.Yields.{false-true}
use message_bus_all_in_one_f.Common.{
  ℕ, ◌+◌, ◌≤◌, Bool, true, false, ◌≡◌, refl, sym, subst, ◌∙◌, Bool-cases, inl, inr, List, [], ◌∷◌,
  ◌++◌, length, take, length-take, arith, ◌==◌, if◌then◌else◌,
}
use message_bus_all_in_one_f.Memory.{done}
use message_bus_all_in_one_f.FastBuffer.{FastBuffer}
use message_bus_all_in_one_f.FastBuffer.Room.{IsValid, content, Keeps}
use message_bus_all_in_one_f.Socket.State.{readable, Called, EventResult, Thread, World}
use message_bus_all_in_one_f.Socket.Read.{
  ReadResult, gets, ends, no_more, interrupted, fails, next_blocksize, read_loop,
}
use message_bus_all_in_one_f.Socket.Flow.{Valid}
use message_bus_all_in_one_f.Socket.Incoming.{left_of, shown, got_lem, make_room_lem}

-- The chunks that a loop's reads store: at most a block each, with the answers of onRead.
unfoldable pub chunks : ℕ → List ReadResult → List (List ℕ × ℕ)
chunks blocksize [] = []
chunks blocksize (no_more ∷ rs) = []
chunks blocksize (interrupted ∷ rs) = chunks blocksize rs
chunks blocksize (fails e ∷ rs) = []
chunks blocksize (ends ∷ rs) = []
chunks blocksize (gets bytes n ∷ rs) =
    let chunk = take blocksize bytes in
    let rest = chunks (next_blocksize blocksize (length chunk)) rs in
    if length chunk == 0 then [] else ((chunk, n) ∷ rest)

-- Whether the reads stop for want of bytes, and neither at the end of the stream nor at an error.
unfoldable pub runs_dry : ℕ → List ReadResult → Bool
runs_dry blocksize [] = true
runs_dry blocksize (no_more ∷ rs) = true
runs_dry blocksize (interrupted ∷ rs) = runs_dry blocksize rs
runs_dry blocksize (fails e ∷ rs) = false
runs_dry blocksize (ends ∷ rs) = false
runs_dry blocksize (gets bytes n ∷ rs) =
    let chunk = take blocksize bytes in
    let rest = runs_dry (next_blocksize blocksize (length chunk)) rs in
    if length chunk == 0 then false else rest

-- A reader of a stream: each chunk goes behind what is left, the whole is shown, and what was used
-- goes from the front.
unfoldable pub left_after : Bool → List ℕ → List (List ℕ × ℕ) → List ℕ
left_after b q [] = q
left_after b q ((chunk, n) ∷ cs) = left_after b (left_of b n (q ++ chunk)) cs

unfoldable pub shown_by : Bool → List ℕ → List (List ℕ × ℕ) → List Called
shown_by b q [] = []
shown_by b q ((chunk, n) ∷ cs) =
    (if b then readable (q ++ chunk) ∷ [] else []) ++ shown_by b (left_of b n (q ++ chunk)) cs

-- What reading does not touch.
pub record Untouched : Type 0 where
  pub outbuf : FastBuffer
  pub evloop : Bool
  pub sockev : EventResult
  pub writeable : Bool

abbrev pub untouched : World → Untouched
untouched w = record {
  outbuf = w.sock.outbuf;
  evloop = w.sock.evloop;
  sockev = w.sock.sockev;
  writeable = w.sock.writeable;
}

-- What the loop leaves when it runs dry, begun with `q` unread and `calls` made; it writes
-- nothing.
pub record Reads (b : Bool) (q : List ℕ) (cs : List (List ℕ × ℕ)) (calls : List Called)
    (wire : List ℕ) (s : Untouched) (w' : World) : Type 0 where
  pub valid : Valid w'
  pub left : content w'.sock.inbuf ≡ left_after b q cs
  pub called : w'.calls ≡ calls ++ shown_by b q cs
  pub same_wire : w'.wire ≡ wire
  pub same_rest : untouched w' ≡ s

-- The room for the next block.
roomy : (w : World) (b : FastBuffer) → World
roomy w b = record w { sock = record w.sock { inbuf = b } }

roomy-Valid : (w : World) (b : FastBuffer) → Valid w → IsValid b → Valid (roomy w b)
unfolding roomy
roomy-Valid w b v bv = record { in_valid = bv; out_valid = v.out_valid; release = v.release }

read_nothing :
    (on : Bool) (w : World) (b : FastBuffer)
    → Valid w
    → Keeps w.sock.inbuf b
    → Reads on (content w.sock.inbuf) [] w.calls w.wire (untouched w) (roomy w b)
unfolding roomy left_after shown_by
read_nothing on w b v k = record {
  valid = roomy-Valid w b v k.valid;
  left = k.same;
  called = sym (append-nil w.calls);
  same_wire = refl;
  same_rest = refl;
}

read_one :
    (b : Bool) (q chunk : List ℕ) (n : ℕ) (cs : List (List ℕ × ℕ)) (calls : List Called)
    (wire : List ℕ) (s : Untouched) (w' : World)
    → Reads b
        (left_of b n (q ++ chunk))
        cs
        (calls ++ (if b then readable (q ++ chunk) ∷ [] else []))
        wire
        s
        w'
    → Reads b q ((chunk, n) ∷ cs) calls wire s w'
unfolding left_after shown_by
read_one b q chunk n cs calls wire s w' r = record {
  valid = r.valid;
  left = r.left;
  called = r.called ∙ append_assoc calls _ _;
  same_wire = r.same_wire;
  same_rest = r.same_rest;
}

chunk_room : (n m k : ℕ) (xs : List ℕ) → m + n ≤ k → m + length (take n xs) ≤ k
chunk_room n m k xs h = omega (arith, length-take n xs)

-- In a release build, with valid buffers, and where the reads stop for want of bytes and neither at the
-- end of the stream nor at an error: the reading loop answers true and is the reader of a stream. It
-- calls onRead, where it is set, with what was left and each block that comes in, one after the
-- other, and leaves what the calls did not use; it writes nothing, and leaves the output buffer as it
-- was.
pub read_loop_lem :
    (t : Thread) (rs : List ReadResult) (w : World)
    → Valid w
    → runs_dry w.sock.tmp_blocksize rs ≡ true
    → (w' : World) × (read_loop t rs w ≡ done (w', true))
      × Reads w.sock.sockcb.on_read
          (content w.sock.inbuf)
          (chunks w.sock.tmp_blocksize rs)
          w.calls
          w.wire
          (untouched w)
          w'
unfolding read_loop chunks runs_dry roomy
read_loop_lem t [] w v h =
    let (b, e, k, room) = make_room_lem w v in
    (roomy w b, rw e refl, read_nothing w.sock.sockcb.on_read w b v k)
read_loop_lem t (no_more ∷ rs) w v h =
    let (b, e, k, room) = make_room_lem w v in
    (roomy w b, rw e refl, read_nothing w.sock.sockcb.on_read w b v k)
read_loop_lem t (interrupted ∷ rs) w v h =
    let (b, e, k, room) = make_room_lem w v in
    let (w', e', r) = read_loop_lem t rs (roomy w b) (roomy-Valid w b v k.valid) h in
    (
      w',
      rw e e',
      subst
          (λ q.
            Reads w.sock.sockcb.on_read q (chunks w.sock.tmp_blocksize rs) w.calls w.wire
              (untouched w) w')
          k.same r,
    )
read_loop_lem t (fails e ∷ rs) w v h = absurd cc
read_loop_lem t (ends ∷ rs) w v h = absurd cc
read_loop_lem t (gets bytes n ∷ rs) w v h =
    elim (Bool-cases (length (take w.sock.tmp_blocksize bytes) == 0)) [
      | inl none_read ↦ absurd (false-true (rw none_read at h))
      | inr some_read ↦
          let on = w.sock.sockcb.on_read in
          let chunk = take w.sock.tmp_blocksize bytes in
          let cs = chunks (next_blocksize w.sock.tmp_blocksize (length chunk)) rs in
          let (b, e, k, room) = make_room_lem w v in
          let w₁ = roomy w b in
          let v₁ = roomy-Valid w b v k.valid in
          let (b₂, e₂, bv, c₂) =
            got_lem chunk n w₁ v₁ (chunk_room w.sock.tmp_blocksize b.writestart _ bytes room) in
          let w₂ = shown (content b ++ chunk) (length chunk) b₂ w₁ in
          let v₂ : Valid w₂ = record {
            in_valid = bv;
            out_valid = v.out_valid;
            release = v.release;
          } in
          let (w', e', r) = read_loop_lem t rs w₂ v₂ (rw some_read at h) in
          let r₁ = subst (λ q. Reads on q cs w₂.calls w.wire (untouched w) w') c₂ r in
          (
            w',
            rw (e, some_read, e₂) e',
            rw some_read (
                subst (λ q. Reads on q ((chunk, n) ∷ cs) w.calls w.wire (untouched w) w') k.same
                  (read_one on (content b) chunk n cs w.calls w.wire (untouched w) w' r₁)),
          )
    ]

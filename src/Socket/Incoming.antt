-- ===== src/Socket/Incoming.antt =====
-- The receiving side: what `read` stores is shown to onRead behind what it left, in order.
use message_bus_all_in_one_f.Common.{
  ℕ, zero, suc, ◌+◌, ◌≤◌, Bool, ◌≡◌, refl, sym, ap, ◌∙◌, Bool-cases, inl, inr, List, ◌++◌, length,
  take, drop, drop_all, length-take, length-append, length-drop, arith, ltb, lt→ltb, if◌then◌else◌,
}
use message_bus_all_in_one_f.Memory.{done}
use message_bus_all_in_one_f.FastBuffer.{FastBuffer, size, push_back_withoutdata, clear}
use message_bus_all_in_one_f.FastBuffer.Window.{window-append}
use message_bus_all_in_one_f.FastBuffer.Room.{
  IsValid, content, Keeps, ensurewritable_lem, length-content, le→leb,
}
use message_bus_all_in_one_f.FastBuffer.Refines.{pop_front_lem}
use message_bus_all_in_one_f.Socket.State.{readable, World, call_if}
use message_bus_all_in_one_f.Socket.Read.{read_into, consume, next_blocksize, got, make_room}
use message_bus_all_in_one_f.Socket.Flow.{Valid}

-- What `read` stores in room that was made for it is behind the bytes that are there.
pub read_lem :
    (b : FastBuffer) (chunk : List ℕ)
    → IsValid b
    → b.writestart + length chunk ≤ length b.innerdata
    → (b₁ : FastBuffer) × (b₂ : FastBuffer) × (read_into chunk b ≡ done b₁)
      × (push_back_withoutdata b₁ (length chunk) ≡ done b₂)
      × IsValid b₂
      × (content b₂ ≡ content b ++ chunk)
unfolding read_into push_back_withoutdata
read_lem b chunk v room =
    let front = take b.writestart b.innerdata in
    let rest = drop (b.writestart + length chunk) b.innerdata in
    let inner = front ++ (chunk ++ rest) in
    let same_length : length inner ≡ length b.innerdata = omega (
      arith,
      length-append front (chunk ++ rest),
      length-append chunk rest,
      length-take b.writestart b.innerdata,
      length-drop (b.writestart + length chunk) b.innerdata,
    ) in
    (
      record b { innerdata = inner },
      record b { innerdata = inner; writestart = b.writestart + length chunk },
      rw (le→leb (b.writestart + length chunk) (length b.innerdata) room) refl,
      rw (le→leb (length chunk + b.writestart) (length inner) (omega (arith, same_length))) refl,
      record {
        read_le_write = omega (arith, v.read_le_write);
        write_le_size = omega (arith, same_length);
      },
      window-append b.readstart b.writestart b.innerdata chunk rest v.read_le_write v.write_le_size,
    )

-- What onRead used goes from the front, and everything where it says more than there is.
pub consume_lem :
    (n : ℕ) (b : FastBuffer)
    → IsValid b
    → (b' : FastBuffer) × (consume n b ≡ done b') × IsValid b' × (content b' ≡ drop n (content b))
unfolding consume clear
consume_lem zero b v = (b, refl, v, refl)
consume_lem (suc n) b v = elim (Bool-cases (ltb (size b) (suc n))) [
  | inl over ↦ (
    clear b,
    rw (lt→ltb 0 (suc n) (omega arith), over) refl,
    omega arith,
    sym (drop_all (suc n) (content b) (ground (arith, length-content b v))),
  )
  | inr fits ↦
      let (b', e, v', c) = pop_front_lem b (suc n) v (ground (arith, length-content b v)) in
      (b', rw (lt→ltb 0 (suc n) (omega arith), fits) e, v', c)
]

-- Room for one block more.
pub make_room_lem :
    (w : World)
    → Valid w
    → (b : FastBuffer) × (make_room w ≡ done (record w { sock = record w.sock { inbuf = b } }))
      × Keeps w.sock.inbuf b
      × (b.writestart + w.sock.tmp_blocksize ≤ length b.innerdata)
unfolding make_room
make_room_lem w v =
    let (b, e, k, room) = ensurewritable_lem w.sock.inbuf w.sock.tmp_blocksize v.in_valid in
    (b, rw e refl, k, room)

-- What is left of `xs` after onRead, which takes everything where it is not set.
abbrev pub left_of : Bool → ℕ → List ℕ → List ℕ
left_of b n xs = drop (if b then n else length xs) xs

-- A socket that has shown `xs` and has `b` left.
abbrev pub shown : List ℕ → ℕ → FastBuffer → World → World
shown xs readed b w = record (call_if w.sock.sockcb.on_read (readable xs) w) {
  sock = record w.sock { inbuf = b; tmp_blocksize = next_blocksize w.sock.tmp_blocksize readed };
}

pub got_lem :
    (chunk : List ℕ) (n : ℕ) (w : World)
    → Valid w
    → w.sock.inbuf.writestart + length chunk ≤ length w.sock.inbuf.innerdata
    → (b : FastBuffer) × (got chunk n w
        ≡ done (shown (content w.sock.inbuf ++ chunk) (length chunk) b w))
      × IsValid b
      × (content b ≡ left_of w.sock.sockcb.on_read n (content w.sock.inbuf ++ chunk))
unfolding got
got_lem chunk n w v room =
    let (b₁, b₂, e₁, e₂, v₂, c₂) = read_lem w.sock.inbuf chunk v.in_valid room in
    let k = if w.sock.sockcb.on_read then n else size b₂ in
    let (b₃, e₃, v₃, c₃) = consume_lem k b₂ v₂ in
    (
      b₃,
      rw (e₁, e₂, e₃, c₂) refl,
      v₃,
      c₃
          ∙ (ap (drop k) c₂
              ∙ ap
                  (λ m.
                    drop (if w.sock.sockcb.on_read then n else m) (content w.sock.inbuf ++ chunk))
                  (sym (length-content b₂ v₂) ∙ ap length c₂)),
    )

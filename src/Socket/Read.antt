-- ===== src/Socket/Read.antt =====
-- HandleEvent of Core/TcpSock.cpp: reading until the system has no more, with onRead taking what it
-- can use from the front, then writing, then the exceptions.
use message_bus_all_in_one_f.Common.{
  ℕ, ◌*◌, Bool, true, false, not, ◌&&◌, ◌||◌, List, [], ◌∷◌, length, take, ltb, ◌==◌, if◌then◌else◌,
}
use message_bus_all_in_one_f.Memory.{Outcome, done, wild, ◌>>=◌}
use message_bus_all_in_one_f.FastBuffer.{
  FastBuffer, size, ensurewritable, copy_to, push_back_withoutdata, pop_front, clear,
}
use message_bus_all_in_one_f.FastBuffer.Room.{content}
use message_bus_all_in_one_f.Socket.State.{
  is_closed, Thread, in_loop, in_write_loop, closed, readable, failed, World, call_if,
}
use message_bus_all_in_one_f.Socket.Update.{assert_that, close}
use message_bus_all_in_one_f.Socket.Send.{WriteResult, do_send}

-- One answer of `read`: bytes, of which it stores as many as are asked for, with what onRead answers
-- then; the end of the stream; EAGAIN; EINTR; or another errno. An empty list is EAGAIN from here on.
pub data ReadResult : Type 0 where
  gets : List ℕ → ℕ → ReadResult
  ends : ReadResult
  no_more : ReadResult
  interrupted : ReadResult
  fails : ℕ → ReadResult

-- `read` at writablebegin.
unfoldable pub read_into : List ℕ → FastBuffer → Outcome FastBuffer
read_into bytes b = do
  inner ← copy_to b.innerdata b.writestart bytes
  done (record b { innerdata = inner })

-- What onRead says it used goes; more than there is empties the buffer.
unfoldable pub consume : ℕ → FastBuffer → Outcome FastBuffer
consume n b = if ltb 0 n then (if ltb (size b) n then done (clear b) else pop_front b n) else done b

-- The block is doubled when a read fills it.
unfoldable pub next_blocksize : ℕ → ℕ → ℕ
next_blocksize blocksize readed = if readed == blocksize then blocksize * 2 else blocksize

-- A `read` of the bytes `chunk`, at least one, into a buffer with room for them.
unfoldable pub got : List ℕ → ℕ → World → Outcome World
got chunk n w = do
  b₁ ← read_into chunk w.sock.inbuf
  b₂ ← push_back_withoutdata b₁ (length chunk)
  b₃ ← consume (if w.sock.sockcb.on_read then n else size b₂) b₂
  done (record (call_if w.sock.sockcb.on_read (readable (content b₂)) w) {
    sock = record w.sock {
      inbuf = b₃;
      tmp_blocksize = next_blocksize w.sock.tmp_blocksize (length chunk);
    };
  })

unfoldable pub end_read : Thread → World → Outcome World
end_read t w = close t true (call_if w.sock.sockcb.on_close closed w)

unfoldable pub fail_read : Thread → ℕ → World → Outcome World
fail_read t e w =
    close t true
      (call_if w.sock.sockcb.on_error failed (record w { sock = record w.sock { last_errno = e } }))

-- `ensurewritable(m_tmp_blocksize)`
unfoldable pub make_room : World → Outcome World
make_room w = do
  b ← ensurewritable w.sock.inbuf w.sock.tmp_blocksize
  done (record w { sock = record w.sock { inbuf = b } })

-- The reading loop, with whether HandleEvent goes on after it.
unfoldable pub read_loop : Thread → List ReadResult → World → Outcome (World × Bool)
read_loop t [] w = do w₁ ← make_room w; done (w₁, true)
read_loop t (no_more ∷ rs) w = do w₁ ← make_room w; done (w₁, true)
read_loop t (interrupted ∷ rs) w =
    let next = λ (w₁ : World). read_loop t rs w₁ in make_room w >>= next
read_loop t (fails e ∷ rs) w = do w₁ ← make_room w; w₂ ← fail_read t e w₁; done (w₂, false)
read_loop t (ends ∷ rs) w = do w₁ ← make_room w; w₂ ← end_read t w₁; done (w₂, false)
read_loop t (gets bytes n ∷ rs) w =
    let next = λ (w₁ : World). read_loop t rs w₁ in
    let chunk = take w.sock.tmp_blocksize bytes in
    do
      w₁ ← make_room w
      if length chunk == 0
          then (end_read t w₁ >>= λ w₂. done (w₂, false))
          else got chunk n w₁ >>= next

-- The three parts of HandleEvent, each with whether the next is reached.
unfoldable pub handle_read : Thread → List ReadResult → World → Outcome (World × Bool)
handle_read t reads w =
    if w.sock.sockev.read
    then (if w.sock.evloop && not (in_loop t) then done (w, false) else read_loop t reads w)
    else done (w, true)

unfoldable pub handle_write : Thread → List WriteResult → World → Outcome (World × Bool)
handle_write t writes w =
    if w.sock.sockev.write && w.sock.writeable
    then (if w.sock.evloop && not (in_write_loop t) then done (w, false) else do_send t writes w)
    else done (w, true)

unfoldable pub handle_exception : Thread → ℕ → World → Outcome World
handle_exception t e w =
    if w.sock.sockev.exception && not (w.sock.evloop && not (in_loop t))
    then fail_read t e w
    else done w

-- HandleEvent; `e` is the errno in place at an exception.
unfoldable pub handle_event :
    Thread → List ReadResult → List WriteResult → ℕ → World → Outcome World
handle_event t reads writes e w = if is_closed w.sock then done w else do
  w₀ ←
      (if w.sock.evloop
        then assert_that (in_loop t || in_write_loop t) w
        else if w.debug
        then wild
        else done w)
  (w₁, reads_on) ← handle_read t reads w₀
  if reads_on
      then (handle_write t writes w₁ >>= λ r. if r.1 then handle_exception t e r.0 else done r.0)
      else done w₁
